-- ===== src/Billing/Recorded.antt =====
-- The rows that `billingSettlementReplay` of apps/longhub-cloud-api/src/memory-store.ts reads, and
-- what a settlement does to them.
use Prim.Native.String.{◌++◌ as ◌<>◌}
use longhub_platform.Common.{
  String, Bool, true, false, ◌||◌, Option, none, some, ◌≡◌, refl, ap, arith, ◌=s◌, Result, ok,
  =s_refl,
}
use longhub_platform.Common.Results.{bind-eq-ok, check-eq-ok, guard-eq-ok, require-eq-ok}
use longhub_platform.Common.Keyed
use longhub_platform.Orders.{PayMethod}
use longhub_platform.Orders.Names.{IsNamed}
use longhub_platform.Billing.{
  BillingStore, BillingResult, BillingReason, Settlement, Operation, Fresh, PaymentParams,
  RefundParams, Staged, payment, refund, replay, recorded_result, order_lookup, key_lookup, answers,
}
use longhub_platform.Billing.Payment.{stage_payment, commit_payment}
use longhub_platform.Billing.Refund.{stage_refund, commit_refund}
use longhub_platform.Billing.Cases.{stage_payment-IsStaged, stage_refund-IsStaged}

-- What a request is known by.
pub record Request : Type 0 where
  pub operation : Operation
  pub order_id : String
  pub idempotency_key : String
  pub request_hash : String
  pub method : Option PayMethod
  pub provider_reference : Option String

abbrev pub replay_of : BillingStore → Request → Result BillingReason (Option BillingResult)
replay_of s q =
    replay s q.operation q.order_id q.idempotency_key q.request_hash q.method q.provider_reference

abbrev pub of_payment : PaymentParams → Request
of_payment p = record {
  operation = payment;
  order_id = p.order_id;
  idempotency_key = p.idempotency_key;
  request_hash = p.request_hash;
  method = p.method;
  provider_reference = p.provider_reference;
}

abbrev pub of_refund : RefundParams → Request
of_refund p = record {
  operation = refund;
  order_id = p.order_id;
  idempotency_key = p.idempotency_key;
  request_hash = p.request_hash;
  method = none;
  provider_reference = p.provider_reference;
}

-- The rows that answer a request.
pub record IsRecorded (s : BillingStore) (q : Request) (id : String) (t : Settlement)
    (r : BillingResult) : Type 0 where
  pub keyed : ((q.idempotency_key =s "") || (q.request_hash =s "")) ≡ false
  pub by_order : Keyed.get (order_lookup q.order_id q.operation) s.by_order ≡ some id
  pub by_key : Keyed.get (key_lookup q.operation q.idempotency_key) s.by_key ≡ some id
  pub row : Keyed.get id s.settlements ≡ some t
  pub result : Keyed.get id s.results ≡ some r
  pub answered :
      answers q.operation q.order_id q.idempotency_key q.request_hash q.method q.provider_reference
        t
      ≡ true

pub IsRecorded-replay :
    (s : BillingStore) (q : Request) (id : String) (t : Settlement) (r : BillingResult)
    → IsRecorded s q id t r
    → replay_of s q ≡ ok (some (record r { replayed = true }))
unfolding replay
IsRecorded-replay s q id t r h =
    rw (h.keyed, h.by_order, h.by_key) (rw (=s_refl id) (rw (h.row, h.result) (rw h.answered refl)))

recorded_result_rows :
    (s : BillingStore) (q : Request) (id : String) (r : BillingResult)
    → recorded_result s q.operation q.order_id q.idempotency_key q.request_hash q.method
        q.provider_reference id
      ≡ ok (some r)
    → (t : Settlement) × (r' : BillingResult) × (Keyed.get id s.settlements ≡ some t)
      × (Keyed.get id s.results ≡ some r')
      × (answers q.operation q.order_id q.idempotency_key q.request_hash q.method
            q.provider_reference t
          ≡ true)
      × (r ≡ record r' { replayed = true })
recorded_result_rows s q id r h =
    let (t, e, h') = bind-eq-ok _ _ h in
    let (r', e', h'') = bind-eq-ok _ _ h' in
    let (e'', last) = check-eq-ok _ _ h'' in
    (t, r', require-eq-ok _ _ e, require-eq-ok _ _ e', guard-eq-ok _ _ e'', cc)

-- What a replay that finds a result has read.
replay_found :
    (s : BillingStore) (q : Request) (r : BillingResult)
    → replay_of s q ≡ ok (some r)
    → (((q.idempotency_key =s "") || (q.request_hash =s "")) ≡ false)
      × (id : String) × (Keyed.get (order_lookup q.order_id q.operation) s.by_order ≡ some id)
      × (Keyed.get (key_lookup q.operation q.idempotency_key) s.by_key ≡ some id)
      × (recorded_result s q.operation q.order_id q.idempotency_key q.request_hash q.method
            q.provider_reference id
          ≡ ok (some r))
unfolding replay
replay_found s q r h = ground arith

-- The request that finds a result has its rows.
pub replay-IsRecorded :
    (s : BillingStore) (q : Request) (r : BillingResult)
    → replay_of s q ≡ ok (some r)
    → (id : String) × (t : Settlement) × (r' : BillingResult) × (IsRecorded s q id t r')
      × (r ≡ record r' { replayed = true })
replay-IsRecorded s q r h =
    let (good, id, e, e', found) = replay_found s q r h in
    let (t, r', row, result, answered, same) = recorded_result_rows s q id r found in
    (
      id,
      t,
      r',
      record {
        keyed = good;
        by_order = e;
        by_key = e';
        row = row;
        result = result;
        answered = answered;
      },
      same,
    )

-- The request that finds none has neither row.
pub replay_none :
    (s : BillingStore) (q : Request)
    → replay_of s q ≡ ok none
    → (((q.idempotency_key =s "") || (q.request_hash =s "")) ≡ false)
      × (Keyed.get (order_lookup q.order_id q.operation) s.by_order ≡ none)
      × (Keyed.get (key_lookup q.operation q.idempotency_key) s.by_key ≡ none)
unfolding replay
replay_none s q h = ground arith

-- The four maps of settlements after a commit.
pub record IsWritten (s s' : BillingStore) (order key id : String) (t : Settlement)
    (r : BillingResult) : Type 0 where
  pub by_order : s'.by_order ≡ Keyed.set order id s.by_order
  pub by_key : s'.by_key ≡ Keyed.set key id s.by_key
  pub row : s'.settlements ≡ Keyed.set id t s.settlements
  pub result : s'.results ≡ Keyed.set id r s.results

-- A commit under new keys leaves what is recorded.
pub written_keeps :
    (s s' : BillingStore) (q : Request) (id : String) (t : Settlement) (r : BillingResult)
    (order key id' : String) (t' : Settlement) (r' : BillingResult)
    → IsRecorded s q id t r
    → IsWritten s s' order key id' t' r'
    → Keyed.get order s.by_order ≡ none
    → Keyed.get key s.by_key ≡ none
    → Keyed.get id' s.settlements ≡ none
    → Keyed.get id' s.results ≡ none
    → IsRecorded s' q id t r
written_keeps s s' q id t r order key id' t' r' h w no_order no_key no_row no_result = record {
  keyed = h.keyed;
  by_order = rw w.by_order (Keyed.get-set_kept _ order id id' s.by_order h.by_order no_order);
  by_key = rw w.by_key (Keyed.get-set_kept _ key id id' s.by_key h.by_key no_key);
  row = rw w.row (Keyed.get-set_kept id id' t t' s.settlements h.row no_row);
  result = rw w.result (Keyed.get-set_kept id id' r r' s.results h.result no_result);
  answered = h.answered;
}

-- A commit under the keys of a request that its row answers is recorded for it.
pub written_records :
    (s s' : BillingStore) (q : Request) (id : String) (t : Settlement) (r : BillingResult)
    → IsWritten s s'
        (order_lookup q.order_id q.operation)
        (key_lookup q.operation q.idempotency_key)
        id
        t
        r
    → ((q.idempotency_key =s "") || (q.request_hash =s "")) ≡ false
    → answers q.operation q.order_id q.idempotency_key q.request_hash q.method q.provider_reference
        t
      ≡ true
    → IsRecorded s' q id t r
written_records s s' q id t r w keyed answered = record {
  keyed = keyed;
  by_order = rw w.by_order (Keyed.get-set_self _ id s.by_order);
  by_key = rw w.by_key (Keyed.get-set_self _ id s.by_key);
  row = rw w.row (Keyed.get-set_self id t s.settlements);
  result = rw w.result (Keyed.get-set_self id r s.results);
  answered = answered;
}

-- The writes of a payment, under the name of the order that was asked for.
pub payment-IsWritten :
    (follows : String → String → Bool) (s : BillingStore) (f : Fresh) (p : PaymentParams)
    (g : Staged)
    → IsNamed s.shop.orders
    → stage_payment follows s f p ≡ ok g
    → IsWritten s
        (commit_payment s g)
        (order_lookup p.order_id payment)
        (key_lookup payment p.idempotency_key)
        ("bst-" <> f.settlement)
        g.result.settlement
        g.result
payment-IsWritten follows s f p g named staged =
    let (y, after, d, h, _) = stage_payment-IsStaged follows s f p g staged in
    let name : y.order.order_id ≡ p.order_id = named p.order_id y.order h.valid.ordered in
    rw h.rows (record { by_order = rw name refl; by_key = refl; row = refl; result = refl })

pub refund-IsWritten :
    (s : BillingStore) (f : Fresh) (p : RefundParams) (g : Staged)
    → IsNamed s.shop.orders
    → stage_refund s f p ≡ ok g
    → IsWritten s
        (commit_refund s f p g)
        (order_lookup p.order_id refund)
        (key_lookup refund p.idempotency_key)
        ("bst-" <> f.settlement)
        g.result.settlement
        g.result
refund-IsWritten s f p g named staged =
    let (y, d, h, rows, _) = stage_refund-IsStaged s f p g staged in
    let name : y.order.order_id ≡ p.order_id = named p.order_id y.order h.ordered in
    rw rows (record { by_order = rw name refl; by_key = refl; row = refl; result = refl })

-- A result that is found is marked as replayed.
pub replay-replayed :
    (s : BillingStore) (q : Request) (r : BillingResult)
    → replay_of s q ≡ ok (some r)
    → r.replayed ≡ true
replay-replayed s q r h =
    let (_, _, r', _, e) = replay-IsRecorded s q r h in ap (λ (x : BillingResult). x.replayed) e
