-- ===== src/Billing/Once.antt =====
-- A settlement is made once: a retry finds the recorded result, whatever happened since. This is
-- `billingSettlementReplay` of apps/longhub-cloud-api/src/memory-store.ts in the methods that ask it.
use Prim.Native.String.{◌++◌ as ◌<>◌}
use longhub_platform.Common.{
  String, Bool, true, none, some, ◌≡◌, ◌≢◌, refl, sym, inl, inr, arith, ok, =s_refl,
}
use longhub_platform.Orders.{Shop}
use longhub_platform.Orders.Names.{
  create_user-orders, set_user_status-orders, add_wallet_transaction-orders, IsNamed, set-IsNamed,
  create_order-IsNamed, update_order-IsNamed,
}
use longhub_platform.Billing.{
  BillingStore, BillingResult, Settlement, Fresh, PaymentParams, RefundParams, payment, refund,
  answers,
}
use longhub_platform.Billing.Payment.{
  settle_payment, commit_payment, paid_order, payment_settlement,
}
use longhub_platform.Billing.Payment.Checks.{Payable}
use longhub_platform.Billing.Refund.{
  settle_refund, commit_refund, refunded_order, Refundable, refund_settlement,
}
use longhub_platform.Billing.Cases.{
  stage_payment-IsStaged, stage_refund-IsStaged, settle_payment_cases, settle_refund_cases,
  settle_payment_outcomes, settle_refund_outcomes, IsPayable, IsRefundable,
}
use longhub_platform.Billing.Recorded.{
  Request, IsRecorded, of_payment, of_refund, IsRecorded-replay, replay-IsRecorded, replay_none,
  written_keeps, written_records, payment-IsWritten, refund-IsWritten,
}
use longhub_platform.Billing.Steps.{
  Step, Reach, pays, refunds, signs_up, sets_status, transacts, orders, reorders, elsewhere, here,
  next,
}

paid-IsNamed :
    (follows : String → String → Bool) (s : BillingStore) (f : Fresh) (p : PaymentParams)
    → IsNamed s.shop.orders
    → IsNamed (settle_payment follows s f p).0.shop.orders
paid-IsNamed follows s f p v = elim (settle_payment_cases follows s f p) [
  | inl same ↦ rw same v
  | inr (g, _, staged, wrote) ↦
      let (y, after, d, h, _) = stage_payment-IsStaged follows s f p g staged in
      rw (wrote, h.rows) (set-IsNamed s.shop.orders y.order.order_id (paid_order y) v refl)
]

refunded-IsNamed :
    (s : BillingStore) (f : Fresh) (p : RefundParams)
    → IsNamed s.shop.orders
    → IsNamed (settle_refund s f p).0.shop.orders
refunded-IsNamed s f p v = elim (settle_refund_cases s f p) [
  | inl same ↦ rw same v
  | inr (g, _, staged, wrote) ↦
      let (y, d, h, rows, _) = stage_refund-IsStaged s f p g staged in
      rw (wrote, rows) (set-IsNamed s.shop.orders y.order.order_id (refunded_order y) v refl)
]

-- Orders keep their names, and what is recorded stays, through every step.
Step-IsNamed : {s s' : BillingStore} → Step s s' → IsNamed s.shop.orders → IsNamed s'.shop.orders
Step-IsNamed (pays follows s f p unused) v = paid-IsNamed follows s f p v
Step-IsNamed (refunds s f p unused) v = refunded-IsNamed s f p v
Step-IsNamed (signs_up s uuid now email hash fresh) v =
    rw (create_user-orders s.shop uuid now email hash) v
Step-IsNamed (sets_status s id status) v = rw (set_user_status-orders s.shop id status) v
Step-IsNamed (transacts s uuid now p) v = rw (add_wallet_transaction-orders s.shop uuid now p) v
Step-IsNamed (orders s uuid now p) v = create_order-IsNamed s.shop uuid now p v
Step-IsNamed (reorders s id p) v = update_order-IsNamed s.shop id p v
Step-IsNamed (elsewhere s s' e) v = rw e.orders v

shop_keeps :
    (s : BillingStore) (shop : Shop) (q : Request) (id : String) (t : Settlement)
    (r : BillingResult)
    → IsRecorded s q id t r
    → IsRecorded (record s { shop = shop }) q id t r
shop_keeps s shop q id t r h = record {
  keyed = h.keyed;
  by_order = h.by_order;
  by_key = h.by_key;
  row = h.row;
  result = h.result;
  answered = h.answered;
}

Step-IsRecorded :
    (q : Request) (id : String) (t : Settlement) (r : BillingResult) {s s' : BillingStore}
    → Step s s'
    → IsNamed s.shop.orders
    → IsRecorded s q id t r
    → IsRecorded s' q id t r
Step-IsRecorded q id t r (pays follows s f p unused) named h =
    elim (settle_payment_cases follows s f p) [
      | inl same ↦ rw same h
      | inr (g, none_yet, staged, wrote) ↦
          let (_, no_order, no_key) = replay_none s (of_payment p) none_yet in
          rw wrote (
            written_keeps s (commit_payment s g) q id t r _ _ _ _ _ h
              (payment-IsWritten follows s f p g named staged) no_order no_key unused.no_settlement
              unused.no_result)
    ]
Step-IsRecorded q id t r (refunds s f p unused) named h = elim (settle_refund_cases s f p) [
  | inl same ↦ rw same h
  | inr (g, none_yet, staged, wrote) ↦
      let (_, no_order, no_key) = replay_none s (of_refund p) none_yet in
      rw wrote (
        written_keeps s (commit_refund s f p g) q id t r _ _ _ _ _ h
          (refund-IsWritten s f p g named staged) no_order no_key unused.no_settlement
          unused.no_result)
]
Step-IsRecorded q id t r (signs_up s uuid now email hash fresh) named h = shop_keeps s _ q id t r h
Step-IsRecorded q id t r (sets_status s user status) named h = shop_keeps s _ q id t r h
Step-IsRecorded q id t r (transacts s uuid now p) named h = shop_keeps s _ q id t r h
Step-IsRecorded q id t r (orders s uuid now p) named h = shop_keeps s _ q id t r h
Step-IsRecorded q id t r (reorders s order p) named h = shop_keeps s _ q id t r h
Step-IsRecorded q id t r (elsewhere s s' e) named h = record {
  keyed = h.keyed;
  by_order = rw e.by_order h.by_order;
  by_key = rw e.by_key h.by_key;
  row = rw e.settlements h.row;
  result = rw e.results h.result;
  answered = h.answered;
}

Reach-IsNamed : {s s' : BillingStore} → Reach s s' → IsNamed s.shop.orders → IsNamed s'.shop.orders
Reach-IsNamed here v = v
Reach-IsNamed (next r st) v = Step-IsNamed st (Reach-IsNamed r v)

Reach-IsRecorded :
    (q : Request) (id : String) (t : Settlement) (r : BillingResult) {s s' : BillingStore}
    → Reach s s'
    → IsNamed s.shop.orders
    → IsRecorded s q id t r
    → IsRecorded s' q id t r
Reach-IsRecorded q id t r here named h = h
Reach-IsRecorded q id t r (next rs st) named h =
    Step-IsRecorded q id t r st (Reach-IsNamed rs named) (Reach-IsRecorded q id t r rs named h)

answers_payment :
    (s : BillingStore) (f : Fresh) (p : PaymentParams) (y : Payable)
    → IsNamed s.shop.orders
    → p.provider_reference ≢ some ""
    → IsPayable s p y
    → answers payment p.order_id p.idempotency_key p.request_hash p.method p.provider_reference
        (payment_settlement f p y)
      ≡ true
answers_payment s f p y named filled_in h =
    let name : y.order.order_id ≡ p.order_id = named p.order_id y.order h.ordered in
    rw (name, h.chosen, =s_refl p.order_id, =s_refl p.idempotency_key, =s_refl p.request_hash)
      (ground arith)

-- The payment that was made, or found made, is recorded.
paid-IsRecorded :
    (follows : String → String → Bool) (s : BillingStore) (f : Fresh) (p : PaymentParams)
    (r : BillingResult)
    → IsNamed s.shop.orders
    → p.provider_reference ≢ some ""
    → (settle_payment follows s f p).1 ≡ ok r
    → (id : String) × (t : Settlement) × (r' : BillingResult) × (IsRecorded
        (settle_payment follows s f p).0
        (of_payment p)
        id
        t
        r')
      × (record r { replayed = true } ≡ record r' { replayed = true })
paid-IsRecorded follows s f p r named filled_in done =
    elim (settle_payment_outcomes follows s f p) [
      | inl (e, refused) ↦ absurd (cc (rw refused at done))
      | inr (inl (r0, found, same)) ↦
          let (id, t, r', h, e) = replay-IsRecorded s (of_payment p) r0 found in
          let e' : r0 ≡ r = cc (rw same at done) in (id, t, r', rw same h, rw (sym e', e) refl)
      | inr (inr (g, none_yet, staged, wrote)) ↦
          let (keyed, _, _) = replay_none s (of_payment p) none_yet in
          let (y, after, d, h, _) = stage_payment-IsStaged follows s f p g staged in
          let w = payment-IsWritten follows s f p g named staged in
          let e : g.result ≡ r = cc (rw wrote at done) in
          (
            "bst-" <> f.settlement,
            g.result.settlement,
            g.result,
            rw wrote (
                written_records s (commit_payment s g) (of_payment p) _ g.result.settlement g.result
                  w keyed (rw h.rows (answers_payment s f p y named filled_in h.valid))),
            rw e refl,
          )
    ]

-- A payment that went through is made once: after any later calls, the same request, whatever
-- identifiers and clock it would draw, gives the same result, marked as replayed, and leaves the
-- store as it is. Orders stand under their own names when it is made, no later settlement draws an
-- identifier drawn before, and the request has no empty text as its provider reference.
pub paid_once :
    (follows : String → String → Bool) (s : BillingStore) (f : Fresh) (p : PaymentParams)
    (r : BillingResult) (s' : BillingStore) (f' : Fresh)
    → IsNamed s.shop.orders
    → p.provider_reference ≢ some ""
    → (settle_payment follows s f p).1 ≡ ok r
    → Reach (settle_payment follows s f p).0 s'
    → settle_payment follows s' f' p ≡ (s', ok (record r { replayed = true }))
unfolding settle_payment
paid_once follows s f p r s' f' named filled_in done run =
    let (id, t, r', h, e) = paid-IsRecorded follows s f p r named filled_in done in
    let kept = Reach-IsRecorded (of_payment p) id t r' run (paid-IsNamed follows s f p named) h in
    rw (IsRecorded-replay s' (of_payment p) id t r' kept, settle_payment) (rw e refl)

answers_refund :
    (s : BillingStore) (f : Fresh) (p : RefundParams) (y : Refundable)
    → IsNamed s.shop.orders
    → p.provider_reference ≢ some ""
    → IsRefundable s p y
    → answers refund p.order_id p.idempotency_key p.request_hash none p.provider_reference
        (refund_settlement f p y.order)
      ≡ true
answers_refund s f p y named filled_in h =
    let name : y.order.order_id ≡ p.order_id = named p.order_id y.order h.ordered in
    rw (name, =s_refl p.order_id, =s_refl p.idempotency_key, =s_refl p.request_hash) (ground arith)

-- The refund that was made, or found made, is recorded.
refunded-IsRecorded :
    (s : BillingStore) (f : Fresh) (p : RefundParams) (r : BillingResult)
    → IsNamed s.shop.orders
    → p.provider_reference ≢ some ""
    → (settle_refund s f p).1 ≡ ok r
    → (id : String) × (t : Settlement) × (r' : BillingResult) × (IsRecorded
        (settle_refund s f p).0
        (of_refund p)
        id
        t
        r')
      × (record r { replayed = true } ≡ record r' { replayed = true })
refunded-IsRecorded s f p r named filled_in done = elim (settle_refund_outcomes s f p) [
  | inl (e, refused) ↦ absurd (cc (rw refused at done))
  | inr (inl (r0, found, same)) ↦
      let (id, t, r', h, e) = replay-IsRecorded s (of_refund p) r0 found in
      let e' : r0 ≡ r = cc (rw same at done) in (id, t, r', rw same h, rw (sym e', e) refl)
  | inr (inr (g, none_yet, staged, wrote)) ↦
      let (keyed, _, _) = replay_none s (of_refund p) none_yet in
      let (y, d, h, rows, _) = stage_refund-IsStaged s f p g staged in
      let w = refund-IsWritten s f p g named staged in
      let e : g.result ≡ r = cc (rw wrote at done) in
      (
        "bst-" <> f.settlement,
        g.result.settlement,
        g.result,
        rw wrote (
            written_records s (commit_refund s f p g) (of_refund p) _ g.result.settlement g.result w
              keyed (rw rows (answers_refund s f p y named filled_in h))),
        rw e refl,
      )
]

-- A refund that went through is made once: after any later calls, the same request, whatever
-- identifiers and clock it would draw, gives the same result, marked as replayed, and leaves the
-- store as it is. Orders stand under their own names when it is made, no later settlement draws an
-- identifier drawn before, and the request has no empty text as its provider reference.
pub refunded_once :
    (s : BillingStore) (f : Fresh) (p : RefundParams) (r : BillingResult) (s' : BillingStore)
    (f' : Fresh)
    → IsNamed s.shop.orders
    → p.provider_reference ≢ some ""
    → (settle_refund s f p).1 ≡ ok r
    → Reach (settle_refund s f p).0 s'
    → settle_refund s' f' p ≡ (s', ok (record r { replayed = true }))
unfolding settle_refund
refunded_once s f p r s' f' named filled_in done run =
    let (id, t, r', h, e) = refunded-IsRecorded s f p r named filled_in done in
    let kept = Reach-IsRecorded (of_refund p) id t r' run (refunded-IsNamed s f p named) h in
    rw (IsRecorded-replay s' (of_refund p) id t r' kept, settle_refund) (rw e refl)
