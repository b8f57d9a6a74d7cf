-- ===== src/Billing/Refund.antt =====
-- `settleOrderRefund` of `MemoryStore` in apps/longhub-cloud-api/src/memory-store.ts.
use Prim.Native.String.{◌++◌ as ◌<>◌}
use longhub_platform.Common.{
  ℕ, ◌+◌, String, Bool, true, false, ◌&&◌, ◌||◌, not, Option, none, some, List, [], ◌∷◌, ◌++◌, map,
  ◌=s◌, Result, ok, err, same_option, select, any, is_some, filled,
}
use longhub_platform.Common.Int.{pos}
use longhub_platform.Common.Results.{◌>>=◌, ◌>>◌, guard, require}
use longhub_platform.Common.Keyed
use longhub_platform.Common.Keyed.{Keyed, values}
use longhub_platform.Orders.{
  Order, OrderStatus, Transaction, TransactionType, User, PayMethod, plan, provider, paid, refunded,
}
use longhub_platform.Devices.{Device}
use longhub_platform.Skills.{
  Subscription, SubscriptionStatus, Entitlement, EntitlementStatus, is_granted, includes,
}
use longhub_platform.Outbox.{OutboxRecord, refund_settled, parse_outbox_time}
use longhub_platform.Billing.{
  PackEntitlement, BillingReason, Settlement, AuditLog, BillingResult, BillingStore, Fresh,
  RefundParams, Staged, refund, order_not_found, order_not_paid, recharge_refund_forbidden,
  refund_requires_reconciliation, fulfillment_invalid, order_lookup, key_lookup, replay,
  valid_reference, set_packs, set_grants,
}
use longhub_platform.Billing.Payment.{write_account, write_transaction, write_subscription}
use longhub_platform.Billing.Payment.Checks.{is_recharge}
use longhub_platform.Billing.Payment.Staging.{Delivery, nothing, subscription_of}

abbrev pub is_paid : OrderStatus → Bool
is_paid paid = true
is_paid _ = false

-- What the first checks read.
pub record Refundable : Type 0 where
  pub order : Order
  pub user : User
  pub refunded_at : ℕ

unfoldable pub refundable : BillingStore → ℕ → RefundParams → Result BillingReason Refundable
refundable s clock p = do
  let o = (← require (Keyed.get p.order_id s.shop.orders) order_not_found)
  guard (not (is_recharge o.type)) recharge_refund_forbidden
  guard (is_paid o.status) order_not_paid
  let u = (← require (Keyed.get o.user_id s.shop.users) order_not_found)
  let at = (← require (parse_outbox_time clock p.refunded_at) fulfillment_invalid)
  guard (not (is_some p.provider_reference) || valid_reference p.provider_reference)
      fulfillment_invalid
  ok (record { order = o; user = u; refunded_at = at })

abbrev pub revoked_pack : PackEntitlement → PackEntitlement
revoked_pack e = record e { status = EntitlementStatus.revoked }

abbrev pub revoked_grant : Entitlement → Entitlement
revoked_grant e = record e { status = EntitlementStatus.revoked }

abbrev pub owned_device_ids : BillingStore → String → List String
owned_device_ids s user =
    map (λ (d : Device). d.device_id)
      (select (λ (d : Device). same_option d.user_id (some user)) (values s.devices.devices))

-- An active entitlement to the same Pack of which nobody knows what issued it.
abbrev pub is_ambiguous : List String → String → PackEntitlement → Bool
is_ambiguous devices pack e =
    includes e.device_id devices
    && (e.pack_id =s pack
        && (is_granted e.status
            && (not (is_some e.source_order_id) && not (is_some e.source_activation_code_id))))

unfoldable pub withdraw_pack : BillingStore → Order → Result BillingReason Delivery
withdraw_pack s o = do
  let pack = (← require (filled o.pack_id) refund_requires_reconciliation)
  guard (not (any (is_ambiguous (owned_device_ids s o.user_id) pack) (values s.packs)))
      refund_requires_reconciliation
  ok (record nothing {
    packs =
        map revoked_pack
          (select (λ e. same_option e.source_order_id (some o.order_id)) (values s.packs));
  })

abbrev pub refunded_subscription : ℕ → Subscription → Subscription
refunded_subscription at b = record b {
  status = SubscriptionStatus.refunded;
  refunded_at = some at;
}

unfoldable pub withdraw_skills : BillingStore → Order → ℕ → Result BillingReason Delivery
withdraw_skills s o at = do
  let b = (← require (subscription_of s.skills o.order_id) refund_requires_reconciliation)
  guard (b.user_id =s o.user_id && same_option (some b.plan_id) o.plan_id)
      refund_requires_reconciliation
  ok (record nothing {
    subscription = some (refunded_subscription at b);
    grants = map revoked_grant (
        select (λ (e : Entitlement). e.subscription_id =s b.subscription_id)
          (values s.skills.entitlements));
  })

abbrev pub withdraw : BillingStore → Order → ℕ → Result BillingReason Delivery
withdraw s o at = elim o.type [ plan ↦ withdraw_pack s o | _ ↦ withdraw_skills s o at ]

abbrev pub refund_transaction : Fresh → Refundable → Transaction
refund_transaction f y = record {
  txn_id = "txn-" <> f.transaction;
  user_id = y.order.user_id;
  type = TransactionType.refund;
  amount_fen = pos y.order.amount_fen;
  balance_after_fen = y.user.balance_fen + y.order.amount_fen;
  order_id = some y.order.order_id;
  settlement_id = some ("bst-" <> f.settlement);
  remark = some "管理端退款入余额";
  created_at = f.created_at;
}

abbrev pub refunded_order : Refundable → Order
refunded_order y = record y.order { status = refunded; refunded_at = some y.refunded_at }

abbrev pub refund_method : Option String → Option PayMethod
refund_method none = none
refund_method (some r) = some provider

abbrev pub refund_settlement : Fresh → RefundParams → Order → Settlement
refund_settlement f p o = record {
  settlement_id = "bst-" <> f.settlement;
  order_id = o.order_id;
  operation = refund;
  idempotency_key = p.idempotency_key;
  request_hash = p.request_hash;
  method = refund_method (filled p.provider_reference);
  provider_reference = filled p.provider_reference;
  amount_fen = o.amount_fen;
  created_at = f.created_at;
}

abbrev pub refund_outbox : Fresh → RefundParams → Order → OutboxRecord
refund_outbox f p o = record {
  outbox_id = "bout-" <> f.outbox;
  event_type = refund_settled;
  aggregate_id = o.order_id;
  settlement_id = "bst-" <> f.settlement;
  payload = record {
    order_id = o.order_id;
    user_id = o.user_id;
    order_type = o.type;
    method = none;
    amount_fen = o.amount_fen;
    actor = some p.actor;
  };
  attempts = 0;
  available_at = f.created_at;
  locked_until = none;
  lock_token = none;
  published_at = none;
  dead_lettered_at = none;
  last_error = none;
  created_at = f.created_at;
}

abbrev pub staged_refund : Fresh → RefundParams → Refundable → Delivery → Staged
staged_refund f p y d = record {
  result = record {
    replayed = false;
    settlement = refund_settlement f p y.order;
    order = refunded_order y;
    wallet_transaction = some (refund_transaction f y);
    subscription = d.subscription;
    cloud_skill_entitlements = d.grants;
    entitlements = d.packs;
    outbox = refund_outbox f p y.order;
  };
  account = some (record y.user { balance_fen = y.user.balance_fen + y.order.amount_fen });
}

unfoldable pub stage_refund : BillingStore → Fresh → RefundParams → Result BillingReason Staged
stage_refund s f p = do
  let y = (← refundable s f.clock p)
  let d = (← withdraw s y.order y.refunded_at)
  ok (staged_refund f p y d)

abbrev pub refund_audit : Fresh → RefundParams → AuditLog
refund_audit f p = record {
  audit_id = "aud-" <> f.audit;
  actor = p.actor;
  action = "order.refund";
  created_at = f.created_at;
}

abbrev pub commit_refund : BillingStore → Fresh → RefundParams → Staged → BillingStore
commit_refund s f p g =
    let r = g.result in
    let id = r.settlement.settlement_id in
    record s {
      shop = record s.shop {
        users = write_account g.account s.shop.users;
        transactions = write_transaction r.wallet_transaction s.shop.transactions;
        orders = Keyed.set r.order.order_id r.order s.shop.orders;
      };
      packs = set_packs r.entitlements s.packs;
      skills = record s.skills {
        subscriptions = write_subscription r.subscription s.skills.subscriptions;
        entitlements = set_grants r.cloud_skill_entitlements s.skills.entitlements;
      };
      audits = s.audits ++ refund_audit f p ∷ [];
      settlements = Keyed.set id r.settlement s.settlements;
      by_order = Keyed.set (order_lookup r.order.order_id refund) id s.by_order;
      by_key = Keyed.set (key_lookup refund r.settlement.idempotency_key) id s.by_key;
      outbox = Keyed.set r.outbox.outbox_id r.outbox s.outbox;
      results = Keyed.set id r s.results;
    }

unfoldable pub settle_refund :
    BillingStore → Fresh → RefundParams → BillingStore × Result BillingReason BillingResult
settle_refund s f p =
    elim (replay s refund p.order_id p.idempotency_key p.request_hash none p.provider_reference) [
      | err e ↦ (s, err e)
      | ok (some r) ↦ (s, ok r)
      | ok none ↦ elim (stage_refund s f p) [
        | err e ↦ (s, err e)
        | ok g ↦ (commit_refund s f p g, ok g.result)
      ]
    ]
