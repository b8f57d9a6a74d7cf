-- ===== src/Billing/Payment.antt =====
-- `settleOrderPayment` of `MemoryStore` in apps/longhub-cloud-api/src/memory-store.ts.
pub mod Checks
pub mod Staging
use Prim.Native.String.{◌++◌ as ◌<>◌}
use longhub_platform.Common.{
  ℕ, zero, suc, String, Bool, true, false, ◌&&◌, ◌||◌, not, Option, none, some, List, [], ◌∷◌, ◌++◌,
  ◌=s◌, if◌then◌else◌, Result, ok, err, same_option, select, head?, sort_by, filled, text_le,
}
use longhub_platform.Common.Int.{ℤ, pos, negsuc, ◌+ℤ◌, minus}
use longhub_platform.Common.Results.{◌>>=◌, ◌>>◌, guard, require}
use longhub_platform.Common.Keyed
use longhub_platform.Common.Keyed.{Keyed, values}
use longhub_platform.Orders.{
  Order, OrderType, OrderStatus, Transaction, TransactionType, User, PayMethod, plan,
  cloud_skill_plan, recharge, balance, provider, pending, paid, recharged, purchase,
}
use longhub_platform.Devices.{Device, is_in_use}
use longhub_platform.Skills.{
  Plan, SkillStore, Subscription, SubscriptionStatus, Entitlement, EntitlementStatus, Period,
}
use longhub_platform.Outbox.{OutboxRecord, payment_settled, parse_outbox_time}
use longhub_platform.Billing.{
  PackEntitlement, Scope, BillingReason, Settlement, BillingResult, BillingStore, Fresh,
  PaymentParams, Staged, payment, order_not_found, order_not_pending, invalid_payment_method,
  recharge_balance_forbidden, insufficient_balance, fulfillment_invalid, order_lookup, key_lookup,
  replay, period_expiry, valid_reference, set_packs, set_grants,
}
use longhub_platform.Billing.Payment.Checks.{Payable, is_balance, is_recharge, payable}
use longhub_platform.Billing.Payment.Staging.{Delivery, deliver}

-- How a payment moves the balance, if it does.
pub record Movement : Type 0 where
  pub type : TransactionType
  pub amount_fen : ℤ
  pub remark : String

abbrev pub purchase_remark : OrderType → String
purchase_remark cloud_skill_plan = "余额购买云端 Skill 订阅"
purchase_remark _ = "余额购买套装订阅"

abbrev pub movement : Order → PayMethod → Option Movement
movement o m =
    if is_recharge o.type
    then some (record { type = recharged; amount_fen = pos o.amount_fen; remark = "模拟支付充值" })
    else if is_balance m
    then some (record {
      type = purchase;
      amount_fen = minus o.amount_fen;
      remark = purchase_remark o.type;
    })
    else none

abbrev pub delta_of : Option Movement → ℤ
delta_of none = pos 0
delta_of (some v) = v.amount_fen

abbrev pub not_negative : ℤ → Result BillingReason ℕ
not_negative (pos n) = ok n
not_negative (negsuc n) = err insufficient_balance

abbrev pub is_zero : ℤ → Bool
is_zero (pos zero) = true
is_zero _ = false

abbrev pub transaction_of : Fresh → Order → ℕ → Movement → Transaction
transaction_of f o after v = record {
  txn_id = "txn-" <> f.transaction;
  user_id = o.user_id;
  type = v.type;
  amount_fen = v.amount_fen;
  balance_after_fen = after;
  order_id = some o.order_id;
  settlement_id = some ("bst-" <> f.settlement);
  remark = some v.remark;
  created_at = f.created_at;
}

abbrev pub moved_transaction : Fresh → Order → ℕ → Option Movement → Option Transaction
moved_transaction f o after none = none
moved_transaction f o after (some v) = some (transaction_of f o after v)

-- The account that is written, where the balance changes.
abbrev pub moved_account : User → ℕ → ℤ → Option User
moved_account u after delta =
    if is_zero delta then none else some (record u { balance_fen = after })

abbrev pub payment_settlement : Fresh → PaymentParams → Payable → Settlement
payment_settlement f p y = record {
  settlement_id = "bst-" <> f.settlement;
  order_id = y.order.order_id;
  operation = payment;
  idempotency_key = p.idempotency_key;
  request_hash = p.request_hash;
  method = some y.method;
  provider_reference = filled p.provider_reference;
  amount_fen = y.order.amount_fen;
  created_at = f.created_at;
}

abbrev pub paid_order : Payable → Order
paid_order y = record y.order {
  status = paid;
  pay_method = some y.method;
  paid_at = some y.paid_at;
}

abbrev pub payment_outbox : Fresh → Payable → OutboxRecord
payment_outbox f y = record {
  outbox_id = "bout-" <> f.outbox;
  event_type = payment_settled;
  aggregate_id = y.order.order_id;
  settlement_id = "bst-" <> f.settlement;
  payload = record {
    order_id = y.order.order_id;
    user_id = y.order.user_id;
    order_type = y.order.type;
    method = some y.method;
    amount_fen = y.order.amount_fen;
    actor = none;
  };
  attempts = 0;
  available_at = f.created_at;
  locked_until = none;
  lock_token = none;
  published_at = none;
  dead_lettered_at = none;
  last_error = none;
  created_at = f.created_at;
}

abbrev pub staged_payment : Fresh → PaymentParams → Payable → ℕ → Delivery → Staged
staged_payment f p y after d = record {
  result = record {
    replayed = false;
    settlement = payment_settlement f p y;
    order = paid_order y;
    wallet_transaction = moved_transaction f y.order after (movement y.order y.method);
    subscription = d.subscription;
    cloud_skill_entitlements = d.grants;
    entitlements = d.packs;
    outbox = payment_outbox f y;
  };
  account = moved_account y.user after (delta_of (movement y.order y.method));
}

unfoldable pub stage_payment :
    (String → String → Bool) → BillingStore → Fresh → PaymentParams → Result BillingReason Staged
stage_payment follows s f p = do
  let y = (← payable s f.clock p)
  let after = (← not_negative (pos y.user.balance_fen +ℤ delta_of (movement y.order y.method)))
  let d = (← deliver follows s f y)
  ok (staged_payment f p y after d)

abbrev pub write_account : Option User → Keyed User → Keyed User
write_account none m = m
write_account (some u) m = Keyed.set u.user_id u m

abbrev pub write_transaction : Option Transaction → List Transaction → List Transaction
write_transaction none ts = ts
write_transaction (some t) ts = ts ++ t ∷ []

abbrev pub write_subscription : Option Subscription → Keyed Subscription → Keyed Subscription
write_subscription none m = m
write_subscription (some b) m = Keyed.set b.subscription_id b m

abbrev pub write_lookup : Option Subscription → Keyed String → Keyed String
write_lookup none m = m
write_lookup (some b) m = Keyed.set b.source_order_id b.subscription_id m

-- The writes of the end, all of them.
abbrev pub commit_payment : BillingStore → Staged → BillingStore
commit_payment s g =
    let r = g.result in
    let id = r.settlement.settlement_id in
    record s {
      shop = record s.shop {
        users = write_account g.account s.shop.users;
        transactions = write_transaction r.wallet_transaction s.shop.transactions;
        orders = Keyed.set r.order.order_id r.order s.shop.orders;
      };
      packs = set_packs r.entitlements s.packs;
      skills = record s.skills {
        subscriptions = write_subscription r.subscription s.skills.subscriptions;
        subscriptions_by_order = write_lookup r.subscription s.skills.subscriptions_by_order;
        entitlements = set_grants r.cloud_skill_entitlements s.skills.entitlements;
      };
      settlements = Keyed.set id r.settlement s.settlements;
      by_order = Keyed.set (order_lookup r.order.order_id payment) id s.by_order;
      by_key = Keyed.set (key_lookup payment r.settlement.idempotency_key) id s.by_key;
      outbox = Keyed.set r.outbox.outbox_id r.outbox s.outbox;
      results = Keyed.set id r s.results;
    }

unfoldable pub settle_payment :
    (String → String → Bool)
    → BillingStore
    → Fresh
    → PaymentParams
    → BillingStore × Result BillingReason BillingResult
settle_payment follows s f p =
    elim (replay s payment p.order_id p.idempotency_key p.request_hash p.method
      p.provider_reference) [
        | err e ↦ (s, err e)
        | ok (some r) ↦ (s, ok r)
        | ok none ↦ elim (stage_payment follows s f p) [
          | err e ↦ (s, err e)
          | ok g ↦ (commit_payment s g, ok g.result)
        ]
      ]
