-- ===== src/Billing/Payment/Checks.antt =====
-- The checks of `settleOrderPayment` in apps/longhub-cloud-api/src/memory-store.ts that come before
-- anything is staged.
use longhub_platform.Common.{ℕ, Bool, true, false, ◌&&◌, ◌||◌, not, ◌=s◌, Result, ok}
use longhub_platform.Common.Results.{◌>>=◌, ◌>>◌, guard, require}
use longhub_platform.Common.Keyed
use longhub_platform.Common.Keyed.{Keyed, values}
use longhub_platform.Orders.{
  Order, OrderType, OrderStatus, User, PayMethod, recharge, balance, provider, pending,
}
use longhub_platform.Outbox.{parse_outbox_time}
use longhub_platform.Billing.{
  BillingReason, BillingStore, PaymentParams, order_not_found, order_not_pending,
  invalid_payment_method, recharge_balance_forbidden, fulfillment_invalid, valid_reference,
}

abbrev pub is_pending : OrderStatus → Bool
is_pending pending = true
is_pending _ = false

abbrev pub is_recharge : OrderType → Bool
is_recharge recharge = true
is_recharge _ = false

abbrev pub is_balance : PayMethod → Bool
is_balance balance = true
is_balance _ = false

abbrev pub is_provider : PayMethod → Bool
is_provider provider = true
is_provider _ = false

-- What the first checks read.
pub record Payable : Type 0 where
  pub order : Order
  pub user : User
  pub method : PayMethod
  pub paid_at : ℕ

unfoldable pub payable : BillingStore → ℕ → PaymentParams → Result BillingReason Payable
payable s clock p = do
  let m = (← require p.method invalid_payment_method)
  guard (not (is_provider m) || valid_reference p.provider_reference) fulfillment_invalid
  let o = (← require (Keyed.get p.order_id s.shop.orders) order_not_found)
  guard (o.user_id =s p.user_id) order_not_found
  guard (is_pending o.status) order_not_pending
  guard (not (is_recharge o.type && is_balance m)) recharge_balance_forbidden
  let u = (← require (Keyed.get o.user_id s.shop.users) order_not_found)
  let at = (← require (parse_outbox_time clock p.paid_at) fulfillment_invalid)
  ok (record { order = o; user = u; method = m; paid_at = at })
