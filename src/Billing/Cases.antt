-- ===== src/Billing/Cases.antt =====
-- What follows from a settlement that was made: the checks that it passed and the rows that it
-- staged.
use longhub_platform.Common.{
  ℕ, String, Bool, true, false, ◌&&◌, none, some, ◌≡◌, refl, ◌⊎◌, inl, inr, arith, ok, err,
}
use longhub_platform.Common.Int.{pos, ◌+ℤ◌}
use longhub_platform.Common.Results.{Result-cases, bind-eq-ok}
use longhub_platform.Common.Keyed
use longhub_platform.Billing.{
  BillingReason, BillingResult, BillingStore, Fresh, PaymentParams, RefundParams, Staged, payment,
  refund, replay,
}
use longhub_platform.Billing.Payment.{
  movement, delta_of, not_negative, staged_payment, stage_payment, commit_payment, settle_payment,
}
use longhub_platform.Billing.Payment.Checks.{Payable, payable, is_pending, is_recharge, is_balance}
use longhub_platform.Billing.Payment.Staging.{Delivery, deliver}
use longhub_platform.Billing.Refund.{
  Refundable, refundable, withdraw, staged_refund, stage_refund, commit_refund, settle_refund,
  is_paid,
}

pub record IsPayable (s : BillingStore) (p : PaymentParams) (y : Payable) : Type 0 where
  pub ordered : Keyed.get p.order_id s.shop.orders ≡ some y.order
  pub owned : y.order.user_id ≡ p.user_id
  pub unpaid : is_pending y.order.status ≡ true
  pub no_recharge : (is_recharge y.order.type && is_balance y.method) ≡ false
  pub account : Keyed.get y.order.user_id s.shop.users ≡ some y.user
  pub chosen : p.method ≡ some y.method

pub record IsRefundable (s : BillingStore) (p : RefundParams) (y : Refundable) : Type 0 where
  pub ordered : Keyed.get p.order_id s.shop.orders ≡ some y.order
  pub paid_once : is_paid y.order.status ≡ true
  pub bought : is_recharge y.order.type ≡ false
  pub account : Keyed.get y.order.user_id s.shop.users ≡ some y.user

pub payable-IsPayable :
    (s : BillingStore) (clock : ℕ) (p : PaymentParams) (y : Payable)
    → payable s clock p ≡ ok y
    → IsPayable s p y
unfolding payable
payable-IsPayable s clock p y h = ground arith

pub refundable-IsRefundable :
    (s : BillingStore) (clock : ℕ) (p : RefundParams) (y : Refundable)
    → refundable s clock p ≡ ok y
    → IsRefundable s p y
unfolding refundable
refundable-IsRefundable s clock p y h = ground arith

pub record IsStaged (s : BillingStore) (f : Fresh) (p : PaymentParams) (g : Staged) (y : Payable)
    (after : ℕ) (d : Delivery) : Type 0 where
  pub valid : IsPayable s p y
  pub enough : pos y.user.balance_fen +ℤ delta_of (movement y.order y.method) ≡ pos after
  pub rows : g ≡ staged_payment f p y after d

not_negative-eq : (z : _) (n : ℕ) → not_negative z ≡ ok n → z ≡ pos n
not_negative-eq z n h = ground arith

pub stage_payment-IsStaged :
    (follows : String → String → Bool) (s : BillingStore) (f : Fresh) (p : PaymentParams)
    (g : Staged)
    → stage_payment follows s f p ≡ ok g
    → (y : Payable) × (after : ℕ) × (d : Delivery) × (IsStaged s f p g y after d)
      × (deliver follows s f y ≡ ok d)
unfolding stage_payment
stage_payment-IsStaged follows s f p g h =
    let (y, e, h') = bind-eq-ok _ _ h in
    let (after, e', h'') = bind-eq-ok _ _ h' in
    let (d, e'', rows) = bind-eq-ok _ _ h'' in
    (
      y,
      after,
      d,
      record {
        valid = payable-IsPayable s f.clock p y e;
        enough = not_negative-eq _ after e';
        rows = cc;
      },
      e'',
    )

pub stage_refund-IsStaged :
    (s : BillingStore) (f : Fresh) (p : RefundParams) (g : Staged)
    → stage_refund s f p ≡ ok g
    → (y : Refundable) × (d : Delivery) × (IsRefundable s p y)
      × (g ≡ staged_refund f p y d)
      × (withdraw s y.order y.refunded_at ≡ ok d)
unfolding stage_refund
stage_refund-IsStaged s f p g h =
    let (y, e, h') = bind-eq-ok _ _ h in
    let (d, e', rows) = bind-eq-ok _ _ h' in (y, d, refundable-IsRefundable s f.clock p y e, cc, e')

-- A settlement is refused, is found, or is staged and written.
pub settle_payment_outcomes :
    (follows : String → String → Bool) (s : BillingStore) (f : Fresh) (p : PaymentParams)
    → ((e : BillingReason) × (settle_payment follows s f p ≡ (s, err e)))
      ⊎ (((r : BillingResult) × (replay s payment p.order_id p.idempotency_key p.request_hash
                p.method p.provider_reference
              ≡ ok (some r))
            × (settle_payment follows s f p ≡ (s, ok r)))
          ⊎ ((g : Staged) × (replay s payment p.order_id p.idempotency_key p.request_hash p.method
                  p.provider_reference
                ≡ ok none)
              × (stage_payment follows s f p ≡ ok g)
              × (settle_payment follows s f p ≡ (commit_payment s g, ok g.result))))
unfolding settle_payment
settle_payment_outcomes follows s f p =
    elim (Result-cases (
      replay s payment p.order_id p.idempotency_key p.request_hash p.method p.provider_reference)) [
        | inl (e, h) ↦ inl (e, rw (h, settle_payment) refl)
        | inr (some r, h) ↦ inr (inl (r, h, rw (h, settle_payment) refl))
        | inr (none, h) ↦ elim (Result-cases (stage_payment follows s f p)) [
          | inl (e, h') ↦ inl (e, rw (h, settle_payment) (rw h' refl))
          | inr (g, h') ↦ inr (inr (g, h, h', rw (h, settle_payment) (rw h' refl)))
        ]
      ]

pub settle_refund_outcomes :
    (s : BillingStore) (f : Fresh) (p : RefundParams)
    → ((e : BillingReason) × (settle_refund s f p ≡ (s, err e)))
      ⊎ (((r : BillingResult) × (replay s refund p.order_id p.idempotency_key p.request_hash none
                p.provider_reference
              ≡ ok (some r))
            × (settle_refund s f p ≡ (s, ok r)))
          ⊎ ((g : Staged) × (replay s refund p.order_id p.idempotency_key p.request_hash none
                  p.provider_reference
                ≡ ok none)
              × (stage_refund s f p ≡ ok g)
              × (settle_refund s f p ≡ (commit_refund s f p g, ok g.result))))
unfolding settle_refund
settle_refund_outcomes s f p =
    elim (Result-cases
      (replay s refund p.order_id p.idempotency_key p.request_hash none p.provider_reference)) [
        | inl (e, h) ↦ inl (e, rw (h, settle_refund) refl)
        | inr (some r, h) ↦ inr (inl (r, h, rw (h, settle_refund) refl))
        | inr (none, h) ↦ elim (Result-cases (stage_refund s f p)) [
          | inl (e, h') ↦ inl (e, rw (h, settle_refund) (rw h' refl))
          | inr (g, h') ↦ inr (inr (g, h, h', rw (h, settle_refund) (rw h' refl)))
        ]
      ]

-- The same, where the store is left as it was in either of the first two ways.
pub settle_payment_cases :
    (follows : String → String → Bool) (s : BillingStore) (f : Fresh) (p : PaymentParams)
    → ((settle_payment follows s f p).0 ≡ s)
      ⊎ ((g : Staged) × (replay s payment p.order_id p.idempotency_key p.request_hash p.method
              p.provider_reference
            ≡ ok none)
          × (stage_payment follows s f p ≡ ok g)
          × (settle_payment follows s f p ≡ (commit_payment s g, ok g.result)))
settle_payment_cases follows s f p = elim (settle_payment_outcomes follows s f p) [
  | inl (e, h) ↦ inl (rw h refl)
  | inr (inl (r, _, h)) ↦ inl (rw h refl)
  | inr (inr made) ↦ inr made
]

pub settle_refund_cases :
    (s : BillingStore) (f : Fresh) (p : RefundParams)
    → ((settle_refund s f p).0 ≡ s)
      ⊎ ((g : Staged) × (replay s refund p.order_id p.idempotency_key p.request_hash none
              p.provider_reference
            ≡ ok none)
          × (stage_refund s f p ≡ ok g)
          × (settle_refund s f p ≡ (commit_refund s f p g, ok g.result)))
settle_refund_cases s f p = elim (settle_refund_outcomes s f p) [
  | inl (e, h) ↦ inl (rw h refl)
  | inr (inl (r, _, h)) ↦ inl (rw h refl)
  | inr (inr made) ↦ inr made
]
