-- ===== src/Billing/Reversal.antt =====
-- What the two settlements of apps/longhub-cloud-api/src/memory-store.ts do to each other.
use longhub_platform.Common.{
  ℕ, ◌+◌, String, Bool, false, some, ◌≡◌, refl, sym, ap, ◌∙◌, inl, inr, arith, Bool-cases, ok,
}
use longhub_platform.Common.Int.{pos, ◌+ℤ◌, minus}
use longhub_platform.Common.Keyed
use longhub_platform.Common.Keyed.{Keyed}
use longhub_platform.Orders.{User, balance}
use longhub_platform.Orders.Names.{IsNamed}
use longhub_platform.Billing.{
  BillingStore, BillingResult, Fresh, PaymentParams, RefundParams, Staged,
}
use longhub_platform.Billing.Payment.{
  settle_payment, commit_payment, staged_payment, movement, delta_of, paid_order, moved_account,
  write_account, is_zero,
}
use longhub_platform.Billing.Payment.Checks.{Payable, is_recharge}
use longhub_platform.Billing.Payment.Staging.{Delivery, deliver}
use longhub_platform.Billing.Refund.{
  Refundable, withdraw, settle_refund, commit_refund, staged_refund,
}
use longhub_platform.Billing.Recorded.{of_payment, of_refund, replay-replayed}
use longhub_platform.Billing.Cases.{
  IsPayable, IsRefundable, stage_payment-IsStaged, stage_refund-IsStaged, settle_payment_outcomes,
  settle_refund_outcomes,
}

-- The account's row, taken down by an amount and up again.
restored :
    (users : Keyed User) (k : String) (u u2 : User) (a after : ℕ)
    → Keyed.get k users ≡ some u
    → u.user_id ≡ k
    → pos u.balance_fen +ℤ minus a ≡ pos after
    → Keyed.get k (write_account (moved_account u after (minus a)) users) ≡ some u2
    → (id : String)
    → Keyed.get id (
        Keyed.set u2.user_id
          (record u2 { balance_fen = u2.balance_fen + a })
          (write_account (moved_account u after (minus a)) users))
      ≡ Keyed.get id users
unfolding ◌+ℤ◌
restored users k u u2 a after found name moved found2 id = elim (Bool-cases (is_zero (minus a))) [
  | inl z ↦
      let same : u ≡ u2 = cc (rw z at found2) in
      let none_moved : a ≡ 0 = ground arith in
      rw z (
        ground (
          arith,
          Keyed.get-set u2.user_id id (record u2 { balance_fen = u2.balance_fen + a }) users,
        ))
  | inr z ↦
      let row : User = record u { balance_fen = after } in
      let found2' : Keyed.get k (Keyed.set u.user_id row users) ≡ some u2 = rw z at found2 in
      let same : u2 ≡ row = ground (arith, Keyed.get-set u.user_id k row users) in
      let up : after + a ≡ u.balance_fen = ground arith in
      rw (z, same)
        (ground (
          arith,
          Keyed.get-set u.user_id id (record row { balance_fen = after + a })
              (Keyed.set u.user_id row users),
          Keyed.get-set u.user_id id row users,
        ))
]

-- A payment that went through and was not found made before was staged and written.
pub made_payment :
    (follows : String → String → Bool) (s : BillingStore) (f : Fresh) (p : PaymentParams)
    (r : BillingResult)
    → (settle_payment follows s f p).1 ≡ ok r
    → r.replayed ≡ false
    → (y : Payable) × (after : ℕ) × (d : Delivery) × (IsPayable s p y)
      × (pos y.user.balance_fen +ℤ delta_of (movement y.order y.method) ≡ pos after)
      × (deliver follows s f y ≡ ok d)
      × ((settle_payment follows s f p).0 ≡ commit_payment s (staged_payment f p y after d))
      × (r ≡ (staged_payment f p y after d).result)
made_payment follows s f p r done fresh = elim (settle_payment_outcomes follows s f p) [
  | inl (_, refused) ↦ absurd (cc (rw refused at done))
  | inr (inl (r0, found, same)) ↦
      let e : r0 ≡ r = cc (rw same at done) in
      absurd (cc (replay-replayed s (of_payment p) r0 found))
  | inr (inr (g, _, staged, wrote)) ↦
      let (y, after, d, h, delivered) = stage_payment-IsStaged follows s f p g staged in
      let e : g.result ≡ r = cc (rw wrote at done) in
      (
        y,
        after,
        d,
        h.valid,
        h.enough,
        delivered,
        ap (λ w. w.0) wrote ∙ ap (commit_payment s) h.rows,
        sym e ∙ ap (λ (x : Staged). x.result) h.rows,
      )
]

pub made_refund :
    (s : BillingStore) (f : Fresh) (p : RefundParams) (r : BillingResult)
    → (settle_refund s f p).1 ≡ ok r
    → r.replayed ≡ false
    → (y : Refundable) × (d : Delivery) × (IsRefundable s p y)
      × (withdraw s y.order y.refunded_at ≡ ok d)
      × ((settle_refund s f p).0 ≡ commit_refund s f p (staged_refund f p y d))
      × (r ≡ (staged_refund f p y d).result)
made_refund s f p r done fresh = elim (settle_refund_outcomes s f p) [
  | inl (_, refused) ↦ absurd (cc (rw refused at done))
  | inr (inl (r0, found, same)) ↦
      let e : r0 ≡ r = cc (rw same at done) in
      absurd (cc (replay-replayed s (of_refund p) r0 found))
  | inr (inr (g, _, staged, wrote)) ↦
      let (y, d, h, rows, withdrew) = stage_refund-IsStaged s f p g staged in
      let e : g.result ≡ r = cc (rw wrote at done) in
      (
        y,
        d,
        h,
        withdrew,
        ap (λ w. w.0) wrote ∙ ap (commit_refund s f p) rows,
        sym e ∙ ap (λ (x : Staged). x.result) rows,
      )
]

-- A purchase with the balance and its refund cancel out: where a payment with the balance goes
-- through and then a refund of its order, neither of them found made before, every account is as it
-- was before both. Users and orders stand under their own names before the payment.
pub refund_restores_balances :
    (follows : String → String → Bool) (s : BillingStore) (f f' : Fresh) (p : PaymentParams)
    (q : RefundParams) (r r' : BillingResult) (id : String)
    → ((k : String) (u : User) → Keyed.get k s.shop.users ≡ some u → u.user_id ≡ k)
    → IsNamed s.shop.orders
    → p.method ≡ some balance
    → q.order_id ≡ p.order_id
    → (settle_payment follows s f p).1 ≡ ok r
    → r.replayed ≡ false
    → (settle_refund (settle_payment follows s f p).0 f' q).1 ≡ ok r'
    → r'.replayed ≡ false
    → Keyed.get id (settle_refund (settle_payment follows s f p).0 f' q).0.shop.users
      ≡ Keyed.get id s.shop.users
refund_restores_balances follows s f f' p q r r' id users orders method same done new done' new' =
    let (y, after, d, h, enough, _, wrote, _) = made_payment follows s f p r done new in
    let s1 = commit_payment s (staged_payment f p y after d) in
    let (y', d', h', _, wrote', _) = made_refund s1 f' q r' (rw wrote at done') new' in
    let m : y.method ≡ balance = cc (h.chosen) in
    let kind : is_recharge y.order.type ≡ false = ground (arith, h.no_recharge) in
    let delta : delta_of (movement y.order y.method) ≡ minus y.order.amount_fen =
      rw (m, kind) refl in
    let moved : pos y.user.balance_fen +ℤ minus y.order.amount_fen ≡ pos after =
      rw delta at enough in
    let name : y.order.order_id ≡ q.order_id = orders p.order_id y.order h.ordered ∙ sym same in
    let row : y'.order ≡ paid_order y =
      ground (
        arith,
        h'.ordered,
        Keyed.get-set y.order.order_id q.order_id (paid_order y) s.shop.orders,
      ) in
    let found : Keyed.get y.order.user_id
          (write_account (moved_account y.user after (minus y.order.amount_fen)) s.shop.users)
        ≡ some y'.user =
      rw (row, delta) at (h'.account) in
    ap (λ (t : BillingStore). Keyed.get id (settle_refund t f' q).0.shop.users) wrote
    ∙ (ap (λ (t : BillingStore). Keyed.get id t.shop.users) wrote'
        ∙ rw (row, delta)
            (restored s.shop.users y.order.user_id y.user y'.user y.order.amount_fen after h.account
              (users y.order.user_id y.user h.account) moved found id))
