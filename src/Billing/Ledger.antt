-- ===== src/Billing/Ledger.antt =====
-- The books balance through every run of settlements and wallet calls of `MemoryStore` in
-- apps/longhub-cloud-api/src/memory-store.ts.
use longhub_platform.Common.{
  ℕ, ◌+◌, true, Option, none, some, List, ◌≡◌, refl, inl, inr, arith, Bool-cases,
}
use longhub_platform.Common.Int.{ℤ, pos, ◌+ℤ◌}
use longhub_platform.Common.Keyed
use longhub_platform.Common.Keyed.{Keyed}
use longhub_platform.Orders.{User, Order, Transaction, create_order}
use longhub_platform.Orders.Names.{update_order_cases}
use longhub_platform.Orders.Wallet.{
  IsAudited, entered-IsAudited, set-IsAudited, add_wallet_transaction-IsAudited,
  create_user-IsAudited, set_user_status-IsAudited,
}
use longhub_platform.Billing.{BillingStore, Fresh}
use longhub_platform.Billing.Payment.{
  Movement, movement, delta_of, transaction_of, moved_transaction, moved_account, write_account,
  write_transaction, is_zero,
}
use longhub_platform.Billing.Refund.{refund_transaction}
use longhub_platform.Billing.Cases.{
  stage_payment-IsStaged, stage_refund-IsStaged, settle_payment_cases, settle_refund_cases,
}
use longhub_platform.Billing.Steps.{
  Step, Reach, pays, refunds, signs_up, sets_status, transacts, orders, reorders, elsewhere, here,
  next,
}

abbrev pub Audited : BillingStore → Type 0
Audited s = IsAudited s.shop.users s.shop.transactions

is_zero-eq : (z : ℤ) → is_zero z ≡ true → z ≡ pos 0
is_zero-eq z h = ground arith

add_pos : (n m : ℕ) → pos n +ℤ pos m ≡ pos (n + m)
unfolding ◌+ℤ◌
add_pos n m = ground arith

add-zero : (n m : ℕ) → pos n +ℤ pos 0 ≡ pos m → n ≡ m
unfolding ◌+ℤ◌
add-zero n m h = ground arith

-- The rows of one movement, with the account that they leave.
moved-IsAudited :
    (users : Keyed User) (ts : List Transaction) (f : Fresh) (o : Order) (u : User) (after : ℕ)
    (m : Option Movement)
    → Keyed.get o.user_id users ≡ some u
    → pos u.balance_fen +ℤ delta_of m ≡ pos after
    → IsAudited users ts
    → IsAudited
        (write_account (moved_account u after (delta_of m)) users)
        (write_transaction (moved_transaction f o after m) ts)
moved-IsAudited users ts f o u after none found moved v = v
moved-IsAudited users ts f o u after (some m) found moved v =
    elim (Bool-cases (is_zero m.amount_fen)) [
      | inl z ↦ rw z (
          entered-IsAudited users users ts (transaction_of f o after m) u u v found moved found
            (v.named _ u found) (add-zero _ _ (rw (is_zero-eq m.amount_fen z) at moved))
            (λ j h. refl))
      | inr z ↦ rw z (
          set-IsAudited users ts (transaction_of f o after m) u.user_id u v (v.named _ u found)
            found moved)
    ]

-- What every step keeps.
pub Step-IsAudited : {s s' : BillingStore} → Step s s' → Audited s → Audited s'
unfolding create_order
Step-IsAudited (pays follows s f p fresh) v = elim (settle_payment_cases follows s f p) [
  | inl same ↦ rw same v
  | inr (g, none_yet, staged, wrote) ↦
      let (y, after, d, h, _) = stage_payment-IsStaged follows s f p g staged in
      rw (wrote, h.rows)
        (moved-IsAudited s.shop.users s.shop.transactions f y.order y.user after
          (movement y.order y.method) h.valid.account h.enough v)
]
Step-IsAudited (refunds s f p fresh) v = elim (settle_refund_cases s f p) [
  | inl same ↦ rw same v
  | inr (g, none_yet, staged, wrote) ↦
      let (y, d, h, rows, _) = stage_refund-IsStaged s f p g staged in
      rw (wrote, rows)
        (set-IsAudited s.shop.users s.shop.transactions (refund_transaction f y) y.user.user_id
          y.user v (v.named _ y.user h.account) h.account (add_pos _ _))
]
Step-IsAudited (signs_up s uuid now email hash fresh) v =
    create_user-IsAudited s.shop uuid now email hash fresh v
Step-IsAudited (sets_status s id status) v = set_user_status-IsAudited s.shop id status v
Step-IsAudited (transacts s uuid now p) v = add_wallet_transaction-IsAudited s.shop uuid now p v
Step-IsAudited (orders s uuid now p) v = v
Step-IsAudited (reorders s id p) v = elim (update_order_cases s.shop id p) [
  | inl same ↦ rw same v
  | inr (o, e, wrote) ↦ rw wrote v
]
Step-IsAudited (elsewhere s s' h) v = rw (h.users, h.transactions) v

-- From books that balance, every run of payments, refunds, sign-ups, status changes and wallet
-- calls, in any order and whether they succeed or fail, with other calls between them, leads to
-- books that balance: each user has as its balance the sum of its own transactions, a name that has
-- no user has no transactions, and each transaction says what the balance was when it was made.
pub books_balance : {s s' : BillingStore} → Audited s → Reach s s' → Audited s'
books_balance v here = v
books_balance v (next r st) = Step-IsAudited st (books_balance v r)
