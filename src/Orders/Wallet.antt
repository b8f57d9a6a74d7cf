-- ===== src/Orders/Wallet.antt =====
-- The wallet: a balance against the transactions that made it. The methods of
-- apps/longhub-cloud-api/src/memory-store.ts keep the two apart; here they are one account.
use longhub_platform.Common.{
  ℕ, String, Option, none, some, List, [], ◌∷◌, ◌++◌, ◌≡◌, ◌≢◌, refl, sym, ◌=s◌, ◌⊎◌, inl, inr,
  arith, if◌then◌else◌, Bool-cases, Option-cases, =s_refl,
}
use mathlib.Core.List.{append_assoc, append-nil}
use longhub_platform.Common.Int.{ℤ, pos, negsuc, ◌+ℤ◌}
use longhub_platform.Common.Keyed
use longhub_platform.Common.Keyed.{Keyed}
use longhub_platform.Orders.{
  User, UserStatus, Transaction, Shop, TransactionParams, new_user, post, create_user,
  set_user_status, add_wallet_transaction,
}

-- The account of a user after one more transaction.
abbrev pub entered : String → ℤ → Transaction → ℤ
entered id z t = if t.user_id =s id then z +ℤ t.amount_fen else z

abbrev pub running : String → ℤ → List Transaction → ℤ
running id z [] = z
running id z (t ∷ ts) = running id (entered id z t) ts

-- The sum of a user's transactions.
abbrev pub total : String → List Transaction → ℤ
total id = running id (pos 0)

abbrev pub balance_of : Option User → ℤ
balance_of none = pos 0
balance_of (some u) = pos u.balance_fen

-- Each transaction says what the account is when it is entered, the earlier ones being `before`.
abbrev pub Chained : List Transaction → List Transaction → Type 0
Chained before [] = Unit
Chained before (t ∷ ts) =
    (total t.user_id (before ++ t ∷ []) ≡ pos t.balance_after_fen) × Chained (before ++ t ∷ []) ts

-- Each user stands under its own name, its balance is the sum of its transactions, a name that no
-- user has has none, and every transaction says what the balance was then.
pub record IsAudited (users : Keyed User) (ts : List Transaction) : Type 0 where
  pub named : (id : String) (u : User) → Keyed.get id users ≡ some u → u.user_id ≡ id
  pub balanced : (id : String) → balance_of (Keyed.get id users) ≡ total id ts
  pub chained : Chained [] ts

pub running-append :
    (id : String) (z : ℤ) (ts : List Transaction) (t : Transaction)
    → running id z (ts ++ t ∷ []) ≡ entered id (running id z ts) t
running-append id z [] t = refl
running-append id z (x ∷ xs) t = running-append id (entered id z x) xs t

Chained-append :
    (before ts : List Transaction) (t : Transaction)
    → Chained before ts
    → total t.user_id ((before ++ ts) ++ t ∷ []) ≡ pos t.balance_after_fen
    → Chained before (ts ++ t ∷ [])
Chained-append before [] t c e = (rw append-nil at e, tt)
Chained-append before (x ∷ xs) t c e =
    (c.0, Chained-append (before ++ x ∷ []) xs t c.1 (rw (append_assoc before (x ∷ []) xs) e))

sign : (z : ℤ) → ((n : ℕ) × (z ≡ pos n)) ⊎ ((n : ℕ) × (z ≡ negsuc n))
sign (pos n) = inl (n, refl)
sign (negsuc n) = inr (n, refl)

-- One more transaction of a user whose balance it moves.
pub entered-IsAudited :
    (users users' : Keyed User) (ts : List Transaction) (t : Transaction) (u u' : User)
    → IsAudited users ts
    → Keyed.get t.user_id users ≡ some u
    → pos u.balance_fen +ℤ t.amount_fen ≡ pos t.balance_after_fen
    → Keyed.get t.user_id users' ≡ some u'
    → u'.user_id ≡ t.user_id
    → u'.balance_fen ≡ t.balance_after_fen
    → ((j : String) → t.user_id ≢ j → Keyed.get j users' ≡ Keyed.get j users)
    → IsAudited users' (ts ++ t ∷ [])
entered-IsAudited users users' ts t u u' v found moved found' same_name after others = record {
  named = λ id w e. elim (Bool-cases (t.user_id =s id)) [
    | inl same ↦ ground arith
    | inr other ↦ v.named id w (ground (arith, others id))
  ];
  balanced = λ id. elim (Bool-cases (t.user_id =s id)) [
    | inl same ↦ ground (arith, running-append id (pos 0) ts t, v.balanced id)
    | inr other ↦ ground (arith, running-append id (pos 0) ts t, v.balanced id, others id)
  ];
  chained = Chained-append [] ts t v.chained (
      ground
        (arith, running-append t.user_id (pos 0) ts t, v.balanced t.user_id, =s_refl t.user_id));
}

-- The same where the new balance is written into the user's row.
pub set-IsAudited :
    (users : Keyed User) (ts : List Transaction) (t : Transaction) (k : String) (u : User)
    → IsAudited users ts
    → k ≡ t.user_id
    → Keyed.get t.user_id users ≡ some u
    → pos u.balance_fen +ℤ t.amount_fen ≡ pos t.balance_after_fen
    → IsAudited (Keyed.set k (record u { balance_fen = t.balance_after_fen }) users) (ts ++ t ∷ [])
set-IsAudited users ts t k u v same found moved =
    let u' = record u { balance_fen = t.balance_after_fen } in
    let users' = Keyed.set k u' users in
    entered-IsAudited users users' ts t u u' v found moved
      (rw (sym same) (Keyed.get-set_self k u' users)) (v.named t.user_id u found) refl
      (λ j h. Keyed.get-set_ne k j u' users (rw same h))

-- The rows that `addWalletTransaction` writes.
add_wallet_transaction_cases :
    (s : Shop) (uuid : String) (now : ℕ) (p : TransactionParams)
    → ((add_wallet_transaction s uuid now p).0 ≡ s)
      ⊎ ((u : User) × (next : ℕ) × (Keyed.get p.user_id s.users ≡ some u)
          × (pos u.balance_fen +ℤ p.amount_fen ≡ pos next)
          × ((add_wallet_transaction s uuid now p).0 ≡ (post s uuid now p u (pos next)).0))
unfolding add_wallet_transaction
add_wallet_transaction_cases s uuid now p = elim (Option-cases (Keyed.get p.user_id s.users)) [
  | inl e ↦ inl (rw (e, add_wallet_transaction) refl)
  | inr (u, e) ↦ elim (sign (pos u.balance_fen +ℤ p.amount_fen)) [
    | inl (next, e') ↦ inr (u, next, e, e', rw (e, add_wallet_transaction) (rw e' refl))
    | inr (n, e') ↦ inl (rw (e, add_wallet_transaction) (rw e' refl))
  ]
]

pub add_wallet_transaction-IsAudited :
    (s : Shop) (uuid : String) (now : ℕ) (p : TransactionParams)
    → IsAudited s.users s.transactions
    → IsAudited
        (add_wallet_transaction s uuid now p).0.users
        (add_wallet_transaction s uuid now p).0.transactions
add_wallet_transaction-IsAudited s uuid now p v = elim (add_wallet_transaction_cases s uuid now p) [
  | inl same ↦ rw same v
  | inr (u, next, found, moved, wrote) ↦
      rw wrote (set-IsAudited s.users s.transactions _ p.user_id u v refl found moved)
]

-- Rows that keep each name and each balance.
kept-IsAudited :
    (users : Keyed User) (ts : List Transaction) (k : String) (u' : User)
    → IsAudited users ts
    → u'.user_id ≡ k
    → u'.balance_fen ≡ (elim (Keyed.get k users) [ none ↦ 0 | some u ↦ u.balance_fen ])
    → IsAudited (Keyed.set k u' users) ts
kept-IsAudited users ts k u' v same_name same_balance = record {
  named = λ id w e. ground (arith, Keyed.get-set k id u' users, v.named id w);
  balanced = λ id. ground (arith, Keyed.get-set k id u' users, v.balanced id);
  chained = v.chained;
}

pub set_user_status-IsAudited :
    (s : Shop) (id : String) (status : UserStatus)
    → IsAudited s.users s.transactions
    → IsAudited (set_user_status s id status).0.users (set_user_status s id status).0.transactions
unfolding set_user_status
set_user_status-IsAudited s id status v = elim (Option-cases (Keyed.get id s.users)) [
  | inl e ↦ rw (e, set_user_status) v
  | inr (u, e) ↦
      rw (e, set_user_status)
        (kept-IsAudited s.users s.transactions id (record u { status = status }) v (v.named id u e)
          (rw e refl))
]

create_user_cases :
    (s : Shop) (uuid : String) (now : ℕ) (email hash : String)
    → ((create_user s uuid now email hash).0 ≡ s)
      ⊎ ((create_user s uuid now email hash).0 ≡ record s {
        users =
            Keyed.set (new_user uuid now email hash).user_id (new_user uuid now email hash) s.users;
      })
unfolding create_user
create_user_cases s uuid now email hash = ground arith

-- A new user has no transactions yet, since its name is fresh.
pub create_user-IsAudited :
    (s : Shop) (uuid : String) (now : ℕ) (email hash : String)
    → Keyed.get (new_user uuid now email hash).user_id s.users ≡ none
    → IsAudited s.users s.transactions
    → IsAudited
        (create_user s uuid now email hash).0.users
        (create_user s uuid now email hash).0.transactions
create_user-IsAudited s uuid now email hash fresh v =
    elim (create_user_cases s uuid now email hash) [
      | inl same ↦ rw same v
      | inr wrote ↦ rw wrote (
          kept-IsAudited s.users s.transactions _ (new_user uuid now email hash) v refl
            (rw fresh refl))
    ]
