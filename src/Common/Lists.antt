-- ===== src/Common/Lists.antt =====
-- Lists measured by native numbers, filters by a test, a stable sort, and quantifiers over lists.
use Prim.Native.Nat.{ℕ, zero, suc, ◌+◌, ◌≤◌}
use mathlib.Core.Path.{◌≡◌, refl}
use mathlib.Core.Bool.{Bool, true, false, ◌&&◌, ◌||◌}
use mathlib.Core.List.{List, [], ◌∷◌, ◌++◌}
use mathlib.Core.Option.{Option, none, some}
use mathlib.Core.Logic.{inl, inr}
use native.Mathlib.Omega.{arith}
use longhub_platform.Common.Tests.{if◌then◌else◌, Bool-cases}

-- 1 for a test that passes, 0 for one that does not.
abbrev pub bit : Bool → ℕ
bit true = 1
bit false = 0

module _ {ℓ} {A : Type ℓ} where
  abbrev pub length : List A → ℕ
  length [] = 0
  length (x ∷ xs) = suc (length xs)

  abbrev pub take : ℕ → List A → List A
  take zero xs = []
  take (suc n) [] = []
  take (suc n) (x ∷ xs) = x ∷ take n xs

  -- `Array.prototype.filter`, `some` and `every`.
  abbrev pub select : (A → Bool) → List A → List A
  select p [] = []
  select p (x ∷ xs) = if p x then x ∷ select p xs else select p xs

  abbrev pub any : (A → Bool) → List A → Bool
  any p [] = false
  any p (x ∷ xs) = p x || any p xs

  abbrev pub all : (A → Bool) → List A → Bool
  all p [] = true
  all p (x ∷ xs) = p x && all p xs

  abbrev pub count : (A → Bool) → List A → ℕ
  count p [] = 0
  count p (x ∷ xs) = bit (p x) + count p xs

  abbrev pub head? : List A → Option A
  head? [] = none
  head? (x ∷ xs) = some x

  -- The place of an element that came earlier: in front of all that it does not follow.
  unfoldable pub insert_by : (A → A → Bool) → A → List A → List A
  insert_by precedes x [] = x ∷ []
  insert_by precedes x (y ∷ ys) = if precedes x y then x ∷ y ∷ ys else y ∷ insert_by precedes x ys

  -- A stable sort, as `Array.prototype.sort` is.
  unfoldable pub sort_by : (A → A → Bool) → List A → List A
  unfolding insert_by
  sort_by precedes [] = []
  sort_by precedes (x ∷ xs) = insert_by precedes x (sort_by precedes xs)

  pub length-append : (xs ys : List A) → length (xs ++ ys) ≡ length xs + length ys
  length-append [] ys = omega arith
  length-append (x ∷ xs) ys = omega (arith, length-append xs ys)

  pub length-select : (p : A → Bool) (xs : List A) → length (select p xs) ≡ count p xs
  length-select p [] = refl
  length-select p (x ∷ xs) = ground (arith, length-select p xs)

  pub count-select :
      (p q : A → Bool) (xs : List A) → count q (select p xs) ≡ count (λ x. p x && q x) xs
  count-select p q [] = refl
  count-select p q (x ∷ xs) = ground (arith, count-select p q xs)

  pub count-append : (p : A → Bool) (xs ys : List A) → count p (xs ++ ys) ≡ count p xs + count p ys
  count-append p [] ys = omega arith
  count-append p (x ∷ xs) ys = omega (arith, count-append p xs ys)

  pub length-take-le : (n : ℕ) (xs : List A) → length (take n xs) ≤ n
  length-take-le zero xs = omega arith
  length-take-le (suc n) [] = omega arith
  length-take-le (suc n) (x ∷ xs) = omega (arith, length-take-le n xs)

  count-insert_by :
      (precedes : A → A → Bool) (p : A → Bool) (x : A) (xs : List A)
      → count p (insert_by precedes x xs) ≡ bit (p x) + count p xs
  unfolding insert_by
  count-insert_by precedes p x [] = refl
  count-insert_by precedes p x (y ∷ ys) = ground (arith, count-insert_by precedes p x ys)

  pub count-sort_by :
      (precedes : A → A → Bool) (p : A → Bool) (xs : List A)
      → count p (sort_by precedes xs) ≡ count p xs
  unfolding sort_by
  count-sort_by precedes p [] = refl
  count-sort_by precedes p (x ∷ xs) =
      omega (arith, count-insert_by precedes p x (sort_by precedes xs), count-sort_by precedes p xs)

module _ {ℓ κ} {A : Type ℓ} where
  abbrev pub All : (A → Type κ) → List A → Type κ
  All P [] = Unit
  All P (x ∷ xs) = P x × All P xs

module _ {ℓ κ} {A : Type ℓ} (P : A → Type κ) where
  pub All-insert_by :
      (precedes : A → A → Bool) (x : A) (xs : List A)
      → P x
      → All P xs
      → All P (insert_by precedes x xs)
  unfolding insert_by
  All-insert_by precedes x [] h t = (h, tt)
  All-insert_by precedes x (y ∷ ys) h (g, t) = elim (Bool-cases (precedes x y)) [
    | inl e ↦ rw e (h, (g, t))
    | inr e ↦ rw e (g, All-insert_by precedes x ys h t)
  ]

  pub All-sort_by : (precedes : A → A → Bool) (xs : List A) → All P xs → All P (sort_by precedes xs)
  unfolding sort_by
  All-sort_by precedes [] t = tt
  All-sort_by precedes (x ∷ xs) (h, t) =
      All-insert_by precedes x (sort_by precedes xs) h (All-sort_by precedes xs t)

  pub All-take : (n : ℕ) (xs : List A) → All P xs → All P (take n xs)
  All-take zero xs t = tt
  All-take (suc n) [] t = tt
  All-take (suc n) (x ∷ xs) (h, t) = (h, All-take n xs t)

  -- What is selected passes the test, and keeps what held of all.
  pub All-select : (p : A → Bool) (xs : List A) → ((x : A) → p x ≡ true → P x) → All P (select p xs)
  All-select p [] f = tt
  All-select p (x ∷ xs) f = elim (Bool-cases (p x)) [
    | inl e ↦ rw e (f x e, All-select p xs f)
    | inr e ↦ rw e (All-select p xs f)
  ]
