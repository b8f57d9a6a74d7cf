-- ===== src/Common/Sorting.antt =====
-- The stable sort and the filter of lists: what they keep, and the order of what they give.
use mathlib.Core.Path.{◌≡◌, sym, ◌∙◌, ap, subst, refl}
use mathlib.Core.Logic.{inl, inr}
use mathlib.Core.Bool.{Bool, true, false}
use mathlib.Core.List.{List, [], ◌∷◌, Memᴰ}
use mathlib.Core.List.Memᴰ
use Prim.Native.Nat.{◌+◌}
use native.Mathlib.Omega.{arith}
use longhub_platform.Common.Tests.{Bool-cases}
use longhub_platform.Common.Lists.{All, select, sort_by, insert_by, All-insert_by, count, bit}

module _ {ℓ} {A : Type ℓ} where
  pub mem-select :
      (p : A → Bool) (a : A) (xs : List A) → Memᴰ a xs → p a ≡ true → Memᴰ a (select p xs)
  mem-select p a [] m h = elim m [ ]
  mem-select p a (x ∷ xs) (Memᴰ.head e) h =
      let pass : p x ≡ true = ap p (sym e) ∙ h in rw pass (Memᴰ.head e)
  mem-select p a (x ∷ xs) (Memᴰ.tail m) h = elim (Bool-cases (p x)) [
    | inl pass ↦ rw pass (Memᴰ.tail (mem-select p a xs m h))
    | inr fail ↦ rw fail (mem-select p a xs m h)
  ]

  pub mem_of_select :
      (p : A → Bool) (a : A) (xs : List A) → Memᴰ a (select p xs) → Memᴰ a xs × (p a ≡ true)
  mem_of_select p a [] m = elim m [ ]
  mem_of_select p a (x ∷ xs) m = elim (Bool-cases (p x)) [
    | inl pass ↦
        let m' : Memᴰ a (x ∷ select p xs) = rw pass at m in
        elim (Memᴰ.cases_cons m') [
          | inl e ↦ (Memᴰ.head e, ap p e ∙ pass)
          | inr t ↦ let (t', h) = mem_of_select p a xs t in (Memᴰ.tail t', h)
        ]
    | inr fail ↦ let (t', h) = mem_of_select p a xs (rw fail at m) in (Memᴰ.tail t', h)
  ]

  mem-insert_by :
      (precedes : A → A → Bool) (a x : A) (xs : List A)
      → Memᴰ a (x ∷ xs)
      → Memᴰ a (insert_by precedes x xs)
  unfolding insert_by
  mem-insert_by precedes a x [] m = m
  mem-insert_by precedes a x (y ∷ ys) m = elim (Bool-cases (precedes x y)) [
    | inl e ↦ rw e m
    | inr e ↦ rw e (elim (Memᴰ.cases_cons m) [
      | inl h ↦ Memᴰ.tail (mem-insert_by precedes a x ys (Memᴰ.head h))
      | inr t ↦ elim (Memᴰ.cases_cons t) [
        | inl h ↦ Memᴰ.head h
        | inr t' ↦ Memᴰ.tail (mem-insert_by precedes a x ys (Memᴰ.tail t'))
      ]
    ])
  ]

  mem_of_insert_by :
      (precedes : A → A → Bool) (a x : A) (xs : List A)
      → Memᴰ a (insert_by precedes x xs)
      → Memᴰ a (x ∷ xs)
  unfolding insert_by
  mem_of_insert_by precedes a x [] m = m
  mem_of_insert_by precedes a x (y ∷ ys) m = elim (Bool-cases (precedes x y)) [
    | inl e ↦ rw e at m
    | inr e ↦
        let m' : Memᴰ a (y ∷ insert_by precedes x ys) = rw e at m in
        elim (Memᴰ.cases_cons m') [
          | inl h ↦ Memᴰ.tail (Memᴰ.head h)
          | inr t ↦ elim (Memᴰ.cases_cons (mem_of_insert_by precedes a x ys t)) [
            | inl h ↦ Memᴰ.head h
            | inr t' ↦ Memᴰ.tail (Memᴰ.tail t')
          ]
        ]
  ]

  pub mem-sort_by :
      (precedes : A → A → Bool) (a : A) (xs : List A) → Memᴰ a xs → Memᴰ a (sort_by precedes xs)
  unfolding sort_by
  mem-sort_by precedes a [] m = m
  mem-sort_by precedes a (x ∷ xs) m =
      mem-insert_by precedes a x (sort_by precedes xs) (elim (Memᴰ.cases_cons m) [
        | inl h ↦ Memᴰ.head h
        | inr t ↦ Memᴰ.tail (mem-sort_by precedes a xs t)
      ])

  pub mem_of_sort_by :
      (precedes : A → A → Bool) (a : A) (xs : List A) → Memᴰ a (sort_by precedes xs) → Memᴰ a xs
  unfolding sort_by
  mem_of_sort_by precedes a [] m = m
  mem_of_sort_by precedes a (x ∷ xs) m =
      elim (Memᴰ.cases_cons (mem_of_insert_by precedes a x (sort_by precedes xs) m)) [
        | inl h ↦ Memᴰ.head h
        | inr t ↦ Memᴰ.tail (mem_of_sort_by precedes a xs t)
      ]

  count-insert_by :
      (precedes : A → A → Bool) (p : A → Bool) (x : A) (xs : List A)
      → count p (insert_by precedes x xs) ≡ count p (x ∷ xs)
  unfolding insert_by
  count-insert_by precedes p x [] = refl
  count-insert_by precedes p x (y ∷ ys) = elim (Bool-cases (precedes x y)) [
    | inl e ↦ rw e refl
    | inr e ↦ rw e (ground (arith, count-insert_by precedes p x ys))
  ]

  -- Sorting keeps how often each element stands in the list.
  pub count-sort_by :
      (precedes : A → A → Bool) (p : A → Bool) (xs : List A)
      → count p (sort_by precedes xs) ≡ count p xs
  unfolding sort_by
  count-sort_by precedes p [] = refl
  count-sort_by precedes p (x ∷ xs) =
      count-insert_by precedes p x (sort_by precedes xs)
      ∙ ap (λ n. bit (p x) + n) (count-sort_by precedes p xs)

  -- A filter keeps all that pass a stronger test.
  pub count-select_kept :
      (q p : A → Bool) (xs : List A)
      → ((x : A) → p x ≡ true → q x ≡ true)
      → count p (select q xs) ≡ count p xs
  count-select_kept q p [] h = refl
  count-select_kept q p (x ∷ xs) h = elim (Bool-cases (q x)) [
    | inl e ↦ rw e (ground (arith, count-select_kept q p xs h))
    | inr e ↦
        let out : p x ≡ false = elim (Bool-cases (p x)) [
          | inl pass ↦ absurd (cc (h x pass))
          | inr fail ↦ fail
        ] in
        rw e (ground (arith, count-select_kept q p xs h))
  ]

module _ {ℓ κ} {A : Type ℓ} where
  pub All-mem : (P : A → Type κ) (a : A) (xs : List A) → All P xs → Memᴰ a xs → P a
  All-mem P a [] t m = elim m [ ]
  All-mem P a (x ∷ xs) t m = elim (Memᴰ.cases_cons m) [
    | inl e ↦ subst P (sym e) t.0
    | inr m' ↦ All-mem P a xs t.1 m'
  ]

  -- Each element stands in the relation to all that follow it.
  abbrev pub Ordered : (A → A → Type κ) → List A → Type (ℓ ⊔ κ)
  Ordered R [] = Unit
  Ordered R (x ∷ xs) = All (R x) xs × Ordered R xs

-- A test that decides the two sides of a transitive relation sorts by it.
module _ {ℓ κ} {A : Type ℓ} (R : A → A → Type κ) (precedes : A → A → Bool)
    (first : (x y : A) → precedes x y ≡ true → R x y)
    (second : (x y : A) → precedes x y ≡ false → R y x)
    (trans : (x y z : A) → R x y → R y z → R x z) where
  All-trans : (x y : A) (ys : List A) → R x y → All (R y) ys → All (R x) ys
  All-trans x y [] h t = tt
  All-trans x y (z ∷ zs) h t = (trans x y z h t.0, All-trans x y zs h t.1)

  Ordered-insert_by : (x : A) (xs : List A) → Ordered R xs → Ordered R (insert_by precedes x xs)
  unfolding insert_by
  Ordered-insert_by x [] t = (tt, tt)
  Ordered-insert_by x (y ∷ ys) t = elim (Bool-cases (precedes x y)) [
    | inl e ↦ rw e ((first x y e, All-trans x y ys (first x y e) t.0), t)
    | inr e ↦
        rw e (All-insert_by (R y) precedes x ys (second x y e) t.0, Ordered-insert_by x ys t.1)
  ]

  pub Ordered-sort_by : (xs : List A) → Ordered R (sort_by precedes xs)
  unfolding sort_by
  Ordered-sort_by [] = tt
  Ordered-sort_by (x ∷ xs) = Ordered-insert_by x (sort_by precedes xs) (Ordered-sort_by xs)
