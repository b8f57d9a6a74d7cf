-- ===== src/Policy/Merging.antt =====
-- What merging keeps of each merged value: the helpers of
-- packages/longhub-feature-policy/src/resolution.ts on lists.
use mathlib.Core.List.{Memᴰ}
use mathlib.Core.List.Memᴰ
use longhub_platform.Common.{
  ℕ, ◌≤◌, min, String, Bool, true, false, not, Option, some, List, [], ◌∷◌, map, ◌≡◌, refl, ◌∙◌,
  sym, ap, ◌⊎◌, inl, inr, arith, any, all, ltb, ◌=s◌, if◌then◌else◌, Bool-cases, Option-cases,
}
use longhub_platform.Common.Sorting.{mem-select, mem-sort_by}
use longhub_platform.Policy.{
  Entry, Context, least, highest, fewest, flat, distinct, union_sorted, applicable_entries,
  is_applicable,
}

module _ {A : Type 0} where
  pub all-mem : (p : A → Bool) (x : A) (xs : List A) → all p xs ≡ true → Memᴰ x xs → p x ≡ true
  all-mem p x [] h m = elim m [ ]
  all-mem p x (y ∷ ys) h (Memᴰ.head e) = let here : p y ≡ true = ground arith in ap p e ∙ here
  all-mem p x (y ∷ ys) h (Memᴰ.tail m) = all-mem p x ys (ground arith) m

  pub any-mem : (p : A → Bool) (x : A) (xs : List A) → any p xs ≡ false → Memᴰ x xs → p x ≡ false
  any-mem p x [] h m = elim m [ ]
  any-mem p x (y ∷ ys) h (Memᴰ.head e) = let here : p y ≡ false = ground arith in ap p e ∙ here
  any-mem p x (y ∷ ys) h (Memᴰ.tail m) = any-mem p x ys (ground arith) m

  -- The least of some limits is there where one of them is, and is at most that one.
  pub least-le :
      (f : A → Option ℕ) (x : A) (xs : List A) (n : ℕ)
      → Memᴰ x xs
      → f x ≡ some n
      → (m : ℕ) × (least (map f xs) ≡ some m) × (m ≤ n)
  unfolding least
  least-le f x [] n m h = elim m [ ]
  least-le f x (y ∷ ys) n (Memᴰ.head e) h =
      let here : f y ≡ some n = ap f (sym e) ∙ h in
      rw here (elim (Option-cases (least (map f ys))) [
        | inl none_there ↦ rw none_there (n, refl, omega arith)
        | inr (k, there) ↦ rw there (min n k, refl, omega arith)
      ])
  least-le f x (y ∷ ys) n (Memᴰ.tail m) h =
      let (k, found, le) = least-le f x ys n m h in
      elim (Option-cases (f y)) [
        | inl e ↦ rw e (k, found, le)
        | inr (j, e) ↦ rw e (rw found (min j k, refl, omega arith))
      ]

module _ {A : Type 0} (rank : A → ℕ) where
  pub highest-start : (h : A) (vs : List A) → rank h ≤ rank (highest rank h vs)
  unfolding highest
  highest-start h [] = omega arith
  highest-start h (v ∷ vs) = elim (Bool-cases (ltb (rank h) (rank v))) [
    | inl up ↦ let next = highest-start v vs in rw up (ground arith)
    | inr stay ↦ rw stay (highest-start h vs)
  ]

  pub highest-le : (h v : A) (vs : List A) → Memᴰ v (h ∷ vs) → rank v ≤ rank (highest rank h vs)
  unfolding highest
  highest-le h v vs (Memᴰ.head e) = rw e (highest-start h vs)
  highest-le h v [] (Memᴰ.tail m) = elim m [ ]
  highest-le h v (w ∷ ws) (Memᴰ.tail m) = elim (Bool-cases (ltb (rank h) (rank w))) [
    | inl up ↦ rw up (highest-le w v ws m)
    | inr stay ↦ rw stay (elim (Memᴰ.cases_cons m) [
      | inl e ↦
          let start = highest-start h ws in let same : rank v ≡ rank w = ap rank e in ground arith
      | inr t ↦ highest-le h v ws (Memᴰ.tail t)
    ])
  ]

pub fewest-start : (n : ℕ) (ms : List ℕ) → fewest n ms ≤ n
unfolding fewest
fewest-start n [] = omega arith
fewest-start n (m ∷ ms) = omega (arith, fewest-start (min n m) ms)

pub fewest-le : (n k : ℕ) (ms : List ℕ) → Memᴰ k (n ∷ ms) → fewest n ms ≤ k
unfolding fewest
fewest-le n k ms (Memᴰ.head e) = omega (arith, fewest-start n ms, e)
fewest-le n k [] (Memᴰ.tail m) = elim m [ ]
fewest-le n k (j ∷ ms) (Memᴰ.tail m) = elim (Memᴰ.cases_cons m) [
  | inl e ↦ omega (arith, fewest-start (min n j) ms, e)
  | inr t ↦ fewest-le (min n j) k ms (Memᴰ.tail t)
]

mem-distinct : (x : String) (xs : List String) → Memᴰ x xs → Memᴰ x (distinct xs)
unfolding distinct
mem-distinct x [] m = elim m [ ]
mem-distinct x (y ∷ ys) m = elim (Bool-cases (x =s y)) [
  | inl same ↦ Memᴰ.head (ground arith)
  | inr other ↦ elim (Memᴰ.cases_cons m) [
    | inl e ↦ Memᴰ.head e
    | inr t ↦
        Memᴰ.tail
          (mem-select (λ z. not (z =s y)) x (distinct ys) (mem-distinct x ys t) (rw other refl))
  ]
]

mem-flat :
    (x : String) (xs : List String) (xss : List (List String))
    → Memᴰ xs xss
    → Memᴰ x xs
    → Memᴰ x (flat xss)
mem-flat x xs [] m h = elim m [ ]
mem-flat x xs (ys ∷ yss) (Memᴰ.head e) h = Memᴰ.append_left (flat yss) (rw e at h)
mem-flat x xs (ys ∷ yss) (Memᴰ.tail m) h = Memᴰ.append_right ys (mem-flat x xs yss m h)

-- A requirement of one entry is a requirement of the union.
pub mem-union_sorted :
    (follows : String → String → Bool) (x : String) (xs : List String) (xss : List (List String))
    → Memᴰ xs xss
    → Memᴰ x xs
    → Memᴰ x (union_sorted follows xss)
mem-union_sorted follows x xs xss m h =
    mem-sort_by follows x (distinct (flat xss)) (mem-distinct x (flat xss) (mem-flat x xs xss m h))

-- How the entries that are kept begin.
kept_cases :
    (id : String) (c : Context) (x : Entry) (xs kept : List Entry)
    → applicable_entries id c (x ∷ xs) ≡ some kept
    → (((x.feature_id =s id) ≡ false) × (applicable_entries id c xs ≡ some kept))
      ⊎ ((applies : Bool) × (more : List Entry) × (is_applicable x c ≡ some applies)
          × (applicable_entries id c xs ≡ some more)
          × (kept ≡ (if applies then x ∷ more else more)))
unfolding applicable_entries
kept_cases id c x xs kept h = elim (Bool-cases (x.feature_id =s id)) [
  | inr other ↦ inl (other, ground arith)
  | inl same ↦ elim (Option-cases (is_applicable x c)) [
    | inl e ↦ absurd (ground arith)
    | inr (applies, e) ↦ elim (Option-cases (applicable_entries id c xs)) [
      | inl e' ↦ absurd (ground arith)
      | inr (more, e') ↦ inr (applies, more, e, e', ground arith)
    ]
  ]
]

kept_later :
    (applies : Bool) (e x : Entry) (more : List Entry)
    → Memᴰ e more
    → Memᴰ e (if applies then x ∷ more else more)
kept_later true e x more m = Memᴰ.tail m
kept_later false e x more m = m

-- An entry of the feature that applies is among the applicable ones.
pub mem-applicable_entries :
    (id : String) (c : Context) (e : Entry) (es kept : List Entry)
    → applicable_entries id c es ≡ some kept
    → Memᴰ e es
    → e.feature_id ≡ id
    → is_applicable e c ≡ some true
    → Memᴰ e kept
mem-applicable_entries id c e [] kept h m same fits = elim m [ ]
mem-applicable_entries id c e (x ∷ xs) kept h (Memᴰ.head h') same fits =
    elim (kept_cases id c x xs kept h) [
      | inl (other, rest) ↦
          let named : x.feature_id ≡ id = ap (λ (y : Entry). y.feature_id) (sym h') ∙ same in
          absurd (ground arith)
      | inr (applies, more, test, rest, made) ↦
          let both : some true ≡ some applies =
            sym fits ∙ ap (λ (y : Entry). is_applicable y c) h' ∙ test in
          let yes_ : applies ≡ true = cc in rw (made, yes_) (Memᴰ.head h')
    ]
mem-applicable_entries id c e (x ∷ xs) kept h (Memᴰ.tail m) same fits =
    elim (kept_cases id c x xs kept h) [
      | inl (other, rest) ↦ mem-applicable_entries id c e xs kept rest m same fits
      | inr (applies, more, test, rest, made) ↦
          rw made
            (kept_later applies e x more (mem-applicable_entries id c e xs more rest m same fits))
    ]
