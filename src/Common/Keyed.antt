-- ===== src/Common/Keyed.antt =====
-- A JavaScript `Map` from texts, in the order of insertion: `set` writes over an entry in its place
-- or adds one at the end, and `values` runs through the entries in order.
use mathlib.Core.Path.{◌≡◌, refl, subst}
use mathlib.Core.Logic.{◌≢◌, inl, inr}
use mathlib.Core.Bool.{Bool, true, false}
use mathlib.Core.List.{List, [], ◌∷◌, map, Memᴰ}
use mathlib.Core.Option
use mathlib.Core.Option.{Option, none, some}
use native.Mathlib.Omega.{arith}
use Prim.Native.Nat.{◌+◌}
use Prim.Native.String.{String}
use longhub_platform.Common.Tests.{if◌then◌else◌, ◌=s◌, Bool-cases}
use longhub_platform.Common.Lists.{count, bit, All}

abbrev pub Keyed {ℓ} : Type ℓ → Type ℓ
Keyed V = List (String × V)

module _ {ℓ} {V : Type ℓ} where
  unfoldable pub get : String → Keyed V → Option V
  get k [] = none
  get k ((j, v) ∷ m) = if j =s k then some v else get k m

  unfoldable pub set : String → V → Keyed V → Keyed V
  set k v [] = (k, v) ∷ []
  set k v ((j, w) ∷ m) = if j =s k then (j, v) ∷ m else (j, w) ∷ set k v m

  unfoldable pub delete : String → Keyed V → Keyed V
  delete k [] = []
  delete k ((j, w) ∷ m) = if j =s k then delete k m else (j, w) ∷ delete k m

  -- The loop that deletes each entry whose value passes a test.
  unfoldable pub delete_where : (V → Bool) → Keyed V → Keyed V
  delete_where p [] = []
  delete_where p ((j, w) ∷ m) = if p w then delete_where p m else (j, w) ∷ delete_where p m

  -- The loop that changes each value in place.
  unfoldable pub update_all : (V → V) → Keyed V → Keyed V
  update_all f [] = []
  update_all f ((j, w) ∷ m) = (j, f w) ∷ update_all f m

  abbrev pub values : Keyed V → List V
  values = map (λ e. e.1)

  pub get-set :
      (k j : String) (v : V) (m : Keyed V)
      → get j (set k v m) ≡ (if k =s j then some v else get j m)
  unfolding get set
  get-set k j v [] = refl
  get-set k j v ((i, w) ∷ m) = ground (arith, get-set k j v m)

  pub get-set_self : (k : String) (v : V) (m : Keyed V) → get k (set k v m) ≡ some v
  get-set_self k v m = ground (arith, get-set k k v m)

  pub get-set_ne : (k j : String) (v : V) (m : Keyed V) → k ≢ j → get j (set k v m) ≡ get j m
  get-set_ne k j v m h = ground (arith, get-set k j v m)

  -- A write at a key that is not there leaves the others.
  pub get-set_kept :
      (k j : String) (v w : V) (m : Keyed V)
      → get k m ≡ some v
      → get j m ≡ none
      → get k (set j w m) ≡ some v
  get-set_kept k j v w m h e = ground (arith, get-set j k w m)

  pub get-delete :
      (k j : String) (m : Keyed V) → get j (delete k m) ≡ (if k =s j then none else get j m)
  unfolding get delete
  get-delete k j [] = ground arith
  get-delete k j ((i, w) ∷ m) = ground (arith, get-delete k j m)

  pub get-update_all :
      (f : V → V) (k : String) (m : Keyed V) → get k (update_all f m) ≡ Option.map f (get k m)
  unfolding get update_all
  get-update_all f k [] = refl
  get-update_all f k ((i, w) ∷ m) = ground (arith, get-update_all f k m)

  pub get-delete_where-none :
      (p : V → Bool) (k : String) (m : Keyed V) → get k m ≡ none → get k (delete_where p m) ≡ none
  unfolding get delete_where
  get-delete_where-none p k [] h = refl
  get-delete_where-none p k ((i, w) ∷ m) h = ground (arith, get-delete_where-none p k m)

  pub get-delete_where_kept :
      (p : V → Bool) (k : String) (v : V) (m : Keyed V)
      → get k m ≡ some v
      → p v ≡ false
      → get k (delete_where p m) ≡ some v
  unfolding get delete_where
  get-delete_where_kept p k v [] h e = cc
  get-delete_where_kept p k v ((i, w) ∷ m) h e = ground (arith, get-delete_where_kept p k v m)

  -- Counts through a write: at a key that is not there, and over a value that is.
  pub count-set_new :
      (p : V → Bool) (k : String) (v : V) (m : Keyed V)
      → get k m ≡ none
      → count p (values (set k v m)) ≡ count p (values m) + bit (p v)
  unfolding get set
  count-set_new p k v [] h = ground arith
  count-set_new p k v ((i, w) ∷ m) h = ground (arith, count-set_new p k v m)

  pub count-set_old :
      (p : V → Bool) (k : String) (v w : V) (m : Keyed V)
      → get k m ≡ some w
      → count p (values (set k v m)) + bit (p w) ≡ count p (values m) + bit (p v)
  unfolding get set
  count-set_old p k v w [] h = ground arith
  count-set_old p k v w ((i, u) ∷ m) h = ground (arith, count-set_old p k v w m)

  pub count-update_all :
      (p q : V → Bool) (f : V → V) (m : Keyed V)
      → ((v : V) → q (f v) ≡ p v)
      → count q (values (update_all f m)) ≡ count p (values m)
  unfolding update_all
  count-update_all p q f [] h = refl
  count-update_all p q f ((i, w) ∷ m) h = ground (arith, h w, count-update_all p q f m h)

module _ {ℓ κ} {V : Type ℓ} (P : V → Type κ) where
  -- What holds of every value, through the operations.
  pub All-get : (k : String) (v : V) (m : Keyed V) → All P (values m) → get k m ≡ some v → P v
  unfolding get
  All-get k v [] t e = cc
  All-get k v ((j, w) ∷ m) t e = elim (Bool-cases (j =s k)) [
    | inl same ↦ let found : some w ≡ some v = rw same at e in subst P (cc) t.0
    | inr other ↦ All-get k v m t.1 (rw other at e)
  ]

  pub All-set :
      (k : String) (v : V) (m : Keyed V) → P v → All P (values m) → All P (values (set k v m))
  unfolding set
  All-set k v [] h t = (h, tt)
  All-set k v ((j, w) ∷ m) h t = elim (Bool-cases (j =s k)) [
    | inl same ↦ rw same (h, t.1)
    | inr other ↦ rw other (t.0, All-set k v m h t.1)
  ]

  pub All-delete : (k : String) (m : Keyed V) → All P (values m) → All P (values (delete k m))
  unfolding delete
  All-delete k [] t = tt
  All-delete k ((j, w) ∷ m) t = elim (Bool-cases (j =s k)) [
    | inl same ↦ rw same (All-delete k m t.1)
    | inr other ↦ rw other (t.0, All-delete k m t.1)
  ]

module _ {ℓ κ μ} {V : Type ℓ} (P : V → Type κ) (Q : V → Type μ) where
  pub All-delete_where :
      (p : V → Bool) (m : Keyed V)
      → ((v : V) → P v → p v ≡ false → Q v)
      → All P (values m)
      → All Q (values (delete_where p m))
  unfolding delete_where
  All-delete_where p [] f t = tt
  All-delete_where p ((j, w) ∷ m) f t = elim (Bool-cases (p w)) [
    | inl gone ↦ rw gone (All-delete_where p m f t.1)
    | inr kept ↦ rw kept (f w t.0 kept, All-delete_where p m f t.1)
  ]

  pub All-update_all :
      (g : V → V) (m : Keyed V)
      → ((v : V) → P v → Q (g v))
      → All P (values m)
      → All Q (values (update_all g m))
  unfolding update_all
  All-update_all g [] f t = tt
  All-update_all g ((j, w) ∷ m) f t = (f w t.0, All-update_all g m f t.1)

  pub All-weaken : (xs : List V) → ((v : V) → P v → Q v) → All P xs → All Q xs
  All-weaken [] f t = tt
  All-weaken (x ∷ xs) f t = (f x t.0, All-weaken xs f t.1)

module _ {ℓ} {V : Type ℓ} where
  -- No key stands twice.
  abbrev pub Distinct : Keyed V → Type ℓ
  Distinct [] = Unit
  Distinct ((k, v) ∷ m) = (get k m ≡ none) × Distinct m

  pub Distinct-set : (k : String) (v : V) (m : Keyed V) → Distinct m → Distinct (set k v m)
  unfolding get set
  Distinct-set k v [] d = (refl, tt)
  Distinct-set k v ((j, w) ∷ m) d = elim (Bool-cases (j =s k)) [
    | inl same ↦ rw same (d.0, d.1)
    | inr other ↦ rw other (ground (arith, get-set k j v m), Distinct-set k v m d.1)
  ]

  pub Distinct-delete_where :
      (p : V → Bool) (m : Keyed V) → Distinct m → Distinct (delete_where p m)
  unfolding delete_where
  Distinct-delete_where p [] d = tt
  Distinct-delete_where p ((j, w) ∷ m) d = elim (Bool-cases (p w)) [
    | inl gone ↦ rw gone (Distinct-delete_where p m d.1)
    | inr kept ↦ rw kept (get-delete_where-none p j m d.0, Distinct-delete_where p m d.1)
  ]

  pub get-delete_where_gone :
      (p : V → Bool) (k : String) (v : V) (m : Keyed V)
      → Distinct m
      → get k m ≡ some v
      → p v ≡ true
      → get k (delete_where p m) ≡ none
  unfolding get delete_where
  get-delete_where_gone p k v [] d h e = refl
  get-delete_where_gone p k v ((j, w) ∷ m) d h e =
      ground (arith, get-delete_where_gone p k v m d.1, get-delete_where-none p j m d.0)

-- A stored entry is one of the values.
pub mem-values {ℓ} :
    {V : Type ℓ} (k : String) (v : V) (m : Keyed V) → get k m ≡ some v → Memᴰ v (values m)
unfolding get
mem-values k v [] h = absurd (cc h)
mem-values k v ((j, w) ∷ m) h = elim (Bool-cases (j =s k)) [
  | inl same ↦ let e : some w ≡ some v = rw same at h in Memᴰ.head (cc e)
  | inr other ↦ Memᴰ.tail (mem-values k v m (rw other at h))
]
