-- ===== src/Common/Tests.antt =====
-- Tests on numbers and texts, and the conditional.
use Prim.Native.Nat.{ℕ, compare, Ordering}
use Prim.Native.String.{String}
use mathlib.Core.Path.{◌≡◌, refl}
use mathlib.Core.Logic.{◌↔◌, ◌⊎◌, inl, inr}
use mathlib.Core.Bool.{Bool, true, false}
use mathlib.Core.Option.{Option, none, some}
use native.Mathlib.Omega.{arith}
use text.Mathlib.Text.{◌==◌ as text_eq}
use text.Mathlib.TextEquality.{eq_iff}

-- These compute to `compare`, which `ground` and `grind` read with no lemma listed.
abbrev pub ltb : ℕ → ℕ → Bool
ltb a b = elim (compare a b) [ Ordering.lt ↦ true | _ ↦ false ]

abbrev pub leb : ℕ → ℕ → Bool
leb a b = elim (compare a b) [ Ordering.gt ↦ false | _ ↦ true ]

infix 50 ◌==◌
abbrev pub ◌==◌ : ℕ → ℕ → Bool
a == b = elim (compare a b) [ Ordering.eq ↦ true | _ ↦ false ]

infix 1 if◌then◌else◌
abbrev pub if◌then◌else◌ {ℓ} : {A : Type ℓ} → Bool → A → A → A
if true then x else y = x
if false then x else y = y

-- To split on a computed value and keep the equation.
pub Bool-cases : (b : Bool) → (b ≡ true) ⊎ (b ≡ false)
Bool-cases true = inl refl
Bool-cases false = inr refl

pub Option-cases {ℓ} : {A : Type ℓ} (o : Option A) → (o ≡ none) ⊎ ((a : A) × (o ≡ some a))
Option-cases none = inl refl
Option-cases (some a) = inr (a, refl)

-- Equality of texts as a decision, on which the tactics split.
same_text_cases : (s t : String) (b : Bool) → (text_eq s t ≡ b) → Dec (s ≡ t)
same_text_cases s t true h = yes ((eq_iff s t).0 h)
same_text_cases s t false h =
    no
      (λ e. absurd (elim (Bool-cases (text_eq s t)) [ inl p ↦ cc | inr q ↦ cc ((eq_iff s t).1 e) ]))

unfoldable pub String-discrete : Discrete String
unfolding same_text_cases
String-discrete s t = same_text_cases s t (text_eq s t) refl

infix 50 ◌=s◌
-- `===` on texts.
abbrev pub ◌=s◌ : String → String → Bool
s =s t = elim (String-discrete s t) [ yes _ ↦ true | no _ ↦ false ]

pub =s_refl : (s : String) → (s =s s) ≡ true
=s_refl s = ground arith

pub =s_iff : (s t : String) → ((s =s t) ≡ true) ↔ (s ≡ t)
=s_iff s t = ground arith

-- What a fallible operation gives: its value, or the error that it throws.
pub data Result {ℓ κ} (E : Type κ) (A : Type ℓ) : Type (ℓ ⊔ κ) where
  ok : A → Result E A
  err : E → Result E A

-- `a ?? b`.
abbrev pub or_else {ℓ} : {A : Type ℓ} → Option A → A → A
or_else none d = d
or_else (some a) d = a

abbrev pub is_some {ℓ} : {A : Type ℓ} → Option A → Bool
is_some none = false
is_some (some a) = true

-- `===` on texts that may be undefined.
abbrev pub same_option : Option String → Option String → Bool
same_option none none = true
same_option (some s) (some t) = s =s t
same_option _ _ = false

-- A field of a patch where the patch has it, and the old one otherwise.
abbrev pub prefer {ℓ} : {A : Type ℓ} → Option A → Option A → Option A
prefer none d = d
prefer (some a) d = some a
