-- ===== src/Common/Results.antt =====
-- Chains of fallible steps: a thrown error ends the chain.
use mathlib.Core.Path.{◌≡◌, refl}
use mathlib.Core.Logic.{◌⊎◌, inl, inr}
use mathlib.Core.Bool.{Bool, true, false}
use mathlib.Core.Option.{Option, none, some}
use longhub_platform.Common.Tests.{Result, ok, err}

-- A value that must be there, and a test that must pass, or else the code throws.
abbrev pub require {ℓ ε} : {X : Type ε} {V : Type ℓ} → Option V → X → Result X V
require (some v) thrown = ok v
require none thrown = err thrown

abbrev pub guard {ε} : {X : Type ε} → Bool → X → Result X (Unit {0})
guard false thrown = err thrown
guard true thrown = ok tt

infixl 5 ◌>>=◌ ◌>>◌
abbrev pub ◌>>=◌ {ℓ κ ε} :
    {X : Type ε} {V : Type ℓ} {W : Type κ} → Result X V → (V → Result X W) → Result X W
r >>= rest = elim r [ err thrown ↦ err thrown | ok v ↦ rest v ]

abbrev pub ◌>>◌ {κ ε} : {X : Type ε} {W : Type κ} → Result X (Unit {0}) → Result X W → Result X W
r >> rest = elim r [ err thrown ↦ err thrown | ok _ ↦ rest ]

pub Result-cases {ℓ ε} :
    {X : Type ε} {V : Type ℓ} (r : Result X V)
    → ((thrown : X) × (r ≡ err thrown)) ⊎ ((v : V) × (r ≡ ok v))
Result-cases (err thrown) = inl (thrown, refl)
Result-cases (ok v) = inr (v, refl)

-- What a chain that came through has passed.
pub bind-eq-ok {ℓ κ ε} :
    {X : Type ε} {V : Type ℓ} {W : Type κ} (r : Result X V) (rest : V → Result X W) {w : W}
    → (r >>= rest) ≡ ok w
    → (v : V) × (r ≡ ok v) × (rest v ≡ ok w)
bind-eq-ok (err thrown) rest h = absurd (cc h)
bind-eq-ok (ok v) rest h = (v, refl, h)

pub check-eq-ok {κ ε} :
    {X : Type ε} {W : Type κ} (r : Result X (Unit {0})) (rest : Result X W) {w : W}
    → (r >> rest) ≡ ok w
    → (r ≡ ok tt) × (rest ≡ ok w)
check-eq-ok (err thrown) rest h = absurd (cc h)
check-eq-ok (ok tt) rest h = (refl, h)

pub guard-eq-ok {ε} : {X : Type ε} (b : Bool) (thrown : X) → guard b thrown ≡ ok tt → b ≡ true
guard-eq-ok false thrown h = absurd (cc h)
guard-eq-ok true thrown h = refl

pub require-eq-ok {ℓ ε} :
    {X : Type ε} {V : Type ℓ} (o : Option V) (thrown : X) {v : V}
    → require o thrown ≡ ok v
    → o ≡ some v
require-eq-ok (some u) thrown h = cc h
require-eq-ok none thrown h = absurd (cc h)

pub ok_inj {ℓ ε} : {X : Type ε} {V : Type ℓ} (v w : V) → ◌≡◌ {A = Result X V} (ok v) (ok w) → v ≡ w
ok_inj v w h = cc h
