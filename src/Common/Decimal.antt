-- ===== src/Common/Decimal.antt =====
-- `String(n)` for a natural number, and its inverse: the sequence numbers that the store puts into
-- its identifiers.
use Prim.Native.String.{◌++◌ as ◌<>◌}
use Prim.Native.Nat.{ℕ, zero, suc, ◌+◌, ◌-◌, ◌*◌, ◌/◌, ◌%◌, ◌<◌}
use Prim.Native.Char.{code}
use Prim.Native.String.{String}
use mathlib.Core.Path.{◌≡◌, sym, ap, ◌∙◌}
use mathlib.Core.Logic.{inl, inr}
use native.Mathlib.Omega.{arith}
use text.Mathlib.TextLemmas.{nil-append, cons-append}
use longhub_platform.Common.Tests.{if◌then◌else◌, ltb, Bool-cases}

unfoldable pub digit : ℕ → String
digit zero = "0"
digit (suc zero) = "1"
digit (suc (suc zero)) = "2"
digit (suc (suc (suc zero))) = "3"
digit (suc (suc (suc (suc zero)))) = "4"
digit (suc (suc (suc (suc (suc zero))))) = "5"
digit (suc (suc (suc (suc (suc (suc zero)))))) = "6"
digit (suc (suc (suc (suc (suc (suc (suc zero))))))) = "7"
digit (suc (suc (suc (suc (suc (suc (suc (suc zero)))))))) = "8"
digit _ = "9"

unfoldable pub show_fuel : ℕ → ℕ → String
unfolding digit
show_fuel zero n = ""
show_fuel (suc f) n =
    let front = show_fuel f (n / 10) <> digit (n % 10) in if ltb n 10 then digit n else front

unfoldable pub show : ℕ → String
unfolding show_fuel
show n = show_fuel (suc n) n

number_from : ℕ → String → ℕ
number_from a String.[] = a
number_from a (String.◌∷◌ c s) = number_from (10 * a + (code c - 48)) s

number_from-append :
    (a : ℕ) (s t : String) → number_from a (s <> t) ≡ number_from (number_from a s) t
unfolding number_from
number_from-append a String.[] t = rw nil-append
number_from-append a (String.◌∷◌ c s) t =
    rw cons-append (number_from-append (10 * a + (code c - 48)) s t)

number_from-digit : (a d : ℕ) → d < 10 → number_from a (digit d) ≡ 10 * a + d
unfolding number_from digit
number_from-digit a zero h = omega arith
number_from-digit a (suc zero) h = omega arith
number_from-digit a (suc (suc zero)) h = omega arith
number_from-digit a (suc (suc (suc zero))) h = omega arith
number_from-digit a (suc (suc (suc (suc zero)))) h = omega arith
number_from-digit a (suc (suc (suc (suc (suc zero))))) h = omega arith
number_from-digit a (suc (suc (suc (suc (suc (suc zero)))))) h = omega arith
number_from-digit a (suc (suc (suc (suc (suc (suc (suc zero))))))) h = omega arith
number_from-digit a (suc (suc (suc (suc (suc (suc (suc (suc zero)))))))) h = omega arith
number_from-digit a (suc (suc (suc (suc (suc (suc (suc (suc (suc zero))))))))) h = omega arith
number_from-digit a (suc (suc (suc (suc (suc (suc (suc (suc (suc (suc d)))))))))) h =
    absurd (omega arith)

number_from-show_fuel : (f n : ℕ) → n < f → number_from 0 (show_fuel f n) ≡ n
unfolding show_fuel
number_from-show_fuel zero n h = elim h [ ]
number_from-show_fuel (suc f) n h = elim (Bool-cases (ltb n 10)) [
  | inl e ↦ rw e (number_from-digit 0 n (ground arith) ∙ omega arith)
  | inr e ↦ rw e (
      number_from-append 0 (show_fuel f (n / 10)) (digit (n % 10))
      ∙ number_from-digit _ (n % 10) (omega arith)
      ∙ ground (arith, number_from-show_fuel f (n / 10)))
]

-- Numbers that print alike are equal.
pub show_injective : (m n : ℕ) → show m ≡ show n → m ≡ n
unfolding show
show_injective m n e =
    sym (number_from-show_fuel (suc m) m (omega arith))
    ∙ ap (number_from 0) e
    ∙ number_from-show_fuel (suc n) n (omega arith)
