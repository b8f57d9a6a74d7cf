-- ===== src/Common/Texts.antt =====
-- The characters of a text as numbers, and its length as JavaScript counts it, in UTF-16 units.
use Prim.Native.Nat.{ℕ, ◌+◌, ◌-◌, ◌/◌, ◌%◌}
use Prim.Native.Char.{code}
use Prim.Native.String.{String}
use mathlib.Core.Bool.{Bool, true, false, ◌&&◌, ◌||◌}
use mathlib.Core.Option.{Option, none, some}
use mathlib.Core.List.{List, [], ◌∷◌, ◌++◌}
use longhub_platform.Common.Tests.{ltb, ◌==◌, ◌=s◌, if◌then◌else◌}

-- The code points of a text.
abbrev pub codes : String → List ℕ
codes String.[] = []
codes (String.◌∷◌ c s) = code c ∷ codes s

abbrev pub unit_count : List ℕ → ℕ
unit_count [] = 0
unit_count (c ∷ cs) = (if ltb c 0x10000 then 1 else 2) + unit_count cs

unfoldable pub text_length : String → ℕ
text_length s = unit_count (codes s)

-- The UTF-16 units of a code point.
abbrev pub code_units : ℕ → List ℕ
code_units c =
    if ltb c 0x10000
    then c ∷ []
    else (0xd800 + (c - 0x10000) / 1024) ∷ (0xdc00 + (c - 0x10000) % 1024) ∷ []

abbrev pub units_of : List ℕ → List ℕ
units_of [] = []
units_of (c ∷ cs) = code_units c ++ units_of cs

abbrev pub units_le : List ℕ → List ℕ → Bool
units_le [] ds = true
units_le (c ∷ cs) [] = false
units_le (c ∷ cs) (d ∷ ds) = ltb c d || (c == d && units_le cs ds)

-- The order of `Array.prototype.sort` with no comparison: by UTF-16 units.
unfoldable pub text_le : String → String → Bool
text_le s t = units_le (units_of (codes s)) (units_of (codes t))

-- A text that is there and not empty, as a JavaScript condition takes it.
abbrev pub filled : Option String → Option String
filled none = none
filled (some s) = if s =s "" then none else some s
