-- ===== src/Policy/Versions.antt =====
-- Versions of the Manager: `parseSemver`, `comparePrerelease` and `compareSemver` of
-- packages/longhub-feature-policy/src/resolution.ts, on the code points of a text. Numbers are exact,
-- as they are in the source up to 2^53.
use longhub_platform.Common.{
  ℕ, ◌+◌, ◌-◌, ◌*◌, String, Bool, true, false, ◌&&◌, ◌||◌, not, Option, none, some, List, [], ◌∷◌,
  ltb, leb, ◌==◌, if◌then◌else◌, all, codes,
}

-- What a comparison returns: -1, 0 or 1.
pub data Sign : Type 0 where
  less same more : Sign

pub record Semver : Type 0 where
  pub major : ℕ
  pub minor : ℕ
  pub patch : ℕ
  pub prerelease : List (List ℕ)

abbrev pub is_digit : ℕ → Bool
is_digit c = leb b'0' c && leb c b'9'

abbrev pub add_first : ℕ → List (List ℕ) → List (List ℕ)
add_first c [] = (c ∷ []) ∷ []
add_first c (p ∷ ps) = (c ∷ p) ∷ ps

-- `String.prototype.split` at one character.
unfoldable pub split : ℕ → List ℕ → List (List ℕ)
split sep [] = [] ∷ []
split sep (c ∷ cs) = let rest = split sep cs in if c == sep then [] ∷ rest else add_first c rest

-- /0|[1-9]\d*/
abbrev pub is_number : List ℕ → Bool
is_number [] = false
is_number (c ∷ []) = is_digit c
is_number (c ∷ d ∷ cs) = not (c == b'0') && all is_digit (c ∷ d ∷ cs)

unfoldable pub digits_value : ℕ → List ℕ → ℕ
digits_value acc [] = acc
digits_value acc (c ∷ cs) = digits_value (acc * 10 + (c - b'0')) cs

abbrev pub is_prerelease_char : ℕ → Bool
is_prerelease_char c =
    is_digit c
    || ((leb b'A' c && leb c b'Z') || ((leb b'a' c && leb c b'z') || (c == b'.' || c == b'-')))

-- The text before the first hyphen, and the text after it where there is one.
abbrev pub cut : List ℕ → List ℕ × Option (List ℕ)
cut [] = ([], none)
cut (c ∷ cs) =
    let (before, after) = cut cs in if c == b'-' then ([], some cs) else (c ∷ before, after)

abbrev pub parse_core : List (List ℕ) → List (List ℕ) → Option Semver
parse_core (a ∷ b ∷ c ∷ []) prerelease =
    if is_number a && (is_number b && is_number c)
    then some (record {
      major = digits_value 0 a;
      minor = digits_value 0 b;
      patch = digits_value 0 c;
      prerelease = prerelease;
    })
    else none
parse_core _ prerelease = none

abbrev pub is_prerelease : List ℕ → Bool
is_prerelease [] = false
is_prerelease cs = all is_prerelease_char cs

abbrev pub parse_cut : List ℕ × Option (List ℕ) → Option Semver
parse_cut (core, none) = parse_core (split b'.' core) []
parse_cut (core, some rest) =
    if is_prerelease rest then parse_core (split b'.' core) (split b'.' rest) else none

-- `none` is the error that the source throws.
unfoldable pub parse_semver : String → Option Semver
parse_semver version = parse_cut (cut (codes version))

abbrev pub same_part : List ℕ → List ℕ → Bool
same_part [] [] = true
same_part (c ∷ cs) (d ∷ ds) = c == d && same_part cs ds
same_part _ _ = false

-- `<` on texts of the characters of a prerelease.
abbrev pub part_before : List ℕ → List ℕ → Bool
part_before [] [] = false
part_before [] (d ∷ ds) = true
part_before (c ∷ cs) [] = false
part_before (c ∷ cs) (d ∷ ds) = ltb c d || (c == d && part_before cs ds)

-- /^\d+$/
abbrev pub is_numeric : List ℕ → Bool
is_numeric [] = false
is_numeric cs = all is_digit cs

abbrev pub less_if : Bool → Sign
less_if true = less
less_if false = more

-- Two parts that are not the same text.
abbrev pub compare_parts : List ℕ → List ℕ → Sign
compare_parts l r =
    if is_numeric l && is_numeric r
    then less_if (ltb (digits_value 0 l) (digits_value 0 r))
    else if is_numeric l || is_numeric r
    then less_if (is_numeric l)
    else less_if (part_before l r)

unfoldable pub compare_part_lists : List (List ℕ) → List (List ℕ) → Sign
compare_part_lists [] [] = same
compare_part_lists [] (r ∷ rs) = less
compare_part_lists (l ∷ ls) [] = more
compare_part_lists (l ∷ ls) (r ∷ rs) =
    let rest = compare_part_lists ls rs in if same_part l r then rest else compare_parts l r

abbrev pub compare_prerelease : List (List ℕ) → List (List ℕ) → Sign
compare_prerelease [] [] = same
compare_prerelease [] (r ∷ rs) = more
compare_prerelease (l ∷ ls) [] = less
compare_prerelease (l ∷ ls) (r ∷ rs) = compare_part_lists (l ∷ ls) (r ∷ rs)

abbrev pub compare_numbers : ℕ → ℕ → Sign → Sign
compare_numbers a b rest = if a == b then rest else less_if (ltb a b)

unfoldable pub compare_parsed : Semver → Semver → Sign
compare_parsed l r = compare_numbers l.major r.major (
    compare_numbers l.minor r.minor
      (compare_numbers l.patch r.patch (compare_prerelease l.prerelease r.prerelease)))

unfoldable pub compare_semver : String → String → Option Sign
compare_semver left right = elim (parse_semver left) [
  | none ↦ none
  | some l ↦ elim (parse_semver right) [ none ↦ none | some r ↦ some (compare_parsed l r) ]
]
