-- ===== src/Skills/Plans.antt =====
-- Plans of cloud Skills: `createCloudSkillPlan` and `updateCloudSkillPlan` of `MemoryStore` in
-- apps/longhub-cloud-api/src/memory-store.ts. A number that is no safe non-negative integer is
-- `none`.
use longhub_platform.Common.{
  ℕ, ◌≤◌, String, Bool, true, false, ◌&&◌, ◌||◌, not, Option, none, some, List, [], ◌∷◌, ◌≡◌, leb,
  ◌==◌, if◌then◌else◌, all, codes, text_length, or_else, is_some, Result, ok, err,
}
use longhub_platform.Common.Keyed
use longhub_platform.Common.Keyed.{values}
use longhub_platform.Skills.{Plan, PlanStatus, listed, SkillStore, includes}

-- The field that an input error names, or the error of a plan that exists.
pub data PlanError : Type 0 where
  invalid_plan : String → PlanError
  plan_exists : PlanError

pub record PlanParams : Type 0 where
  pub plan_id : String
  pub name : String
  pub description : Option String
  pub skill_ids : List String
  pub price_monthly_fen : Option ℕ
  pub price_yearly_fen : Option ℕ
  pub included_calls : Option (Option ℕ)
  pub requests_per_minute : Option (Option ℕ)
  pub max_concurrency : Option (Option ℕ)
  pub status : Option PlanStatus

pub record PlanPatch : Type 0 where
  pub name : Option String
  pub description : Option String
  pub skill_ids : Option (List String)
  pub price_monthly_fen : Option (Option ℕ)
  pub price_yearly_fen : Option (Option ℕ)
  pub included_calls : Option (Option ℕ)
  pub requests_per_minute : Option (Option ℕ)
  pub max_concurrency : Option (Option ℕ)
  pub status : Option PlanStatus

abbrev pub is_lower : ℕ → Bool
is_lower c = leb b'a' c && leb c b'z'

abbrev pub is_decimal : ℕ → Bool
is_decimal c = leb b'0' c && leb c b'9'

-- The rest of a plan's identifier after a letter that begins it or a part of it.
abbrev pub plan_id_rest : List ℕ → Bool
plan_id_rest [] = true
plan_id_rest (c ∷ []) = is_lower c || (is_decimal c || c == b'-')
plan_id_rest (c ∷ d ∷ cs) =
    if c == b'.'
    then is_lower d && plan_id_rest cs
    else (is_lower c || (is_decimal c || c == b'-')) && plan_id_rest (d ∷ cs)

-- /^[a-z][a-z0-9-]*(?:\.[a-z][a-z0-9-]*)*$/
unfoldable pub is_plan_id : String → Bool
is_plan_id s = elim (codes s) [ [] ↦ false | c ∷ cs ↦ is_lower c && plan_id_rest cs ]

abbrev pub is_skill_char : ℕ → Bool
is_skill_char c = is_lower c || (is_decimal c || (c == b'.' || c == b'-'))

-- Does the text begin with the first text and then a letter?
abbrev pub begins : List ℕ → List ℕ → Bool
begins [] [] = false
begins [] (c ∷ cs) = is_lower c
begins (p ∷ ps) [] = false
begins (p ∷ ps) (c ∷ cs) = p == c && begins ps cs

abbrev pub contains : List ℕ → List ℕ → Bool
contains ps [] = false
contains ps (c ∷ cs) = begins ps (c ∷ cs) || contains ps cs

-- /^[a-z][a-z0-9.-]*\.skill\.[a-z][a-z0-9.-]*$/
unfoldable pub is_skill_id : String → Bool
is_skill_id s = elim (codes s) [
  | [] ↦ false
  | c ∷ cs ↦ is_lower c && (all is_skill_char cs && contains (codes ".skill.") cs)
]

-- White space, as `String.prototype.trim` takes it.
abbrev pub is_space : ℕ → Bool
is_space c =
    (leb 9 c && leb c 13)
    || (c == 32
        || (c == 160
            || (c == 0x1680
                || ((leb 0x2000 c && leb c 0x200a)
                    || (c == 0x2028
                        || (c == 0x2029
                            || (c == 0x202f || (c == 0x205f || (c == 0x3000 || c == 0xfeff)))))))))

unfoldable pub is_name : String → Bool
is_name s = not (all is_space (codes s)) && leb (text_length s) 120

-- A `Set` of the texts has as many values as there are texts.
unfoldable pub are_distinct : List String → Bool
are_distinct [] = true
are_distinct (x ∷ xs) = not (includes x xs) && are_distinct xs

abbrev pub is_empty : List String → Bool
is_empty [] = true
is_empty (x ∷ xs) = false

abbrev pub default_included_calls : ℕ
default_included_calls = 1000

abbrev pub default_requests_per_minute : ℕ
default_requests_per_minute = 60

abbrev pub default_max_concurrency : ℕ
default_max_concurrency = 2

-- The plan of the parameters, once every number is one.
abbrev pub new_plan : ℕ → PlanParams → ℕ → ℕ → ℕ → ℕ → ℕ → Plan
new_plan now p monthly yearly calls rpm concurrency = record {
  plan_id = p.plan_id;
  name = p.name;
  description = or_else p.description "";
  skill_ids = p.skill_ids;
  price_monthly_fen = monthly;
  price_yearly_fen = yearly;
  included_calls = calls;
  requests_per_minute = rpm;
  max_concurrency = concurrency;
  status = or_else p.status listed;
  created_at = now;
}

-- The numbers of the parameters: monthly, yearly, calls, calls per minute, and leases.
abbrev pub plan_numbers : PlanParams → Option (ℕ × (ℕ × (ℕ × (ℕ × ℕ))))
plan_numbers p = elim p.price_monthly_fen [
  | none ↦ none
  | some m ↦ elim p.price_yearly_fen [
    | none ↦ none
    | some y ↦ elim (or_else p.included_calls (some default_included_calls)) [
      | none ↦ none
      | some c ↦ elim (or_else p.requests_per_minute (some default_requests_per_minute)) [
        | none ↦ none
        | some r ↦ elim (or_else p.max_concurrency (some default_max_concurrency)) [
          | none ↦ none
          | some l ↦ some (m, (y, (c, (r, l))))
        ]
      ]
    ]
  ]
]

abbrev pub put_plan :
    SkillStore → ℕ → PlanParams → ℕ × (ℕ × (ℕ × (ℕ × ℕ))) → SkillStore × Result PlanError Plan
put_plan s now p (m, (y, (c, (r, l)))) =
    let plan = new_plan now p m y c r l in
    if leb r 0 || leb l 0
    then (s, err (invalid_plan "limits"))
    else if is_some (Keyed.get p.plan_id s.plans)
    then (s, err plan_exists)
    else (record s { plans = Keyed.set p.plan_id plan s.plans }, ok plan)

unfoldable pub create_plan : SkillStore → ℕ → PlanParams → SkillStore × Result PlanError Plan
create_plan s now p =
    if not (is_plan_id p.plan_id)
    then (s, err (invalid_plan "plan_id"))
    else if not (is_name p.name)
    then (s, err (invalid_plan "name"))
    else if is_empty p.skill_ids || not (all is_skill_id p.skill_ids)
    then (s, err (invalid_plan "skill_ids"))
    else if not (are_distinct p.skill_ids)
    then (s, err (invalid_plan "skill_ids_duplicate"))
    else elim (plan_numbers p) [
      | none ↦ (s, err (invalid_plan "limits"))
      | some numbers ↦ put_plan s now p numbers
    ]

-- Is a number of the patch there that is none?
abbrev pub is_bad : Option (Option ℕ) → Bool
is_bad (some none) = true
is_bad _ = false

abbrev pub is_zero : Option (Option ℕ) → Bool
is_zero (some (some n)) = leb n 0
is_zero _ = false

abbrev pub patched : Option (Option ℕ) → ℕ → ℕ
patched (some (some n)) old = n
patched _ old = old

abbrev pub is_bad_name : Option String → Bool
is_bad_name none = false
is_bad_name (some n) = not (is_name n)

abbrev pub are_bad_skills : Option (List String) → Bool
are_bad_skills none = false
are_bad_skills (some ids) = is_empty ids || (not (are_distinct ids) || not (all is_skill_id ids))

abbrev pub assign_plan : Plan → PlanPatch → Plan
assign_plan plan p = record plan {
  name = or_else p.name plan.name;
  description = or_else p.description plan.description;
  skill_ids = or_else p.skill_ids plan.skill_ids;
  price_monthly_fen = patched p.price_monthly_fen plan.price_monthly_fen;
  price_yearly_fen = patched p.price_yearly_fen plan.price_yearly_fen;
  included_calls = patched p.included_calls plan.included_calls;
  requests_per_minute = patched p.requests_per_minute plan.requests_per_minute;
  max_concurrency = patched p.max_concurrency plan.max_concurrency;
  status = or_else p.status plan.status;
}

unfoldable pub update_plan :
    SkillStore → String → PlanPatch → SkillStore × Result PlanError (Option Plan)
update_plan s id p = elim (Keyed.get id s.plans) [
  | none ↦ (s, ok none)
  | some plan ↦
      let plan' = assign_plan plan p in
      if is_bad_name p.name
      then (s, err (invalid_plan "name"))
      else if are_bad_skills p.skill_ids
      then (s, err (invalid_plan "skill_ids"))
      else if is_bad p.price_monthly_fen
      then (s, err (invalid_plan "price_monthly_fen"))
      else if is_bad p.price_yearly_fen
      then (s, err (invalid_plan "price_yearly_fen"))
      else if is_bad p.included_calls
      then (s, err (invalid_plan "included_calls"))
      else if is_bad p.requests_per_minute
      then (s, err (invalid_plan "requests_per_minute"))
      else if is_bad p.max_concurrency
      then (s, err (invalid_plan "max_concurrency"))
      else if is_zero p.requests_per_minute
      then (s, err (invalid_plan "requests_per_minute"))
      else if is_zero p.max_concurrency
      then (s, err (invalid_plan "max_concurrency"))
      else (record s { plans = Keyed.set id plan' s.plans }, ok (some plan'))
]

-- What makes a plan sellable.
pub record IsSound (plan : Plan) : Type 0 where
  pub named : is_name plan.name ≡ true
  pub offers : is_empty plan.skill_ids ≡ false
  pub skills : all is_skill_id plan.skill_ids ≡ true
  pub distinct : are_distinct plan.skill_ids ≡ true
  pub rate : 1 ≤ plan.requests_per_minute
  pub leases : 1 ≤ plan.max_concurrency
