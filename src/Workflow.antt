-- ===== src/Workflow.antt =====
-- The workflow language and its parser: packages/longhub-pack-schema/src/workflow-dsl.ts. A workflow
-- here already has the shape of its type, so that the tests of `typeof` and of the keys of an object
-- have passed; a number of iterations that is no safe integer from 0 on is `none`, and a number
-- among the literals is an integer. The engine that runs a workflow is in Workflow/Engine.
pub mod Engine
pub mod Walks
pub mod Parsing
pub mod Budgets
pub mod Effects
pub mod Resuming
pub mod Spending
mod Examples
use longhub_platform.Common.{
  ℕ, suc, ◌+◌, String, Bool, true, false, ◌&&◌, ◌||◌, not, Option, none, some, List, [], ◌∷◌, ltb,
  leb, ◌==◌, ◌=s◌, if◌then◌else◌, all, length, codes, text_length, Result, ok, err,
}
use longhub_platform.Common.Results.{◌>>=◌, ◌>>◌, guard}
use longhub_platform.Common.Int.{ℤ}
use longhub_platform.Common.Keyed.{Keyed}
use longhub_platform.Skills.{includes}
use longhub_platform.Skills.Plans.{is_space}

-- `WorkflowLiteral`.
pub data Literal : Type 0 where
  text : String → Literal
  number : ℤ → Literal
  truth : Bool → Literal
  null : Literal

-- `WorkflowStep`, and a list of them.
mutual
  pub data Step : Type 0 where
    skill : (id skill_id : String) (input : Keyed Literal) → Step
    confirm : (id title summary : String) → Step
    branch : (id input_key : String) (equals : Literal) (yes_steps no_steps : Steps) → Step
    repeat : (id : String) (iterations : Option ℕ) (steps : Steps) → Step

  pub data Steps : Type 0 where
    end : Steps
    also : Step → Steps → Steps

pub record BoundedWorkflow : Type 0 where
  pub schema_version : String
  pub workflow_id : String
  pub name : String
  pub steps : Steps

-- The errors of the parser, by their messages.
pub data ParseError : Type 0 where
  invalid_fields too_deep invalid_steps invalid_step_id : ParseError
  invalid_skill invalid_confirmation invalid_branch invalid_loop : ParseError

abbrev pub step_id : Step → String
step_id (skill id k input) = id
step_id (confirm id title summary) = id
step_id (branch id key v yes_steps no_steps) = id
step_id (repeat id n steps) = id

abbrev pub is_small : ℕ → Bool
is_small c = leb b'a' c && leb c b'z'

abbrev pub is_capital : ℕ → Bool
is_capital c = leb b'A' c && leb c b'Z'

abbrev pub is_figure : ℕ → Bool
is_figure c = leb b'0' c && leb c b'9'

abbrev pub is_mark : ℕ → Bool
is_mark c = c == b'.' || (c == b'_' || c == b'-')

-- /^[A-Za-z0-9._-]{1,64}$/
unfoldable pub is_key : String → Bool
is_key s =
    let cs = codes s in
    leb 1 (length cs)
    && (leb (length cs) 64
        && all (λ c. is_small c || (is_capital c || (is_figure c || is_mark c))) cs)

abbrev pub is_skill_start : List ℕ → Bool
is_skill_start [] = false
is_skill_start (c ∷ rest) =
    (is_small c || is_figure c)
    && (leb 2 (length rest)
        && (leb (length rest) 159 && all (λ d. is_small d || (is_figure d || is_mark d)) rest))

-- `String.prototype.startsWith`, and the rest after the start.
abbrev pub after_start : List ℕ → List ℕ → Option (List ℕ)
after_start [] cs = some cs
after_start (p ∷ ps) [] = none
after_start (p ∷ ps) (c ∷ cs) = if p == c then after_start ps cs else none

abbrev pub starts_with : List ℕ → List ℕ → Bool
starts_with ps cs = elim (after_start ps cs) [ none ↦ false | some _ ↦ true ]

-- /^[a-z0-9][a-z0-9._-]{2,159}$/, and no workflow of the user.
unfoldable pub is_workflow_skill : String → Bool
is_workflow_skill s =
    is_skill_start (codes s) && not (starts_with (codes "user.workflow.") (codes s))

-- A text with something other than white space, and no longer than the limit.
unfoldable pub is_filled_up_to : ℕ → String → Bool
is_filled_up_to limit s = not (all is_space (codes s)) && leb (text_length s) limit

abbrev pub to_small : ℕ → ℕ
to_small c = if is_capital c then c + 32 else c

abbrev pub small_codes : List ℕ → List ℕ
small_codes [] = []
small_codes (c ∷ cs) = to_small c ∷ small_codes cs

-- /^user\.workflow\.[0-9a-f-]{36}$/i
unfoldable pub is_workflow_id : String → Bool
is_workflow_id s = elim (after_start (codes "user.workflow.") (small_codes (codes s))) [
  | none ↦ false
  | some rest ↦
      length rest == 36 && all (λ c. is_figure c || ((leb b'a' c && leb c b'f') || c == b'-')) rest
]

abbrev pub is_iterations : Option ℕ → Bool
is_iterations none = false
is_iterations (some n) = leb 1 n && leb n 5

abbrev pub has_steps : Steps → Bool
has_steps end = false
has_steps (also t ts) = true

-- The variables `ids` and `total` of the parser.
pub record Seen : Type 0 where
  pub ids : List String
  pub total : ℕ

abbrev pub deepest : ℕ
deepest = 3

abbrev pub most_steps : ℕ
most_steps = 20

-- The first tests of a step, which count it and remember its identifier.
abbrev pub register : String → Seen → Result ParseError Seen
register id seen = do
  guard (leb (suc seen.total) most_steps) invalid_steps
  guard (is_key id && not (includes id seen.ids)) invalid_step_id
  ok (record { ids = id ∷ seen.ids; total = suc seen.total })

-- `visit` is the test of the depth and then `visit_list`.
unfoldable mutual
  pub visit_list : Steps → ℕ → Seen → Result ParseError Seen
  visit_list end depth seen = ok seen
  visit_list (also t ts) depth seen = do
    let seen' = (← register (step_id t) seen)
    let seen'' = (← visit_step t depth seen')
    visit_list ts depth seen''

  pub visit_step : Step → ℕ → Seen → Result ParseError Seen
  visit_step (skill id k input) depth seen = do
    guard (is_workflow_skill k && leb (length input) 32) invalid_skill
    ok seen
  visit_step (confirm id title summary) depth seen = do
    guard (is_filled_up_to 80 title && is_filled_up_to 500 summary) invalid_confirmation
    ok seen
  visit_step (branch id key v yes_steps no_steps) depth seen = do
    guard (is_key key) invalid_branch
    guard (leb (suc depth) deepest) too_deep
    let seen' = (← visit_list yes_steps (suc depth) seen)
    visit_list no_steps (suc depth) seen'
  visit_step (repeat id n steps) depth seen = do
    guard (is_iterations n && has_steps steps) invalid_loop
    guard (leb (suc depth) deepest) too_deep
    visit_list steps (suc depth) seen

unfoldable pub parse_workflow : BoundedWorkflow → Result ParseError BoundedWorkflow
parse_workflow w = do
  guard
      (w.schema_version =s "longhub/workflow/v1"
        && (is_workflow_id w.workflow_id && (is_filled_up_to 80 w.name && has_steps w.steps)))
      invalid_fields
  guard (leb 1 deepest) too_deep
  let seen = (← visit_list w.steps 1 (record { ids = []; total = 0 }))
  ok w
