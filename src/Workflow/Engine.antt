-- ===== src/Workflow/Engine.antt =====
-- `BoundedWorkflowEngine` of packages/longhub-core/src/workflow-engine.ts. What the engine asks of
-- the rest of the program is an argument, each answer by the number of steps that have begun: has
-- the caller aborted, how long has the run lasted, what a Skill is, whether the user confirms, and
-- what the execution of a Skill gives. An answer that throws is `none`. An output is an opaque text.
-- The requests for an execution are listed in the order in which they are made. The outputs are a
-- map; an identifier `__proto__` aside, this is what the object of the source is.
use Prim.Native.String.{◌++◌ as ◌<>◌}
use longhub_platform.Common.{
  ℕ, zero, suc, ◌+◌, String, Bool, true, false, ◌&&◌, ◌||◌, not, Option, none, some, List, [], ◌∷◌,
  ◌++◌, ltb, leb, ◌==◌, ◌=s◌, if◌then◌else◌, all, length, codes, or_else, Result, ok, err,
}
use longhub_platform.Common.Int.{ℤ, pos, negsuc}
use longhub_platform.Common.Decimal.{show}
use longhub_platform.Common.Keyed
use longhub_platform.Common.Keyed.{Keyed}
use longhub_platform.Workflow.{
  Literal, Step, Steps, BoundedWorkflow, text, number, truth, null, skill, confirm, branch, repeat,
  end, also, step_id, is_small, is_capital, is_figure, is_mark, parse_workflow,
}

pub data SideEffect : Type 0 where
  no_effect local_recoverable external_write : SideEffect

pub record SkillDescriptor : Type 0 where
  pub side_effect : SideEffect
  pub requires_confirmation : Bool

pub record StepResult : Type 0 where
  pub output : String
  pub cost_micros : ℕ

-- The number is absent where it is no safe integer from 0 on.
pub record ExecutionContext : Type 0 where
  pub run_id : String
  pub agent_id : String
  pub input : Keyed Literal
  pub max_cost_micros : Option ℕ
  pub max_duration_ms : Option ℕ

-- A request to authorize and execute a Skill, and after how many steps it was made.
pub record Execution : Type 0 where
  pub step_number : ℕ
  pub step_path : String
  pub skill_id : String
  pub payload : Keyed Literal
  pub idempotency_key : String

-- What an execution gives: the cost is `none` where it is no safe integer from 0 on.
pub record Answer : Type 0 where
  pub output : String
  pub cost_micros : Option ℕ

pub record Dependencies : Type 0 where
  pub aborted : ℕ → Bool
  pub elapsed : ℕ → ℕ
  pub describe_skill : ℕ → String → Option SkillDescriptor
  pub request_confirmation : ℕ → String → Option Bool
  pub authorize_and_execute : Execution → Option Answer

pub data WorkflowError : Type 0 where
  invalid_workflow invalid_context cancelled timeout step_budget_exceeded : WorkflowError
  confirmation_denied external_write_forbidden invalid_cost : WorkflowError
  cost_budget_exceeded dependency_failed : WorkflowError

-- `state` of a run, with the engine's `completed` and the requests that were made.
pub record Run : Type 0 where
  pub cost_micros : ℕ
  pub executed_steps : ℕ
  pub outputs : Keyed String
  pub completed : Keyed StepResult
  pub executions : List Execution

-- What a part of the run leaves, and the error that it throws, if any.
abbrev pub Outcome : Type 0
Outcome = Run × Option WorkflowError

-- The rest of the code after a part of it.
abbrev pub and_then : Outcome → (Run → Outcome) → Outcome
and_then (s, some e) rest = (s, some e)
and_then (s, none) rest = rest s

-- An error that is thrown, or else the rest of the code.
abbrev pub unless : Option WorkflowError → Run → Outcome → Outcome
unless (some e) s rest = (s, some e)
unless none s rest = rest

-- `===` on literals.
abbrev pub same_number : ℤ → ℤ → Bool
same_number (pos a) (pos b) = a == b
same_number (negsuc a) (negsuc b) = a == b
same_number _ _ = false

abbrev pub same_truth : Bool → Bool → Bool
same_truth true b = b
same_truth false b = not b

abbrev pub same_literal : Literal → Literal → Bool
same_literal (text a) (text b) = a =s b
same_literal (number a) (number b) = same_number a b
same_literal (truth a) (truth b) = same_truth a b
same_literal null null = true
same_literal _ _ = false

abbrev pub input_is : Option Literal → Literal → Bool
input_is none v = false
input_is (some w) v = same_literal w v

abbrev pub step_limit : ℕ
step_limit = 20

-- `check`.
unfoldable pub check : Dependencies → ℕ → Run → Option WorkflowError
check env duration s =
    if env.aborted s.executed_steps
    then some cancelled
    else if ltb duration (env.elapsed s.executed_steps)
    then some timeout
    else if leb step_limit s.executed_steps
    then some step_budget_exceeded
    else none

-- A confirmation: nothing happens but an error where it is not given.
unfoldable pub ask : Dependencies → String → Run → Option WorkflowError
ask env path s = elim (env.request_confirmation s.executed_steps path) [
  | none ↦ some dependency_failed
  | some true ↦ none
  | some false ↦ some confirmation_denied
]

abbrev pub is_external : SideEffect → Bool
is_external external_write = true
is_external _ = false

-- May the Skill of a step be executed, as far as its description and the user say?
unfoldable pub permit : Dependencies → String → String → Run → Option WorkflowError
permit env path skill_id s = elim (env.describe_skill s.executed_steps skill_id) [
  | none ↦ some dependency_failed
  | some d ↦
      let asked = ask env path s in
      if is_external d.side_effect
      then some external_write_forbidden
      else if d.requires_confirmation
      then asked
      else none
]

-- The cost of a result against the budget, and its output.
unfoldable pub charge : ℕ → String → StepResult → Run → Outcome
charge budget id r s =
    if ltb budget (s.cost_micros + r.cost_micros) then (s, some cost_budget_exceeded) else (
      record s {
        cost_micros = s.cost_micros + r.cost_micros;
        outputs = Keyed.set id r.output s.outputs;
      },
      none,
    )

abbrev pub execution_of : ExecutionContext → String → String → Keyed Literal → ℕ → Execution
execution_of ctx path skill_id payload n = record {
  step_number = n;
  step_path = path;
  skill_id = skill_id;
  payload = payload;
  idempotency_key = ctx.run_id <> (":" <> path);
}

abbrev pub requested : Execution → Run → Run
requested e s = record s { executions = s.executions ++ e ∷ [] }

-- The execution of a Skill that has no result yet.
unfoldable pub perform : Dependencies → ℕ → String → Execution → Run → Outcome
perform env budget id e s = elim (env.authorize_and_execute e) [
  | none ↦ (requested e s, some dependency_failed)
  | some a ↦ elim a.cost_micros [
    | none ↦ (requested e s, some invalid_cost)
    | some cost ↦
        let r : StepResult = record { output = a.output; cost_micros = cost } in
        charge budget id r (record s {
          executions = s.executions ++ e ∷ [];
          completed = Keyed.set e.idempotency_key r s.completed;
        })
  ]
]

-- The result that is there, or the execution.
unfoldable pub work : Dependencies → ℕ → String → Execution → Run → Outcome
work env budget id x s = elim (Keyed.get x.idempotency_key s.completed) [
  | some r ↦ charge budget id r s
  | none ↦ perform env budget id x s
]

unfoldable pub run_skill :
    Dependencies → ExecutionContext → ℕ → String → String → Keyed Literal → String → Run → Outcome
run_skill env ctx budget id skill_id payload path s =
    unless (permit env path skill_id s) s
      (work env budget id (execution_of ctx path skill_id payload s.executed_steps) s)

-- The rounds of a loop: how many are left, and the number of the next.
abbrev pub rounds : ℕ → ℕ → (ℕ → Run → Outcome) → Run → Outcome
rounds zero i body s = (s, none)
rounds (suc n) i body s = and_then (body i s) (rounds n (suc i) body)

abbrev pub path_of : String → ℕ → Step → String
path_of path index t = path <> ("." <> (show index <> ("." <> step_id t)))

-- `runSteps`: the steps of a list from an index on, and one of them.
unfoldable mutual
  pub run_steps : Dependencies → ExecutionContext → ℕ → ℕ → Steps → String → ℕ → Run → Outcome
  run_steps env ctx budget duration end path i s = (s, none)
  run_steps env ctx budget duration (also t ts) path i s = unless (check env duration s) s (
      and_then
        (run_step env ctx budget duration t (path_of path i t)
          (record s { executed_steps = suc s.executed_steps }))
        (run_steps env ctx budget duration ts path (suc i)))

  pub run_step : Dependencies → ExecutionContext → ℕ → ℕ → Step → String → Run → Outcome
  run_step env ctx budget duration (confirm id title summary) path s = (s, ask env path s)
  run_step env ctx budget duration (skill id k input) path s =
      run_skill env ctx budget id k input path s
  run_step env ctx budget duration (branch id key v yes_steps no_steps) path s =
      if input_is (Keyed.get key ctx.input) v
      then run_steps env ctx budget duration yes_steps (path <> ".branch") 0 s
      else run_steps env ctx budget duration no_steps (path <> ".branch") 0 s
  run_step env ctx budget duration (repeat id n steps) path s =
      rounds (or_else n 0) 0
        (λ i. run_steps env ctx budget duration steps (path <> (".loop-" <> show i)) 0) s

-- /^[A-Za-z0-9._:-]{1,160}$/
unfoldable pub is_name : String → Bool
is_name s =
    let cs = codes s in
    leb 1 (length cs)
    && (leb (length cs) 160
        && all (λ c. is_small c || (is_capital c || (is_figure c || (is_mark c || c == b':')))) cs)

pub record ExecutionResult : Type 0 where
  pub run_id : String
  pub outputs : Keyed String
  pub cost_micros : ℕ
  pub executed_steps : ℕ

abbrev pub start : Keyed StepResult → Run
start completed = record {
  cost_micros = 0;
  executed_steps = 0;
  outputs = [];
  completed = completed;
  executions = [];
}

abbrev pub limits_of : ExecutionContext → Option (ℕ × ℕ)
limits_of ctx = elim ctx.max_cost_micros [
  | none ↦ none
  | some budget ↦ elim ctx.max_duration_ms [
    | none ↦ none
    | some duration ↦
        if is_name ctx.run_id && (is_name ctx.agent_id && (leb 100 duration && leb duration 600000))
        then some (budget, duration)
        else none
  ]
]

abbrev pub finish : ExecutionContext → Outcome → Run × Result WorkflowError ExecutionResult
finish ctx (s, some e) = (s, err e)
finish ctx (s, none) = (
  s,
  ok (record {
    run_id = ctx.run_id;
    outputs = s.outputs;
    cost_micros = s.cost_micros;
    executed_steps = s.executed_steps;
  }),
)

-- `execute`, from the results that the engine holds: the run that it leaves, whose results the
-- engine holds then, and what it returns.
unfoldable pub execute :
    Dependencies
    → Keyed StepResult
    → BoundedWorkflow
    → ExecutionContext
    → Run × Result WorkflowError ExecutionResult
execute env completed w ctx = elim (parse_workflow w) [
  | err e ↦ (start completed, err invalid_workflow)
  | ok valid ↦ elim (limits_of ctx) [
    | none ↦ (start completed, err invalid_context)
    | some (budget, duration) ↦
        finish ctx
          (run_steps env ctx budget duration valid.steps valid.workflow_id 0 (start completed))
  ]
]
