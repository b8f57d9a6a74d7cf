-- ===== src/Workflow/Examples.antt =====
-- A workflow with a confirmation, a branch and a loop, and a run of it.
use longhub_platform.Common.{
  ◌⊎◌, err, ◌≤◌, String, true, false, none, some, [], ◌∷◌, ◌≡◌, refl, arith, ok, All,
  String-discrete, text_length,
}
use longhub_platform.Common.Decimal.{show, show_fuel, digit}
use longhub_platform.Common.Keyed
use longhub_platform.Common.Keyed.{Keyed}
use longhub_platform.Skills.Plans.{are_distinct}
use longhub_platform.Workflow.{
  BoundedWorkflow, skill, confirm, branch, repeat, end, also, text, parse_workflow, visit_list,
  is_workflow_id, is_filled_up_to, is_key, is_workflow_skill, has_steps,
}
use longhub_platform.Workflow.Engine.{
  Dependencies, ExecutionContext, ExecutionResult, StepResult, SkillDescriptor, local_recoverable,
  WorkflowError, execute, run_steps, run_skill, work, perform, charge, check, permit, ask, is_name,
}
use longhub_platform.Workflow.Parsing.{size, nesting, ids_onto, parse_bounds}
use longhub_platform.Workflow.Spending.{spent, all_but_last}
use longhub_platform.Workflow.Budgets.{execute_bounds}
use longhub_platform.Workflow.Effects.{IsPermitted, executions-IsPermitted, asked, steps_once}
use longhub_platform.Workflow.Resuming.{calm, rerun_repeats}

abbrev flow : BoundedWorkflow
flow = record {
  schema_version = "longhub/workflow/v1";
  workflow_id = "user.workflow.01234567-89ab-cdef-0123-456789abcdef";
  name = "Report";
  steps = also (confirm "ask" "Start" "Make the report") (
      also (branch "which" "kind" (text "long") (also (skill "a" "report.long" []) end) end)
        (also (repeat "twice" (some 2) (also (skill "b" "report.page" []) end)) end));
}

abbrev context : ExecutionContext
context = record {
  run_id = "run-1";
  agent_id = "agent-1";
  input = ("kind", text "long") ∷ [];
  max_cost_micros = some 100;
  max_duration_ms = some 1000;
}

abbrev plain : SkillDescriptor
plain = record { side_effect = local_recoverable; requires_confirmation = true }

abbrev env : Dependencies
env = record {
  aborted = λ n. false;
  elapsed = λ n. n;
  describe_skill = λ n k. some plain;
  request_confirmation = λ n path. some true;
  authorize_and_execute = λ x. some (record { output = x.skill_id; cost_micros = some 7 });
}

abbrev result : ExecutionResult
result = record {
  run_id = "run-1";
  outputs = ("a", "report.long") ∷ ("b", "report.page") ∷ [];
  cost_micros = 21;
  executed_steps = 6;
}

parsed : parse_workflow flow ≡ ok flow
unfolding parse_workflow visit_list is_workflow_id is_filled_up_to is_key is_workflow_skill
    text_length String-discrete
parsed = refl

ran : (execute env [] flow context).1 ≡ ok result
unfolding execute parse_workflow visit_list is_workflow_id is_filled_up_to is_key is_workflow_skill
    text_length String-discrete run_steps run_skill work perform charge check permit ask is_name
    Keyed.get Keyed.set show show_fuel digit
ran = refl

execute_bounds_example :
    ((execute env [] flow context).0.executed_steps ≤ 20)
    × ((execute env [] flow context).0.cost_micros ≤ 100)
    × (spent env (all_but_last (execute env [] flow context).0.executions) ≤ 100)
    × (((e : WorkflowError) × ((execute env [] flow context).1 ≡ err e))
        ⊎ (spent env (execute env [] flow context).0.executions ≤ 100))
execute_bounds_example = execute_bounds env [] flow context 100 refl

executions-IsPermitted_example :
    All (λ x. IsPermitted env x) (execute env [] flow context).0.executions
executions-IsPermitted_example = executions-IsPermitted env [] flow context

abbrev key : String
key = "run-1:user.workflow.01234567-89ab-cdef-0123-456789abcdef.1.which.branch.0.a"

abbrev held : StepResult
held = record { output = "old"; cost_micros = 3 }

steps_once_example :
    (asked key (execute env ((key, held) ∷ []) flow context).0 ≤ 1)
    × ((r : StepResult)
        → Keyed.get key ((key, held) ∷ []) ≡ some r
        → (asked key (execute env ((key, held) ∷ []) flow context).0 ≡ 0)
          × (Keyed.get key (execute env ((key, held) ∷ []) flow context).0.completed ≡ some r))
steps_once_example = steps_once env ((key, held) ∷ []) flow context key

rerun_repeats_example :
    execute (calm env (λ n. 5) (λ x. none)) (execute env [] flow context).0.completed flow context
    ≡ (record (execute env [] flow context).0 { executions = [] }, ok result)
rerun_repeats_example =
    rerun_repeats env [] flow context result 1000 (λ n. 5) (λ x. none) refl (λ n. omega arith) ran

parse_bounds_example :
    (flow ≡ flow)
    × (has_steps flow.steps ≡ true)
    × (size flow.steps ≤ 20)
    × (nesting flow.steps ≤ 2)
    × (are_distinct (ids_onto flow.steps []) ≡ true)
parse_bounds_example = parse_bounds flow flow parsed
