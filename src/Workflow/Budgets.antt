-- ===== src/Workflow/Budgets.antt =====
-- The budgets of a run of packages/longhub-core/src/workflow-engine.ts. The source compares the cost
-- of a step with the budget once the step is executed: the step that would take the counter over the
-- budget has been paid for and its result is kept, though the counter leaves its cost out.
use longhub_platform.Common.{
  ℕ, suc, ◌+◌, ◌≤◌, String, Option, none, some, [], ◌∷◌, ◌++◌, ◌≡◌, refl, ◌⊎◌, inl, inr, arith,
  Bool-cases, Option-cases, ok, err, ltb,
}
use longhub_platform.Common.Results.{Result-cases}
use longhub_platform.Common.Keyed
use longhub_platform.Common.Keyed.{Keyed}
use longhub_platform.Workflow.{Literal, BoundedWorkflow, parse_workflow}
use longhub_platform.Workflow.Engine.{
  Dependencies, ExecutionContext, Execution, StepResult, Run, Outcome, WorkflowError,
  invalid_workflow, invalid_context, cost_budget_exceeded, check, permit, charge, perform,
  execution_of, work, run_skill, run_steps, execute, limits_of, finish, start,
}
use longhub_platform.Workflow.Spending.{
  price, spent, all_but_last, spent-append, spent-all_but_last-le, all_but_last-append,
}
use longhub_platform.Workflow.Walks.{run_steps-walk}

-- The counter covers what the executions cost.
abbrev IsPaid : Dependencies → Run → Type 0
IsPaid env s = spent env s.executions ≤ s.cost_micros

-- A part of the run keeps both budgets, and pays for all executions but one that ends it.
record Keeps (env : Dependencies) (budget : ℕ) (s : Run) (o : Outcome) : Type 0 where
  steps : s.executed_steps ≤ 20 → o.0.executed_steps ≤ 20
  cost : s.cost_micros ≤ budget → o.0.cost_micros ≤ budget
  paid : IsPaid env s → o.1 ≡ none → IsPaid env o.0
  last : IsPaid env s → spent env (all_but_last o.0.executions) ≤ o.0.cost_micros

stop-Keeps :
    (env : Dependencies) (budget : ℕ) (s : Run) (e : Option WorkflowError)
    → Keeps env budget s (s, e)
stop-Keeps env budget s e = record {
  steps = λ l. l;
  cost = λ l. l;
  paid = λ p _. p;
  last = λ p. omega (arith, spent-all_but_last-le env s.executions);
}

along-Keeps :
    (env : Dependencies) (budget : ℕ) (s s' : Run) (o : Outcome)
    → Keeps env budget s (s', none)
    → Keeps env budget s' o
    → Keeps env budget s o
along-Keeps env budget s s' o h h' = record {
  steps = λ l. h'.steps (h.steps l);
  cost = λ l. h'.cost (h.cost l);
  paid = λ p. h'.paid (h.paid p refl);
  last = λ p. h'.last (h.paid p refl);
}

begin-Keeps :
    (env : Dependencies) (duration budget : ℕ) (s : Run)
    → check env duration s ≡ none
    → Keeps env budget s (record s { executed_steps = suc s.executed_steps }, none)
unfolding check
begin-Keeps env duration budget s h = record {
  steps = λ l. ground arith;
  cost = λ l. l;
  paid = λ p _. p;
  last = λ p. omega (arith, spent-all_but_last-le env s.executions);
}

-- A result that is there already.
charge-Keeps :
    (env : Dependencies) (budget : ℕ) (id : String) (r : StepResult) (s : Run)
    → Keeps env budget s (charge budget id r s)
unfolding charge
charge-Keeps env budget id r s =
    let less = spent-all_but_last-le env s.executions in
    elim (Bool-cases (ltb budget (s.cost_micros + r.cost_micros))) [
      | inl over ↦ rw (over, charge) (stop-Keeps env budget s (some cost_budget_exceeded))
      | inr fits ↦
          rw (fits, charge)
            (record {
              steps = λ l. l;
              cost = λ l. ground arith;
              paid = λ p _. omega arith;
              last = λ p. omega arith;
            })
    ]

-- An execution that ends the run.
ended-Keeps :
    (env : Dependencies) (budget : ℕ) (s s' : Run) (x : Execution) (e : WorkflowError)
    → s'.executions ≡ s.executions ++ x ∷ []
    → s'.executed_steps ≡ s.executed_steps
    → s'.cost_micros ≡ s.cost_micros
    → Keeps env budget s (s', some e)
ended-Keeps env budget s s' x e asked steps cost = record {
  steps = λ l. omega arith;
  cost = λ l. omega arith;
  paid = λ _ done. absurd (cc done);
  last = λ p. rw (asked, all_but_last-append s.executions x, cost) p;
}

perform-Keeps :
    (env : Dependencies) (budget : ℕ) (id : String) (x : Execution) (s : Run)
    → Keeps env budget s (perform env budget id x s)
unfolding perform charge
perform-Keeps env budget id x s = elim (Option-cases (env.authorize_and_execute x)) [
  | inl e ↦ rw (e, perform) (ended-Keeps env budget s _ x _ refl refl refl)
  | inr (a, e) ↦ elim (Option-cases a.cost_micros) [
    | inl e' ↦ rw (e, perform) (rw e' (ended-Keeps env budget s _ x _ refl refl refl))
    | inr (cost, e') ↦ elim (Bool-cases (ltb budget (s.cost_micros + cost))) [
      | inl over ↦
          rw (e, perform)
            (rw e' (rw (over, charge) (ended-Keeps env budget s _ x _ refl refl refl)))
      | inr fits ↦
          let cost_of : price env x ≡ cost = rw (e, price) (rw e' refl) in
          let sum = spent-append env s.executions x in
          rw (e, perform)
            (rw e' (
              rw (fits, charge)
                (record {
                  steps = λ l. l;
                  cost = λ l. ground arith;
                  paid = λ p _. omega (arith, sum, cost_of);
                  last = λ p. rw (all_but_last-append s.executions x) (omega arith);
                })))
    ]
  ]
]

run_skill-Keeps :
    (env : Dependencies) (ctx : ExecutionContext) (budget : ℕ) (id k : String)
    (payload : Keyed Literal) (path : String) (s : Run)
    → Keeps env budget s (run_skill env ctx budget id k payload path s)
unfolding run_skill work
run_skill-Keeps env ctx budget id k payload path s =
    let x = execution_of ctx path k payload s.executed_steps in
    elim (Option-cases (permit env path k s)) [
      | inr (e, h) ↦ rw (h, run_skill) (stop-Keeps env budget s (some e))
      | inl h ↦ elim (Option-cases (Keyed.get x.idempotency_key s.completed)) [
        | inl g ↦ rw (h, run_skill) (rw (g, work) (perform-Keeps env budget id x s))
        | inr (r, g) ↦ rw (h, run_skill) (rw (g, work) (charge-Keeps env budget id r s))
      ]
    ]

run_steps-Keeps :
    (env : Dependencies) (ctx : ExecutionContext) (budget duration : ℕ) (w : BoundedWorkflow)
    (s : Run)
    → Keeps env budget s (run_steps env ctx budget duration w.steps w.workflow_id 0 s)
run_steps-Keeps env ctx budget duration w s =
    run_steps-walk env ctx budget duration (Keeps env budget) (stop-Keeps env budget)
      (along-Keeps env budget) (λ s h. begin-Keeps env duration budget s h)
      (λ id k payload path s. run_skill-Keeps env ctx budget id k payload path s) w.steps
      w.workflow_id 0 s

-- What a run of the engine is: no step at all, or a run of the steps of the workflow.
pub execute_cases :
    (env : Dependencies) (completed : Keyed StepResult) (w : BoundedWorkflow)
    (ctx : ExecutionContext)
    → ((e : WorkflowError) × (execute env completed w ctx ≡ (start completed, err e)))
      ⊎ ((valid : BoundedWorkflow) × (budget duration : ℕ) × (parse_workflow w ≡ ok valid)
          × (limits_of ctx ≡ some (budget, duration))
          × (execute env completed w ctx
              ≡ finish ctx (
                  run_steps env ctx budget duration valid.steps valid.workflow_id 0
                    (start completed))))
unfolding execute
execute_cases env completed w ctx = elim (Result-cases (parse_workflow w)) [
  | inl (e, h) ↦ inl (invalid_workflow, rw (h, execute) refl)
  | inr (valid, h) ↦ elim (Option-cases (limits_of ctx)) [
    | inl g ↦ inl (invalid_context, rw (h, execute) (rw g refl))
    | inr ((budget, duration), g) ↦ inr (valid, budget, duration, h, g, rw (h, execute) (rw g refl))
  ]
]

pub finish-run : (ctx : ExecutionContext) (o : Outcome) → (finish ctx o).0 ≡ o.0
finish-run ctx (s, some e) = refl
finish-run ctx (s, none) = refl

limits-budget :
    (ctx : ExecutionContext) (budget b duration : ℕ)
    → ctx.max_cost_micros ≡ some budget
    → limits_of ctx ≡ some (b, duration)
    → b ≡ budget
limits-budget ctx budget b duration h g = ground arith

finish-cases :
    (ctx : ExecutionContext) (o : Outcome)
    → ((e : WorkflowError) × ((finish ctx o).1 ≡ err e)) ⊎ (o.1 ≡ none)
finish-cases ctx (s, some e) = inl (e, refl)
finish-cases ctx (s, none) = inr refl

-- Every run ends within its budgets: where the context names a budget, whatever the workflow and its
-- loops, and whatever the other parts of the program answer, it has begun 20 steps at most, and its
-- cost counter is at most that budget. What the executions that it asked for cost together, but for
-- the last, is at most the budget; and with the last as well, unless the run ends with an error.
pub execute_bounds :
    (env : Dependencies) (completed : Keyed StepResult) (w : BoundedWorkflow)
    (ctx : ExecutionContext) (budget : ℕ)
    → ctx.max_cost_micros ≡ some budget
    → let ran = execute env completed w ctx in
      (ran.0.executed_steps ≤ 20)
      × (ran.0.cost_micros ≤ budget)
      × (spent env (all_but_last ran.0.executions) ≤ budget)
      × (((e : WorkflowError) × (ran.1 ≡ err e)) ⊎ (spent env ran.0.executions ≤ budget))
execute_bounds env completed w ctx budget h = elim (execute_cases env completed w ctx) [
  | inl (e, failed) ↦ rw failed (omega arith, omega arith, omega arith, inl (e, refl))
  | inr (valid, b, duration, _, limits, ran) ↦
      let o = run_steps env ctx b duration valid.steps valid.workflow_id 0 (start completed) in
      let kept = run_steps-Keeps env ctx b duration valid (start completed) in
      let same : b ≡ budget = limits-budget ctx budget b duration h limits in
      let cost : o.0.cost_micros ≤ b = kept.cost (omega arith) in
      let last = kept.last (omega arith) in
      rw (ran, finish-run ctx o)
        (
          kept.steps (omega arith),
          omega arith,
          omega (arith, last),
          elim (finish-cases ctx o) [
            | inl failed ↦ inl failed
            | inr done ↦ inr (omega (arith, kept.paid (omega arith) done))
          ],
        )
]
