-- ===== src/Workflow/Effects.antt =====
-- What a run of packages/longhub-core/src/workflow-engine.ts asks to be executed, and how often.
use longhub_platform.Common.{
  ℕ, ◌+◌, ◌≤◌, String, true, false, Option, none, some, List, [], ◌∷◌, ◌++◌, ◌≡◌, refl, ◌∙◌, ◌⊎◌,
  inl, inr, arith, Bool-cases, Option-cases, ◌=s◌, =s_iff, All, count, bit, count-append,
}
use longhub_platform.Common.Keyed
use longhub_platform.Common.Keyed.{Keyed}
use longhub_platform.Workflow.{Literal, BoundedWorkflow}
use longhub_platform.Workflow.Engine.{
  Dependencies, ExecutionContext, Execution, SkillDescriptor, StepResult, Run, Outcome,
  WorkflowError, ask, permit, charge, perform, is_external, execution_of, work, run_skill,
  run_steps, execute, start,
}
use longhub_platform.Workflow.Walks.{run_steps-walk}
use longhub_platform.Workflow.Budgets.{execute_cases, finish-run}

-- A Skill may be executed: it was described when its step came, writes nothing outside, and was
-- confirmed if it asks for that.
pub record IsPermitted (env : Dependencies) (x : Execution) : Type 0 where
  pub descriptor : SkillDescriptor
  pub described : env.describe_skill x.step_number x.skill_id ≡ some descriptor
  pub harmless : is_external descriptor.side_effect ≡ false
  pub confirmed :
      descriptor.requires_confirmation ≡ true
      → env.request_confirmation x.step_number x.step_path ≡ some true

permit-IsPermitted :
    (env : Dependencies) (ctx : ExecutionContext) (path k : String) (payload : Keyed Literal)
    (s : Run)
    → permit env path k s ≡ none
    → IsPermitted env (execution_of ctx path k payload s.executed_steps)
unfolding permit ask
permit-IsPermitted env ctx path k payload s h =
    elim (Option-cases (env.describe_skill s.executed_steps k)) [
      | inl e ↦ absurd (cc (rw (e, permit) at h))
      | inr (d, e) ↦
          let h' = rw (e, permit) at h in
          record {
            descriptor = d;
            described = e;
            harmless = ground arith;
            confirmed = λ c. ground arith;
          }
    ]

All-append :
    {A : Type 0} (P : A → Type 0) (xs : List A) (x : A) → All P xs → P x → All P (xs ++ x ∷ [])
All-append P [] x t h = (h, tt)
All-append P (y ∷ ys) x t h = (t.0, All-append P ys x t.1 h)

-- Nothing but permitted executions is added.
Permits : Dependencies → Run → Outcome → Type 0
Permits env s o =
    All (λ x. IsPermitted env x) s.executions → All (λ x. IsPermitted env x) o.0.executions

-- What a part of the run has asked for, and which results are there: by the key of a request.
pub charge-rows :
    (budget : ℕ) (id : String) (r : StepResult) (s : Run)
    → ((charge budget id r s).0.executions ≡ s.executions)
      × ((charge budget id r s).0.completed ≡ s.completed)
unfolding charge
charge-rows budget id r s = ground arith

-- An execution that is performed is listed, and either its result is kept or the run stops.
perform_rows :
    (env : Dependencies) (budget : ℕ) (id : String) (x : Execution) (s : Run)
    → ((perform env budget id x s).0.executions ≡ s.executions ++ x ∷ [])
      × ((((perform env budget id x s).0.completed ≡ s.completed)
            × ((e : WorkflowError) × ((perform env budget id x s).1 ≡ some e)))
          ⊎ ((r : StepResult) × ((perform env budget id x s).0.completed
                ≡ Keyed.set x.idempotency_key r s.completed)))
unfolding perform
perform_rows env budget id x s = elim (Option-cases (env.authorize_and_execute x)) [
  | inl e ↦ rw (e, perform) (refl, inl (refl, (_, refl)))
  | inr (a, e) ↦ elim (Option-cases a.cost_micros) [
    | inl e' ↦ rw (e, perform) (rw e' (refl, inl (refl, (_, refl))))
    | inr (cost, e') ↦
        let rows = charge-rows budget id (record { output = a.output; cost_micros = cost }) _ in
        rw (e, perform)
          (rw e' (rows.0, inr (record { output = a.output; cost_micros = cost }, rows.1)))
  ]
]

-- A step with a Skill adds no execution, or a permitted one whose result was not there.
skill_rows :
    (env : Dependencies) (ctx : ExecutionContext) (budget : ℕ) (id k : String)
    (payload : Keyed Literal) (path : String) (s : Run)
    → (((run_skill env ctx budget id k payload path s).0.executions ≡ s.executions)
        × ((run_skill env ctx budget id k payload path s).0.completed ≡ s.completed))
      ⊎ ((x : Execution) × IsPermitted env x
          × (Keyed.get x.idempotency_key s.completed ≡ none)
          × (run_skill env ctx budget id k payload path s ≡ perform env budget id x s))
unfolding run_skill work
skill_rows env ctx budget id k payload path s =
    let x = execution_of ctx path k payload s.executed_steps in
    elim (Option-cases (permit env path k s)) [
      | inr (e, h) ↦ inl (rw (h, run_skill) (refl, refl))
      | inl h ↦ elim (Option-cases (Keyed.get x.idempotency_key s.completed)) [
        | inl g ↦ inr (
          x,
          permit-IsPermitted env ctx path k payload s h,
          g,
          rw (h, run_skill) (rw (g, work) refl),
        )
        | inr (r, g) ↦ inl (rw (h, run_skill) (rw (g, work) (charge-rows budget id r s)))
      ]
    ]

skill-Permits :
    (env : Dependencies) (ctx : ExecutionContext) (budget : ℕ) (id k : String)
    (payload : Keyed Literal) (path : String) (s : Run)
    → Permits env s (run_skill env ctx budget id k payload path s)
unfolding Permits
skill-Permits env ctx budget id k payload path s t =
    elim (skill_rows env ctx budget id k payload path s) [
      | inl (same, _) ↦ rw same t
      | inr (x, ok_x, _, ran) ↦
          let (listed, _) = perform_rows env budget id x s in
          rw (ran, listed) (All-append (λ y. IsPermitted env y) s.executions x t ok_x)
    ]

-- No step of a run writes outside: whatever the workflow, each execution that a run asks for is of
-- a Skill that was described when its step came as one without external writes, and that the user
-- has confirmed for this step if the description asks for it.
pub executions-IsPermitted :
    (env : Dependencies) (completed : Keyed StepResult) (w : BoundedWorkflow)
    (ctx : ExecutionContext)
    → All (λ x. IsPermitted env x) (execute env completed w ctx).0.executions
unfolding Permits
executions-IsPermitted env completed w ctx = elim (execute_cases env completed w ctx) [
  | inl (e, failed) ↦ rw failed tt
  | inr (valid, budget, duration, _, _, ran) ↦
      let o = run_steps env ctx budget duration valid.steps valid.workflow_id 0 (start completed) in
      let kept : Permits env (start completed) o =
        run_steps-walk env ctx budget duration (Permits env) (λ s e t. t)
          (λ s s' o h h' t. h' (h t)) (λ s h t. t)
          (λ id k payload path s. skill-Permits env ctx budget id k payload path s) valid.steps
          valid.workflow_id 0 (start completed) in
      rw (ran, finish-run ctx o) (kept tt)
]

-- How often a key has been asked for.
abbrev pub asked : String → Run → ℕ
asked key s = count (λ x. x.idempotency_key =s key) s.executions

-- A key is asked for once at most, and not at all while it has no result; after an error only the
-- first is said.
record IsOnce (key : String) (s : Run) : Type 0 where
  once : asked key s ≤ 1
  first : Keyed.get key s.completed ≡ none → asked key s ≡ 0

IsOnceAfter : String → Outcome → Type 0
IsOnceAfter key (s, none) = IsOnce key s
IsOnceAfter key (s, some e) = asked key s ≤ 1

Onces : String → Run → Outcome → Type 0
Onces key s o = IsOnce key s → IsOnceAfter key o

stop-Onces : (key : String) (s : Run) (e : Option WorkflowError) → Onces key s (s, e)
unfolding Onces IsOnceAfter
stop-Onces key s none h = h
stop-Onces key s (some e) h = h.once

-- One more request, of a key that had no result.
asked-more :
    (key : String) (x : Execution) (s s' : Run)
    → s'.executions ≡ s.executions ++ x ∷ []
    → asked key s' ≡ asked key s + bit (x.idempotency_key =s key)
asked-more key x s s' e = rw e (
    ground
      (arith, count-append (λ (y : Execution). y.idempotency_key =s key) s.executions (x ∷ [])))

asked-once :
    (key : String) (x : Execution) (s s' : Run)
    → IsOnce key s
    → Keyed.get x.idempotency_key s.completed ≡ none
    → s'.executions ≡ s.executions ++ x ∷ []
    → asked key s' ≤ 1
asked-once key x s s' h free e = elim (Bool-cases (x.idempotency_key =s key)) [
  | inl same ↦
      let k : x.idempotency_key ≡ key = (=s_iff x.idempotency_key key).0 same in
      let none_yet : asked key s ≡ 0 = h.first (rw k at free) in
      let more : asked key s' ≡ asked key s + 1 = rw same at (asked-more key x s s' e) in
      omega arith
  | inr other ↦
      let more : asked key s' ≡ asked key s + 0 = rw other at (asked-more key x s s' e) in
      let once = h.once in omega arith
]

-- The request, by whether its result was kept.
performed-Once :
    (key : String) (x : Execution) (s : Run) (o : Outcome)
    → IsOnce key s
    → Keyed.get x.idempotency_key s.completed ≡ none
    → o.0.executions ≡ s.executions ++ x ∷ []
    → ((o.0.completed ≡ s.completed) × ((e : WorkflowError) × (o.1 ≡ some e)))
      ⊎ ((r : StepResult) × (o.0.completed ≡ Keyed.set x.idempotency_key r s.completed))
    → IsOnceAfter key o
unfolding IsOnceAfter
performed-Once key x s (s', some e) h free listed kept = asked-once key x s s' h free listed
performed-Once key x s (s', none) h free listed (inl (_, (e, stopped))) = absurd (cc stopped)
performed-Once key x s (s', none) h free listed (inr (r, kept)) = record {
  once = asked-once key x s s' h free listed;
  first = λ missing. elim (Bool-cases (x.idempotency_key =s key)) [
    | inl same ↦
        let k : x.idempotency_key ≡ key = (=s_iff x.idempotency_key key).0 same in
        absurd (cc (rw (kept, k, Keyed.get-set_self key r s.completed) at missing))
    | inr other ↦
        let more : asked key s' ≡ asked key s + 0 = rw other at (asked-more key x s s' listed) in
        let before : Keyed.get key s.completed ≡ none =
          rw (kept, Keyed.get-set x.idempotency_key key r s.completed, other) at missing in
        let zero_before = h.first before in omega arith
  ];
}

same_rows-Once :
    (key : String) (s : Run) (o : Outcome)
    → IsOnce key s
    → o.0.executions ≡ s.executions
    → o.0.completed ≡ s.completed
    → IsOnceAfter key o
unfolding IsOnceAfter
same_rows-Once key s (s', some e) h listed kept = rw listed h.once
same_rows-Once key s (s', none) h listed kept = record {
  once = rw listed h.once;
  first = λ missing. rw listed (h.first (rw kept at missing));
}

skill-Onces :
    (env : Dependencies) (ctx : ExecutionContext) (budget : ℕ) (key id k : String)
    (payload : Keyed Literal) (path : String) (s : Run)
    → Onces key s (run_skill env ctx budget id k payload path s)
unfolding Onces
skill-Onces env ctx budget key id k payload path s h =
    elim (skill_rows env ctx budget id k payload path s) [
      | inl (listed, kept) ↦
          same_rows-Once key s (run_skill env ctx budget id k payload path s) h listed kept
      | inr (x, _, free, ran) ↦
          let (listed, kept) = perform_rows env budget id x s in
          rw ran (performed-Once key x s (perform env budget id x s) h free listed kept)
    ]

-- A result that is there stays, and its key is not asked for.
Stays : String → StepResult → Run → Outcome → Type 0
Stays key r s o =
    Keyed.get key s.completed ≡ some r
    → (Keyed.get key o.0.completed ≡ some r) × (asked key o.0 ≡ asked key s)

skill-Stays :
    (env : Dependencies) (ctx : ExecutionContext) (budget : ℕ) (key : String) (r : StepResult)
    (id k : String) (payload : Keyed Literal) (path : String) (s : Run)
    → Stays key r s (run_skill env ctx budget id k payload path s)
unfolding Stays
skill-Stays env ctx budget key r id k payload path s h =
    elim (skill_rows env ctx budget id k payload path s) [
      | inl (listed, kept) ↦ rw (listed, kept) (h, refl)
      | inr (x, _, free, ran) ↦
          let (listed, kept) = perform_rows env budget id x s in
          let other : (x.idempotency_key =s key) ≡ false =
            elim (Bool-cases (x.idempotency_key =s key)) [
              | inr other ↦ other
              | inl same ↦
                  let e : x.idempotency_key ≡ key = (=s_iff x.idempotency_key key).0 same in
                  absurd (cc (rw e at free))
            ] in
          let more = asked-more key x s (perform env budget id x s).0 listed in
          rw ran (
            elim kept [
              | inl (same, _) ↦ rw same h
              | inr (r', wrote) ↦
                  rw (wrote, Keyed.get-set x.idempotency_key key r' s.completed, other) h
            ],
            ground (arith, more),
          )
    ]

run_steps-once :
    (env : Dependencies) (ctx : ExecutionContext) (budget duration : ℕ) (w : BoundedWorkflow)
    (key : String) (s : Run)
    → Onces key s (run_steps env ctx budget duration w.steps w.workflow_id 0 s)
unfolding Onces IsOnceAfter
run_steps-once env ctx budget duration w key s =
    run_steps-walk env ctx budget duration (Onces key) (λ s e. stop-Onces key s e)
      (λ s s' o h h' t. h' (h t)) (λ s h t. record { once = t.once; first = t.first })
      (λ id k payload path s. skill-Onces env ctx budget key id k payload path s) w.steps
      w.workflow_id 0 s

run_steps-Stays :
    (env : Dependencies) (ctx : ExecutionContext) (budget duration : ℕ) (w : BoundedWorkflow)
    (key : String) (r : StepResult) (s : Run)
    → Stays key r s (run_steps env ctx budget duration w.steps w.workflow_id 0 s)
unfolding Stays
run_steps-Stays env ctx budget duration w key r s =
    run_steps-walk env ctx budget duration (Stays key r) (λ s e h. (h, refl))
      (λ s s' o h h' t. let (a, b) = h t in let (a', b') = h' a in (a', b' ∙ b))
      (λ s h t. (t, refl))
      (λ id k payload path s. skill-Stays env ctx budget key r id k payload path s) w.steps
      w.workflow_id 0 s

once_after : (key : String) (o : Outcome) → IsOnceAfter key o → asked key o.0 ≤ 1
unfolding IsOnceAfter
once_after key (s, none) h = h.once
once_after key (s, some e) h = h

-- Nothing is done twice: in a run of the engine, whatever results it holds already, an idempotency
-- key is asked for once at most; and where the engine holds a result for the key, the run does not
-- ask for it, and the engine holds that result after the run.
pub steps_once :
    (env : Dependencies) (completed : Keyed StepResult) (w : BoundedWorkflow)
    (ctx : ExecutionContext) (key : String)
    → (asked key (execute env completed w ctx).0 ≤ 1)
      × ((r : StepResult)
          → Keyed.get key completed ≡ some r
          → (asked key (execute env completed w ctx).0 ≡ 0)
            × (Keyed.get key (execute env completed w ctx).0.completed ≡ some r))
unfolding Onces Stays
steps_once env completed w ctx key = elim (execute_cases env completed w ctx) [
  | inl (e, failed) ↦ rw failed (omega arith, λ r h. (refl, h))
  | inr (valid, budget, duration, _, _, ran) ↦
      let o = run_steps env ctx budget duration valid.steps valid.workflow_id 0 (start completed) in
      rw (ran, finish-run ctx o)
        (
          once_after key o (
              run_steps-once env ctx budget duration valid key (start completed)
                (record { once = omega arith; first = λ h. refl })),
          λ r h.
              let (held, count) =
                run_steps-Stays env ctx budget duration valid key r (start completed) h in
              (count, held),
        )
]
