-- ===== src/Workflow/Resuming.antt =====
-- A run that is done again: packages/longhub-core/src/workflow-engine.ts keeps the results of Skills
-- under their idempotency keys, so that a second run of the same workflow finds them.
use Prim.Native.String.{◌++◌ as ◌<>◌}
use longhub_platform.Common.{
  ℕ, zero, suc, ◌+◌, ◌≤◌, String, Bool, true, false, Option, none, some, List, [], ◌∷◌, ◌++◌, ◌≡◌,
  refl, ◌∙◌, ap, sym, ◌⊎◌, inl, inr, arith, Bool-cases, Option-cases, ok, or_else, if◌then◌else◌,
  ltb,
}
use longhub_platform.Common.Decimal.{show}
use longhub_platform.Common.Keyed
use longhub_platform.Common.Keyed.{Keyed}
use longhub_platform.Workflow.{
  Literal, Step, Steps, BoundedWorkflow, skill, confirm, branch, repeat, end, also, parse_workflow,
}
use longhub_platform.Workflow.Engine.{
  Dependencies, ExecutionContext, ExecutionResult, Execution, Answer, StepResult, Run, Outcome,
  WorkflowError, check, ask, permit, charge, perform, execution_of, work, run_skill, run_step,
  dependency_failed, invalid_cost, run_steps, path_of, and_then, unless, rounds, input_is, execute,
  finish, start, limits_of,
}
use longhub_platform.Workflow.Budgets.{execute_cases}
use longhub_platform.Workflow.Effects.{charge-rows}

-- The same answers, but for the executions, and with no interruption.
abbrev pub calm : Dependencies → (ℕ → ℕ) → (Execution → Option Answer) → Dependencies
calm env time other = record env {
  aborted = λ n. false;
  elapsed = time;
  authorize_and_execute = other;
}

-- A state with other results at hand and other requests made.
abbrev pub over : Run → Keyed StepResult → List Execution → Run
over s c xs = record s { completed = c; executions = xs }

abbrev Holds : Keyed StepResult → Keyed StepResult → Type 0
Holds c m = (key : String) (r : StepResult) → Keyed.get key m ≡ some r → Keyed.get key c ≡ some r

-- A part of a run keeps the results it has; and where it ends well, the same part over its results
-- ends in the same way, and asks for nothing.
record Redo (s : Run) (o : Outcome) (again : Run → Outcome) : Type 0 where
  grows : Holds o.0.completed s.completed
  repeats :
      o.1 ≡ none
      → (c : Keyed StepResult) (xs : List Execution) → Holds c o.0.completed
      → again (over s c xs) ≡ (over o.0 c xs, none)

and_then-Redo :
    (s : Run) (o : Outcome) (rest : Run → Outcome) (b b' : Run → Outcome)
    → Redo s o b
    → ((s' : Run) → Redo s' (rest s') b')
    → Redo s (and_then o rest) (λ x. and_then (b x) b')
and_then-Redo s (s1, some e) rest b b' h k = record {
  grows = h.grows;
  repeats = λ done. absurd (cc done);
}
and_then-Redo s (s1, none) rest b b' h k = record {
  grows = λ key r e. (k s1).grows key r (h.grows key r e);
  repeats = λ done c xs holds.
      rw (h.repeats refl c xs (λ key r e. holds key r ((k s1).grows key r e)))
        ((k s1).repeats done c xs holds);
}

unless-Redo :
    (w : Option WorkflowError) (w' : Run → Option WorkflowError) (s : Run) (o : Outcome)
    (b : Run → Outcome)
    → (w ≡ none → (c : Keyed StepResult) (xs : List Execution) → w' (over s c xs) ≡ none)
    → (w ≡ none → Redo s o b)
    → Redo s (unless w s o) (λ x. unless (w' x) x (b x))
unless-Redo (some e) w' s o b same h = record {
  grows = λ key r g. g;
  repeats = λ done. absurd (cc done);
}
unless-Redo none w' s o b same h = record {
  grows = (h refl).grows;
  repeats = λ done c xs holds. rw (same refl c xs) ((h refl).repeats done c xs holds);
}

if-Redo :
    (t : Bool) (s : Run) (o o' : Outcome) (b b' : Run → Outcome)
    → Redo s o b
    → Redo s o' b'
    → Redo s (if t then o else o') (λ x. if t then b x else b' x)
if-Redo true s o o' b b' h h' = h
if-Redo false s o o' b b' h h' = h'

rounds-Redo :
    (n i : ℕ) (body b : ℕ → Run → Outcome) (s : Run)
    → ((j : ℕ) (s' : Run) → Redo s' (body j s') (b j))
    → Redo s (rounds n i body s) (rounds n i b)
rounds-Redo zero i body b s h = record { grows = λ key r g. g; repeats = λ done c xs holds. refl }
rounds-Redo (suc n) i body b s h =
    and_then-Redo s (body i s) (rounds n (suc i) body) (b i) (rounds n (suc i) b) (h i s)
      (λ s'. rounds-Redo n (suc i) body b s' h)

-- The cost of a result is charged in the same way whatever results are at hand.
charge-Redo :
    (budget : ℕ) (id : String) (r : StepResult) (s : Run) (c1 : Keyed StepResult)
    (xs1 : List Execution)
    → Holds c1 s.completed
    → Redo s (charge budget id r (over s c1 xs1)) (charge budget id r)
unfolding charge
charge-Redo budget id r s c1 xs1 holds =
    elim (Bool-cases (ltb budget (s.cost_micros + r.cost_micros))) [
      | inl over_budget ↦ record {
        grows = rw (over_budget, charge) holds;
        repeats = λ done. absurd (cc (rw (over_budget, charge) at done));
      }
      | inr within ↦ record {
        grows = rw (within, charge) holds;
        repeats = λ done c xs h. rw (within, charge) refl;
      }
    ]

replayed :
    (env : Dependencies) (budget : ℕ) (id : String) (x : Execution) (r : StepResult) (s : Run)
    → Keyed.get x.idempotency_key s.completed ≡ some r
    → work env budget id x s ≡ charge budget id r s
unfolding work
replayed env budget id x r s g = rw (g, work) refl

-- What an execution with a result gives.
performed :
    (env : Dependencies) (budget : ℕ) (id : String) (x : Execution) (s : Run)
    → ((e : WorkflowError) × ((perform env budget id x s).1 ≡ some e)
        × ((perform env budget id x s).0.completed ≡ s.completed))
      ⊎ ((r : StepResult) × (perform env budget id x s
            ≡ charge budget id r
                (over s (Keyed.set x.idempotency_key r s.completed) (s.executions ++ x ∷ []))))
unfolding perform
performed env budget id x s = elim (Option-cases (env.authorize_and_execute x)) [
  | inl e ↦ inl (dependency_failed, rw (e, perform) refl, rw (e, perform) refl)
  | inr (a, e) ↦ elim (Option-cases a.cost_micros) [
    | inl e' ↦ inl (invalid_cost, rw (e, perform) (rw e' refl), rw (e, perform) (rw e' refl))
    | inr (cost, e') ↦
        inr (record { output = a.output; cost_micros = cost }, rw (e, perform) (rw e' refl))
  ]
]

found-Redo :
    (env' : Dependencies) (budget : ℕ) (id : String) (x : Execution) (r : StepResult) (s : Run)
    (o : Outcome)
    → Keyed.get x.idempotency_key s.completed ≡ some r
    → o ≡ charge budget id r s
    → Redo s o (work env' budget id x)
found-Redo env' budget id x r s o g e =
    let h = charge-Redo budget id r s s.completed s.executions (λ k v t. t) in
    rw e (record {
      grows = h.grows;
      repeats = λ done c xs holds.
          replayed env' budget id x r (over s c xs)
            (holds x.idempotency_key r (h.grows x.idempotency_key r g))
          ∙ h.repeats done c xs holds;
    })

made-Redo :
    (env' : Dependencies) (budget : ℕ) (id : String) (x : Execution) (r : StepResult) (s : Run)
    (o : Outcome)
    → Keyed.get x.idempotency_key s.completed ≡ none
    → o
      ≡ charge budget id r
          (over s (Keyed.set x.idempotency_key r s.completed) (s.executions ++ x ∷ []))
    → Redo s o (work env' budget id x)
made-Redo env' budget id x r s o g e =
    let c1 = Keyed.set x.idempotency_key r s.completed in
    let xs1 = s.executions ++ x ∷ [] in
    let h =
      charge-Redo budget id r s c1 xs1
        (λ k v t. Keyed.get-set_kept k x.idempotency_key v r s.completed t g) in
    let kept = (charge-rows budget id r (over s c1 xs1)).1 in
    rw e (record {
      grows = h.grows;
      repeats = λ done c xs holds.
          replayed env' budget id x r (over s c xs) (
            holds x.idempotency_key r
              (rw kept (Keyed.get-set_self x.idempotency_key r s.completed)))
          ∙ h.repeats done c xs holds;
    })

-- A Skill: its result is there, or is kept.
work-Redo :
    (env env' : Dependencies) (budget : ℕ) (id : String) (x : Execution) (s : Run)
    → Redo s (work env budget id x s) (work env' budget id x)
unfolding work
work-Redo env env' budget id x s = elim (Option-cases (Keyed.get x.idempotency_key s.completed)) [
  | inr (r, g) ↦
      found-Redo env' budget id x r s (work env budget id x s) g (replayed env budget id x r s g)
  | inl g ↦ elim (performed env budget id x s) [
    | inl (e, failed, kept) ↦
        rw (g, work)
          (record {
            grows = rw kept (λ k v t. t);
            repeats = λ done. absurd (cc (rw failed at done));
          })
    | inr (r, ran) ↦ made-Redo env' budget id x r s (work env budget id x s) g (rw (g, work) ran)
  ]
]

skill-Redo :
    (env : Dependencies) (ctx : ExecutionContext) (budget : ℕ) (time : ℕ → ℕ)
    (other : Execution → Option Answer) (id k : String) (payload : Keyed Literal) (path : String)
    (s : Run)
    → Redo s
        (run_skill env ctx budget id k payload path s)
        (run_skill (calm env time other) ctx budget id k payload path)
unfolding run_skill permit ask
skill-Redo env ctx budget time other id k payload path s =
    let x = execution_of ctx path k payload s.executed_steps in
    let h = work-Redo env (calm env time other) budget id x s in
    unless-Redo (permit env path k s) (permit (calm env time other) path k) s
      (work env budget id x s)
      (λ (s' : Run).
        work (calm env time other) budget id (execution_of ctx path k payload s'.executed_steps) s')
      (λ passed c xs. passed) (λ passed. record { grows = h.grows; repeats = h.repeats })

module _ (env : Dependencies) (ctx : ExecutionContext) (budget duration : ℕ) (time : ℕ → ℕ)
    (in_time : (n : ℕ) → time n ≤ duration) (other : Execution → Option Answer) where
  check-calm :
      (s : Run) (c : Keyed StepResult) (xs : List Execution)
      → check env duration s ≡ none
      → check (calm env time other) duration (over s c xs) ≡ none
  unfolding check
  check-calm s c xs h = ground (arith, in_time s.executed_steps)

  begin-Redo :
      (s : Run) (o : Outcome) (b : Run → Outcome)
      → Redo (record s { executed_steps = suc s.executed_steps }) o b
      → Redo s o (λ x. b (record x { executed_steps = suc x.executed_steps }))
  begin-Redo s o b h = record { grows = h.grows; repeats = h.repeats }

  ask-Redo :
      (path : String) (s : Run)
      → Redo s (s, ask env path s) (λ x. (x, ask (calm env time other) path x))
  unfolding ask
  ask-Redo path s = record {
    grows = λ k r e. e;
    repeats = λ done c xs holds. ap (λ e. (over s c xs, e)) done;
  }

  mutual
    unfolding run_steps

    run_steps-Redo :
        (ts : Steps) (path : String) (i : ℕ) (s : Run)
        → Redo s
            (run_steps env ctx budget duration ts path i s)
            (run_steps (calm env time other) ctx budget duration ts path i)
    run_steps-Redo end path i s = record { grows = λ k r e. e; repeats = λ done c xs holds. refl }
    run_steps-Redo (also t ts) path i s =
        let s1 : Run = record s { executed_steps = suc s.executed_steps } in
        let place = path_of path i t in
        let b = run_step (calm env time other) ctx budget duration t place in
        let rest = run_steps env ctx budget duration ts path (suc i) in
        let rest' = run_steps (calm env time other) ctx budget duration ts path (suc i) in
        unless-Redo (check env duration s) (check (calm env time other) duration) s
          (and_then (run_step env ctx budget duration t place s1) rest)
          (λ x. and_then (b (record x { executed_steps = suc x.executed_steps })) rest')
          (λ passed c xs. check-calm s c xs passed)
          (λ passed.
            and_then-Redo s (run_step env ctx budget duration t place s1) rest
              (λ x. b (record x { executed_steps = suc x.executed_steps })) rest'
              (begin-Redo s (run_step env ctx budget duration t place s1) b
                (run_step-Redo t place s1))
              (λ s'. run_steps-Redo ts path (suc i) s'))

    run_step-Redo :
        (t : Step) (path : String) (s : Run)
        → Redo s
            (run_step env ctx budget duration t path s)
            (run_step (calm env time other) ctx budget duration t path)
    run_step-Redo (confirm id title summary) path s = ask-Redo path s
    run_step-Redo (skill id k input) path s = skill-Redo env ctx budget time other id k input path s
    run_step-Redo (branch id key v yes_steps no_steps) path s =
        if-Redo (input_is (Keyed.get key ctx.input) v) s
          (run_steps env ctx budget duration yes_steps (path <> ".branch") 0 s)
          (run_steps env ctx budget duration no_steps (path <> ".branch") 0 s)
          (run_steps (calm env time other) ctx budget duration yes_steps (path <> ".branch") 0)
          (run_steps (calm env time other) ctx budget duration no_steps (path <> ".branch") 0)
          (run_steps-Redo yes_steps (path <> ".branch") 0 s)
          (run_steps-Redo no_steps (path <> ".branch") 0 s)
    run_step-Redo (repeat id n steps) path s =
        rounds-Redo (or_else n 0) 0
          (λ i. run_steps env ctx budget duration steps (path <> (".loop-" <> show i)) 0)
          (λ i.
            run_steps (calm env time other) ctx budget duration steps (path <> (".loop-" <> show i))
              0)
          s (λ i s'. run_steps-Redo steps (path <> (".loop-" <> show i)) 0 s')

finished :
    (ctx : ExecutionContext) (o : Outcome) (r : ExecutionResult)
    → (finish ctx o).1 ≡ ok r
    → o.1 ≡ none
finished ctx (s, none) r h = refl
finished ctx (s, some e) r h = absurd (cc h)

-- The end of a run does not depend on the results at hand.
finish-over :
    (ctx : ExecutionContext) (o : Outcome) (c : Keyed StepResult) (xs : List Execution)
    → o.1 ≡ none
    → finish ctx (over o.0 c xs, none) ≡ (over o.0 c xs, (finish ctx o).1)
finish-over ctx (s, none) c xs h = refl
finish-over ctx (s, some e) c xs h = absurd (cc h)

finish-run : (ctx : ExecutionContext) (o : Outcome) → (finish ctx o).0 ≡ o.0
finish-run ctx (s, none) = refl
finish-run ctx (s, some e) = refl

limits-duration :
    (ctx : ExecutionContext) (budget b duration : ℕ)
    → ctx.max_duration_ms ≡ some duration
    → limits_of ctx ≡ some (budget, b)
    → b ≡ duration
limits-duration ctx budget b duration h g = ground arith

repeated :
    (env : Dependencies) (w : BoundedWorkflow) (ctx : ExecutionContext) (budget duration : ℕ)
    (time : ℕ → ℕ) (other : Execution → Option Answer) (valid : BoundedWorkflow)
    (c : Keyed StepResult)
    → ((n : ℕ) → time n ≤ duration)
    → parse_workflow w ≡ ok valid
    → limits_of ctx ≡ some (budget, duration)
    → (run_steps env ctx budget duration valid.steps valid.workflow_id 0 (start c)).1 ≡ none
    → execute
        (calm env time other)
        (run_steps env ctx budget duration valid.steps valid.workflow_id 0 (start c)).0.completed
        w
        ctx
      ≡ (
        record (run_steps env ctx budget duration valid.steps valid.workflow_id 0 (start c)).0 {
          executions = [];
        },
        (finish ctx
            (run_steps env ctx budget duration valid.steps valid.workflow_id 0 (start c))).1,
      )
unfolding execute
repeated env w ctx budget duration time other valid c in_time parsed limits done =
    let o = run_steps env ctx budget duration valid.steps valid.workflow_id 0 (start c) in
    let h =
      run_steps-Redo env ctx budget duration time in_time other valid.steps valid.workflow_id 0
        (start c) in
    let again = h.repeats done o.0.completed [] (λ k r e. e) in
    rw (parsed, execute)
      (rw limits (ap (finish ctx) again ∙ finish-over ctx o o.0.completed [] done))

-- A run can be done again: after a run of a workflow that gave a result, a second run in the same
-- context from the results that the engine then holds gives the same result and asks for no
-- execution, whatever an execution would answer now. Skills are described and confirmations given
-- in the second run as in the first, and it is neither aborted nor out of time.
pub rerun_repeats :
    (env : Dependencies) (completed : Keyed StepResult) (w : BoundedWorkflow)
    (ctx : ExecutionContext) (r : ExecutionResult) (duration : ℕ) (time : ℕ → ℕ)
    (other : Execution → Option Answer)
    → ctx.max_duration_ms ≡ some duration
    → ((n : ℕ) → time n ≤ duration)
    → (execute env completed w ctx).1 ≡ ok r
    → execute (calm env time other) (execute env completed w ctx).0.completed w ctx
      ≡ (record (execute env completed w ctx).0 { executions = [] }, ok r)
rerun_repeats env completed w ctx r duration time other limit in_time done =
    elim (execute_cases env completed w ctx) [
      | inl (e, failed) ↦ absurd (cc (rw failed at done))
      | inr (valid, budget, b, parsed, limits, ran) ↦
          let same : b ≡ duration = limits-duration ctx budget b duration limit limits in
          let o = run_steps env ctx budget b valid.steps valid.workflow_id 0 (start completed) in
          let result : (finish ctx o).1 ≡ ok r = ap (λ x. x.1) (sym ran) ∙ done in
          let again =
            repeated env w ctx budget b time other valid completed (rw same in_time) parsed limits
              (finished ctx o r result) in
          rw (ran, finish-run ctx o) (again ∙ ap (λ x. (record o.0 { executions = [] }, x)) result)
    ]
