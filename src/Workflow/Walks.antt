-- ===== src/Workflow/Walks.antt =====
-- What holds of each step of a run holds of the run: an induction over `runSteps` of
-- packages/longhub-core/src/workflow-engine.ts.
use Prim.Native.String.{◌++◌ as ◌<>◌}
use longhub_platform.Common.{
  ℕ, zero, suc, String, Bool, true, false, Option, none, some, ◌≡◌, refl, or_else, if◌then◌else◌,
}
use longhub_platform.Common.Decimal.{show}
use longhub_platform.Common.Keyed
use longhub_platform.Common.Keyed.{Keyed}
use longhub_platform.Workflow.{Literal, Step, Steps, skill, confirm, branch, repeat, end, also}
use longhub_platform.Workflow.Engine.{
  Dependencies, ExecutionContext, Run, Outcome, WorkflowError, and_then, unless, rounds, check, ask,
  input_is, run_skill, run_step, run_steps, path_of,
}

-- A relation of a state with what comes of it, which a stop keeps, which goes along the run, and
-- which holds of the beginning of a step and of a Skill.
module _ (env : Dependencies) (ctx : ExecutionContext) (budget duration : ℕ)
    (R : Run → Outcome → Type 0) (stop : (s : Run) (e : Option WorkflowError) → R s (s, e))
    (along : (s s' : Run) (o : Outcome) → R s (s', none) → R s' o → R s o)
    (begin : (s : Run)
      → check env duration s ≡ none
      → R s (record s { executed_steps = suc s.executed_steps }, none))
    (work : (id skill_id : String) (payload : Keyed Literal) (path : String) (s : Run)
      → R s (run_skill env ctx budget id skill_id payload path s)) where
  and_then-walk :
      (s : Run) (o : Outcome) (rest : Run → Outcome)
      → R s o
      → ((s' : Run) → R s' (rest s'))
      → R s (and_then o rest)
  and_then-walk s (s', none) rest h k = along s s' (rest s') h (k s')
  and_then-walk s (s', some e) rest h k = h

  unless-walk :
      (c : Option WorkflowError) (s : Run) (o : Outcome) → (c ≡ none → R s o) → R s (unless c s o)
  unless-walk (some e) s o h = stop s (some e)
  unless-walk none s o h = h refl

  if-walk : (b : Bool) (s : Run) (o o' : Outcome) → R s o → R s o' → R s (if b then o else o')
  if-walk true s o o' h h' = h
  if-walk false s o o' h h' = h'

  rounds-walk :
      (n i : ℕ) (body : ℕ → Run → Outcome) (s : Run)
      → ((j : ℕ) (s' : Run) → R s' (body j s'))
      → R s (rounds n i body s)
  rounds-walk zero i body s h = stop s none
  rounds-walk (suc n) i body s h =
      and_then-walk s (body i s) (rounds n (suc i) body) (h i s)
        (λ s'. rounds-walk n (suc i) body s' h)

  mutual
    unfolding run_steps

    pub run_steps-walk :
        (ts : Steps) (path : String) (i : ℕ) (s : Run)
        → R s (run_steps env ctx budget duration ts path i s)
    run_steps-walk end path i s = stop s none
    run_steps-walk (also t ts) path i s =
        let s1 : Run = record s { executed_steps = suc s.executed_steps } in
        let o = run_step env ctx budget duration t (path_of path i t) s1 in
        let rest = run_steps env ctx budget duration ts path (suc i) in
        unless-walk (check env duration s) s (and_then o rest) (λ passed.
          and_then-walk s o rest
            (along s s1 o (begin s passed) (run_step-walk t (path_of path i t) s1))
            (λ s'. run_steps-walk ts path (suc i) s'))

    run_step-walk :
        (t : Step) (path : String) (s : Run) → R s (run_step env ctx budget duration t path s)
    run_step-walk (confirm id title summary) path s = stop s (ask env path s)
    run_step-walk (skill id k input) path s = work id k input path s
    run_step-walk (branch id key v yes_steps no_steps) path s =
        if-walk (input_is (Keyed.get key ctx.input) v) s
          (run_steps env ctx budget duration yes_steps (path <> ".branch") 0 s)
          (run_steps env ctx budget duration no_steps (path <> ".branch") 0 s)
          (run_steps-walk yes_steps (path <> ".branch") 0 s)
          (run_steps-walk no_steps (path <> ".branch") 0 s)
    run_step-walk (repeat id n steps) path s =
        rounds-walk (or_else n 0) 0
          (λ i. run_steps env ctx budget duration steps (path <> (".loop-" <> show i)) 0) s
          (λ i s'. run_steps-walk steps (path <> (".loop-" <> show i)) 0 s')
