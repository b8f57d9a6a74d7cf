-- ===== src/Tasks/Runs.antt =====
-- Sequences of calls of the task store: each call runs to its end before the next one starts, since
-- no method of apps/longhub-cloud-api/src/memory-store.ts waits between its first read and its last
-- write.
use longhub_platform.Common.{
  ℕ, String, Bool, true, false, Option, none, some, List, [], ◌∷◌, ◌≡◌, refl, suc, ◌=s◌, inl, inr,
  Option-cases, =s_refl, or_else,
}
use longhub_platform.Common.Keyed
use longhub_platform.Common.Keyed.{Keyed, values}
use longhub_platform.Tasks.Fingerprint.{Input, Placeholder}
use longhub_platform.Tasks.{
  Status, Task, Owner, Patch, Store, emit, add_task, create_task, discard_pending_task,
  admit_pending_task_input, claim_pending_task, transition_if_status, transition, subscribe,
  unsubscribe, task_id_of, move_task, guarded_task, pending, same_status, Status-discrete,
  legacy_owner,
}
use longhub_platform.Tasks.Cases.{
  create_cases, binding_none, claim_cases, move_if_cases, guarded-get,
}

pub data Call : Type 0 where
  create : ℕ → String → String → Input → Option Owner → Option String → Call
  discard : String → Placeholder → Call
  admit : ℕ → String → Placeholder → Input → Call
  claim : ℕ → String → Call
  move_if : ℕ → String → List Status → Status → Patch → Call
  move : ℕ → String → Status → Patch → Call
  listen unlisten : String → ℕ → Call

unfoldable pub step : Store → Call → Store
step s (create now key kind input o f) = (create_task s now key kind input o f).0
step s (discard id p) = (discard_pending_task s id p).0
step s (admit now id p input) = (admit_pending_task_input s now id p input).0
step s (claim now id) = (claim_pending_task s now id).0
step s (move_if now id expected status p) = (transition_if_status s now id expected status p).0
step s (move now id status p) = (transition s now id status p).0
step s (listen id l) = subscribe s id l
step s (unlisten id l) = unsubscribe s id l

unfoldable pub run : Store → List Call → Store
run s [] = s
run s (c ∷ cs) = run (step s c) cs

-- Does a call put a task back to `pending`?
abbrev pub revives : Call → Bool
revives (move_if now id expected status p) = same_status status pending
revives (move now id status p) = same_status status pending
revives _ = false

-- Does a call ask to discard the task?
abbrev pub discards : String → Call → Bool
discards id (discard id' p) = id' =s id
discards id _ = false

-- What a call does to the tasks, their fingerprints and the index.
pub data Change (c : Call) (s s' : Store) : Type 0 where
  kept :
      s'.tasks ≡ s.tasks
      → s'.idempotency ≡ s.idempotency
      → s'.fingerprints ≡ s.fingerprints
      → s'.task_seq ≡ s.task_seq
      → Change c s s'
  wrote :
      (id : String) (t u : Task)
      → Keyed.get id s.tasks ≡ some u
      → s'.tasks ≡ Keyed.set id t s.tasks
      → s'.idempotency ≡ s.idempotency
      → s'.fingerprints ≡ s.fingerprints
      → s'.task_seq ≡ s.task_seq
      → (revives c ≡ false
          → same_status u.status pending ≡ false
          → same_status t.status pending ≡ false)
      → Change c s s'
  added :
      (key f : String) (t : Task)
      → Keyed.get key s.idempotency ≡ none
      → s'.tasks ≡ Keyed.set (task_id_of (suc s.task_seq)) t s.tasks
      → s'.idempotency ≡ Keyed.set key (task_id_of (suc s.task_seq)) s.idempotency
      → s'.fingerprints ≡ Keyed.set (task_id_of (suc s.task_seq)) f s.fingerprints
      → s'.task_seq ≡ suc s.task_seq
      → Change c s s'
  dropped :
      (id : String)
      → discards id c ≡ true
      → s'.tasks ≡ Keyed.delete id s.tasks
      → s'.idempotency ≡ Keyed.delete_where (λ v. v =s id) s.idempotency
      → s'.fingerprints ≡ Keyed.delete id s.fingerprints
      → s'.task_seq ≡ s.task_seq
      → Change c s s'

unchanged : {c : Call} (s : Store) → Change c s s
unchanged s = kept refl refl refl refl

create-Change :
    (s : Store) (now : ℕ) (key kind : String) (input : Input) (o : Option Owner) (f : Option String)
    → Change (create now key kind input o f) s (create_task s now key kind input o f).0
unfolding add_task
create-Change s now key kind input o f = elim (create_cases s now key kind input o f) [
  | inl e ↦ rw e (unchanged s)
  | inr (f', fresh, e) ↦
      rw e (added _ f' _ (binding_none s key (or_else o legacy_owner) fresh) refl refl refl refl)
]

pub step-Change : (s : Store) (c : Call) → Change c s (step s c)
unfolding step discard_pending_task admit_pending_task_input transition move_task emit subscribe
    unsubscribe Status-discrete
step-Change s (create now key kind input o f) = create-Change s now key kind input o f
step-Change s (discard id p) = elim (Option-cases (guarded_task s id p)) [
  | inl e ↦ rw (e, step, discard_pending_task) (unchanged s)
  | inr (t, e) ↦ rw (e, step, discard_pending_task) (dropped id (=s_refl id) refl refl refl refl)
]
step-Change s (admit now id p input) = elim (Option-cases (guarded_task s id p)) [
  | inl e ↦ rw (e, step, admit_pending_task_input) (unchanged s)
  | inr (t, e) ↦
      rw (e, step, admit_pending_task_input)
        (wrote id _ t (guarded-get s id p t e).0 refl refl refl refl (λ _ h. h))
]
step-Change s (claim now id) = elim (claim_cases s now id) [
  | inl e ↦ rw (e, step) (unchanged s)
  | inr (t, found, _, e) ↦ rw (e, step) (wrote id _ t found refl refl refl refl (λ _ _. refl))
]
step-Change s (move_if now id expected status p) = elim (move_if_cases s now id expected status p) [
  | inl e ↦ rw (e, step) (unchanged s)
  | inr (t, found, _, e) ↦ rw (e, step) (wrote id _ t found refl refl refl refl (λ h _. h))
]
step-Change s (move now id status p) = elim (Option-cases (Keyed.get id s.tasks)) [
  | inl e ↦ rw (e, step, transition) (unchanged s)
  | inr (t, e) ↦ rw (e, step, transition) (wrote id _ t e refl refl refl refl (λ h _. h))
]
step-Change s (listen id l) = kept refl refl refl refl
step-Change s (unlisten id l) = elim (Option-cases (Keyed.get id s.listeners)) [
  | inl e ↦ rw (e, step, unsubscribe) (unchanged s)
  | inr (ls, e) ↦ rw (e, step, unsubscribe) (kept refl refl refl refl)
]
