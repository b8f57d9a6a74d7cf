-- ===== src/Tasks/Cases.antt =====
-- What each guarded method of the task store does when its guard fails and when it passes.
use longhub_platform.Common.{
  ℕ, String, true, false, Option, none, some, List, ◌≡◌, refl, ◌⊎◌, inl, inr, arith, any,
  Bool-cases, Option-cases, err, ok, or_else, Result,
}
use longhub_platform.Common.Keyed
use longhub_platform.Tasks.Fingerprint.{
  Input, Placeholder, normalize_fingerprint, is_placeholder, is_expected, as_input,
}
use longhub_platform.Tasks.{
  Status, pending, running, Task, Owner, Patch, Store, Binding, Error, emit, add_task,
  create_or_replay, create_task, claim_pending_task, transition_if_status, move_task, guarded_task,
  same_status, task_event_type, legacy_owner, new_task, owner_key, task_idempotency_binding,
}

replay_cases :
    (s : Store) (now : ℕ) (key kind : String) (input : Input) (o : Owner) (f : String)
    (r : Result Error (Option Binding))
    → ((create_or_replay s now key kind input o f r).0 ≡ s)
      ⊎ ((r ≡ ok none)
          × ((create_or_replay s now key kind input o f r).0 ≡ add_task s now key kind input o f))
unfolding create_or_replay
replay_cases s now key kind input o f (err e) = inl refl
replay_cases s now key kind input o f (ok none) = inr (refl, refl)
replay_cases s now key kind input o f (ok (some b)) = inl (ground arith)

pub create_cases :
    (s : Store) (now : ℕ) (key kind : String) (input : Input) (o : Option Owner) (f : Option String)
    → ((create_task s now key kind input o f).0 ≡ s)
      ⊎ ((f' : String) × (task_idempotency_binding s key (or_else o legacy_owner) ≡ ok none)
          × ((create_task s now key kind input o f).0
              ≡ add_task s now key kind input (or_else o legacy_owner) f'))
unfolding create_task
create_cases s now key kind input o f = elim (Option-cases (normalize_fingerprint f)) [
  | inl e ↦ inl (rw (e, create_task))
  | inr (f', e) ↦
      elim (replay_cases s now key kind input (or_else o legacy_owner) f'
        (task_idempotency_binding s key (or_else o legacy_owner))) [
          | inl e' ↦ inl (rw (e, create_task) e')
          | inr (fresh, e') ↦ inr (f', fresh, rw (e, create_task) e')
        ]
]

pub claim_cases :
    (s : Store) (now : ℕ) (id : String)
    → (claim_pending_task s now id ≡ (s, none))
      ⊎ ((t : Task) × (Keyed.get id s.tasks ≡ some t)
          × (same_status t.status pending ≡ true)
          × (claim_pending_task s now id ≡ (
              let t' : Task = record t { status = running; updated_at = now } in
              (
                emit
                    (record s { tasks = Keyed.set id t' s.tasks })
                    now
                    id
                    (task_event_type running)
                    none,
                some t',
              ))))
unfolding claim_pending_task
claim_cases s now id = elim (Option-cases (Keyed.get id s.tasks)) [
  | inl e ↦ inl (rw (e, claim_pending_task))
  | inr (t, e) ↦ elim (Bool-cases (same_status t.status pending)) [
    | inl pass ↦ inr (t, e, pass, rw (e, claim_pending_task) (rw pass))
    | inr fail ↦ inl (rw (e, claim_pending_task) (rw fail))
  ]
]

pub move_if_cases :
    (s : Store) (now : ℕ) (id : String) (expected : List Status) (status : Status) (p : Patch)
    → (transition_if_status s now id expected status p ≡ (s, none))
      ⊎ ((t : Task) × (Keyed.get id s.tasks ≡ some t)
          × (any (same_status t.status) expected ≡ true)
          × (transition_if_status s now id expected status p
              ≡ ((move_task s now id t status p).0, some (move_task s now id t status p).1)))
unfolding transition_if_status
move_if_cases s now id expected status p = elim (Option-cases (Keyed.get id s.tasks)) [
  | inl e ↦ inl (rw (e, transition_if_status))
  | inr (t, e) ↦ elim (Bool-cases (any (same_status t.status) expected)) [
    | inl pass ↦ inr (t, e, pass, rw (e, transition_if_status) (rw pass))
    | inr fail ↦ inl (rw (e, transition_if_status) (rw fail))
  ]
]

pub guarded-get :
    (s : Store) (id : String) (p : Placeholder) (t : Task)
    → guarded_task s id p ≡ some t
    → (Keyed.get id s.tasks ≡ some t)
      × (same_status t.status pending ≡ true)
      × (is_placeholder (as_input p) ≡ true)
      × (is_expected t.input p ≡ true)
unfolding guarded_task
guarded-get s id p t e = ground arith

-- No binding means that the key is not in the index.
pub binding_none :
    (s : Store) (key : String) (o : Owner)
    → task_idempotency_binding s key o ≡ ok none
    → Keyed.get (owner_key o key) s.idempotency ≡ none
unfolding task_idempotency_binding
binding_none s key o e = ground (arith, Option-cases (Keyed.get (owner_key o key) s.idempotency))

replayed_new :
    (s : Store) (now : ℕ) (key kind : String) (input : Input) (o : Owner) (f : String)
    (r : Result Error (Option Binding)) (t : Task)
    → (create_or_replay s now key kind input o f r).1 ≡ ok (t, false)
    → (t ≡ new_task s now kind input o)
      × ((create_or_replay s now key kind input o f r).0 ≡ add_task s now key kind input o f)
unfolding create_or_replay
replayed_new s now key kind input o f (err e) t h = cc
replayed_new s now key kind input o f (ok none) t h = (cc, refl)
replayed_new s now key kind input o f (ok (some b)) t h = ground arith

-- A call that created a task added a new one.
pub created_new :
    (s : Store) (now : ℕ) (key kind : String) (input : Input) (o : Option Owner) (f : Option String)
    (n : String) (t : Task)
    → normalize_fingerprint f ≡ some n
    → (create_task s now key kind input o f).1 ≡ ok (t, false)
    → (t ≡ new_task s now kind input (or_else o legacy_owner))
      × ((create_task s now key kind input o f).0
          ≡ add_task s now key kind input (or_else o legacy_owner) n)
unfolding create_task
created_new s now key kind input o f n t hn h =
    let h' : (create_or_replay s now key kind input (or_else o legacy_owner) n
          (task_idempotency_binding s key (or_else o legacy_owner))).1
        ≡ ok (t, false) =
      rw (hn, create_task) at h in
    rw (hn, create_task) (replayed_new s now key kind input (or_else o legacy_owner) n _ t h')
