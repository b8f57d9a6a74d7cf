-- ===== src/Tasks/Emissions.antt =====
-- What each call of the task store does to the event logs: `emit` of
-- apps/longhub-cloud-api/src/memory-store.ts and its callers.
use longhub_platform.Common.{
  ℕ, String, true, Option, List, [], ◌∷◌, ◌++◌, ◌≡◌, refl, ◌≤◌, ◌<◌, suc, arith, inl, inr,
  Option-cases, =s_refl,
}
use longhub_platform.Common.Keyed
use longhub_platform.Tasks.Fingerprint.{Input}
use longhub_platform.Tasks.{
  Store, Event, Owner, push_event, emit, add_task, create_task, discard_pending_task,
  admit_pending_task_input, transition, subscribe, unsubscribe, move_task, guarded_task, task_id_of,
}
use longhub_platform.Tasks.Cases.{create_cases, claim_cases, move_if_cases}
use longhub_platform.Tasks.Runs.{
  Call, create, discard, admit, claim, move_if, move, listen, unlisten, step, discards,
}

pub data Emission (c : Call) (s s' : Store) : Type 0 where
  quiet : s'.events_by_task ≡ s.events_by_task → s'.event_seq ≡ s.event_seq → Emission c s s'
  emitted :
      (e : Event) (id : String)
      → e.event_id ≡ suc s.event_seq
      → s'.events_by_task ≡ push_event e (Keyed.get id s.events_by_task) id s.events_by_task
      → s'.event_seq ≡ suc s.event_seq
      → Emission c s s'
  started :
      (e : Event)
      → e.event_id ≡ suc s.event_seq
      → (let id = task_id_of (suc s.task_seq) in
          let m = Keyed.set id [] s.events_by_task in
          s'.events_by_task ≡ push_event e (Keyed.get id m) id m)
      → s'.event_seq ≡ suc s.event_seq
      → Emission c s s'
  removed :
      (id : String)
      → discards id c ≡ true
      → s'.events_by_task ≡ Keyed.delete id s.events_by_task
      → s'.event_seq ≡ s.event_seq
      → Emission c s s'

create-Emission :
    (s : Store) (now : ℕ) (key kind : String) (input : Input) (o : Option Owner) (f : Option String)
    → Emission (create now key kind input o f) s (create_task s now key kind input o f).0
unfolding add_task
create-Emission s now key kind input o f = elim (create_cases s now key kind input o f) [
  | inl e ↦ rw e (quiet refl refl)
  | inr (f', _, e) ↦ rw e (started _ refl refl refl)
]

pub step-Emission : (s : Store) (c : Call) → Emission c s (step s c)
unfolding step discard_pending_task admit_pending_task_input transition move_task emit subscribe
    unsubscribe
step-Emission s (create now key kind input o f) = create-Emission s now key kind input o f
step-Emission s (discard id p) = elim (Option-cases (guarded_task s id p)) [
  | inl e ↦ rw (e, step, discard_pending_task) (quiet refl refl)
  | inr (t, e) ↦ rw (e, step, discard_pending_task) (removed id (=s_refl id) refl refl)
]
step-Emission s (admit now id p input) = elim (Option-cases (guarded_task s id p)) [
  | inl e ↦ rw (e, step, admit_pending_task_input) (quiet refl refl)
  | inr (t, e) ↦ rw (e, step, admit_pending_task_input) (quiet refl refl)
]
step-Emission s (claim now id) = elim (claim_cases s now id) [
  | inl e ↦ rw (e, step) (quiet refl refl)
  | inr (t, _, _, e) ↦ rw (e, step) (emitted _ id refl refl refl)
]
step-Emission s (move_if now id expected status p) =
    elim (move_if_cases s now id expected status p) [
      | inl e ↦ rw (e, step) (quiet refl refl)
      | inr (t, _, _, e) ↦ rw (e, step) (emitted _ id refl refl refl)
    ]
step-Emission s (move now id status p) = elim (Option-cases (Keyed.get id s.tasks)) [
  | inl e ↦ rw (e, step, transition) (quiet refl refl)
  | inr (t, e) ↦ rw (e, step, transition) (emitted _ id refl refl refl)
]
step-Emission s (listen id l) = quiet refl refl
step-Emission s (unlisten id l) = elim (Option-cases (Keyed.get id s.listeners)) [
  | inl e ↦ rw (e, step, unsubscribe) (quiet refl refl)
  | inr (ls, e) ↦ rw (e, step, unsubscribe) (quiet refl refl)
]

-- Event numbers that rise, the first above `lo` and the last at most `hi`.
abbrev pub Rising : ℕ → ℕ → List Event → Type 0
Rising lo hi [] = lo ≤ hi
Rising lo hi (e ∷ es) = (lo < e.event_id) × Rising e.event_id hi es

pub Rising-bounds : (lo hi : ℕ) (es : List Event) → Rising lo hi es → lo ≤ hi
Rising-bounds lo hi [] h = h
Rising-bounds lo hi (e ∷ es) h = omega (arith, Rising-bounds e.event_id hi es h.1)

pub Rising-append :
    (lo mid hi : ℕ) (es fs : List Event)
    → Rising lo mid es
    → Rising mid hi fs
    → Rising lo hi (es ++ fs)
Rising-append lo mid hi [] [] h k = omega arith
Rising-append lo mid hi [] (f ∷ fs) h k = (omega arith, k.1)
Rising-append lo mid hi (e ∷ es) fs h k = (h.0, Rising-append e.event_id mid hi es fs h.1 k)
