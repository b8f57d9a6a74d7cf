-- ===== src/Tasks/Events.antt =====
-- The event log of a task as a client reads it: `eventsAfter` of
-- apps/longhub-cloud-api/src/memory-store.ts against later calls.
use longhub_platform.Common.{
  ℕ, String, false, Option, none, some, List, [], ◌∷◌, ◌++◌, ◌≡◌, refl, ◌∙◌, sym, ap, ◌≤◌, suc,
  arith, All, ◌=s◌, Bool-cases, inl, inr, ◌≢◌,
}
use mathlib.Core.List.{append-nil}
use longhub_platform.Common.Keyed
use longhub_platform.Common.Keyed.{values, Keyed}
use longhub_platform.Tasks.{Store, Event, push_event, empty}
use longhub_platform.Tasks.Runs.{Call, step, run, discards}
use longhub_platform.Tasks.Emissions.{
  Emission, quiet, emitted, started, removed, step-Emission, Rising, Rising-append,
}
use longhub_platform.Tasks.Invariant.{Issued}
use longhub_platform.Tasks.Claims.{Issued-ne-next}

-- Every log rises, up to the last number given out.
abbrev pub LogsRise : Store → Type 0
LogsRise s = All (Rising 0 s.event_seq) (values s.events_by_task)

Rising-weaken : (lo hi hi' : ℕ) (es : List Event) → hi ≤ hi' → Rising lo hi es → Rising lo hi' es
Rising-weaken lo hi hi' [] le h = omega arith
Rising-weaken lo hi hi' (e ∷ es) le h = (h.0, Rising-weaken e.event_id hi hi' es le h.1)

logs_weaken :
    (n : ℕ) (m : Keyed (List Event))
    → All (Rising 0 n) (values m)
    → All (Rising 0 (suc n)) (values m)
logs_weaken n m t =
    Keyed.All-weaken (Rising 0 n) (Rising 0 (suc n)) (values m)
      (λ es h. Rising-weaken 0 n (suc n) es (omega arith) h) t

push-Rising :
    (n : ℕ) (e : Event) (o : Option (List Event)) (id : String) (m : Keyed (List Event))
    → e.event_id ≡ suc n
    → Keyed.get id m ≡ o
    → All (Rising 0 n) (values m)
    → All (Rising 0 (suc n)) (values (push_event e o id m))
push-Rising n e none id m num h t = logs_weaken n m t
push-Rising n e (some es) id m num h t =
    Keyed.All-set (Rising 0 (suc n)) id (es ++ e ∷ []) m
      (Rising-append 0 n (suc n) es (e ∷ []) (Keyed.All-get (Rising 0 n) id es m t h)
        (omega arith, omega arith))
      (logs_weaken n m t)

Emission-LogsRise : {c : Call} {s s' : Store} → Emission c s s' → LogsRise s → LogsRise s'
Emission-LogsRise (quiet ev es) t = rw (ev, es) t
Emission-LogsRise {s = s} (emitted e id num ev es) t =
    rw (ev, es) (push-Rising s.event_seq e _ id s.events_by_task num refl t)
Emission-LogsRise {s = s} (started e num ev es) t =
    rw (ev, es)
      (push-Rising s.event_seq e _ _ _ num refl
        (Keyed.All-set (Rising 0 s.event_seq) _ [] s.events_by_task (omega arith) t))
Emission-LogsRise {s = s} (removed id _ ev es) t =
    rw (ev, es) (Keyed.All-delete (Rising 0 s.event_seq) id s.events_by_task t)

pub run-LogsRise : (s : Store) (cs : List Call) → LogsRise s → LogsRise (run s cs)
unfolding run
run-LogsRise s [] t = t
run-LogsRise s (c ∷ cs) t = run-LogsRise (step s c) cs (Emission-LogsRise (step-Emission s c) t)

-- Whatever calls are made of an empty store, the event numbers of each task strictly rise along its
-- log and stay within the numbers given out.
pub logs_rise : (cs : List Call) → LogsRise (run empty cs)
logs_rise cs = run-LogsRise empty cs (unfold empty in tt)

-- The log of a task has grown by events with later numbers.
abbrev pub Grown : String → List Event → Store → Store → Type 0
Grown id es s s' =
    (new : List Event) × (Keyed.get id s'.events_by_task ≡ some (es ++ new))
    × Rising s.event_seq s'.event_seq new

push-get_ne :
    (e : Event) (o : Option (List Event)) (id k : String) (m : Keyed (List Event))
    → id ≢ k
    → Keyed.get k (push_event e o id m) ≡ Keyed.get k m
push-get_ne e none id k m ne = refl
push-get_ne e (some es) id k m ne = Keyed.get-set_ne id k (es ++ e ∷ []) m ne

push-Grown :
    (s : Store) (e : Event) (id k : String) (es : List Event)
    → e.event_id ≡ suc s.event_seq
    → Keyed.get k s.events_by_task ≡ some es
    → (new : List Event) × (Keyed.get k
          (push_event e (Keyed.get id s.events_by_task) id s.events_by_task)
        ≡ some (es ++ new))
      × Rising s.event_seq (suc s.event_seq) new
push-Grown s e id k es num found = elim (Bool-cases (id =s k)) [
  | inl same ↦ (
    e ∷ [],
    let e' : id ≡ k = ground arith in
        rw (e', found) (Keyed.get-set_self k (es ++ e ∷ []) s.events_by_task),
    (omega arith, omega arith),
  )
  | inr other ↦ (
    [],
    push-get_ne e (Keyed.get id s.events_by_task) id k s.events_by_task (ground arith)
        ∙ found
        ∙ ap some (sym (append-nil es)),
    omega arith,
  )
]

pub Emission-Grown :
    {c : Call} {s s' : Store} (k : String) (es : List Event)
    → Emission c s s'
    → Issued s.task_seq k
    → discards k c ≡ false
    → Keyed.get k s.events_by_task ≡ some es
    → Grown k es s s'
Emission-Grown {s = s} k es (quiet ev sq) p d h =
    ([], rw (ev, append-nil es) h, rw sq (omega arith))
Emission-Grown {s = s} k es (emitted e id num ev sq) p d h =
    rw (ev, sq) (push-Grown s e id k es num h)
Emission-Grown {s = s} k es (started e num ev sq) p d h = (
  [],
  rw ev (
      push-get_ne e _ _ k _ (Issued-ne-next s.task_seq k p)
      ∙ Keyed.get-set_ne _ k [] s.events_by_task (Issued-ne-next s.task_seq k p)
      ∙ h
      ∙ ap some (sym (append-nil es))),
  rw sq (omega arith),
)
Emission-Grown {c = c} {s = s} k es (removed id asked ev sq) p d h =
    let differ : k ≢ id = λ e. cc (ap (λ (k : String). discards k c) e) in
    (
      [],
      rw ev (ground (arith, Keyed.get-delete id k s.events_by_task, append-nil es)),
      rw sq (omega arith),
    )
