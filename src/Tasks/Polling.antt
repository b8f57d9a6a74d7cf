-- ===== src/Tasks/Polling.antt =====
-- A client that polls the event log of a task from the last event it has seen.
use longhub_platform.Common.{
  ℕ, String, false, none, some, List, [], ◌∷◌, ◌++◌, ◌≡◌, refl, ◌∙◌, ap, ◌≤◌, arith, All, ltb,
  select, sym,
}
use mathlib.Core.List.{append-nil, append_assoc}
use mathlib.Core.Path.{ap₂}
use longhub_platform.Common.Keyed
use longhub_platform.Tasks.{Store, Event, events_after}
use longhub_platform.Tasks.Runs.{
  Call, step, run, discards, Change, kept, wrote, added, dropped, step-Change,
}
use longhub_platform.Tasks.Emissions.{Rising, Rising-append, step-Emission}
use longhub_platform.Tasks.Invariant.{Issued}
use longhub_platform.Tasks.Events.{LogsRise, Grown, Emission-Grown}

Change-Issued :
    {c : Call} {s s' : Store} (id : String)
    → Change c s s'
    → Issued s.task_seq id
    → Issued s'.task_seq id
Change-Issued id (kept _ _ _ en) p = rw en p
Change-Issued id (wrote _ _ _ _ _ _ _ en _) p = rw en p
Change-Issued id (added _ _ _ _ _ _ _ en) (m, e, le) = (m, e, omega arith)
Change-Issued id (dropped _ _ _ _ _ en) p = rw en p

run-Grown :
    (s : Store) (cs : List Call) (id : String) (es : List Event)
    → Issued s.task_seq id
    → All (λ c. discards id c ≡ false) cs
    → Keyed.get id s.events_by_task ≡ some es
    → Grown id es s (run s cs)
unfolding run
run-Grown s [] id es p d h = ([], rw append-nil h, omega arith)
run-Grown s (c ∷ cs) id es p d h =
    let (new, found, up) = Emission-Grown id es (step-Emission s c) p d.0 h in
    let (more, found', up') =
      run-Grown (step s c) cs id (es ++ new) (Change-Issued id (step-Change s c) p) d.1 found in
    (
      new ++ more,
      rw (← append_assoc) found',
      Rising-append s.event_seq (step s c).event_seq (run (step s c) cs).event_seq new more up up',
    )

abbrev pub last_id : List Event → ℕ
last_id [] = 0
last_id (e ∷ []) = e.event_id
last_id (e ∷ f ∷ es) = last_id (f ∷ es)

last_id-le : (lo hi : ℕ) (es : List Event) → Rising lo hi es → last_id es ≤ hi
last_id-le lo hi [] h = omega arith
last_id-le lo hi (e ∷ []) h = h.1
last_id-le lo hi (e ∷ f ∷ es) h = last_id-le e.event_id hi (f ∷ es) h.1

le-last_id :
    (lo hi : ℕ) (e : Event) (es : List Event)
    → Rising lo hi (e ∷ es)
    → e.event_id ≤ last_id (e ∷ es)
le-last_id lo hi e [] h = omega arith
le-last_id lo hi e (f ∷ es) h = omega (arith, le-last_id e.event_id hi f es h.1)

newer : ℕ → List Event → List Event
newer n = select (λ e. ltb n e.event_id)

newer_none : (n lo hi : ℕ) (es : List Event) → Rising lo hi es → last_id es ≤ n → newer n es ≡ []
unfolding newer
newer_none n lo hi [] h le = refl
newer_none n lo hi (e ∷ []) h le = ground arith
newer_none n lo hi (e ∷ f ∷ es) h le =
    ground (arith, newer_none n e.event_id hi (f ∷ es) h.1, le-last_id e.event_id hi f es h.1)

newer_all : (n lo hi : ℕ) (es : List Event) → Rising lo hi es → n ≤ lo → newer n es ≡ es
unfolding newer
newer_all n lo hi [] h le = refl
newer_all n lo hi (e ∷ es) h le = ground (arith, newer_all n e.event_id hi es h.1)

newer-append : (n : ℕ) (es fs : List Event) → newer n (es ++ fs) ≡ newer n es ++ newer n fs
unfolding newer
newer-append n [] fs = refl
newer-append n (e ∷ es) fs = ground (arith, newer-append n es fs)

-- A client has read the whole log of a task whose identifier has been given out, in a store where
-- event numbers strictly rise along every log and stay within those given out. Any calls follow,
-- none of which asks to discard the task. A poll from the last event read then returns just the events that the client lacks: what
-- it has and what it gets make up the whole log, in order, with nothing lost or repeated.
pub poll_complete :
    (s : Store) (cs : List Call) (id : String) (es : List Event)
    → LogsRise s
    → Issued s.task_seq id
    → Keyed.get id s.events_by_task ≡ some es
    → All (λ c. discards id c ≡ false) cs
    → events_after (run s cs) id none ≡ es ++ events_after (run s cs) id (some (some (last_id es)))
unfolding events_after newer
poll_complete s cs id es t p h d =
    let (new, found, up) = run-Grown s cs id es p d h in
    let rise = Keyed.All-get (Rising 0 s.event_seq) id es s.events_by_task t h in
    let old = newer_none (last_id es) 0 s.event_seq es rise (omega arith) in
    let fresh = newer_all (last_id es) s.event_seq _ new up (last_id-le 0 s.event_seq es rise) in
    rw found (ap (◌++◌ es) (sym (newer-append (last_id es) es new ∙ ap₂ ◌++◌ old fresh)))
