-- ===== src/Executions/Replay.antt =====
-- A retry of an execution: the task index of the gate, `cloudSkillExecutionReservationsByTask` of
-- apps/longhub-cloud-api/src/memory-store.ts, against later calls.
use mathlib.Core.Option
use longhub_platform.Common.{
  ℕ, String, false, Option, none, some, List, [], ◌∷◌, ◌≡◌, refl, ◌∙◌, sym, ap, ◌≢◌, inl, inr,
  arith, Bool-cases, ◌=s◌, if◌then◌else◌,
}
use longhub_platform.Common.Keyed
use longhub_platform.Common.Keyed.{Keyed, values}
use longhub_platform.Executions.{
  Gate, Request, Reservation, reserved, refused, idempotency_conflict, reserve, replay_or_admit,
  expire_leases, expire_one, same_binding, is_invalid, parse_execution_now, normalize_lease_ttl,
  new_reservation,
}
use longhub_platform.Executions.Limits.{reserve_facts, admit_new_of, new_facts, within_facts}
use longhub_platform.Executions.Steps.{
  Call, step, run, IsFresh, FreshRun, Change, kept, expired, unlinked, added, freed, step-Change,
}
use longhub_platform.Executions.Usage.{fresh_row}

-- A row as it was admitted, its release left aside.
abbrev pub admitted : Reservation → Reservation
admitted r = record r { released_at = none }

-- The task leads to a row that was admitted as `r`.
abbrev pub Linked : String → String → Reservation → Gate → Type 0
Linked task id r s =
    (Keyed.get task s.by_task ≡ some id)
    × (u : Reservation) × (Keyed.get id s.reservations ≡ some u)
    × (admitted u ≡ admitted r)

expire-row :
    (at : ℕ) (id : String) (u : Reservation) (m : Keyed Reservation)
    → Keyed.get id m ≡ some u
    → Keyed.get id (Keyed.update_all (expire_one at) m) ≡ some (expire_one at u)
expire-row at id u m h =
    Keyed.get-update_all (expire_one at) id m ∙ ap (Option.map (expire_one at)) h

admitted-expire : (at : ℕ) (u : Reservation) → admitted (expire_one at u) ≡ admitted u
admitted-expire at u = ground arith

some_row : (u v : Reservation) → some u ≡ some v → u ≡ v
some_row u v e = cc

Change-Linked :
    {o : Option String} {s s' : Gate} (task id : String) (r : Reservation)
    → Change o s s'
    → IsFresh o s
    → Linked task id r s
    → Linked task id r s'
Change-Linked task id r (kept e) f h = rw e h
Change-Linked {s = s} task id r (expired at er et) f (link, u, found, same) = (
  rw et link,
  expire_one at u,
  rw er (expire-row at id u s.reservations found),
  admitted-expire at u ∙ same,
)
Change-Linked {s = s} task id r (unlinked at task' id' link' gone er et) f (link, u, found, same) =
    let apart : task' ≢ task = λ e. cc in
    (
      rw et (ground (arith, Keyed.get-delete task' task s.by_task, link)),
      expire_one at u,
      rw er (expire-row at id u s.reservations found),
      admitted-expire at u ∙ same,
    )
Change-Linked {o = o} {s = s} task id r (added at uuid task' v by_task eo ek stale others er et) f
      (link, u, found, same) =
    let rows = Keyed.update_all (expire_one at) s.reservations in
    let row = expire-row at id u s.reservations found in
    let absent = ap (λ (k : String). Keyed.get k rows) ek ∙ fresh_row s o uuid at f eo in
    let apart : task ≢ task' =
      λ e. cc (stale id (ap (λ (k : String). Keyed.get k s.by_task) (sym e) ∙ link)) in
    let new_id : v.reservation_id ≢ id = λ e. cc in
    (
      rw et (
          Keyed.get-set_ne task' task v.reservation_id by_task (λ e. apart (sym e))
          ∙ others task apart
          ∙ link),
      expire_one at u,
      rw er (Keyed.get-set_ne v.reservation_id id v rows new_id ∙ row),
      admitted-expire at u ∙ same,
    )
Change-Linked {s = s} task id r (freed at id' v found' er et) f (link, u, found, same) =
    elim (Bool-cases (id' =s id)) [
      | inl hit ↦
          let e : id' ≡ id = ground arith in
          let rows = Keyed.update_all (expire_one at) s.reservations in
          let row = expire-row at id u s.reservations found in
          let v_row : v ≡ expire_one at u =
            some_row v (expire_one at u)
              (sym found' ∙ ap (λ (k : String). Keyed.get k rows) e ∙ row) in
          (
            rw et link,
            record v { released_at = some at },
            rw (er, e) (Keyed.get-set_self id (record v { released_at = some at }) _),
            ap admitted v_row ∙ admitted-expire at u ∙ same,
          )
      | inr miss ↦ (
        rw et link,
        expire_one at u,
        rw er (
            Keyed.get-set_ne id' id _ _ (λ (e : id' ≡ id). absurd (ground arith))
            ∙ expire-row at id u s.reservations found),
        admitted-expire at u ∙ same,
      )
    ]

run-Linked :
    (task id : String) (r : Reservation) (s : Gate) (cs : List Call)
    → FreshRun s cs
    → Linked task id r s
    → Linked task id r (run s cs)
unfolding run
run-Linked task id r s [] f h = h
run-Linked task id r s (c ∷ cs) f h =
    run-Linked task id r (step s c) cs f.1 (Change-Linked task id r (step-Change s c) f.0 h)

reserve-Linked :
    (s s' : Gate) (uuid : String) (clock : ℕ) (q : Request) (r : Reservation)
    → reserve s uuid clock q ≡ (s', reserved r)
    → Keyed.get q.task_id s.by_task ≡ none
    → Linked q.task_id r.reservation_id r s'
reserve-Linked s s' uuid clock q r h new =
    let (now, ttl, time, h1) = reserve_facts s s' uuid clock q r h in
    let h2 = admit_new_of s s' uuid now ttl q r h1 new in
    let (plan, sub, ent, h3) = new_facts (expire_leases s now) s' uuid now ttl q r h2 in
    let (stored, made, a, b, c) =
      within_facts (expire_leases s now) s' uuid now ttl q plan sub r h3 in
    rw (stored, made)
      (
        Keyed.get-set_self q.task_id _ _,
        new_reservation uuid now ttl q sub,
        Keyed.get-set_self _ (new_reservation uuid now ttl q sub) _,
        refl,
      )

same_binding-admitted :
    (u v : Reservation) (q : Request)
    → admitted u ≡ admitted v
    → same_binding u q ≡ same_binding v q
same_binding-admitted u v q e = ap (λ (w : Reservation). same_binding w q) e

-- The answer to a request for a task that leads to a row.
linked_reserve :
    (s : Gate) (uuid : String) (clock now ttl : ℕ) (q : Request) (id : String) (u : Reservation)
    → is_invalid q ≡ false
    → parse_execution_now clock q.now ≡ some now
    → normalize_lease_ttl q.lease_ttl_ms ≡ some ttl
    → Keyed.get q.task_id s.by_task ≡ some id
    → Keyed.get id s.reservations ≡ some u
    → reserve s uuid clock q ≡ (
      expire_leases s now,
      if same_binding u q then reserved (expire_one now u) else refused idempotency_conflict none,
    )
unfolding reserve replay_or_admit expire_leases
linked_reserve s uuid clock now ttl q id u good time lease link found =
    rw (good, reserve)
      (rw time (
        rw lease (
          rw (link, replay_or_admit)
            (rw (expire-row now id u s.reservations found) (
              rw (same_binding-admitted (expire_one now u) u q (admitted-expire now u))
                (ground arith))))))

-- An execution was reserved for a task that had no reservation. Then any calls of the gate follow,
-- under fresh identifiers: other reservations, releases, this one's too. A further valid request
-- for the same task admits nothing: it adds no row and only expires the leases that have run out.
-- If it is bound to the same user, tenant, device, Agent, Skill, plan, subscription and input, it
-- gets the row that was first admitted, lease unchanged; else it gets the conflict.
pub retry_gets_first_lease :
    (s s' : Gate) (uuid uuid' : String) (clock clock' now ttl : ℕ) (q q' : Request)
    (r : Reservation) (cs : List Call)
    → reserve s uuid clock q ≡ (s', reserved r)
    → Keyed.get q.task_id s.by_task ≡ none
    → FreshRun s' cs
    → q'.task_id ≡ q.task_id
    → is_invalid q' ≡ false
    → parse_execution_now clock' q'.now ≡ some now
    → normalize_lease_ttl q'.lease_ttl_ms ≡ some ttl
    → (u : Reservation) × (admitted u ≡ admitted r)
      × (reserve (run s' cs) uuid' clock' q' ≡ (
        expire_leases (run s' cs) now,
        if same_binding r q' then reserved u else refused idempotency_conflict none,
      ))
retry_gets_first_lease s s' uuid uuid' clock clock' now ttl q q' r cs h new f same good time lease =
    let (link, u, found, kept_row) =
      run-Linked q.task_id r.reservation_id r s' cs f (reserve-Linked s s' uuid clock q r h new) in
    let bound = same_binding-admitted r u q' (sym kept_row) in
    (
      expire_one now u,
      admitted-expire now u ∙ kept_row,
      rw bound (
          linked_reserve (run s' cs) uuid' clock' now ttl q' r.reservation_id u good time lease
            (ap (λ (k : String). Keyed.get k (run s' cs).by_task) same ∙ link) found),
    )
