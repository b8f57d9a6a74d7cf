-- ===== src/Executions/Steps.antt =====
-- What the calls of the admission gate do to its two maps.
use Prim.Native.String.{◌++◌ as ◌<>◌}
use mathlib.Core.Option
use longhub_platform.Common.{
  ℕ, String, Option, none, some, List, [], ◌∷◌, ◌≡◌, refl, ◌∙◌, sym, ap, ◌⊎◌, inl, inr, arith,
  Bool-cases, Option-cases, ◌=s◌, ◌≢◌, ◌&&◌,
}
use longhub_platform.Common.Keyed
use longhub_platform.Common.Keyed.{Keyed, values}
use longhub_platform.Skills.{Plan, Subscription}
use longhub_platform.Executions.{
  Gate, Request, Reservation, ReleaseRequest, new_reservation, store_reservation,
  chosen_subscription, admit_within_limits, admit_new, replay_or_admit, reserve, expire_leases,
  parse_execution_now, normalize_lease_ttl, is_invalid, expire_one, release, release_at,
  release_row, release_target, is_absent, same_binding,
}

within_cases :
    (s : Gate) (uuid : String) (now ttl : ℕ) (q : Request) (plan : Plan) (sub : Subscription)
    → ((admit_within_limits s uuid now ttl q plan sub).0 ≡ s)
      ⊎ ((admit_within_limits s uuid now ttl q plan sub).0
          ≡ store_reservation s (new_reservation uuid now ttl q sub))
unfolding admit_within_limits
within_cases s uuid now ttl q plan sub = ground arith

admit_chosen :
    (s : Gate) (uuid : String) (now ttl : ℕ) (q : Request) (plan : Plan) (sub : Subscription)
    → Keyed.get q.plan_id s.skills.plans ≡ some plan
    → chosen_subscription s.skills q ≡ some sub
    → ((admit_new s uuid now ttl q).0 ≡ s)
      ⊎ ((admit_new s uuid now ttl q).0 ≡ store_reservation s (new_reservation uuid now ttl q sub))
unfolding admit_new
admit_chosen s uuid now ttl q plan sub e e' =
    rw (e, admit_new) (rw e' (ground (arith, within_cases s uuid now ttl q plan sub)))

pub admit_new_cases :
    (s : Gate) (uuid : String) (now ttl : ℕ) (q : Request)
    → ((admit_new s uuid now ttl q).0 ≡ s)
      ⊎ ((sub : Subscription) × ((admit_new s uuid now ttl q).0
            ≡ store_reservation s (new_reservation uuid now ttl q sub)))
unfolding admit_new
admit_new_cases s uuid now ttl q = elim (Option-cases (Keyed.get q.plan_id s.skills.plans)) [
  | inl e ↦ inl (rw (e, admit_new))
  | inr (plan, e) ↦ elim (Option-cases (chosen_subscription s.skills q)) [
    | inl e' ↦ inl (rw (e, admit_new) (rw e'))
    | inr (sub, e') ↦ elim (admit_chosen s uuid now ttl q plan sub e e') [
      | inl same ↦ inl same
      | inr added ↦ inr (sub, added)
    ]
  ]
]

-- What a call of the gate does: a row is added only for a task that leads to no row.
pub data Change (fresh : Option String) (s s' : Gate) : Type 0 where
  kept : s' ≡ s → Change fresh s s'
  expired :
      (now : ℕ)
      → s'.reservations ≡ Keyed.update_all (expire_one now) s.reservations
      → s'.by_task ≡ s.by_task
      → Change fresh s s'
  unlinked :
      (now : ℕ) (task id : String)
      → Keyed.get task s.by_task ≡ some id
      → Keyed.get id s.reservations ≡ none
      → s'.reservations ≡ Keyed.update_all (expire_one now) s.reservations
      → s'.by_task ≡ Keyed.delete task s.by_task
      → Change fresh s s'
  added :
      (now : ℕ) (uuid task : String) (r : Reservation) (by_task : Keyed String)
      → fresh ≡ some uuid
      → r.reservation_id ≡ "csres-" <> uuid
      → ((id : String) → Keyed.get task s.by_task ≡ some id → Keyed.get id s.reservations ≡ none)
      → ((j : String) → j ≢ task → Keyed.get j by_task ≡ Keyed.get j s.by_task)
      → s'.reservations
        ≡ Keyed.set r.reservation_id r (Keyed.update_all (expire_one now) s.reservations)
      → s'.by_task ≡ Keyed.set task r.reservation_id by_task
      → Change fresh s s'
  freed :
      (now : ℕ) (id : String) (r : Reservation)
      → Keyed.get id (Keyed.update_all (expire_one now) s.reservations) ≡ some r
      → s'.reservations
        ≡ Keyed.set id
            (record r { released_at = some now })
            (Keyed.update_all (expire_one now) s.reservations)
      → s'.by_task ≡ s.by_task
      → Change fresh s s'

missing_before :
    (now : ℕ) (id : String) (m : Keyed Reservation)
    → Keyed.get id (Keyed.update_all (expire_one now) m) ≡ none
    → Keyed.get id m ≡ none
missing_before now id m h = elim (Option-cases (Keyed.get id m)) [
  | inl e ↦ e
  | inr (r, e) ↦
      let there : Option.map (expire_one now) (some r) ≡ none =
        sym (ap (Option.map (expire_one now)) e)
        ∙ sym (Keyed.get-update_all (expire_one now) id m)
        ∙ h in
      cc there
]

get-delete_ne :
    (k j : String) (m : Keyed String) → j ≢ k → Keyed.get j (Keyed.delete k m) ≡ Keyed.get j m
get-delete_ne k j m ne = ground (arith, Keyed.get-delete k j m)

some_eq : (a b : String) → some a ≡ some b → a ≡ b
some_eq a b e = cc

replay_Change :
    (s : Gate) (uuid : String) (now ttl : ℕ) (q : Request)
    → Change (some uuid) s (replay_or_admit (expire_leases s now) uuid now ttl q).0
unfolding replay_or_admit expire_leases
replay_Change s uuid now ttl q = elim (Option-cases (Keyed.get q.task_id s.by_task)) [
  | inl e ↦
      rw (e, replay_or_admit)
        (elim (admit_new_cases (expire_leases s now) uuid now ttl q) [
          | inl same ↦ rw same (expired now refl refl)
          | inr (sub, more) ↦ rw more (
              added now uuid q.task_id _ s.by_task refl refl (λ id e'. cc) (λ j ne. refl) refl refl)
        ])
  | inr (id, e) ↦
      elim (Option-cases (Keyed.get id (Keyed.update_all (expire_one now) s.reservations))) [
        | inl e' ↦
            let gone = missing_before now id s.reservations e' in
            let cleared = Keyed.delete q.task_id s.by_task in
            let without =
              λ (j : String) (ne : j ≢ q.task_id). get-delete_ne q.task_id j s.by_task ne in
            rw (e, replay_or_admit)
              (rw e'
                (elim (admit_new_cases (record (expire_leases s now) { by_task = cleared }) uuid now
                  ttl q) [
                    | inl same ↦ rw same (unlinked now q.task_id id e gone refl refl)
                    | inr (sub, more) ↦ rw more (
                        added now uuid q.task_id _ cleared refl refl
                          (λ other e''.
                            let both : some id ≡ some other = sym e ∙ e'' in
                            rw (← some_eq id other both) gone)
                          without refl refl)
                  ]))
        | inr (r, e') ↦ elim (Bool-cases (same_binding r q)) [
          | inl same ↦ rw (e, replay_or_admit) (rw e' (rw same (expired now refl refl)))
          | inr other ↦ rw (e, replay_or_admit) (rw e' (rw other (expired now refl refl)))
        ]
      ]
]

-- A call of the gate, with its fresh identifier and clock.
pub data Call : Type 0 where
  reserves : String → ℕ → Request → Call
  releases : ℕ → ReleaseRequest → Call

unfoldable pub step : Gate → Call → Gate
step s (reserves uuid clock q) = (reserve s uuid clock q).0
step s (releases clock q) = (release s clock q).0

unfoldable pub run : Gate → List Call → Gate
run s [] = s
run s (c ∷ cs) = run (step s c) cs

reserve-Change :
    (s : Gate) (uuid : String) (clock : ℕ) (q : Request)
    → Change (some uuid) s (reserve s uuid clock q).0
unfolding reserve
reserve-Change s uuid clock q = elim (Bool-cases (is_invalid q)) [
  | inl bad ↦ rw (bad, reserve) (kept refl)
  | inr good ↦
      rw (good, reserve)
        (elim (Option-cases (parse_execution_now clock q.now)) [
          | inl e ↦ rw e (kept refl)
          | inr (now, e) ↦ rw e (elim (Option-cases (normalize_lease_ttl q.lease_ttl_ms)) [
            | inl e' ↦ rw e' (kept refl)
            | inr (ttl, e') ↦ rw e' (replay_Change s uuid now ttl q)
          ])
        ])
]

release_row_cases :
    (s : Gate) (now : ℕ) (q : ReleaseRequest) (r : Reservation) (id : String)
    → ((release_row s now q r id).0 ≡ s)
      ⊎ ((release_row s now q r id).0 ≡ record s {
        reservations = Keyed.set id (record r { released_at = some now }) s.reservations;
      })
unfolding release_row
release_row_cases s now q r id = ground arith

release_at-Change :
    (s : Gate) (now : ℕ) (q : ReleaseRequest)
    → Change none s (release_at (expire_leases s now) now q).0
unfolding release_at expire_leases
release_at-Change s now q = elim (Option-cases (release_target s q)) [
  | inl e ↦ rw (e, release_at) (expired now refl refl)
  | inr (id, e) ↦
      rw (e, release_at)
        (elim (Bool-cases (id =s "")) [
          | inl blank ↦ rw blank (expired now refl refl)
          | inr named ↦
              rw named
                (elim (Option-cases
                  (Keyed.get id (Keyed.update_all (expire_one now) s.reservations))) [
                    | inl e' ↦ rw e' (expired now refl refl)
                    | inr (r, e') ↦
                        rw e' (elim (release_row_cases (expire_leases s now) now q r id) [
                          | inl same ↦ rw same (expired now refl refl)
                          | inr wrote ↦ rw wrote (freed now id r e' refl refl)
                        ])
                  ])
        ])
]

release-Change : (s : Gate) (clock : ℕ) (q : ReleaseRequest) → Change none s (release s clock q).0
unfolding release
release-Change s clock q = elim (Option-cases (parse_execution_now clock q.now)) [
  | inl e ↦ rw (e, release) (kept refl)
  | inr (now, e) ↦
      rw (e, release)
        (elim (Bool-cases (is_absent q.reservation_id && is_absent q.task_id)) [
          | inl blank ↦ rw blank (kept refl)
          | inr named ↦ rw named (release_at-Change s now q)
        ])
]

-- The fresh identifier that a call brings.
abbrev pub uuid_of : Call → Option String
uuid_of (reserves uuid clock q) = some uuid
uuid_of (releases clock q) = none

-- No row stands under the identifier that a call brings.
abbrev pub IsFresh : Option String → Gate → Type 0
IsFresh none s = Unit {0}
IsFresh (some uuid) s = Keyed.get ("csres-" <> uuid) s.reservations ≡ none

abbrev pub FreshRun : Gate → List Call → Type 0
FreshRun s [] = Unit {0}
FreshRun s (c ∷ cs) = IsFresh (uuid_of c) s × FreshRun (step s c) cs

pub step-Change : (s : Gate) (c : Call) → Change (uuid_of c) s (step s c)
unfolding step
step-Change s (reserves uuid clock q) = reserve-Change s uuid clock q
step-Change s (releases clock q) = release-Change s clock q
