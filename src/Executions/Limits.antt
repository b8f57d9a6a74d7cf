-- ===== src/Executions/Limits.antt =====
-- What an admitted execution has passed: `reserveCloudSkillExecution` of
-- apps/longhub-cloud-api/src/memory-store.ts against the limits of the plan.
use Prim.Native.String.{◌++◌ as ◌<>◌}
use longhub_platform.Common.{
  ℕ, ◌≤◌, ◌<◌, String, true, none, some, ◌≡◌, ◌∙◌, inl, inr, arith, Bool-cases, Option-cases,
  is_some,
}
use longhub_platform.Common.Keyed
use longhub_platform.Common.Keyed.{values}
use longhub_platform.Skills.{Plan, Subscription, is_active, includes}
use longhub_platform.Executions.{
  Gate, Request, Reservation, reserved, cycle_calls, minute_calls, active_calls, new_reservation,
  store_reservation, chosen_subscription, chosen_entitlement, admit_within_limits, admit_new,
  replay_or_admit, reserve, expire_leases, parse_execution_now, normalize_lease_ttl, is_invalid,
  expire_one,
}
use longhub_platform.Executions.Counts.{cycle_calls-set, minute_calls-set, active_calls-set, bit-le}

-- The counters of the store that an admission leaves, against the plan.
pub record IsWithin (s : Gate) (q : Request) (plan : Plan) (sub : Subscription) (now : ℕ)
    : Type 0 where
  pub quota :
      cycle_calls sub.subscription_id q.skill_id sub.starts_at now (values s.reservations)
      ≤ plan.included_calls
  pub rate :
      minute_calls sub.subscription_id q now (values s.reservations) ≤ plan.requests_per_minute
  pub concurrency :
      active_calls sub.subscription_id q now (values s.reservations) ≤ plan.max_concurrency

-- What an admission rests on.
pub record IsEntitled (s : Gate) (q : Request) (plan : Plan) (sub : Subscription) (now : ℕ)
    : Type 0 where
  pub planned : Keyed.get q.plan_id s.skills.plans ≡ some plan
  pub subscribed : chosen_subscription s.skills q ≡ some sub
  pub active : is_active sub.status ≡ true
  pub begun : sub.starts_at ≤ now
  pub running : now < sub.expires_at
  pub offered : includes q.skill_id plan.skill_ids ≡ true
  pub entitled : is_some (chosen_entitlement s.skills sub q now) ≡ true

pub within_facts :
    (s s' : Gate) (uuid : String) (now ttl : ℕ) (q : Request) (plan : Plan) (sub : Subscription)
    (r : Reservation)
    → admit_within_limits s uuid now ttl q plan sub ≡ (s', reserved r)
    → (s' ≡ store_reservation s r)
      × (r ≡ new_reservation uuid now ttl q sub)
      × (cycle_calls sub.subscription_id q.skill_id sub.starts_at now (values s.reservations)
          < plan.included_calls)
      × (minute_calls sub.subscription_id q now (values s.reservations) < plan.requests_per_minute)
      × (active_calls sub.subscription_id q now (values s.reservations) < plan.max_concurrency)
unfolding admit_within_limits
within_facts s s' uuid now ttl q plan sub r h = ground arith

pub new_facts :
    (s s' : Gate) (uuid : String) (now ttl : ℕ) (q : Request) (r : Reservation)
    → admit_new s uuid now ttl q ≡ (s', reserved r)
    → (plan : Plan) × (sub : Subscription) × IsEntitled s q plan sub now
      × (admit_within_limits s uuid now ttl q plan sub ≡ (s', reserved r))
unfolding admit_new
new_facts s s' uuid now ttl q r h = elim (Option-cases (Keyed.get q.plan_id s.skills.plans)) [
  | inl e ↦ absurd (ground arith)
  | inr (plan, e) ↦ elim (Option-cases (chosen_subscription s.skills q)) [
    | inl e' ↦ absurd (ground arith)
    | inr (sub, e') ↦ (plan, sub, ground arith, ground arith)
  ]
]

-- A call that reserves has a time and a lease.
pub reserve_facts :
    (s s' : Gate) (uuid : String) (clock : ℕ) (q : Request) (r : Reservation)
    → reserve s uuid clock q ≡ (s', reserved r)
    → (now : ℕ) × (ttl : ℕ) × (parse_execution_now clock q.now ≡ some now)
      × (replay_or_admit (expire_leases s now) uuid now ttl q ≡ (s', reserved r))
unfolding reserve
reserve_facts s s' uuid clock q r h = elim (Bool-cases (is_invalid q)) [
  | inl bad ↦ absurd (ground arith)
  | inr good ↦ elim (Option-cases (parse_execution_now clock q.now)) [
    | inl e ↦ absurd (ground arith)
    | inr (now, e) ↦ elim (Option-cases (normalize_lease_ttl q.lease_ttl_ms)) [
      | inl e' ↦ absurd (ground arith)
      | inr (ttl, e') ↦ (now, ttl, e, ground arith)
    ]
  ]
]

pub admit_new_of :
    (s s' : Gate) (uuid : String) (now ttl : ℕ) (q : Request) (r : Reservation)
    → replay_or_admit (expire_leases s now) uuid now ttl q ≡ (s', reserved r)
    → Keyed.get q.task_id s.by_task ≡ none
    → admit_new (expire_leases s now) uuid now ttl q ≡ (s', reserved r)
unfolding replay_or_admit expire_leases
admit_new_of s s' uuid now ttl q r h fresh = rw (fresh, replay_or_admit) at h

-- Storing the reservation adds one to each counter at most.
stored-IsWithin :
    (s : Gate) (uuid : String) (now ttl : ℕ) (q : Request) (plan : Plan) (sub : Subscription)
    → Keyed.get ("csres-" <> uuid) s.reservations ≡ none
    → cycle_calls sub.subscription_id q.skill_id sub.starts_at now (values s.reservations)
      < plan.included_calls
    → minute_calls sub.subscription_id q now (values s.reservations) < plan.requests_per_minute
    → active_calls sub.subscription_id q now (values s.reservations) < plan.max_concurrency
    → IsWithin (store_reservation s (new_reservation uuid now ttl q sub)) q plan sub now
stored-IsWithin s uuid now ttl q plan sub fresh a b c =
    let r = new_reservation uuid now ttl q sub in
    let k = r.reservation_id in
    record {
      quota = omega (
        arith,
        cycle_calls-set sub.subscription_id q.skill_id sub.starts_at now k r s.reservations fresh,
        bit-le _,
      );
      rate =
          omega
            (arith, minute_calls-set sub.subscription_id q now k r s.reservations fresh, bit-le _);
      concurrency =
          omega
            (arith, active_calls-set sub.subscription_id q now k r s.reservations fresh, bit-le _);
    }

IsEntitled-before :
    (s : Gate) (q : Request) (plan : Plan) (sub : Subscription) (now : ℕ)
    → IsEntitled (expire_leases s now) q plan sub now
    → IsEntitled s q plan sub now
unfolding expire_leases
IsEntitled-before s q plan sub now e = record {
  planned = e.planned;
  subscribed = e.subscribed;
  active = e.active;
  begun = e.begun;
  running = e.running;
  offered = e.offered;
  entitled = e.entitled;
}

pub still_fresh :
    (s : Gate) (now : ℕ) (k : String)
    → Keyed.get k s.reservations ≡ none
    → Keyed.get k (expire_leases s now).reservations ≡ none
unfolding expire_leases
still_fresh s now k h = Keyed.get-update_all (expire_one now) k s.reservations ∙ rw h

-- A reservation for a task that had none, under a fresh identifier, was made at a time `now` for a
-- plan and an active, running subscription with an entitlement to the Skill; and with the new
-- reservation counted, the included calls of the subscription and the Skill, the calls of the
-- device in this minute, and the leases that it holds at once are within the limits of the plan.
pub reserve-IsWithin :
    (s s' : Gate) (uuid : String) (clock : ℕ) (q : Request) (r : Reservation)
    → reserve s uuid clock q ≡ (s', reserved r)
    → Keyed.get q.task_id s.by_task ≡ none
    → Keyed.get ("csres-" <> uuid) s.reservations ≡ none
    → (now : ℕ) × (plan : Plan) × (sub : Subscription) × (parse_execution_now clock q.now
        ≡ some now)
      × IsEntitled s q plan sub now
      × IsWithin s' q plan sub now
reserve-IsWithin s s' uuid clock q r h new fresh =
    let (now, ttl, time, h1) = reserve_facts s s' uuid clock q r h in
    let h2 = admit_new_of s s' uuid now ttl q r h1 new in
    let (plan, sub, ent, h3) = new_facts (expire_leases s now) s' uuid now ttl q r h2 in
    let (stored, made, a, b, c) =
      within_facts (expire_leases s now) s' uuid now ttl q plan sub r h3 in
    (
      now,
      plan,
      sub,
      time,
      IsEntitled-before s q plan sub now ent,
      rw (stored, made)
          (stored-IsWithin (expire_leases s now) uuid now ttl q plan sub
            (still_fresh s now ("csres-" <> uuid) fresh) a b c),
    )
