-- ===== src/Executions.antt =====
-- The admission gate of cloud Skill executions: `reserveCloudSkillExecution`,
-- `releaseCloudSkillExecution` and the expiry of leases in
-- apps/longhub-cloud-api/src/memory-store.ts, with their types in
-- apps/longhub-cloud-api/src/store.ts. Each call runs to its end before the next one starts. Times
-- are milliseconds, as in Skills.antt; `now` is absent, a text that is no date (`some none`), or a
-- time. A fresh `randomUUID` and the clock are arguments.
pub mod Counts
pub mod Steps
pub mod Limits
pub mod Replay
pub mod Usage
mod Examples
use Prim.Native.String.{◌++◌ as ◌<>◌}
use longhub_platform.Common.{
  ℕ, ◌+◌, ◌-◌, ◌*◌, ◌/◌, max, min, String, Bool, true, false, ◌&&◌, ◌||◌, not, Option, none, some,
  List, [], ◌∷◌, map, ltb, leb, ◌=s◌, if◌then◌else◌, any, select, sort_by, head?, length, is_some,
  same_option, text_length, Result, ok, err, or_else,
}
use longhub_platform.Common.Keyed
use longhub_platform.Common.Keyed.{Keyed, values}
use longhub_platform.Skills.{
  SkillStore, Plan, Subscription, Entitlement, is_active, is_granted, includes,
}

pub data Reason : Type 0 where
  quota_exceeded rate_limited concurrency_limit subscription_inactive : Reason
  skill_not_entitled plan_mismatch idempotency_conflict invalid_request storage_unavailable : Reason

pub record Reservation : Type 0 where
  pub reservation_id : String
  pub task_id : String
  pub user_id : String
  pub tenant_id : String
  pub device_id : String
  pub agent_id : String
  pub skill_id : String
  pub plan_id : String
  pub subscription_id : String
  pub input_digest : Option String
  pub period_start : ℕ
  pub reserved_at : ℕ
  pub lease_expires_at : ℕ
  pub released_at : Option ℕ

-- A lease that is not a safe non-negative integer is `some none`.
pub record Request : Type 0 where
  pub task_id : String
  pub user_id : String
  pub tenant_id : String
  pub device_id : String
  pub agent_id : String
  pub skill_id : String
  pub plan_id : String
  pub subscription_id : Option String
  pub input_digest : Option String
  pub now : Option (Option ℕ)
  pub lease_ttl_ms : Option (Option ℕ)

pub data Outcome : Type 0 where
  reserved : Reservation → Outcome
  refused : Reason → Option ℕ → Outcome

pub record ReleaseRequest : Type 0 where
  pub reservation_id : Option String
  pub task_id : Option String
  pub user_id : Option String
  pub tenant_id : Option String
  pub now : Option (Option ℕ)

pub record ReleaseResult : Type 0 where
  pub released : Bool
  pub reservation : Option Reservation

-- The two maps of the gate, beside the store of plans, subscriptions and entitlements.
pub record Gate : Type 0 where
  pub skills : SkillStore
  pub reservations : Keyed Reservation
  pub by_task : Keyed String

abbrev pub default_lease_ttl_ms : ℕ
default_lease_ttl_ms = 300000

abbrev pub min_lease_ttl_ms : ℕ
min_lease_ttl_ms = 1000

abbrev pub max_lease_ttl_ms : ℕ
max_lease_ttl_ms = 900000

abbrev pub parse_execution_now : ℕ → Option (Option ℕ) → Option ℕ
parse_execution_now clock none = some clock
parse_execution_now clock (some t) = t

abbrev pub normalize_lease_ttl : Option (Option ℕ) → Option ℕ
normalize_lease_ttl none = some default_lease_ttl_ms
normalize_lease_ttl (some none) = none
normalize_lease_ttl (some (some v)) =
    if ltb v min_lease_ttl_ms || ltb max_lease_ttl_ms v then none else some v

-- `Math.max(1, Math.ceil(ms / 1000))`.
abbrev pub whole_seconds : ℕ → ℕ
whole_seconds ms = max 1 ((ms + 999) / 1000)

-- `retryAfterSeconds`; no time stands for the infinity that `Math.min()` of nothing is.
abbrev pub retry_after_seconds : Option ℕ → ℕ → Option ℕ
retry_after_seconds none now = none
retry_after_seconds (some until) now =
    if leb until now then none else some (whole_seconds (until - now))

abbrev pub expire_one : ℕ → Reservation → Reservation
expire_one now r =
    if not (is_some r.released_at) && leb r.lease_expires_at now
    then record r { released_at = some now }
    else r

unfoldable pub expire_leases : Gate → ℕ → Gate
expire_leases s now = record s { reservations = Keyed.update_all (expire_one now) s.reservations }

abbrev pub out_of_range : ℕ → String → Bool
out_of_range limit v = (v =s "") || ltb limit (text_length v)

abbrev pub option_out_of_range : ℕ → Option String → Bool
option_out_of_range limit none = false
option_out_of_range limit (some v) = out_of_range limit v

unfoldable pub is_invalid : Request → Bool
unfolding text_length
is_invalid q =
    any (out_of_range 256)
      (q.task_id ∷ q.user_id ∷ q.tenant_id ∷ q.device_id ∷ q.agent_id ∷ q.skill_id ∷ q.plan_id ∷ [])
    || (option_out_of_range 256 q.subscription_id || option_out_of_range 512 q.input_digest)

abbrev pub matches_option : Option String → String → Bool
matches_option none v = true
matches_option (some w) v = v =s w

abbrev pub same_binding : Reservation → Request → Bool
same_binding r q =
    (r.user_id =s q.user_id)
    && ((r.tenant_id =s q.tenant_id)
        && ((r.device_id =s q.device_id)
            && ((r.agent_id =s q.agent_id)
                && ((r.skill_id =s q.skill_id)
                    && ((r.plan_id =s q.plan_id)
                        && (matches_option q.subscription_id r.subscription_id
                            && same_option r.input_digest q.input_digest))))))

-- The subscription that the request is charged to: the newest one that fits.
abbrev pub chosen_subscription : SkillStore → Request → Option Subscription
chosen_subscription s q = head? (
    sort_by (λ a b. leb b.created_at a.created_at)
      (select
        (λ sub.
          (sub.plan_id =s q.plan_id)
          && ((sub.user_id =s q.user_id)
              && ((sub.tenant_id =s q.tenant_id)
                  && matches_option q.subscription_id sub.subscription_id)))
        (values s.subscriptions)))

abbrev pub fits_entitlement : Subscription → Request → ℕ → Entitlement → Bool
fits_entitlement sub q now e =
    (e.subscription_id =s sub.subscription_id)
    && ((e.tenant_id =s q.tenant_id)
        && ((e.user_id =s q.user_id)
            && ((e.skill_id =s q.skill_id)
                && ((e.plan_id =s q.plan_id) && (is_granted e.status && ltb now e.expires_at)))))

abbrev pub chosen_entitlement : SkillStore → Subscription → Request → ℕ → Option Entitlement
chosen_entitlement s sub q now = head? (
    sort_by (λ a b. leb b.created_at a.created_at)
      (select (fits_entitlement sub q now) (values s.entitlements)))

abbrev pub subscription_rows : String → List Reservation → List Reservation
subscription_rows id = select (λ r. r.subscription_id =s id)

abbrev pub in_cycle : String → ℕ → ℕ → Reservation → Bool
in_cycle skill starts now r =
    (r.skill_id =s skill) && (leb starts r.reserved_at && leb r.reserved_at now)

-- The calls of one Skill charged to a subscription since it began.
unfoldable pub cycle_calls : String → String → ℕ → ℕ → List Reservation → ℕ
cycle_calls id skill starts now rows =
    length (select (in_cycle skill starts now) (subscription_rows id rows))

abbrev pub owned_by : String → String → String → Reservation → Bool
owned_by tenant user device r =
    (r.tenant_id =s tenant) && ((r.user_id =s user) && (r.device_id =s device))

-- The calls of one device, for all its Agents and Skills.
abbrev pub owner_rows : String → Request → List Reservation → List Reservation
owner_rows id q rows =
    select (owned_by q.tenant_id q.user_id q.device_id) (subscription_rows id rows)

abbrev pub minute_start : ℕ → ℕ
minute_start now = now / 60000 * 60000

unfoldable pub minute_calls : String → Request → ℕ → List Reservation → ℕ
minute_calls id q now rows = length (
    select (λ r. leb (minute_start now) r.reserved_at && leb r.reserved_at now)
      (owner_rows id q rows))

abbrev pub is_held : ℕ → Reservation → Bool
is_held now r = not (is_some r.released_at) && ltb now r.lease_expires_at

abbrev pub held_rows : String → Request → ℕ → List Reservation → List Reservation
held_rows id q now rows = select (is_held now) (owner_rows id q rows)

unfoldable pub active_calls : String → Request → ℕ → List Reservation → ℕ
active_calls id q now rows = length (held_rows id q now rows)

abbrev pub earlier : ℕ → Option ℕ → Option ℕ
earlier n none = some n
earlier n (some m) = some (min n m)

-- `Math.min(...active.map((reservation) => Date.parse(reservation.lease_expires_at)))`.
unfoldable pub next_expiry : List Reservation → Option ℕ
next_expiry [] = none
next_expiry (r ∷ rs) = earlier r.lease_expires_at (next_expiry rs)

abbrev pub new_reservation : String → ℕ → ℕ → Request → Subscription → Reservation
new_reservation uuid now ttl q sub = record {
  reservation_id = "csres-" <> uuid;
  task_id = q.task_id;
  user_id = q.user_id;
  tenant_id = q.tenant_id;
  device_id = q.device_id;
  agent_id = q.agent_id;
  skill_id = q.skill_id;
  plan_id = q.plan_id;
  subscription_id = sub.subscription_id;
  input_digest = q.input_digest;
  period_start = sub.starts_at;
  reserved_at = now;
  lease_expires_at = now + ttl;
  released_at = none;
}

abbrev pub store_reservation : Gate → Reservation → Gate
store_reservation s r = record s {
  reservations = Keyed.set r.reservation_id r s.reservations;
  by_task = Keyed.set r.task_id r.reservation_id s.by_task;
}

-- The three limits of the plan, and the reservation if none is met.
unfoldable pub admit_within_limits :
    Gate → String → ℕ → ℕ → Request → Plan → Subscription → Gate × Outcome
admit_within_limits s uuid now ttl q plan sub =
    let rows = values s.reservations in
    let id = sub.subscription_id in
    let r = new_reservation uuid now ttl q sub in
    if leb plan.included_calls (cycle_calls id q.skill_id sub.starts_at now rows)
    then (s, refused quota_exceeded none)
    else if leb plan.requests_per_minute (minute_calls id q now rows)
    then (s, refused rate_limited (some (whole_seconds (minute_start now + 60000 - now))))
    else if leb plan.max_concurrency (active_calls id q now rows)
    then (
      s,
      refused concurrency_limit (retry_after_seconds (next_expiry (held_rows id q now rows)) now),
    )
    else (store_reservation s r, reserved r)

-- A request for a task with no reservation yet.
unfoldable pub admit_new : Gate → String → ℕ → ℕ → Request → Gate × Outcome
admit_new s uuid now ttl q = elim (Keyed.get q.plan_id s.skills.plans) [
  | none ↦ (s, refused plan_mismatch none)
  | some plan ↦ elim (chosen_subscription s.skills q) [
    | none ↦ (s, refused plan_mismatch none)
    | some sub ↦
        if not (is_active sub.status) || (ltb now sub.starts_at || leb sub.expires_at now)
        then (s, refused subscription_inactive none)
        else if not (includes q.skill_id plan.skill_ids)
        then (s, refused skill_not_entitled none)
        else if not (is_some (chosen_entitlement s.skills sub q now))
        then (s, refused skill_not_entitled none)
        else admit_within_limits s uuid now ttl q plan sub
  ]
]

-- The request once it is valid, with the leases that have run out expired.
unfoldable pub replay_or_admit : Gate → String → ℕ → ℕ → Request → Gate × Outcome
replay_or_admit s uuid now ttl q = elim (Keyed.get q.task_id s.by_task) [
  | none ↦ admit_new s uuid now ttl q
  | some id ↦ elim (Keyed.get id s.reservations) [
    | none ↦ admit_new (record s { by_task = Keyed.delete q.task_id s.by_task }) uuid now ttl q
    | some r ↦ if same_binding r q then (s, reserved r) else (s, refused idempotency_conflict none)
  ]
]

unfoldable pub reserve : Gate → String → ℕ → Request → Gate × Outcome
reserve s uuid clock q =
    if is_invalid q
    then (s, refused invalid_request none)
    else elim (parse_execution_now clock q.now) [
      | none ↦ (s, refused invalid_request none)
      | some now ↦ elim (normalize_lease_ttl q.lease_ttl_ms) [
        | none ↦ (s, refused invalid_request none)
        | some ttl ↦ replay_or_admit (expire_leases s now) uuid now ttl q
      ]
    ]

abbrev pub not_released : ReleaseResult
not_released = record { released = false; reservation = none }

abbrev pub differs : Option String → String → Bool
differs none v = false
differs (some w) v = not (v =s w)

-- `params.reservation_id ?? byTask.get(params.task_id)`; the result may still be the empty text.
abbrev pub release_target : Gate → ReleaseRequest → Option String
release_target s q = elim q.reservation_id [
  | some id ↦ some id
  | none ↦ elim q.task_id [ none ↦ none | some t ↦ Keyed.get t s.by_task ]
]

abbrev pub is_absent : Option String → Bool
is_absent none = true
is_absent (some v) = v =s ""

unfoldable pub release_row : Gate → ℕ → ReleaseRequest → Reservation → String → Gate × ReleaseResult
release_row s now q r id =
    if differs q.task_id r.task_id
      || (differs q.user_id r.user_id || differs q.tenant_id r.tenant_id)
    then (s, not_released)
    else if is_some r.released_at
    then (s, record { released = false; reservation = some r })
    else (let r' = record r { released_at = some now } in
        (
          record s { reservations = Keyed.set id r' s.reservations },
          record { released = true; reservation = some r' },
        ))

unfoldable pub release_at : Gate → ℕ → ReleaseRequest → Gate × ReleaseResult
release_at s now q = elim (release_target s q) [
  | none ↦ (s, not_released)
  | some id ↦ if id =s "" then (s, not_released) else elim (Keyed.get id s.reservations) [
    | none ↦ (s, not_released)
    | some r ↦ release_row s now q r id
  ]
]

unfoldable pub release : Gate → ℕ → ReleaseRequest → Gate × ReleaseResult
release s clock q = elim (parse_execution_now clock q.now) [
  | none ↦ (s, not_released)
  | some now ↦
      if is_absent q.reservation_id && is_absent q.task_id
      then (s, not_released)
      else release_at (expire_leases s now) now q
]
