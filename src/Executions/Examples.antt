-- ===== src/Executions/Examples.antt =====
-- A small run of the admission gate, with the theorems of the gate at it.
use longhub_platform.Common.{
  ℕ, ◌+◌, ◌≤◌, String, none, some, List, [], ◌∷◌, ◌≡◌, refl, String-discrete, text_length,
  insert_by, sort_by, if◌then◌else◌,
}
use longhub_platform.Common.Keyed
use longhub_platform.Common.Keyed.{values}
use longhub_platform.Skills.{
  Plan, listed, monthly, Subscription, SubscriptionStatus, Entitlement, EntitlementStatus,
}
use longhub_platform.Executions.{
  Gate, Request, Reservation, ReleaseRequest, reserved, refused, idempotency_conflict,
  concurrency_limit, reserve, release, release_at, release_row, replay_or_admit, admit_new,
  admit_within_limits, expire_leases, is_invalid, cycle_calls, minute_calls, active_calls,
  next_expiry, parse_execution_now, same_binding,
}
use longhub_platform.Executions.Steps.{Call, reserves, releases, run, step}
use longhub_platform.Executions.Limits.{IsWithin, IsEntitled, reserve-IsWithin}
use longhub_platform.Executions.Usage.{usage_never_falls}
use longhub_platform.Executions.Replay.{admitted, retry_gets_first_lease}

abbrev plan : Plan
plan = record {
  plan_id = "pro";
  name = "Pro";
  description = "";
  skill_ids = "poster" ∷ [];
  price_monthly_fen = 990;
  price_yearly_fen = 9900;
  included_calls = 3;
  requests_per_minute = 2;
  max_concurrency = 1;
  status = listed;
  created_at = 1;
}

abbrev subscription : Subscription
subscription = record {
  subscription_id = "csub-a";
  user_id = "u1";
  tenant_id = "acme";
  plan_id = "pro";
  status = SubscriptionStatus.active;
  period = monthly;
  starts_at = 1000;
  expires_at = 900000;
  cancelled_at = none;
  refunded_at = none;
  source_order_id = "o1";
  created_at = 1000;
}

abbrev entitlement : Entitlement
entitlement = record {
  entitlement_id = "csent-a";
  subscription_id = "csub-a";
  tenant_id = "acme";
  user_id = "u1";
  skill_id = "poster";
  plan_id = "pro";
  status = EntitlementStatus.active;
  expires_at = 900000;
  created_at = 1000;
}

abbrev gate : Gate
gate = record {
  skills = record {
    plans = ("pro", plan) ∷ [];
    subscriptions = ("csub-a", subscription) ∷ [];
    subscriptions_by_order = ("o1", "csub-a") ∷ [];
    entitlements = ("csent-a", entitlement) ∷ [];
  };
  reservations = [];
  by_task = [];
}

abbrev request : String → ℕ → Request
request task now = record {
  task_id = task;
  user_id = "u1";
  tenant_id = "acme";
  device_id = "desk";
  agent_id = "writer";
  skill_id = "poster";
  plan_id = "pro";
  subscription_id = none;
  input_digest = some "d1";
  now = some (some now);
  lease_ttl_ms = none;
}

abbrev row : String → String → ℕ → Reservation
row id task now = record {
  reservation_id = id;
  task_id = task;
  user_id = "u1";
  tenant_id = "acme";
  device_id = "desk";
  agent_id = "writer";
  skill_id = "poster";
  plan_id = "pro";
  subscription_id = "csub-a";
  input_digest = some "d1";
  period_start = 1000;
  reserved_at = now;
  lease_expires_at = now + 300000;
  released_at = none;
}

abbrev admitted_gate : Gate
admitted_gate = record gate {
  reservations = ("csres-a", row "csres-a" "t1" 2000) ∷ [];
  by_task = ("t1", "csres-a") ∷ [];
}

abbrev done : ReleaseRequest
done = record {
  reservation_id = none;
  task_id = some "t1";
  user_id = some "u1";
  tenant_id = none;
  now = some (some 5000);
}

first_reserved :
    reserve gate "a" 0 (request "t1" 2000) ≡ (admitted_gate, reserved (row "csres-a" "t1" 2000))
unfolding reserve replay_or_admit admit_new admit_within_limits expire_leases is_invalid text_length
    cycle_calls minute_calls active_calls next_expiry sort_by insert_by Keyed.get Keyed.set
    Keyed.update_all String-discrete
first_reserved = refl

-- One lease is held, and the plan allows one at a time.
second_refused :
    (reserve admitted_gate "b" 0 (request "t2" 3000)).1 ≡ refused concurrency_limit (some 299)
unfolding reserve replay_or_admit admit_new admit_within_limits expire_leases is_invalid text_length
    cycle_calls minute_calls active_calls next_expiry sort_by insert_by Keyed.get Keyed.set
    Keyed.update_all String-discrete
second_refused = refl

reserve-IsWithin_example :
    (now : ℕ) × (plan : Plan) × (sub : Subscription) × (parse_execution_now 0 (some (some 2000))
      ≡ some now)
    × IsEntitled gate (request "t1" 2000) plan sub now
    × IsWithin admitted_gate (request "t1" 2000) plan sub now
unfolding Keyed.get
reserve-IsWithin_example =
    reserve-IsWithin gate admitted_gate "a" 0 (request "t1" 2000) (row "csres-a" "t1" 2000)
      first_reserved refl refl

-- The lease is released and the next task admitted.
abbrev after : List Call
after = releases 0 done ∷ reserves "b" 0 (request "t2" 6000) ∷ []

usage_never_falls_example :
    cycle_calls "csub-a" "poster" 1000 7000 (values admitted_gate.reservations)
    ≤ cycle_calls "csub-a" "poster" 1000 7000 (values (run admitted_gate after).reservations)
unfolding step release release_at release_row expire_leases Keyed.get Keyed.set Keyed.update_all
    String-discrete
usage_never_falls_example =
    usage_never_falls admitted_gate after "csub-a" "poster" 1000 7000 (tt, (refl, tt))

retry_gets_first_lease_example :
    (u : Reservation) × (admitted u ≡ admitted (row "csres-a" "t1" 2000))
    × (reserve (run admitted_gate after) "c" 0 (request "t1" 7000) ≡ (
      expire_leases (run admitted_gate after) 7000,
      if same_binding (row "csres-a" "t1" 2000) (request "t1" 7000)
          then reserved u
          else refused idempotency_conflict none,
    ))
unfolding is_invalid text_length step release release_at release_row expire_leases Keyed.get
    Keyed.set Keyed.update_all String-discrete
retry_gets_first_lease_example =
    retry_gets_first_lease gate admitted_gate "a" "c" 0 0 7000 300000 (request "t1" 2000)
      (request "t1" 7000) (row "csres-a" "t1" 2000) after first_reserved refl (tt, (refl, tt)) refl
      refl refl refl
