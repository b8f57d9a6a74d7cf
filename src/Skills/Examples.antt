-- ===== src/Skills/Examples.antt =====
-- Plans with their subscriptions, and the theorems on access and on plans at them.
use mathlib.Core.List.{Memᴰ}
use longhub_platform.Common.{
  ℕ, ◌≤◌, String, none, some, [], ◌∷◌, ◌≡◌, refl, ◌≢◌, String-discrete, insert_by, sort_by,
  if◌then◌else◌, ◌=s◌, All, arith, text_length,
}
use longhub_platform.Common.Keyed
use longhub_platform.Common.Keyed.{values}
use longhub_platform.Skills.{
  Plan, listed, monthly, Subscription, SubscriptionStatus, Entitlement, EntitlementStatus,
  EntitlementParams, Grant, SkillStore, update_subscription_status, grant_entitlement,
  put_entitlement,
}
use longhub_platform.Skills.Resolution.{AccessQuery, grant_of, first_grant, resolve_access}
use longhub_platform.Skills.Plans.{
  PlanParams, PlanPatch, create_plan, update_plan, IsSound, is_name, is_skill_id, are_distinct,
}
use longhub_platform.Skills.Sales.{plans-IsSound}
use longhub_platform.Skills.Access.{IsGrounded, access_sound, access_complete}
use longhub_platform.Skills.Revocation.{grant, run, step, ended_no_access}

abbrev plan : Plan
plan = record {
  plan_id = "pro";
  name = "Pro";
  description = "";
  skill_ids = "poster" ∷ "report" ∷ [];
  price_monthly_fen = 990;
  price_yearly_fen = 9900;
  included_calls = 100;
  requests_per_minute = 10;
  max_concurrency = 2;
  status = listed;
  created_at = 1;
}

abbrev subscription : String → String → Subscription
subscription id order = record {
  subscription_id = id;
  user_id = "u1";
  tenant_id = "acme";
  plan_id = "pro";
  status = SubscriptionStatus.active;
  period = monthly;
  starts_at = 100;
  expires_at = 900;
  cancelled_at = none;
  refunded_at = none;
  source_order_id = order;
  created_at = 100;
}

abbrev entitlement : String → String → ℕ → Entitlement
entitlement id sub created = record {
  entitlement_id = id;
  subscription_id = sub;
  tenant_id = "acme";
  user_id = "u1";
  skill_id = "poster";
  plan_id = "pro";
  status = EntitlementStatus.active;
  expires_at = 900;
  created_at = created;
}

abbrev store : SkillStore
store = record {
  plans = ("pro", plan) ∷ [];
  subscriptions =
      ("csub-a", subscription "csub-a" "o1") ∷ ("csub-b", subscription "csub-b" "o2") ∷ [];
  subscriptions_by_order = ("o1", "csub-a") ∷ ("o2", "csub-b") ∷ [];
  entitlements =
      ("csent-a", entitlement "csent-a" "csub-a" 120)
      ∷ ("csent-b", entitlement "csent-b" "csub-b" 110)
      ∷ [];
}

abbrev query : AccessQuery
query = record {
  user_id = some "u1";
  user_id_camel = none;
  tenant_id = none;
  tenant_id_camel = some "acme";
  skill_id = some "poster";
  skill_id_camel = none;
  allowed_plan_ids = some ("pro" ∷ []);
  allowed_plan_ids_camel = none;
  now = some 500;
}

abbrev given : String → String → ℕ → Grant
given id sub created = record {
  entitlement = entitlement id sub created;
  subscription = subscription sub (if sub =s "csub-a" then "o1" else "o2");
  plan = plan;
}

-- The newest entitlement is the one that is used.
resolved : resolve_access store 0 query ≡ some (given "csent-a" "csub-a" 120)
unfolding resolve_access first_grant grant_of Keyed.get sort_by insert_by String-discrete
resolved = refl

access_sound_example :
    IsGrounded store "u1" "acme" "poster" (some ("pro" ∷ [])) 500 (given "csent-a" "csub-a" 120)
unfolding String-discrete
access_sound_example =
    access_sound store 0 query "u1" "acme" "poster" (given "csent-a" "csub-a" 120) refl refl refl
      resolved

older_granted :
    grant_of store "u1" "acme" "poster" 500 (entitlement "csent-b" "csub-b" 110)
    ≡ some (given "csent-b" "csub-b" 110)
unfolding grant_of Keyed.get String-discrete
older_granted = refl

access_complete_example :
    (g : Grant) × (resolve_access store 0 query ≡ some g) × (110 ≤ g.entitlement.created_at)
unfolding String-discrete
access_complete_example =
    access_complete store 0 query "u1" "acme" "poster" (entitlement "csent-b" "csub-b" 110)
      (given "csent-b" "csub-b" 110) refl refl refl (Memᴰ.tail (Memᴰ.head refl)) refl older_granted

-- A try to grant the Skill again under the subscription that was refunded.
abbrev again : EntitlementParams
again = record {
  subscription_id = "csub-a";
  tenant_id = none;
  user_id = none;
  skill_id = "poster";
  plan_id = "pro";
  expires_at = none;
}

abbrev refunded : SkillStore
refunded =
    run (update_subscription_status store "csub-a" SubscriptionStatus.refunded 400).0
      (grant "x" 450 again ∷ [])

resolved_after : resolve_access refunded 0 query ≡ some (given "csent-b" "csub-b" 110)
unfolding resolve_access first_grant grant_of Keyed.get Keyed.set Keyed.update_all sort_by insert_by
    String-discrete run step update_subscription_status grant_entitlement put_entitlement
resolved_after = refl

ended_no_access_example : ◌≢◌ {A = String} "csub-b" "csub-a"
unfolding String-discrete Keyed.get
ended_no_access_example =
    ended_no_access store "csub-a" (subscription "csub-a" "o1") SubscriptionStatus.refunded 400
      (grant "x" 450 again ∷ []) 0 query "u1" "acme" "poster" (given "csent-b" "csub-b" 110) refl
      refl (refl, tt) refl refl refl resolved_after

abbrev sold : Plan
sold = record plan { skill_ids = "office.skill.poster" ∷ "office.skill.report" ∷ [] }

abbrev shop : SkillStore
shop = record store { plans = ("pro", sold) ∷ [] }

abbrev basic : PlanParams
basic = record {
  plan_id = "basic.v2";
  name = "Basic";
  description = none;
  skill_ids = "office.skill.poster" ∷ [];
  price_monthly_fen = some 100;
  price_yearly_fen = some 1000;
  included_calls = none;
  requests_per_minute = some (some 5);
  max_concurrency = none;
  status = none;
}

abbrev cheaper : PlanPatch
cheaper = record {
  name = none;
  description = none;
  skill_ids = none;
  price_monthly_fen = some (some 500);
  price_yearly_fen = none;
  included_calls = none;
  requests_per_minute = none;
  max_concurrency = some (some 0);
  status = none;
}

sold-IsSound : IsSound sold
unfolding is_name is_skill_id are_distinct String-discrete text_length
sold-IsSound = record {
  named = refl;
  offers = refl;
  skills = refl;
  distinct = refl;
  rate = omega arith;
  leases = omega arith;
}

plans-IsSound_example :
    All IsSound (values (create_plan shop 5 basic).0.plans)
    × All IsSound (values (update_plan shop "pro" cheaper).0.plans)
plans-IsSound_example = plans-IsSound shop 5 basic "pro" cheaper (sold-IsSound, tt)
