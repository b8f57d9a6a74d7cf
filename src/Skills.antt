-- ===== src/Skills.antt =====
-- The commercial records of cloud Skills: plans, subscriptions and entitlements of
-- apps/longhub-cloud-api/src/store.ts, and the methods of `MemoryStore` in
-- apps/longhub-cloud-api/src/memory-store.ts that grant and revoke access. A time is the
-- number of milliseconds of a canonical ISO text, so that the order of texts is the order of numbers
-- and every `Number.isFinite` test of a stored time passes. A fresh `randomUUID` and the clock are
-- arguments.
pub mod Access
pub mod Plans
pub mod Resolution
pub mod Sales
pub mod Revocation
mod Examples
use Prim.Native.String.{◌++◌ as ◌<>◌}
use longhub_platform.Common.{
  ℕ, String, Bool, true, false, ◌&&◌, ◌||◌, not, Option, none, some, List, [], ◌∷◌, ltb, leb, ◌=s◌,
  if◌then◌else◌, any, select, sort_by, head?, Result, ok, err, or_else, is_some, prefer,
}
use longhub_platform.Common.Keyed
use longhub_platform.Common.Keyed.{Keyed, values}

pub data PlanStatus : Type 0 where
  listed unlisted : PlanStatus

pub data Period : Type 0 where
  monthly yearly : Period

pub data SubscriptionStatus : Type 0 where
  active cancelled expired refunded suspended : SubscriptionStatus

pub data EntitlementStatus : Type 0 where
  active suspended revoked : EntitlementStatus

pub record Plan : Type 0 where
  pub plan_id : String
  pub name : String
  pub description : String
  pub skill_ids : List String
  pub price_monthly_fen : ℕ
  pub price_yearly_fen : ℕ
  pub included_calls : ℕ
  pub requests_per_minute : ℕ
  pub max_concurrency : ℕ
  pub status : PlanStatus
  pub created_at : ℕ

pub record Subscription : Type 0 where
  pub subscription_id : String
  pub user_id : String
  pub tenant_id : String
  pub plan_id : String
  pub status : SubscriptionStatus
  pub period : Period
  pub starts_at : ℕ
  pub expires_at : ℕ
  pub cancelled_at : Option ℕ
  pub refunded_at : Option ℕ
  pub source_order_id : String
  pub created_at : ℕ

pub record Entitlement : Type 0 where
  pub entitlement_id : String
  pub subscription_id : String
  pub tenant_id : String
  pub user_id : String
  pub skill_id : String
  pub plan_id : String
  pub status : EntitlementStatus
  pub expires_at : ℕ
  pub created_at : ℕ

-- An entitlement with the subscription and the plan that carry it.
pub record Grant : Type 0 where
  pub entitlement : Entitlement
  pub subscription : Subscription
  pub plan : Plan

-- The fields of `MemoryStore` for plans, subscriptions and entitlements.
pub record SkillStore : Type 0 where
  pub plans : Keyed Plan
  pub subscriptions : Keyed Subscription
  pub subscriptions_by_order : Keyed String
  pub entitlements : Keyed Entitlement

pub data SkillError : Type 0 where
  plan_not_found order_conflict invalid_subscription : SkillError
  subscription_not_found plan_mismatch skill_not_in_plan scope_mismatch : SkillError

abbrev pub is_active : SubscriptionStatus → Bool
is_active SubscriptionStatus.active = true
is_active _ = false

abbrev pub is_granted : EntitlementStatus → Bool
is_granted EntitlementStatus.active = true
is_granted _ = false

abbrev pub is_revoked : EntitlementStatus → Bool
is_revoked EntitlementStatus.revoked = true
is_revoked _ = false

-- `Array.prototype.includes` on texts.
abbrev pub includes : String → List String → Bool
includes x = any (λ y. y =s x)

pub record SubscriptionParams : Type 0 where
  pub user_id : String
  pub tenant_id : String
  pub plan_id : String
  pub period : Period
  pub starts_at : ℕ
  pub expires_at : ℕ
  pub source_order_id : String
  pub status : Option SubscriptionStatus

abbrev pub new_subscription : String → ℕ → SubscriptionParams → Plan → Subscription
new_subscription uuid now p plan = record {
  subscription_id = "csub-" <> uuid;
  user_id = p.user_id;
  tenant_id = p.tenant_id;
  plan_id = plan.plan_id;
  status = or_else p.status SubscriptionStatus.active;
  period = p.period;
  starts_at = p.starts_at;
  expires_at = p.expires_at;
  cancelled_at = none;
  refunded_at = none;
  source_order_id = p.source_order_id;
  created_at = now;
}

-- The rest of `createCloudSkillSubscription` where the order has no subscription yet.
unfoldable pub add_subscription :
    SkillStore
    → String
    → ℕ
    → SubscriptionParams
    → Plan
    → SkillStore × Result SkillError (Subscription × Bool)
add_subscription s uuid now p plan =
    let sub = new_subscription uuid now p plan in
    if (p.tenant_id =s "") || ((p.user_id =s "") || leb p.expires_at p.starts_at)
    then (s, err invalid_subscription)
    else (
      record s {
        subscriptions = Keyed.set sub.subscription_id sub s.subscriptions;
        subscriptions_by_order =
            Keyed.set sub.source_order_id sub.subscription_id s.subscriptions_by_order;
      },
      ok (sub, false),
    )

-- `createCloudSkillSubscription`. An index entry always leads to a subscription, since both are
-- written together and neither is deleted; the `!` of the source rests on that, and the branch for
-- a missing one is the error that reading a field of `undefined` would throw.
unfoldable pub create_subscription :
    SkillStore
    → String
    → ℕ
    → SubscriptionParams
    → SkillStore × Result SkillError (Subscription × Bool)
unfolding add_subscription
create_subscription s uuid now p = elim (Keyed.get p.plan_id s.plans) [
  | none ↦ (s, err plan_not_found)
  | some plan ↦ elim (Keyed.get p.source_order_id s.subscriptions_by_order) [
    | none ↦ add_subscription s uuid now p plan
    | some id ↦
        if id =s ""
        then add_subscription s uuid now p plan
        else elim (Keyed.get id s.subscriptions) [
          | none ↦ (s, err subscription_not_found)
          | some existing ↦
              if not (existing.plan_id =s p.plan_id) || not (existing.user_id =s p.user_id)
              then (s, err order_conflict)
              else (s, ok (existing, true))
        ]
  ]
]

abbrev pub stamp_status : SubscriptionStatus → ℕ → Subscription → Subscription
stamp_status SubscriptionStatus.cancelled at sub = record sub {
  status = SubscriptionStatus.cancelled;
  cancelled_at = some at;
}
stamp_status SubscriptionStatus.refunded at sub = record sub {
  status = SubscriptionStatus.refunded;
  refunded_at = some at;
}
stamp_status status at sub = record sub { status = status }

abbrev pub revoke_of : String → Entitlement → Entitlement
revoke_of id e =
    if (e.subscription_id =s id) && is_granted e.status
    then record e { status = EntitlementStatus.revoked }
    else e

unfoldable pub update_subscription_status :
    SkillStore → String → SubscriptionStatus → ℕ → SkillStore × Option Subscription
update_subscription_status s id status at = elim (Keyed.get id s.subscriptions) [
  | none ↦ (s, none)
  | some sub ↦
      let sub' = stamp_status status at sub in
      (
        record s {
          subscriptions = Keyed.set id sub' s.subscriptions;
          entitlements =
              if is_active status
              then s.entitlements
              else Keyed.update_all (revoke_of sub.subscription_id) s.entitlements;
        },
        some sub',
      )
]

pub record EntitlementParams : Type 0 where
  pub subscription_id : String
  pub tenant_id : Option String
  pub user_id : Option String
  pub skill_id : String
  pub plan_id : String
  pub expires_at : Option ℕ

abbrev pub granted_status : SubscriptionStatus → EntitlementStatus
granted_status SubscriptionStatus.active = EntitlementStatus.active
granted_status _ = EntitlementStatus.revoked

abbrev pub regrant : Entitlement → EntitlementParams → Subscription → Entitlement
regrant e p sub = record e {
  status =
      if is_revoked e.status && is_active sub.status then EntitlementStatus.active else e.status;
  expires_at = or_else p.expires_at sub.expires_at;
}

-- The first entitlement of the subscription for the Skill and the plan.
abbrev pub find_entitlement :
    EntitlementParams → Subscription → List Entitlement → Option Entitlement
find_entitlement p sub es = head? (
    select
      (λ e.
        (e.subscription_id =s sub.subscription_id)
        && ((e.skill_id =s p.skill_id) && (e.plan_id =s p.plan_id)))
      es)

-- The rest of `grantCloudSkillEntitlement` once its checks have passed.
unfoldable pub put_entitlement :
    SkillStore
    → String
    → ℕ
    → EntitlementParams
    → Subscription
    → SkillStore × Result SkillError (Entitlement × Bool)
put_entitlement s uuid now p sub = elim (find_entitlement p sub (values s.entitlements)) [
  | some e ↦
      let e' = regrant e p sub in
      (record s { entitlements = Keyed.set e.entitlement_id e' s.entitlements }, ok (e', true))
  | none ↦
      let e : Entitlement = record {
        entitlement_id = "csent-" <> uuid;
        subscription_id = sub.subscription_id;
        tenant_id = or_else p.tenant_id sub.tenant_id;
        user_id = or_else p.user_id sub.user_id;
        skill_id = p.skill_id;
        plan_id = p.plan_id;
        status = granted_status sub.status;
        expires_at = or_else p.expires_at sub.expires_at;
        created_at = now;
      } in
      (record s { entitlements = Keyed.set e.entitlement_id e s.entitlements }, ok (e, false))
]

abbrev pub plan_has_skill : String → Option Plan → Bool
plan_has_skill skill none = false
plan_has_skill skill (some plan) = includes skill plan.skill_ids

unfoldable pub grant_entitlement :
    SkillStore
    → String
    → ℕ
    → EntitlementParams
    → SkillStore × Result SkillError (Entitlement × Bool)
unfolding put_entitlement
grant_entitlement s uuid now p = elim (Keyed.get p.subscription_id s.subscriptions) [
  | none ↦ (s, err subscription_not_found)
  | some sub ↦
      if not (sub.plan_id =s p.plan_id)
      then (s, err plan_mismatch)
      else if not (plan_has_skill p.skill_id (Keyed.get p.plan_id s.plans))
      then (s, err skill_not_in_plan)
      else if not (or_else p.tenant_id sub.tenant_id =s sub.tenant_id)
          || not (or_else p.user_id sub.user_id =s sub.user_id)
      then (s, err scope_mismatch)
      else put_entitlement s uuid now p sub
]

unfoldable pub revoke_entitlement : SkillStore → String → SkillStore × Option Entitlement
revoke_entitlement s id = elim (Keyed.get id s.entitlements) [
  | none ↦ (s, none)
  | some e ↦
      let e' = record e { status = EntitlementStatus.revoked } in
      (record s { entitlements = Keyed.set id e' s.entitlements }, some e')
]
