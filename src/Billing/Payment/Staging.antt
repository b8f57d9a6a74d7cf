-- ===== src/Billing/Payment/Staging.antt =====
-- What an order that is paid delivers: the entitlements of a Pack, or the subscription of a plan with
-- its entitlements, in `settleOrderPayment` of apps/longhub-cloud-api/src/memory-store.ts.
use Prim.Native.String.{◌++◌ as ◌<>◌}
use longhub_platform.Common.{
  ℕ, suc, String, Bool, true, false, ◌&&◌, not, Option, none, some, List, [], ◌∷◌, ◌=s◌, Result, ok,
  same_option, select, head?, sort_by, filled, text_le,
}
use longhub_platform.Common.Results.{◌>>=◌, ◌>>◌, guard, require}
use longhub_platform.Common.Keyed
use longhub_platform.Common.Keyed.{Keyed, values}
use longhub_platform.Orders.{Order, plan, cloud_skill_plan, recharge}
use longhub_platform.Devices.{Device, is_in_use}
use longhub_platform.Skills.{
  Plan, SkillStore, Subscription, SubscriptionStatus, Entitlement, EntitlementStatus, Period,
}
use longhub_platform.Billing.{
  PackEntitlement, Scope, BillingReason, BillingStore, Fresh, fulfillment_invalid, period_expiry,
}
use longhub_platform.Billing.Payment.Checks.{Payable}

-- What the order delivers.
pub record Delivery : Type 0 where
  pub packs : List PackEntitlement
  pub subscription : Option Subscription
  pub grants : List Entitlement

abbrev pub nothing : Delivery
nothing = record { packs = []; subscription = none; grants = [] }

abbrev pub is_pack_of : String → String → String → PackEntitlement → Bool
is_pack_of order device pack e =
    same_option e.source_order_id (some order) && (e.device_id =s device && e.pack_id =s pack)

abbrev pub stage_pack : BillingStore → Fresh → String → String → ℕ → ℕ → Device → PackEntitlement
stage_pack s f order pack expires n d =
    elim (head? (select (is_pack_of order d.device_id pack) (values s.packs))) [
      | some e ↦ record e {
        tenant_id = d.tenant_id;
        scope = Scope.user;
        status = EntitlementStatus.active;
        expires_at = expires;
      }
      | none ↦ record {
        entitlement_id = "ent-" <> f.entitlement n;
        tenant_id = d.tenant_id;
        device_id = d.device_id;
        pack_id = pack;
        scope = Scope.user;
        status = EntitlementStatus.active;
        expires_at = expires;
        source_activation_code_id = none;
        source_order_id = some order;
        created_at = f.created_at;
      }
    ]

abbrev pub stage_packs :
    BillingStore → Fresh → String → String → ℕ → ℕ → List Device → List PackEntitlement
stage_packs s f order pack expires n [] = []
stage_packs s f order pack expires n (d ∷ ds) =
    stage_pack s f order pack expires n d ∷ stage_packs s f order pack expires (suc n) ds

-- The account's active devices, in the order of their identifiers.
abbrev pub owned_devices : (String → String → Bool) → BillingStore → String → List Device
owned_devices follows s user =
    sort_by (λ a b. follows a.device_id b.device_id)
      (select (λ (d : Device). same_option d.user_id (some user) && is_in_use d.status)
        (values s.devices.devices))

unfoldable pub deliver_pack :
    (String → String → Bool) → BillingStore → Fresh → Payable → Result BillingReason Delivery
deliver_pack follows s f y = do
  let pack = (← require (filled y.order.pack_id) fulfillment_invalid)
  let period = (← require y.order.period fulfillment_invalid)
  let expires = period_expiry y.paid_at period
  ok (record nothing {
    packs =
        stage_packs s f y.order.order_id pack expires 0 (owned_devices follows s y.order.user_id);
  })

abbrev pub same_period : Period → Period → Bool
same_period Period.monthly Period.monthly = true
same_period Period.yearly Period.yearly = true
same_period _ _ = false

abbrev pub is_refunded : SubscriptionStatus → Bool
is_refunded SubscriptionStatus.refunded = true
is_refunded _ = false

abbrev pub subscription_of : SkillStore → String → Option Subscription
subscription_of s order = elim (filled (Keyed.get order s.subscriptions_by_order)) [
  | none ↦ none
  | some id ↦ Keyed.get id s.subscriptions
]

-- May the subscription that the order already has be renewed?
abbrev pub is_renewable : Order → String → String → Period → Option Subscription → Bool
is_renewable o id tenant period none = true
is_renewable o id tenant period (some b) =
    b.user_id =s o.user_id
    && (b.tenant_id =s tenant
        && (b.plan_id =s id && (same_period b.period period && not (is_refunded b.status))))

abbrev pub stage_subscription :
    Fresh → Payable → String → String → Period → Option Subscription → Subscription
stage_subscription f y id tenant period (some b) = record b {
  status = SubscriptionStatus.active;
  starts_at = y.paid_at;
  expires_at = period_expiry y.paid_at period;
  cancelled_at = none;
  refunded_at = none;
}
stage_subscription f y id tenant period none = record {
  subscription_id = "csub-" <> f.subscription;
  user_id = y.order.user_id;
  tenant_id = tenant;
  plan_id = id;
  status = SubscriptionStatus.active;
  period = period;
  starts_at = y.paid_at;
  expires_at = period_expiry y.paid_at period;
  cancelled_at = none;
  refunded_at = none;
  source_order_id = y.order.order_id;
  created_at = f.created_at;
}

abbrev pub is_grant_of : String → String → String → Entitlement → Bool
is_grant_of sub id skill e = e.subscription_id =s sub && (e.plan_id =s id && e.skill_id =s skill)

abbrev pub stage_grant :
    SkillStore → Fresh → Order → Subscription → String → Plan → ℕ → String → Entitlement
stage_grant s f o b tenant found n skill =
    elim (head?
      (select (is_grant_of b.subscription_id found.plan_id skill) (values s.entitlements))) [
        | some e ↦ record e {
          tenant_id = tenant;
          user_id = o.user_id;
          status = EntitlementStatus.active;
          expires_at = b.expires_at;
        }
        | none ↦ record {
          entitlement_id = "csent-" <> f.entitlement n;
          subscription_id = b.subscription_id;
          tenant_id = tenant;
          user_id = o.user_id;
          skill_id = skill;
          plan_id = found.plan_id;
          status = EntitlementStatus.active;
          expires_at = b.expires_at;
          created_at = f.created_at;
        }
      ]

abbrev pub stage_grants :
    SkillStore → Fresh → Order → Subscription → String → Plan → ℕ → List String → List Entitlement
stage_grants s f o b tenant found n [] = []
stage_grants s f o b tenant found n (k ∷ ks) =
    stage_grant s f o b tenant found n k ∷ stage_grants s f o b tenant found (suc n) ks

unfoldable pub deliver_skills : BillingStore → Fresh → Payable → Result BillingReason Delivery
deliver_skills s f y = do
  let id = (← require (filled y.order.plan_id) fulfillment_invalid)
  let tenant = (← require (filled y.order.tenant_id) fulfillment_invalid)
  let period = (← require y.order.period fulfillment_invalid)
  let found = (← require (Keyed.get id s.skills.plans) fulfillment_invalid)
  let old = subscription_of s.skills y.order.order_id
  guard (is_renewable y.order id tenant period old) fulfillment_invalid
  let b = stage_subscription f y id tenant period old
  ok (record nothing {
    subscription = some b;
    grants = stage_grants s.skills f y.order b tenant found 0 (sort_by text_le found.skill_ids);
  })

abbrev pub deliver :
    (String → String → Bool) → BillingStore → Fresh → Payable → Result BillingReason Delivery
deliver follows s f y = elim y.order.type [
  | plan ↦ deliver_pack follows s f y
  | cloud_skill_plan ↦ deliver_skills s f y
  | recharge ↦ ok nothing
]
