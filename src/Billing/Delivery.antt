-- ===== src/Billing/Delivery.antt =====
-- The delivery of a cloud Skill order by `settleOrderPayment` in
-- apps/longhub-cloud-api/src/memory-store.ts: what it reads, and the access that it carries.
use Prim.Native.String.{◌++◌ as ◌<>◌}
use longhub_platform.Common.{
  ℕ, ◌≤◌, ◌<◌, String, true, Option, none, some, ◌≡◌, refl, sym, ap, ◌∙◌, arith, or_else, sort_by,
  text_le, ok, filled,
}
use longhub_platform.Common.Results.{guard, require, bind-eq-ok, check-eq-ok, require-eq-ok, ok_inj}
use longhub_platform.Common.Keyed
use longhub_platform.Common.Keyed.{Keyed, values}
use longhub_platform.Skills.{SkillStore, Subscription, Plan, Period, Grant, includes}
use longhub_platform.Skills.Resolution.{
  AccessQuery, allows, query_value, allowed_plans, resolve_access,
}
use longhub_platform.Billing.{
  BillingStore, Fresh, PaymentParams, period_expiry, fulfillment_invalid,
}
use longhub_platform.Billing.Payment.{commit_payment, staged_payment}
use longhub_platform.Billing.Payment.Checks.{Payable}
use longhub_platform.Billing.Payment.Staging.{
  Delivery, nothing, deliver_skills, stage_grants, stage_subscription, subscription_of,
  is_renewable,
}
use longhub_platform.Billing.Grants.{NoneOf, includes-sort_by, grants_hold, granted}

-- The delivery of a cloud Skill order over the subscription that it has.
abbrev delivery_over :
    BillingStore
    → Fresh
    → Payable
    → String
    → String
    → Period
    → Plan
    → Option Subscription
    → Delivery
delivery_over s f y id tenant period plan old =
    let b = stage_subscription f y id tenant period old in
    record nothing {
      subscription = some b;
      grants = stage_grants s.skills f y.order b tenant plan 0 (sort_by text_le plan.skill_ids);
    }

-- What the delivery of a cloud Skill order has read and staged.
deliver_skills_rows :
    (s : BillingStore) (f : Fresh) (y : Payable) (d : Delivery)
    → deliver_skills s f y ≡ ok d
    → (id tenant : String) × (period : Period) × (plan : Plan) × (filled y.order.plan_id ≡ some id)
      × (filled y.order.tenant_id ≡ some tenant)
      × (Keyed.get id s.skills.plans ≡ some plan)
      × (d ≡ delivery_over s f y id tenant period plan (subscription_of s.skills y.order.order_id))
unfolding deliver_skills
deliver_skills_rows s f y d h =
    let (id, e1, h1) = bind-eq-ok (require (filled y.order.plan_id) fulfillment_invalid) _ h in
    let (tenant, e2, h2) =
      bind-eq-ok (require (filled y.order.tenant_id) fulfillment_invalid) _ h1 in
    let (period, e3, h3) = bind-eq-ok (require y.order.period fulfillment_invalid) _ h2 in
    let (plan, e4, h4) =
      bind-eq-ok (require (Keyed.get id s.skills.plans) fulfillment_invalid) _ h3 in
    let old = subscription_of s.skills y.order.order_id in
    let (e5, h5) =
      check-eq-ok (guard (is_renewable y.order id tenant period old) fulfillment_invalid) _ h4 in
    (
      id,
      tenant,
      period,
      plan,
      require-eq-ok _ _ e1,
      require-eq-ok _ _ e2,
      require-eq-ok _ _ e4,
      sym (ok_inj _ d h5),
    )

filled-eq : (o : Option String) (a b : String) → o ≡ some a → filled o ≡ some b → b ≡ a
filled-eq o a b e h = ground arith

-- The first payment of an order draws identifiers that differ, and the order has no subscription
-- and its new subscription no entitlement.
pub record IsFirst (s : BillingStore) (f : Fresh) (order : String) : Type 0 where
  pub unsubscribed : subscription_of s.skills order ≡ none
  pub unentitled : NoneOf ("csub-" <> f.subscription) (values s.skills.entitlements)
  pub distinct : (i j : ℕ) → f.entitlement i ≡ f.entitlement j → i ≡ j

-- The delivery of an order that has no subscription yet.
abbrev pub first_delivery :
    SkillStore → Fresh → Payable → String → String → Period → Plan → Delivery
first_delivery s f y id tenant period plan =
    let b = stage_subscription f y id tenant period none in
    record nothing {
      subscription = some b;
      grants = stage_grants s f y.order b tenant plan 0 (sort_by text_le plan.skill_ids);
    }

pub deliver-first :
    (s : BillingStore) (f : Fresh) (y : Payable) (d : Delivery) (id tenant : String) (plan : Plan)
    → subscription_of s.skills y.order.order_id ≡ none
    → deliver_skills s f y ≡ ok d
    → y.order.plan_id ≡ some id
    → y.order.tenant_id ≡ some tenant
    → Keyed.get id s.skills.plans ≡ some plan
    → (period : Period) × (d ≡ first_delivery s.skills f y id tenant period plan)
deliver-first s f y d id tenant plan unsubscribed h planned housed offered =
    let (id', tenant', period, plan', e1, e2, e3, made) = deliver_skills_rows s f y d h in
    let same_id : id' ≡ id = filled-eq y.order.plan_id id id' planned e1 in
    let same_tenant : tenant' ≡ tenant = filled-eq y.order.tenant_id tenant tenant' housed e2 in
    let e : some plan' ≡ some plan =
      sym e3 ∙ ap (λ (k : String). Keyed.get k s.skills.plans) same_id ∙ offered in
    let same_plan : plan' ≡ plan = cc e in
    (
      period,
      made
          ∙ ap (λ (x : Option Subscription). delivery_over s f y id' tenant' period plan' x)
              unsubscribed
          ∙ ap (λ (k : String). first_delivery s.skills f y k tenant' period plan') same_id
          ∙ ap (λ (t : String). first_delivery s.skills f y id t period plan') same_tenant
          ∙ ap (λ (x : Plan). first_delivery s.skills f y id tenant period x) same_plan,
    )

-- The skill store after the commit of such a delivery.
pub first_delivery-access :
    (s : BillingStore) (f : Fresh) (p : PaymentParams) (y : Payable) (after : ℕ)
    (id tenant : String) (period : Period) (plan : Plan) (skill : String) (clock : ℕ)
    (q : AccessQuery)
    → IsFirst s f y.order.order_id
    → Keyed.get id s.skills.plans ≡ some plan
    → plan.plan_id ≡ id
    → includes skill plan.skill_ids ≡ true
    → query_value q.user_id q.user_id_camel ≡ some y.order.user_id
    → query_value q.tenant_id q.tenant_id_camel ≡ some tenant
    → query_value q.skill_id q.skill_id_camel ≡ some skill
    → y.paid_at ≤ or_else q.now clock
    → or_else q.now clock < period_expiry y.paid_at period
    → allows (allowed_plans q) id ≡ true
    → (g : Grant) × (resolve_access
          (commit_payment s
            (staged_payment f p y after (first_delivery s.skills f y id tenant period plan))).skills
          clock
          q
        ≡ some g)
first_delivery-access s f p y after id tenant period plan skill clock q first offered named offers
      hu ht hs begun running allowed =
    let b = stage_subscription f y id tenant period none in
    let d = first_delivery s.skills f y id tenant period plan in
    let t = (commit_payment s (staged_payment f p y after d)).skills in
    let (i, there) =
      grants_hold s.skills f y.order b tenant plan 0 (sort_by text_le plan.skill_ids) skill
        s.skills.entitlements first.unentitled first.distinct
        (includes-sort_by skill plan.skill_ids ∙ offers) in
    granted s.skills f y.order b tenant plan t i skill clock q
      (Keyed.mem-values _ _ t.entitlements there)
      (Keyed.get-set_self b.subscription_id b s.skills.subscriptions)
      (ap (λ (k : String). Keyed.get k s.skills.plans) named ∙ offered) (sym named) refl refl refl
      offers hu ht hs begun running (ap (allows (allowed_plans q)) named ∙ allowed)
