-- ===== src/Billing/Fulfilment.antt =====
-- What a settlement of a cloud Skill order means for access: `settleOrderPayment` and
-- `settleOrderRefund` with `resolveCloudSkillAccess` of
-- apps/longhub-cloud-api/src/memory-store.ts.
use longhub_platform.Common.{
  ℕ, ◌≤◌, ◌<◌, String, Bool, true, false, Option, none, some, List, ◌≡◌, ◌≢◌, sym, ap, ◌∙◌, arith,
  All, or_else, ok,
}
use longhub_platform.Common.Keyed
use longhub_platform.Common.Keyed.{Keyed, values}
use longhub_platform.Orders.{Order, cloud_skill_plan}
use longhub_platform.Skills.{Subscription, Plan, Grant, is_active, includes}
use longhub_platform.Skills.Resolution.{
  AccessQuery, allows, query_value, allowed_plans, resolve_access,
}
use longhub_platform.Skills.Revocation.{Call, run, run-Ended, Ended, Ended-grant, keeps_ended}
use longhub_platform.Billing.{BillingStore, BillingResult, Fresh, PaymentParams, RefundParams}
use longhub_platform.Billing.Payment.{settle_payment, commit_payment, staged_payment}
use longhub_platform.Billing.Payment.Staging.{
  Delivery, deliver, deliver_skills, stage_subscription, subscription_of,
}
use longhub_platform.Billing.Refund.{settle_refund, withdraw, withdraw_pack, withdraw_skills}
use longhub_platform.Billing.Delivery.{IsFirst, deliver-first, first_delivery-access}
use longhub_platform.Billing.Reversal.{made_payment, made_refund}

-- The subscription that a refund stages is not active.
withdraw-inactive :
    (s : BillingStore) (o : Order) (at : ℕ) (d : Delivery) (b : Subscription)
    → withdraw s o at ≡ ok d
    → d.subscription ≡ some b
    → is_active b.status ≡ false
unfolding withdraw_pack withdraw_skills
withdraw-inactive s o at d b h e = ground arith

-- A refund ends access: after a refund that goes through and was not found made before, the
-- subscription in its result gives no access, whatever is granted, revoked or subscribed afterwards,
-- until its status is set to active again or a new subscription takes its identifier: no grant that
-- the store then gives rests on it.
pub refund_ends_access :
    (s : BillingStore) (f : Fresh) (p : RefundParams) (r : BillingResult) (b : Subscription)
    (cs : List Call) (clock : ℕ) (q : AccessQuery) (user tenant skill : String) (g : Grant)
    → (settle_refund s f p).1 ≡ ok r
    → r.replayed ≡ false
    → r.subscription ≡ some b
    → All (λ c. keeps_ended b.subscription_id c ≡ true) cs
    → query_value q.user_id q.user_id_camel ≡ some user
    → query_value q.tenant_id q.tenant_id_camel ≡ some tenant
    → query_value q.skill_id q.skill_id_camel ≡ some skill
    → resolve_access (run (settle_refund s f p).0.skills cs) clock q ≡ some g
    → g.entitlement.subscription_id ≢ b.subscription_id
refund_ends_access s f p r b cs clock q user tenant skill g done new staged k hu ht hs h =
    let (y, d, _, withdrew, wrote, rows) = made_refund s f p r done new in
    let has : d.subscription ≡ some b =
      sym (ap (λ (x : BillingResult). x.subscription) rows) ∙ staged in
    let s1 = (settle_refund s f p).0.skills in
    let ended : Ended b.subscription_id s1 = (
      b,
      rw (wrote, has) (Keyed.get-set_self b.subscription_id b s.skills.subscriptions),
      withdraw-inactive s y.order y.refunded_at d b withdrew has,
    ) in
    Ended-grant (run s1 cs) b.subscription_id clock q user tenant skill g
      (run-Ended b.subscription_id s1 cs k ended) hu ht hs h

abbrev starts_or_zero : Option Subscription → ℕ
starts_or_zero none = 0
starts_or_zero (some b) = b.starts_at

abbrev expires_or_zero : Option Subscription → ℕ
expires_or_zero none = 0
expires_or_zero (some b) = b.expires_at

-- A payment gives access: after the first payment of a cloud Skill order goes through, every query
-- for a Skill of the bought plan, by the buyer in the order's tenant, at a time in the paid period
-- and with the plan among those it allows, is granted. The plan stands under its own name.
pub payment_gives_access :
    (follows : String → String → Bool) (s : BillingStore) (f : Fresh) (p : PaymentParams)
    (r : BillingResult) (o : Order) (id tenant skill : String) (plan : Plan) (b : Subscription)
    (clock : ℕ) (q : AccessQuery)
    → IsFirst s f o.order_id
    → (settle_payment follows s f p).1 ≡ ok r
    → r.replayed ≡ false
    → r.subscription ≡ some b
    → Keyed.get p.order_id s.shop.orders ≡ some o
    → o.type ≡ cloud_skill_plan
    → o.plan_id ≡ some id
    → o.tenant_id ≡ some tenant
    → Keyed.get id s.skills.plans ≡ some plan
    → plan.plan_id ≡ id
    → includes skill plan.skill_ids ≡ true
    → query_value q.user_id q.user_id_camel ≡ some o.user_id
    → query_value q.tenant_id q.tenant_id_camel ≡ some tenant
    → query_value q.skill_id q.skill_id_camel ≡ some skill
    → b.starts_at ≤ or_else q.now clock
    → or_else q.now clock < b.expires_at
    → allows (allowed_plans q) id ≡ true
    → (g : Grant) × (resolve_access (settle_payment follows s f p).0.skills clock q ≡ some g)
payment_gives_access follows s f p r o id tenant skill plan b clock q first done new staged ordered
      type planned housed offered named offers hu ht hs begun running allowed =
    let (y, after, d, h, _, delivered, wrote, rows) = made_payment follows s f p r done new in
    let row : some y.order ≡ some o = sym h.ordered ∙ ordered in
    let row : y.order ≡ o = cc row in
    let kind : y.order.type ≡ cloud_skill_plan = ap (λ (x : Order). x.type) row ∙ type in
    let by_type : deliver_skills s f y ≡ ok d = rw (kind, deliver) at delivered in
    let (period, made) =
      deliver-first s f y d id tenant plan
        (ap (λ (x : Order). subscription_of s.skills x.order_id) row ∙ first.unsubscribed) by_type
        (ap (λ (x : Order). x.plan_id) row ∙ planned) (ap (λ (x : Order). x.tenant_id) row ∙ housed)
        offered in
    let b0 = stage_subscription f y id tenant period none in
    let same : some b0 ≡ some b =
      sym (ap (λ (x : Delivery). x.subscription) made)
      ∙ sym (ap (λ (x : BillingResult). x.subscription) rows)
      ∙ staged in
    let begun' : b0.starts_at ≤ or_else q.now clock = rw (ap starts_or_zero same) begun in
    let running' : or_else q.now clock < b0.expires_at = rw (ap expires_or_zero same) running in
    let (g, found) =
      first_delivery-access s f p y after id tenant period plan skill clock q (rw row first) offered
        named offers (hu ∙ ap (λ (x : Order). some x.user_id) (sym row)) ht hs begun' running'
        allowed in
    (
      g,
      ap (λ (t : BillingStore). resolve_access t.skills clock q) wrote
          ∙ ap
              (λ (x : Delivery).
                resolve_access (commit_payment s (staged_payment f p y after x)).skills clock q)
              made
          ∙ found,
    )
