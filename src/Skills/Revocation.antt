-- ===== src/Skills/Revocation.antt =====
-- What ends access, and what cannot bring it back: `updateCloudSkillSubscriptionStatus`,
-- `grantCloudSkillEntitlement` and `revokeCloudSkillEntitlement` of
-- apps/longhub-cloud-api/src/memory-store.ts against later calls.
use Prim.Native.String.{◌++◌ as ◌<>◌}
use longhub_platform.Common.{
  ℕ, String, Bool, true, false, some, List, [], ◌∷◌, ◌≡◌, refl, ◌∙◌, sym, ap, ◌≢◌, inl, inr, arith,
  All, Bool-cases, Option-cases, or_else, ◌=s◌, not, ◌||◌,
}
use longhub_platform.Common.Keyed
use longhub_platform.Skills.{
  SkillStore, Subscription, SubscriptionStatus, SubscriptionParams, EntitlementParams, Plan, Grant,
  is_active, create_subscription, update_subscription_status, grant_entitlement, revoke_entitlement,
  add_subscription, new_subscription, stamp_status,
}
use longhub_platform.Skills.Resolution.{AccessQuery, query_value, allowed_plans, resolve_access}
use longhub_platform.Skills.Access.{IsGrounded, access_sound}

-- The calls that write subscriptions and entitlements, with their fresh identifiers and clocks.
pub data Call : Type 0 where
  subscribe : String → ℕ → SubscriptionParams → Call
  set_status : String → SubscriptionStatus → ℕ → Call
  grant : String → ℕ → EntitlementParams → Call
  revoke : String → Call

unfoldable pub step : SkillStore → Call → SkillStore
step s (subscribe uuid now p) = (create_subscription s uuid now p).0
step s (set_status id status at) = (update_subscription_status s id status at).0
step s (grant uuid now p) = (grant_entitlement s uuid now p).0
step s (revoke id) = (revoke_entitlement s id).0

unfoldable pub run : SkillStore → List Call → SkillStore
run s [] = s
run s (c ∷ cs) = run (step s c) cs

-- Does a call leave the subscription alone, or keep it inactive?
abbrev pub keeps_ended : String → Call → Bool
keeps_ended id (subscribe uuid now p) = not (("csub-" <> uuid) =s id)
keeps_ended id (set_status id' status at) = not (id' =s id) || not (is_active status)
keeps_ended id _ = true

-- The subscription stands in the store and is not active.
abbrev pub Ended : String → SkillStore → Type 0
Ended id s =
    (sub : Subscription) × (Keyed.get id s.subscriptions ≡ some sub)
    × (is_active sub.status ≡ false)

add_elsewhere :
    (s : SkillStore) (uuid : String) (now : ℕ) (p : SubscriptionParams) (plan : Plan) (id : String)
    → (("csub-" <> uuid) =s id) ≡ false
    → Keyed.get id (add_subscription s uuid now p plan).0.subscriptions
      ≡ Keyed.get id s.subscriptions
unfolding add_subscription
add_elsewhere s uuid now p plan id h =
    ground
      (arith, Keyed.get-set ("csub-" <> uuid) id (new_subscription uuid now p plan) s.subscriptions)

subscribe_elsewhere :
    (s : SkillStore) (uuid : String) (now : ℕ) (p : SubscriptionParams) (id : String)
    → (("csub-" <> uuid) =s id) ≡ false
    → Keyed.get id (create_subscription s uuid now p).0.subscriptions ≡ Keyed.get id s.subscriptions
unfolding create_subscription
subscribe_elsewhere s uuid now p id h = elim (Option-cases (Keyed.get p.plan_id s.plans)) [
  | inl e ↦ rw (e, create_subscription)
  | inr (plan, e) ↦
      let added = add_elsewhere s uuid now p plan id h in
      rw (e, create_subscription)
        (elim (Option-cases (Keyed.get p.source_order_id s.subscriptions_by_order)) [
          | inl e' ↦ rw e' added
          | inr (old, e') ↦ rw e' (ground (arith, added))
        ])
]

grant-subscriptions :
    (s : SkillStore) (uuid : String) (now : ℕ) (p : EntitlementParams)
    → (grant_entitlement s uuid now p).0.subscriptions ≡ s.subscriptions
unfolding grant_entitlement
grant-subscriptions s uuid now p = ground arith

revoke-subscriptions :
    (s : SkillStore) (id : String) → (revoke_entitlement s id).0.subscriptions ≡ s.subscriptions
unfolding revoke_entitlement
revoke-subscriptions s id = ground arith

stamp-status :
    (status : SubscriptionStatus) (at : ℕ) (sub : Subscription)
    → (stamp_status status at sub).status ≡ status
stamp-status SubscriptionStatus.cancelled at sub = refl
stamp-status SubscriptionStatus.refunded at sub = refl
stamp-status SubscriptionStatus.active at sub = refl
stamp-status SubscriptionStatus.expired at sub = refl
stamp-status SubscriptionStatus.suspended at sub = refl

set_status-Ended :
    (s : SkillStore) (id : String) (sub : Subscription) (status : SubscriptionStatus) (at : ℕ)
    → Keyed.get id s.subscriptions ≡ some sub
    → is_active status ≡ false
    → Ended id (update_subscription_status s id status at).0
unfolding update_subscription_status
set_status-Ended s id sub status at found over =
    rw (found, update_subscription_status)
      (
        stamp_status status at sub,
        Keyed.get-set_self id (stamp_status status at sub) s.subscriptions,
        rw (stamp-status status at sub) over,
      )

set_status_elsewhere :
    (s : SkillStore) (id' : String) (status : SubscriptionStatus) (at : ℕ) (id : String)
    → Ended id s
    → keeps_ended id (set_status id' status at) ≡ true
    → Ended id (update_subscription_status s id' status at).0
unfolding update_subscription_status
set_status_elsewhere s id' status at id (sub, found, over) k = elim (Bool-cases (id' =s id)) [
  | inl same ↦
      let e : id' ≡ id = ground arith in
      rw e (set_status-Ended s id sub status at found (ground arith))
  | inr other ↦ elim (Option-cases (Keyed.get id' s.subscriptions)) [
    | inl none_there ↦ rw (none_there, update_subscription_status) (sub, found, over)
    | inr (old, there) ↦
        rw (there, update_subscription_status)
          (
            sub,
            ground
                (arith, Keyed.get-set id' id (stamp_status status at old) s.subscriptions, found),
            over,
          )
  ]
]

step-Ended :
    (id : String) (s : SkillStore) (c : Call)
    → keeps_ended id c ≡ true
    → Ended id s
    → Ended id (step s c)
unfolding step
step-Ended id s (subscribe uuid now p) k (sub, found, over) =
    (sub, subscribe_elsewhere s uuid now p id (ground arith) ∙ found, over)
step-Ended id s (set_status id' status at) k h = set_status_elsewhere s id' status at id h k
step-Ended id s (grant uuid now p) k (sub, found, over) =
    (sub, rw (grant-subscriptions s uuid now p) found, over)
step-Ended id s (revoke e) k (sub, found, over) = (sub, rw (revoke-subscriptions s e) found, over)

pub run-Ended :
    (id : String) (s : SkillStore) (cs : List Call)
    → All (λ c. keeps_ended id c ≡ true) cs
    → Ended id s
    → Ended id (run s cs)
unfolding run
run-Ended id s [] k h = h
run-Ended id s (c ∷ cs) k h = run-Ended id (step s c) cs k.1 (step-Ended id s c k.0 h)

-- No grant rests on a subscription that is not active.
pub Ended-grant :
    (s : SkillStore) (id : String) (clock : ℕ) (q : AccessQuery) (user tenant skill : String)
    (g : Grant)
    → Ended id s
    → query_value q.user_id q.user_id_camel ≡ some user
    → query_value q.tenant_id q.tenant_id_camel ≡ some tenant
    → query_value q.skill_id q.skill_id_camel ≡ some skill
    → resolve_access s clock q ≡ some g
    → g.entitlement.subscription_id ≢ id
Ended-grant s id clock q user tenant skill g (sub, found, over) hu ht hs h same =
    let sound : IsGrounded s user tenant skill (allowed_plans q) (or_else q.now clock) g =
      access_sound s clock q user tenant skill g hu ht hs h in
    let both : some g.subscription ≡ some sub =
      sym sound.subscribed ∙ ap (λ (k : String). Keyed.get k s.subscriptions) same ∙ found in
    cc (sound.active)

-- A subscription that is cancelled, expired, refunded or suspended gives no access, whatever is
-- granted, revoked or subscribed afterwards, until its own status is set to active again or a new
-- subscription takes its identifier: no grant that the store then gives rests on it.
pub ended_no_access :
    (s : SkillStore) (id : String) (sub : Subscription) (status : SubscriptionStatus) (at : ℕ)
    (cs : List Call) (clock : ℕ) (q : AccessQuery) (user tenant skill : String) (g : Grant)
    → Keyed.get id s.subscriptions ≡ some sub
    → is_active status ≡ false
    → All (λ c. keeps_ended id c ≡ true) cs
    → query_value q.user_id q.user_id_camel ≡ some user
    → query_value q.tenant_id q.tenant_id_camel ≡ some tenant
    → query_value q.skill_id q.skill_id_camel ≡ some skill
    → resolve_access (run (update_subscription_status s id status at).0 cs) clock q ≡ some g
    → g.entitlement.subscription_id ≢ id
ended_no_access s id sub status at cs clock q user tenant skill g found over k hu ht hs h =
    let s0 = (update_subscription_status s id status at).0 in
    Ended-grant (run s0 cs) id clock q user tenant skill g
      (run-Ended id s0 cs k (set_status-Ended s id sub status at found over)) hu ht hs h
