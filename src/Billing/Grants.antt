-- ===== src/Billing/Grants.antt =====
-- The entitlements that a payment of `MemoryStore` in
-- apps/longhub-cloud-api/src/memory-store.ts writes for the Skills of a plan.
use Prim.Native.String.{◌++◌ as ◌<>◌}
use mathlib.Core.List.{Memᴰ}
use text.Mathlib.TextLemmas.{append_cancel_left}
use longhub_platform.Common.{
  ℕ, suc, ◌≤◌, ◌<◌, String, true, false, none, some, List, [], ◌∷◌, ◌≡◌, ◌≢◌, refl, ◌∙◌, inl, inr,
  arith, ◌=s◌, All, Bool-cases, or_else, head?, select, sort_by, insert_by, ◌||◌, text_le, =s_refl,
}
use longhub_platform.Common.Keyed
use longhub_platform.Common.Keyed.{Keyed, values}
use longhub_platform.Orders.{Order}
use longhub_platform.Skills.{
  SkillStore, Subscription, Entitlement, EntitlementStatus, Plan, Grant, is_active, includes,
}
use longhub_platform.Skills.Resolution.{
  AccessQuery, is_candidate, grant_of, allows, query_value, allowed_plans, resolve_access,
}
use longhub_platform.Skills.Access.{access_complete}
use longhub_platform.Billing.{Fresh, set_grants}
use longhub_platform.Billing.Payment.Staging.{stage_grant, stage_grants, is_grant_of}

includes-insert_by :
    (k x : String) (xs : List String)
    → includes k (insert_by text_le x xs) ≡ ((x =s k) || includes k xs)
unfolding insert_by
includes-insert_by k x [] = refl
includes-insert_by k x (y ∷ ys) = ground (arith, includes-insert_by k x ys)

pub includes-sort_by :
    (k : String) (xs : List String) → includes k (sort_by text_le xs) ≡ includes k xs
unfolding sort_by
includes-sort_by k [] = refl
includes-sort_by k (x ∷ xs) =
    ground (arith, includes-insert_by k x (sort_by text_le xs), includes-sort_by k xs)

-- No stored entitlement belongs to a subscription.
abbrev pub NoneOf : String → List Entitlement → Type 0
NoneOf sub = All (λ (e : Entitlement). (e.subscription_id =s sub) ≡ false)

none_found :
    (sub id skill : String) (es : List Entitlement)
    → NoneOf sub es
    → head? (select (is_grant_of sub id skill) es) ≡ none
none_found sub id skill [] t = refl
none_found sub id skill (e ∷ es) t = ground (arith, none_found sub id skill es t.1)

module _ (s : SkillStore) (f : Fresh) (o : Order) (b : Subscription) (tenant : String)
    (plan : Plan) where
  -- The identifier of the nth entitlement, and the entitlement where none is there yet.
  abbrev pub grant_id : ℕ → String
  grant_id n = "csent-" <> f.entitlement n

  abbrev pub new_grant : ℕ → String → Entitlement
  new_grant n skill = record {
    entitlement_id = grant_id n;
    subscription_id = b.subscription_id;
    tenant_id = tenant;
    user_id = o.user_id;
    skill_id = skill;
    plan_id = plan.plan_id;
    status = EntitlementStatus.active;
    expires_at = b.expires_at;
    created_at = f.created_at;
  }

  staged_new :
      (n : ℕ) (skill : String)
      → NoneOf b.subscription_id (values s.entitlements)
      → stage_grant s f o b tenant plan n skill ≡ new_grant n skill
  staged_new n skill t =
      rw (none_found b.subscription_id plan.plan_id skill (values s.entitlements) t, stage_grant)
        refl

  -- The later entitlements leave an earlier one.
  later_grants :
      (n : ℕ) (ks : List String) (key : String) (m : Keyed Entitlement)
      → NoneOf b.subscription_id (values s.entitlements)
      → ((i : ℕ) → n ≤ i → grant_id i ≢ key)
      → Keyed.get key (set_grants (stage_grants s f o b tenant plan n ks) m) ≡ Keyed.get key m
  later_grants n [] key m t h = refl
  later_grants n (k ∷ ks) key m t h = rw (staged_new n k t) (
      later_grants (suc n) ks key (Keyed.set (grant_id n) (new_grant n k) m) t
        (λ i l. h i (omega arith))
      ∙ Keyed.get-set_ne (grant_id n) key (new_grant n k) m (h n (omega arith)))

  -- Each Skill of the list has its entitlement in the end.
  pub grants_hold :
      (n : ℕ) (ks : List String) (skill : String) (m : Keyed Entitlement)
      → NoneOf b.subscription_id (values s.entitlements)
      → ((i j : ℕ) → f.entitlement i ≡ f.entitlement j → i ≡ j)
      → includes skill ks ≡ true
      → (i : ℕ) × (Keyed.get (grant_id i) (set_grants (stage_grants s f o b tenant plan n ks) m)
          ≡ some (new_grant i skill))
  grants_hold n [] skill m t inj h = absurd (cc h)
  grants_hold n (k ∷ ks) skill m t inj h = elim (Bool-cases (k =s skill)) [
    | inl same ↦
        let e : k ≡ skill = ground arith in
        (
          n,
          rw (staged_new n k t, e)
              (later_grants (suc n) ks (grant_id n) (Keyed.set (grant_id n) (new_grant n skill) m) t
                  (λ i l e'. omega (arith, inj i n (append_cancel_left "csent-" _ _ e')))
                ∙ Keyed.get-set_self (grant_id n) (new_grant n skill) m),
        )
    | inr other ↦ rw (staged_new n k t) (
        grants_hold (suc n) ks skill (Keyed.set (grant_id n) (new_grant n k) m) t inj
          (rw other at h))
  ]

  -- Such an entitlement, with its subscription and its plan, carries access.
  pub granted :
      (t : SkillStore) (i : ℕ) (skill : String) (clock : ℕ) (q : AccessQuery)
      → Memᴰ (new_grant i skill) (values t.entitlements)
      → Keyed.get b.subscription_id t.subscriptions ≡ some b
      → Keyed.get plan.plan_id t.plans ≡ some plan
      → b.plan_id ≡ plan.plan_id
      → b.user_id ≡ o.user_id
      → b.tenant_id ≡ tenant
      → is_active b.status ≡ true
      → includes skill plan.skill_ids ≡ true
      → query_value q.user_id q.user_id_camel ≡ some o.user_id
      → query_value q.tenant_id q.tenant_id_camel ≡ some tenant
      → query_value q.skill_id q.skill_id_camel ≡ some skill
      → b.starts_at ≤ or_else q.now clock
      → or_else q.now clock < b.expires_at
      → allows (allowed_plans q) plan.plan_id ≡ true
      → (g : Grant) × (resolve_access t clock q ≡ some g)
  unfolding grant_of
  granted t i skill clock q held subscribed planned same_plan same_user same_tenant active offered
        hu ht hs begun running allowed =
      let now = or_else q.now clock in
      let e = new_grant i skill in
      let g : Grant = record { entitlement = e; subscription = b; plan = plan } in
      let fits : is_candidate o.user_id tenant skill (allowed_plans q) now e ≡ true =
        ground (arith, =s_refl o.user_id, =s_refl tenant, =s_refl skill) in
      let carried : grant_of t o.user_id tenant skill now e ≡ some g =
        rw (subscribed, grant_of) (rw planned (ground arith)) in
      let (g', found, _) =
        access_complete t clock q o.user_id tenant skill e g hu ht hs held fits carried in
      (g', found)
