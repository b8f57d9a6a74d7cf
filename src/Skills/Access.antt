-- ===== src/Skills/Access.antt =====
-- Who gets access: `resolveCloudSkillAccess` of apps/longhub-cloud-api/src/memory-store.ts.
use mathlib.Core.List.{Memᴰ}
use mathlib.Core.List.Memᴰ
use longhub_platform.Common.{
  ℕ, ◌≤◌, ◌<◌, String, true, sym, ap, Option, some, List, [], ◌∷◌, ◌≡◌, refl, ◌∙◌, inl, inr, arith,
  Option-cases, select, or_else, leb,
}
use longhub_platform.Common.Sorting.{
  mem-select, mem_of_select, mem-sort_by, mem_of_sort_by, All-mem, Ordered, Ordered-sort_by,
}
use longhub_platform.Common.Keyed
use longhub_platform.Common.Keyed.{values}
use longhub_platform.Skills.{SkillStore, Entitlement, Grant, is_active, is_granted, includes}
use longhub_platform.Skills.Resolution.{
  AccessQuery, is_candidate, allows, newest_first, grant_of, first_grant, resolve_access,
  query_value, allowed_plans,
}

-- What stands behind a grant at a time: an entitlement of the store for this user, tenant and Skill,
-- active, not run out and of a plan that is allowed; its subscription and plan under their
-- identifiers, both for this user and tenant, the subscription active and running,
-- the Skill in the plan.
pub record IsGrounded (s : SkillStore) (user tenant skill : String) (allowed : Option (List String))
    (now : ℕ) (g : Grant) : Type 0 where
  pub held : Memᴰ g.entitlement (values s.entitlements)
  pub candidate : is_candidate user tenant skill allowed now g.entitlement ≡ true
  pub for_user : g.entitlement.user_id ≡ user
  pub for_tenant : g.entitlement.tenant_id ≡ tenant
  pub for_skill : g.entitlement.skill_id ≡ skill
  pub granted : is_granted g.entitlement.status ≡ true
  pub unexpired : now < g.entitlement.expires_at
  pub allowed_plan :
      (ids : List String) → allowed ≡ some ids → includes g.entitlement.plan_id ids ≡ true
  pub subscribed : Keyed.get g.entitlement.subscription_id s.subscriptions ≡ some g.subscription
  pub planned : Keyed.get g.entitlement.plan_id s.plans ≡ some g.plan
  pub same_plan : g.subscription.plan_id ≡ g.entitlement.plan_id
  pub same_user : g.subscription.user_id ≡ user
  pub same_tenant : g.subscription.tenant_id ≡ tenant
  pub active : is_active g.subscription.status ≡ true
  pub begun : g.subscription.starts_at ≤ now
  pub running : now < g.subscription.expires_at
  pub offered : includes skill g.plan.skill_ids ≡ true

grant_of_facts :
    (s : SkillStore) (user tenant skill : String) (now : ℕ) (e : Entitlement) (g : Grant)
    → grant_of s user tenant skill now e ≡ some g
    → (g.entitlement ≡ e)
      × (Keyed.get e.subscription_id s.subscriptions ≡ some g.subscription)
      × (Keyed.get e.plan_id s.plans ≡ some g.plan)
      × (g.subscription.plan_id ≡ e.plan_id)
      × (g.subscription.user_id ≡ user)
      × (g.subscription.tenant_id ≡ tenant)
      × (is_active g.subscription.status ≡ true)
      × (g.subscription.starts_at ≤ now)
      × (now < g.subscription.expires_at)
      × (includes skill g.plan.skill_ids ≡ true)
unfolding grant_of
grant_of_facts s user tenant skill now e g h = ground (
  arith,
  Option-cases (Keyed.get e.subscription_id s.subscriptions),
  Option-cases (Keyed.get e.plan_id s.plans),
)

candidate_facts :
    (user tenant skill : String) (allowed : Option (List String)) (now : ℕ) (e : Entitlement)
    → is_candidate user tenant skill allowed now e ≡ true
    → (e.user_id ≡ user)
      × (e.tenant_id ≡ tenant)
      × (e.skill_id ≡ skill)
      × (is_granted e.status ≡ true)
      × (now < e.expires_at)
      × (allows allowed e.plan_id ≡ true)
candidate_facts user tenant skill allowed now e h = ground arith

-- A grant made from a candidate that the store holds is grounded.
grounded :
    (s : SkillStore) (user tenant skill : String) (allowed : Option (List String)) (now : ℕ)
    (e : Entitlement) (g : Grant)
    → Memᴰ e (values s.entitlements)
    → is_candidate user tenant skill allowed now e ≡ true
    → grant_of s user tenant skill now e ≡ some g
    → IsGrounded s user tenant skill allowed now g
grounded s user tenant skill allowed now e g held fits h =
    let f = grant_of_facts s user tenant skill now e g h in
    let c = candidate_facts user tenant skill allowed now e fits in
    record {
      held = Memᴰ.cast f.0 held;
      candidate = rw (f.0) fits;
      for_user = rw (f.0) c.0;
      for_tenant = rw (f.0) c.1;
      for_skill = rw (f.0) c.2;
      granted = rw (f.0) c.3;
      unexpired = rw (f.0) c.4;
      allowed_plan = λ ids some_ids. rw (f.0) (rw some_ids at c.5);
      subscribed = rw (f.0) f.1;
      planned = rw (f.0) f.2;
      same_plan = rw (f.0) f.3;
      same_user = f.4;
      same_tenant = f.5;
      active = f.6;
      begun = f.7;
      running = f.8;
      offered = f.9;
    }

first_grant_source :
    (s : SkillStore) (user tenant skill : String) (now : ℕ) (es : List Entitlement) (g : Grant)
    → first_grant s user tenant skill now es ≡ some g
    → (e : Entitlement) × Memᴰ e es × (grant_of s user tenant skill now e ≡ some g)
unfolding first_grant
first_grant_source s user tenant skill now [] g h = cc
first_grant_source s user tenant skill now (e ∷ es) g h =
    elim (Option-cases (grant_of s user tenant skill now e)) [
      | inl miss ↦
          let (e', m, h') =
            first_grant_source s user tenant skill now es g (rw (miss, first_grant) at h) in
          (e', Memᴰ.tail m, h')
      | inr (g', hit) ↦
          let same : some g' ≡ some g = rw (hit, first_grant) at h in
          (e, Memᴰ.head refl, hit ∙ same)
    ]

-- The candidates, in the order in which the loop tries them.
abbrev candidates :
    SkillStore → String → String → String → Option (List String) → ℕ → List Entitlement
candidates s user tenant skill allowed now =
    newest_first (select (is_candidate user tenant skill allowed now) (values s.entitlements))

resolve_lem :
    (s : SkillStore) (clock : ℕ) (q : AccessQuery) (user tenant skill : String)
    → query_value q.user_id q.user_id_camel ≡ some user
    → query_value q.tenant_id q.tenant_id_camel ≡ some tenant
    → query_value q.skill_id q.skill_id_camel ≡ some skill
    → resolve_access s clock q
      ≡ first_grant s user tenant skill
          (or_else q.now clock)
          (candidates s user tenant skill (allowed_plans q) (or_else q.now clock))
unfolding resolve_access
resolve_lem s clock q user tenant skill hu ht hs = rw (hu, resolve_access) (rw ht (rw hs))

-- Access that is granted is grounded in the store: for a query that names a user, a tenant and a
-- Skill, every grant rests on an active, unexpired entitlement of the store for just these, on a
-- plan that the query allows, and on an active subscription of the same user, tenant and plan that
-- has begun and has not run out, with the Skill in its plan.
pub access_sound :
    (s : SkillStore) (clock : ℕ) (q : AccessQuery) (user tenant skill : String) (g : Grant)
    → query_value q.user_id q.user_id_camel ≡ some user
    → query_value q.tenant_id q.tenant_id_camel ≡ some tenant
    → query_value q.skill_id q.skill_id_camel ≡ some skill
    → resolve_access s clock q ≡ some g
    → IsGrounded s user tenant skill (allowed_plans q) (or_else q.now clock) g
access_sound s clock q user tenant skill g hu ht hs h =
    let now = or_else q.now clock in
    let (e, m, hit) =
      first_grant_source s user tenant skill now _ g
        (sym (resolve_lem s clock q user tenant skill hu ht hs) ∙ h) in
    let (held, fits) = mem_of_select _ e (values s.entitlements) (mem_of_sort_by _ e _ m) in
    grounded s user tenant skill (allowed_plans q) now e g held fits hit

first_grant_first :
    (s : SkillStore) (user tenant skill : String) (now : ℕ) (es : List Entitlement)
    (e : Entitlement) (g : Grant)
    → Ordered (λ a b. b.created_at ≤ a.created_at) es
    → Memᴰ e es
    → grant_of s user tenant skill now e ≡ some g
    → (g' : Grant) × (first_grant s user tenant skill now es ≡ some g')
      × (e.created_at ≤ g'.entitlement.created_at)
unfolding first_grant
first_grant_first s user tenant skill now [] e g o m h = elim m [ ]
first_grant_first s user tenant skill now (x ∷ xs) e g o m h =
    elim (Option-cases (grant_of s user tenant skill now x)) [
      | inl miss ↦ elim (Memᴰ.cases_cons m) [
        | inl same ↦ cc (ap (grant_of s user tenant skill now) same)
        | inr later ↦
            let (g', found, le) = first_grant_first s user tenant skill now xs e g o.1 later h in
            (g', rw (miss, first_grant) found, le)
      ]
      | inr (g', hit) ↦ (
        g',
        rw (hit, first_grant),
        let first = (grant_of_facts s user tenant skill now x g' hit).0 in
            elim (Memᴰ.cases_cons m) [
              | inl same ↦ rw (first, same) (omega arith)
              | inr later ↦
                  rw first
                    (All-mem (λ (y : Entitlement). y.created_at ≤ x.created_at) e xs o.0 later)
            ],
      )
    ]

newest-Ordered :
    (es : List Entitlement)
    → Ordered (λ (a b : Entitlement). b.created_at ≤ a.created_at) (newest_first es)
newest-Ordered es =
    Ordered-sort_by (λ (a b : Entitlement). b.created_at ≤ a.created_at)
      (λ a b. leb b.created_at a.created_at) (λ a b h. ground arith) (λ a b h. ground arith)
      (λ a b c p q. omega arith) es

-- No access is lost: if some entitlement of the store is a candidate and its subscription and plan
-- carry it, access is granted, through an entitlement that is not older than that one.
pub access_complete :
    (s : SkillStore) (clock : ℕ) (q : AccessQuery) (user tenant skill : String) (e : Entitlement)
    (g : Grant)
    → query_value q.user_id q.user_id_camel ≡ some user
    → query_value q.tenant_id q.tenant_id_camel ≡ some tenant
    → query_value q.skill_id q.skill_id_camel ≡ some skill
    → Memᴰ e (values s.entitlements)
    → is_candidate user tenant skill (allowed_plans q) (or_else q.now clock) e ≡ true
    → grant_of s user tenant skill (or_else q.now clock) e ≡ some g
    → (g' : Grant) × (resolve_access s clock q ≡ some g')
      × (e.created_at ≤ g'.entitlement.created_at)
access_complete s clock q user tenant skill e g hu ht hs held fits h =
    let now = or_else q.now clock in
    let picked = mem-select (is_candidate user tenant skill (allowed_plans q) now) e _ held fits in
    let (g', found, le) =
      first_grant_first s user tenant skill now
        (candidates s user tenant skill (allowed_plans q) now) e g (newest-Ordered _)
        (mem-sort_by _ e _ picked) h in
    (g', resolve_lem s clock q user tenant skill hu ht hs ∙ found, le)
