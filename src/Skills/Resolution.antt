-- ===== src/Skills/Resolution.antt =====
-- `resolveCloudSkillAccess` of `MemoryStore` in apps/longhub-cloud-api/src/memory-store.ts.
use longhub_platform.Common.{
  ℕ, String, Bool, true, ◌&&◌, ◌||◌, not, Option, none, some, List, [], ◌∷◌, ltb, leb, ◌=s◌,
  if◌then◌else◌, select, sort_by, or_else, is_some, prefer,
}
use longhub_platform.Common.Keyed
use longhub_platform.Common.Keyed.{Keyed, values}
use longhub_platform.Skills.{Entitlement, Grant, SkillStore, includes, is_active, is_granted}

-- Each key of a query in its two spellings; a missing or empty text is no value.
pub record AccessQuery : Type 0 where
  pub user_id : Option String
  pub user_id_camel : Option String
  pub tenant_id : Option String
  pub tenant_id_camel : Option String
  pub skill_id : Option String
  pub skill_id_camel : Option String
  pub allowed_plan_ids : Option (List String)
  pub allowed_plan_ids_camel : Option (List String)
  pub now : Option ℕ

abbrev pub non_empty : String → Option String
non_empty s = if s =s "" then none else some s

abbrev pub query_value : Option String → Option String → Option String
query_value (some snake) camel = non_empty snake
query_value none (some camel) = non_empty camel
query_value none none = none

abbrev pub allowed_plans : AccessQuery → Option (List String)
allowed_plans q = prefer q.allowed_plan_ids q.allowed_plan_ids_camel

abbrev pub allows : Option (List String) → String → Bool
allows none plan = true
allows (some plans) plan = includes plan plans

abbrev pub is_candidate : String → String → String → Option (List String) → ℕ → Entitlement → Bool
is_candidate user tenant skill allowed now e =
    (e.user_id =s user)
    && ((e.tenant_id =s tenant)
        && ((e.skill_id =s skill)
            && (is_granted e.status && (ltb now e.expires_at && allows allowed e.plan_id))))

-- The newest first.
abbrev pub newest_first : List Entitlement → List Entitlement
newest_first = sort_by (λ a b. leb b.created_at a.created_at)

-- One round of the loop: the grant of a candidate, unless the round goes on to the next one.
unfoldable pub grant_of : SkillStore → String → String → String → ℕ → Entitlement → Option Grant
grant_of s user tenant skill now e = elim (Keyed.get e.subscription_id s.subscriptions) [
  | none ↦ none
  | some sub ↦ elim (Keyed.get e.plan_id s.plans) [
    | none ↦ none
    | some plan ↦
        if not (sub.plan_id =s e.plan_id)
          || (not (sub.user_id =s user)
              || (not (sub.tenant_id =s tenant)
                  || (not (is_active sub.status)
                      || (ltb now sub.starts_at
                          || (leb sub.expires_at now || not (includes skill plan.skill_ids))))))
        then none
        else some (record { entitlement = e; subscription = sub; plan = plan })
  ]
]

unfoldable pub first_grant :
    SkillStore → String → String → String → ℕ → List Entitlement → Option Grant
unfolding grant_of
first_grant s user tenant skill now [] = none
first_grant s user tenant skill now (e ∷ es) =
    let rest = first_grant s user tenant skill now es in
    elim (grant_of s user tenant skill now e) [ some g ↦ some g | none ↦ rest ]

unfoldable pub resolve_access : SkillStore → ℕ → AccessQuery → Option Grant
unfolding first_grant
resolve_access s clock q =
    let now = or_else q.now clock in
    elim (query_value q.user_id q.user_id_camel) [
      | none ↦ none
      | some user ↦ elim (query_value q.tenant_id q.tenant_id_camel) [
        | none ↦ none
        | some tenant ↦ elim (query_value q.skill_id q.skill_id_camel) [
          | none ↦ none
          | some skill ↦ first_grant s user tenant skill now (
              newest_first (
                select (is_candidate user tenant skill (allowed_plans q) now)
                  (values s.entitlements)))
        ]
      ]
    ]

unfoldable pub has_access : SkillStore → ℕ → AccessQuery → Bool
unfolding resolve_access
has_access s clock q = is_some (resolve_access s clock q)
