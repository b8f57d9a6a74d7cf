-- ===== src/Skills/Sales.antt =====
-- Plans stay sellable: `createCloudSkillPlan` and `updateCloudSkillPlan` of
-- apps/longhub-cloud-api/src/memory-store.ts against what they check.
use longhub_platform.Common.{
  ℕ, ◌≤◌, String, false, ◌||◌, not, some, ◌≡◌, refl, ◌⊎◌, inl, inr, arith, all, All, Bool-cases,
  Option-cases,
}
use longhub_platform.Common.Keyed
use longhub_platform.Common.Keyed.{values}
use longhub_platform.Skills.{Plan, SkillStore}
use longhub_platform.Skills.Plans.{
  PlanParams, PlanPatch, is_plan_id, is_name, is_empty, is_skill_id, are_distinct, is_bad_name,
  are_bad_skills, is_zero, plan_numbers, new_plan, put_plan, create_plan, assign_plan, update_plan,
  IsSound,
}

put_plan_cases :
    (s : SkillStore) (now : ℕ) (p : PlanParams) (m y c r l : ℕ)
    → ((put_plan s now p (m, (y, (c, (r, l))))).0 ≡ s)
      ⊎ ((1 ≤ r)
          × (1 ≤ l)
          × ((put_plan s now p (m, (y, (c, (r, l))))).0
              ≡ record s { plans = Keyed.set p.plan_id (new_plan now p m y c r l) s.plans }))
put_plan_cases s now p m y c r l = ground arith

create_plan_cases :
    (s : SkillStore) (now : ℕ) (p : PlanParams)
    → ((create_plan s now p).0 ≡ s)
      ⊎ ((plan : Plan) × IsSound plan
          × ((create_plan s now p).0 ≡ record s { plans = Keyed.set p.plan_id plan s.plans }))
unfolding create_plan
create_plan_cases s now p = elim (Bool-cases (is_plan_id p.plan_id)) [
  | inr a ↦ inl (rw (a, create_plan) refl)
  | inl a ↦ elim (Bool-cases (is_name p.name)) [
    | inr b ↦ inl (rw (a, create_plan) (rw b refl))
    | inl b ↦ elim (Bool-cases (is_empty p.skill_ids || not (all is_skill_id p.skill_ids))) [
      | inl c ↦ inl (rw (a, create_plan) (rw b (rw c refl)))
      | inr c ↦ elim (Bool-cases (are_distinct p.skill_ids)) [
        | inr d ↦ inl (rw (a, create_plan) (rw b (rw c (rw d refl))))
        | inl d ↦ elim (Option-cases (plan_numbers p)) [
          | inl e ↦ inl (rw (a, create_plan) (rw b (rw c (rw d (rw e refl)))))
          | inr ((m, (y, (n, (r, l)))), e) ↦ elim (put_plan_cases s now p m y n r l) [
            | inl same ↦ inl (rw (a, create_plan) (rw b (rw c (rw d (rw e same)))))
            | inr (rate, leases, wrote) ↦ inr (
              new_plan now p m y n r l,
              record {
                named = b;
                offers = ground arith;
                skills = ground arith;
                distinct = d;
                rate = rate;
                leases = leases;
              },
              rw (a, create_plan) (rw b (rw c (rw d (rw e wrote)))),
            )
          ]
        ]
      ]
    ]
  ]
]

update_plan_cases :
    (s : SkillStore) (id : String) (p : PlanPatch)
    → ((update_plan s id p).0 ≡ s)
      ⊎ ((plan : Plan) × (Keyed.get id s.plans ≡ some plan)
          × (is_bad_name p.name ≡ false)
          × (are_bad_skills p.skill_ids ≡ false)
          × (is_zero p.requests_per_minute ≡ false)
          × (is_zero p.max_concurrency ≡ false)
          × ((update_plan s id p).0
              ≡ record s { plans = Keyed.set id (assign_plan plan p) s.plans }))
unfolding update_plan
update_plan_cases s id p = elim (Option-cases (Keyed.get id s.plans)) [
  | inl e ↦ inl (rw (e, update_plan) refl)
  | inr (plan, e) ↦ ground arith
]

assigned-IsSound :
    (plan : Plan) (p : PlanPatch)
    → IsSound plan
    → is_bad_name p.name ≡ false
    → are_bad_skills p.skill_ids ≡ false
    → is_zero p.requests_per_minute ≡ false
    → is_zero p.max_concurrency ≡ false
    → IsSound (assign_plan plan p)
assigned-IsSound plan p v a b c d = record {
  named = ground (arith, v.named);
  offers = ground (arith, v.offers);
  skills = ground (arith, v.skills);
  distinct = ground (arith, v.distinct);
  rate = ground (arith, v.rate);
  leases = ground (arith, v.leases);
}

-- Every plan of a store stays sound through the creation and through the change of a plan, whatever
-- is asked for: it keeps a name, one Skill or more, no Skill twice and each with a valid identifier,
-- and allows one call a minute and one lease at least.
pub plans-IsSound :
    (s : SkillStore) (now : ℕ) (params : PlanParams) (id : String) (patch : PlanPatch)
    → All IsSound (values s.plans)
    → All IsSound (values (create_plan s now params).0.plans)
      × All IsSound (values (update_plan s id patch).0.plans)
plans-IsSound s now params id patch v = (
  elim (create_plan_cases s now params) [
    | inl same ↦ rw same v
    | inr (plan, sound, wrote) ↦
        rw wrote (Keyed.All-set IsSound params.plan_id plan s.plans sound v)
  ],
  elim (update_plan_cases s id patch) [
    | inl same ↦ rw same v
    | inr (plan, found, a, b, c, d, wrote) ↦
        let old = Keyed.All-get IsSound id plan s.plans v found in
        rw wrote (
          Keyed.All-set IsSound id (assign_plan plan patch) s.plans
            (assigned-IsSound plan patch old a b c d) v)
  ],
)
