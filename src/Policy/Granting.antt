-- ===== src/Policy/Granting.antt =====
-- What access to a feature needs: `decideFeatureAccess` of
-- packages/longhub-feature-policy/src/resolution.ts, and the order of released Manager versions.
use mathlib.Core.List.{Memᴰ}
use longhub_platform.Common.{
  ℕ, ◌<◌, String, Bool, true, false, not, Option, none, some, List, [], ◌∷◌, ◌≡◌, refl, ◌∙◌, ap,
  ◌↔◌, ◌⊎◌, inl, inr, arith, Bool-cases,
}
use longhub_platform.Common.Sorting.{mem-select}
use longhub_platform.Policy.{
  Entry, Document, Context, Resolved, allowed, decide, decide_policy, lacking, has, resolve,
  is_applicable,
}
use longhub_platform.Policy.Versions.{less, more, Semver, compare_parsed}
use longhub_platform.Policy.Restriction.{resolve-IsStricter}

-- All that is required is held.
abbrev pub Holds : List String → List String → Type 0
Holds held required = (x : String) → Memᴰ x required → has held x ≡ true

lacking_nil : (held required : List String) → lacking held required ≡ [] → Holds held required
lacking_nil held required h x m = elim (Bool-cases (has held x)) [
  | inl there ↦ there
  | inr missing ↦
      let m' = mem-select (λ (y : String). not (has held y)) x required m (rw missing refl) in
      let m'' : Memᴰ x [] = rw h at m' in elim m'' [ ]
]

nil_lacking : (held required : List String) → Holds held required → lacking held required ≡ []
nil_lacking held [] h = refl
nil_lacking held (x ∷ xs) h =
    let rest = nil_lacking held xs (λ y m. h y (Memᴰ.tail m)) in
    let here = h x (Memᴰ.head refl) in ground arith

decide_policy-allowed :
    (p : Resolved) (entitlements permissions : List String)
    → decide_policy p entitlements permissions ≡ allowed
    → (p.emergency_disabled ≡ false)
      × (p.enabled ≡ true)
      × (lacking entitlements p.required_entitlements ≡ [])
      × (lacking permissions p.required_permissions ≡ [])
unfolding decide_policy
decide_policy-allowed p entitlements permissions h = ground arith

decide_policy_granted :
    (p : Resolved) (entitlements permissions : List String)
    → p.emergency_disabled ≡ false
    → p.enabled ≡ true
    → Holds entitlements p.required_entitlements
    → Holds permissions p.required_permissions
    → decide_policy p entitlements permissions ≡ allowed
unfolding decide_policy
decide_policy_granted p entitlements permissions calm on e f =
    rw (calm, decide_policy) (rw on (rw (nil_lacking _ _ e) (rw (nil_lacking _ _ f) refl)))

-- Access to a feature is allowed exactly if there is a policy for it that is enabled and not under
-- an emergency stop, and every entitlement and every permission that it requires is granted.
pub decide_iff :
    (o : Option Resolved) (entitlements permissions : List String)
    → (decide o entitlements permissions ≡ allowed) ↔ (
        (p : Resolved) × (o ≡ some p)
        × (p.emergency_disabled ≡ false)
        × (p.enabled ≡ true)
        × Holds entitlements p.required_entitlements
        × Holds permissions p.required_permissions)
unfolding decide
decide_iff none entitlements permissions = (λ h. cc, λ (p, e, a, b, f, g). cc)
decide_iff (some p) entitlements permissions = (
  λ h.
      let (calm, on, e, f) = decide_policy-allowed p entitlements permissions h in
      (p, refl, calm, on, lacking_nil _ _ e, lacking_nil _ _ f),
  λ (q, same_policy, calm, on, e, f).
      let q_p : p ≡ q = cc in
      ap (λ (x : Resolved). decide_policy x entitlements permissions) q_p
      ∙ decide_policy_granted q entitlements permissions calm on e f,
)

-- Where access is allowed under a policy that was resolved, every entry of the document that is for
-- the feature and applies in the context is enabled and not under an emergency stop, and whatever it
-- requires is granted: no entry is overruled by another one.
pub access_needs_all :
    (follows : String → String → Bool) (clock : ℕ) (d : Document) (id : String) (c : Context)
    (o : Option Resolved) (entitlements permissions : List String) (e : Entry)
    → resolve follows clock d id c ≡ some o
    → decide o entitlements permissions ≡ allowed
    → Memᴰ e d.features
    → e.feature_id ≡ id
    → is_applicable e c ≡ some true
    → (e.enabled ≡ true)
      × (e.emergency_disabled ≡ false)
      × Holds entitlements e.required_entitlements
      × Holds permissions e.required_permissions
access_needs_all follows clock d id c o entitlements permissions e h ok_ m same_id fits =
    let (p, is_p, calm, on, held, permitted) = (decide_iff o entitlements permissions).0 ok_ in
    let (now, _, _, _, strict) =
      resolve-IsStricter follows clock d id c p e (h ∙ ap some is_p) m same_id fits in
    (
      (strict.enabled on).0,
      (strict.enabled on).1,
      λ x r. held x (strict.entitlements x r),
      λ x r. permitted x (strict.permissions x r),
    )

-- The order of releases: by major number, then by minor, then by patch.
abbrev pub IsOlder : Semver → Semver → Type 0
IsOlder l r =
    (l.major < r.major)
    ⊎ ((l.major ≡ r.major) × ((l.minor < r.minor) ⊎ ((l.minor ≡ r.minor) × (l.patch < r.patch))))

-- On versions without a prerelease, the comparison is the order by major, minor and patch number:
-- it gives -1 exactly for an older version, and 1 exactly for a newer one.
pub release_order :
    (l r : Semver)
    → l.prerelease ≡ []
    → r.prerelease ≡ []
    → ((compare_parsed l r ≡ less) ↔ IsOlder l r) × ((compare_parsed l r ≡ more) ↔ IsOlder r l)
unfolding compare_parsed
release_order l r h g = ground arith
