-- ===== src/Policy.antt =====
-- The policy of features: the types of packages/longhub-feature-policy/src/schema.ts, and
-- `resolveFeaturePolicy` and `decideFeatureAccess` of
-- packages/longhub-feature-policy/src/resolution.ts. The document is one that has been parsed: its
-- times are milliseconds. The order of texts in the locale "en", which the platform defines, is the
-- argument `follows`: does the first one not come after the second? The `none` of a result is
-- `FeaturePolicyUnavailableError`.
pub mod Versions
pub mod Merging
pub mod Restriction
pub mod Granting
mod Examples
use Prim.Native.String.{◌++◌ as ◌<>◌}
use longhub_platform.Common.{
  ℕ, min, String, Bool, true, false, ◌&&◌, not, Option, none, some, List, [], ◌∷◌, ◌++◌, map, ltb,
  leb, ◌=s◌, if◌then◌else◌, any, all, select, sort_by, or_else, length, is_some,
}
use Versions.{Sign, less, same, more, compare_semver}

pub data Scope : Type 0 where
  global tenant plan device agent : Scope

pub data Audience : Type 0 where
  user tenant_admin platform_admin : Audience

pub data Mode : Type 0 where
  default tenant_controlled admin_approved : Mode

pub data RiskLevel : Type 0 where
  low high : RiskLevel

pub data Location : Type 0 where
  platform_region tenant_region device_local : Location

pub record Limits : Type 0 where
  pub count : Option ℕ
  pub bytes : Option ℕ
  pub duration_ms : Option ℕ
  pub concurrency : Option ℕ
  pub cost_cents : Option ℕ

pub record DataPolicy : Type 0 where
  pub processing_location : Location
  pub retention_days : ℕ
  pub export_allowed : Bool
  pub deletion_allowed : Bool

pub record Entry : Type 0 where
  pub feature_id : String
  pub enabled : Bool
  pub scope : Scope
  pub scope_id : Option String
  pub audience : Audience
  pub mode : Mode
  pub risk_level : RiskLevel
  pub limits : Limits
  pub data_policy : DataPolicy
  pub required_entitlements : List String
  pub required_permissions : List String
  pub min_manager_version : String
  pub max_manager_version : Option String
  pub emergency_disabled : Bool

pub record Document : Type 0 where
  pub policy_version : String
  pub issued_at : ℕ
  pub expires_at : ℕ
  pub features : List Entry

-- What the context may name for a scope.
pub data ScopeIds : Type 0 where
  one : String → ScopeIds
  many : List String → ScopeIds

-- `now` is a date that is no time where it is `some none`.
pub record Context : Type 0 where
  pub manager_version : String
  pub audience : Audience
  pub scope_ids : Scope → Option ScopeIds
  pub now : Option (Option ℕ)

pub record Resolved : Type 0 where
  pub feature_id : String
  pub policy_version : String
  pub enabled : Bool
  pub emergency_disabled : Bool
  pub mode : Mode
  pub risk_level : RiskLevel
  pub limits : Limits
  pub data_policy : DataPolicy
  pub required_entitlements : List String
  pub required_permissions : List String
  pub applied_scopes : List String

pub data DenialReason : Type 0 where
  policy_not_found feature_disabled emergency missing_entitlement missing_permission : DenialReason

pub data Decision : Type 0 where
  allowed : Decision
  denied : DenialReason → List String → Decision

abbrev pub audience_rank : Audience → ℕ
audience_rank user = 0
audience_rank tenant_admin = 1
audience_rank platform_admin = 2

abbrev pub same_audience : Audience → Audience → Bool
same_audience a b =
    leb (audience_rank a) (audience_rank b) && leb (audience_rank b) (audience_rank a)

-- Places in FEATURE_POLICY_MODES and FEATURE_PROCESSING_LOCATIONS.
abbrev pub mode_rank : Mode → ℕ
mode_rank default = 0
mode_rank tenant_controlled = 1
mode_rank admin_approved = 2

abbrev pub location_rank : Location → ℕ
location_rank platform_region = 0
location_rank tenant_region = 1
location_rank device_local = 2

abbrev pub is_high : RiskLevel → Bool
is_high low = false
is_high high = true

abbrev pub is_less : Sign → Bool
is_less less = true
is_less _ = false

abbrev pub is_more : Sign → Bool
is_more more = true
is_more _ = false

abbrev pub has : List String → String → Bool
has xs x = any (λ y. y =s x) xs

abbrev pub in_scope : Option ScopeIds → Option String → Bool
in_scope none id = false
in_scope (some (one s)) none = false
in_scope (some (one s)) (some id) = s =s id
in_scope (some (many ss)) id = has ss (or_else id "")

abbrev pub applies_in_scope : Entry → Context → Bool
applies_in_scope e c = elim e.scope [
  | global ↦ true
  | _ ↦ in_scope (c.scope_ids e.scope) e.scope_id
]

-- The test of the newest version that the entry allows.
abbrev pub applies_up_to : Entry → Context → Option Bool
applies_up_to e c = elim e.max_manager_version [
  | none ↦ some (applies_in_scope e c)
  | some newest ↦ elim (compare_semver c.manager_version newest) [
    | none ↦ none
    | some sign ↦ some (not (is_more sign) && applies_in_scope e c)
  ]
]

unfoldable pub is_applicable : Entry → Context → Option Bool
is_applicable e c =
    if not (same_audience e.audience c.audience)
    then some false
    else elim (compare_semver c.manager_version e.min_manager_version) [
      | none ↦ none
      | some sign ↦ if is_less sign then some false else applies_up_to e c
    ]

-- `filter` with a test that may throw.
unfoldable pub applicable_entries : String → Context → List Entry → Option (List Entry)
applicable_entries id c [] = some []
applicable_entries id c (e ∷ es) =
    let rest = applicable_entries id c es in
    if not (e.feature_id =s id) then rest else elim (is_applicable e c) [
      | none ↦ none
      | some applies ↦ elim rest [
        | none ↦ none
        | some kept ↦ some (if applies then e ∷ kept else kept)
      ]
    ]

abbrev pub least_with : ℕ → Option ℕ → Option ℕ
least_with n none = some n
least_with n (some m) = some (min n m)

-- `Math.min` of the values that are there, or nothing.
unfoldable pub least : List (Option ℕ) → Option ℕ
least [] = none
least (none ∷ xs) = least xs
least (some n ∷ xs) = least_with n (least xs)

abbrev pub merge_limits : List Entry → Limits
merge_limits es = record {
  count = least (map (λ e. e.limits.count) es);
  bytes = least (map (λ e. e.limits.bytes) es);
  duration_ms = least (map (λ e. e.limits.duration_ms) es);
  concurrency = least (map (λ e. e.limits.concurrency) es);
  cost_cents = least (map (λ e. e.limits.cost_cents) es);
}

module _ {A : Type 0} (rank : A → ℕ) where
  -- `maxByOrder`, from the first value on.
  unfoldable pub highest : A → List A → A
  highest h [] = h
  highest h (v ∷ vs) = highest (if ltb (rank h) (rank v) then v else h) vs

unfoldable pub fewest : ℕ → List ℕ → ℕ
fewest n [] = n
fewest n (m ∷ ms) = fewest (min n m) ms

abbrev pub merge_data_policy : Entry → List Entry → DataPolicy
merge_data_policy e es = record {
  processing_location =
      highest location_rank e.data_policy.processing_location
        (map (λ x. x.data_policy.processing_location) es);
  retention_days = fewest e.data_policy.retention_days (map (λ x. x.data_policy.retention_days) es);
  export_allowed = all (λ x. x.data_policy.export_allowed) (e ∷ es);
  deletion_allowed = all (λ x. x.data_policy.deletion_allowed) (e ∷ es);
}

abbrev pub flat : List (List String) → List String
flat [] = []
flat (xs ∷ xss) = xs ++ flat xss

-- The values of a `Set`, in the order of their first insertion.
unfoldable pub distinct : List String → List String
distinct [] = []
distinct (x ∷ xs) = x ∷ select (λ y. not (y =s x)) (distinct xs)

abbrev pub union_sorted : (String → String → Bool) → List (List String) → List String
union_sorted follows xss = sort_by follows (distinct (flat xss))

abbrev pub is_fresh : Document → ℕ → Bool
is_fresh d now = leb d.issued_at now && ltb now d.expires_at

abbrev pub scope_name : Scope → String
scope_name global = "global"
scope_name tenant = "tenant"
scope_name plan = "plan"
scope_name device = "device"
scope_name agent = "agent"

-- A missing identifier is printed as the source prints it.
abbrev pub applied_scope : Entry → String
applied_scope e = elim e.scope [
  | global ↦ "global"
  | _ ↦ scope_name e.scope <> (":" <> or_else e.scope_id "undefined")
]

-- The policy that the applicable entries, a first one and others, make together.
unfoldable pub merge_entries :
    (String → String → Bool) → Document → String → Entry → List Entry → Resolved
merge_entries follows d id e es =
    let emergency_disabled = any (λ x. x.emergency_disabled) (e ∷ es) in
    record {
      feature_id = id;
      policy_version = d.policy_version;
      enabled = not emergency_disabled && all (λ x. x.enabled) (e ∷ es);
      emergency_disabled = emergency_disabled;
      mode = highest mode_rank e.mode (map (λ x. x.mode) es);
      risk_level = if any (λ x. is_high x.risk_level) (e ∷ es) then high else low;
      limits = merge_limits (e ∷ es);
      data_policy = merge_data_policy e es;
      required_entitlements = union_sorted follows (map (λ x. x.required_entitlements) (e ∷ es));
      required_permissions = union_sorted follows (map (λ x. x.required_permissions) (e ∷ es));
      applied_scopes = map applied_scope (e ∷ es);
    }

unfoldable pub resolve_at :
    (String → String → Bool) → ℕ → Document → String → Context → Option (Option Resolved)
resolve_at follows now d id c =
    if not (is_fresh d now) then none else elim (applicable_entries id c d.features) [
      | none ↦ none
      | some [] ↦ some none
      | some (e ∷ es) ↦ some (some (merge_entries follows d id e es))
    ]

-- `resolveFeaturePolicy`: an error, no policy for the feature, or the policy.
unfoldable pub resolve :
    (String → String → Bool) → ℕ → Document → String → Context → Option (Option Resolved)
resolve follows clock d id c = elim (or_else c.now (some clock)) [
  | none ↦ none
  | some now ↦ resolve_at follows now d id c
]

abbrev pub lacking : List String → List String → List String
lacking held required = select (λ x. not (has held x)) required

unfoldable pub decide_policy : Resolved → List String → List String → Decision
decide_policy p entitlements permissions =
    if p.emergency_disabled
    then denied emergency []
    else if not p.enabled
    then denied feature_disabled []
    else elim (lacking entitlements p.required_entitlements) [
      | m ∷ ms ↦ denied missing_entitlement (m ∷ ms)
      | [] ↦ elim (lacking permissions p.required_permissions) [
        | m ∷ ms ↦ denied missing_permission (m ∷ ms)
        | [] ↦ allowed
      ]
    ]

unfoldable pub decide : Option Resolved → List String → List String → Decision
decide none entitlements permissions = denied policy_not_found []
decide (some p) entitlements permissions = decide_policy p entitlements permissions
