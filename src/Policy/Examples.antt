-- ===== src/Policy/Examples.antt =====
-- A document with a global entry and one for a tenant, with the theorems on policies at it.
use mathlib.Core.List.{Memᴰ}
use longhub_platform.Common.{
  ℕ, ◌≤◌, ◌<◌, String, Bool, true, false, Option, none, some, [], ◌∷◌, ◌≡◌, refl, ◌↔◌,
  String-discrete, insert_by, sort_by, or_else,
}
use longhub_platform.Policy.{
  Scope, global, tenant, user, admin_approved, default, low, platform_region, Limits, Entry,
  Document, ScopeIds, one, Context, Resolved, allowed, decide, decide_policy, resolve, resolve_at,
  applicable_entries, is_applicable, merge_entries, distinct,
}
use longhub_platform.Policy.Versions.{
  less, more, Semver, compare_semver, parse_semver, compare_parsed, compare_part_lists, split,
  digits_value,
}
use longhub_platform.Policy.Restriction.{IsStricter, resolve-IsStricter}
use longhub_platform.Policy.Granting.{Holds, IsOlder, decide_iff, access_needs_all, release_order}

abbrev no_limits : Limits
no_limits = record {
  count = none;
  bytes = none;
  duration_ms = none;
  concurrency = none;
  cost_cents = none;
}

abbrev global_entry : Entry
global_entry = record {
  feature_id = "file.input";
  enabled = true;
  scope = global;
  scope_id = none;
  audience = user;
  mode = default;
  risk_level = low;
  limits = record no_limits { bytes = some 1000 };
  data_policy = record {
    processing_location = platform_region;
    retention_days = 30;
    export_allowed = true;
    deletion_allowed = true;
  };
  required_entitlements = "files" ∷ [];
  required_permissions = [];
  min_manager_version = "1.0.0";
  max_manager_version = none;
  emergency_disabled = false;
}

abbrev tenant_entry : Entry
tenant_entry = record global_entry {
  scope = tenant;
  scope_id = some "acme";
  mode = admin_approved;
  limits = record no_limits { bytes = some 500; count = some 3 };
  required_permissions = "files:read" ∷ [];
  max_manager_version = some "2.0.0";
}

abbrev document : Document
document = record {
  policy_version = "p1";
  issued_at = 100;
  expires_at = 400;
  features = global_entry ∷ tenant_entry ∷ [];
}

abbrev scope_ids : Scope → Option ScopeIds
scope_ids tenant = some (one "acme")
scope_ids _ = none

abbrev context : Context
context = record {
  manager_version = "1.2.0";
  audience = user;
  scope_ids = scope_ids;
  now = some (some 200);
}

abbrev follows : String → String → Bool
follows a b = true

abbrev policy : Resolved
policy = merge_entries follows document "file.input" global_entry (tenant_entry ∷ [])

tenant_applies : is_applicable tenant_entry context ≡ some true
unfolding is_applicable compare_semver parse_semver compare_parsed compare_part_lists split
    digits_value String-discrete
tenant_applies = refl

resolved : resolve follows 0 document "file.input" context ≡ some (some policy)
unfolding resolve resolve_at applicable_entries is_applicable compare_semver parse_semver
    compare_parsed compare_part_lists split digits_value String-discrete
resolved = refl

granted : decide (some policy) ("files" ∷ []) ("files:read" ∷ []) ≡ allowed
unfolding decide decide_policy merge_entries distinct sort_by insert_by String-discrete
granted = refl

resolve-IsStricter_example :
    (now : ℕ) × (or_else context.now (some 0) ≡ some now)
    × (100 ≤ now)
    × (now < 400)
    × IsStricter policy tenant_entry
resolve-IsStricter_example =
    resolve-IsStricter follows 0 document "file.input" context policy tenant_entry resolved
      (Memᴰ.tail (Memᴰ.head refl)) refl tenant_applies

decide_iff_example : (decide (some policy) ("files" ∷ []) [] ≡ allowed) ↔ (
    (p : Resolved) × (some policy ≡ some p)
    × (p.emergency_disabled ≡ false)
    × (p.enabled ≡ true)
    × Holds ("files" ∷ []) p.required_entitlements
    × Holds [] p.required_permissions)
decide_iff_example = decide_iff (some policy) ("files" ∷ []) []

access_needs_all_example :
    (tenant_entry.enabled ≡ true)
    × (tenant_entry.emergency_disabled ≡ false)
    × Holds ("files" ∷ []) tenant_entry.required_entitlements
    × Holds ("files:read" ∷ []) tenant_entry.required_permissions
access_needs_all_example =
    access_needs_all follows 0 document "file.input" context (some policy) ("files" ∷ [])
      ("files:read" ∷ []) tenant_entry resolved granted (Memᴰ.tail (Memᴰ.head refl)) refl
      tenant_applies

abbrev version : ℕ → ℕ → ℕ → Semver
version a b c = record { major = a; minor = b; patch = c; prerelease = [] }

release_order_example :
    ((compare_parsed (version 1 2 9) (version 1 10 0) ≡ less)
      ↔ IsOlder (version 1 2 9) (version 1 10 0))
    × ((compare_parsed (version 1 2 9) (version 1 10 0) ≡ more)
        ↔ IsOlder (version 1 10 0) (version 1 2 9))
release_order_example = release_order (version 1 2 9) (version 1 10 0) refl refl

-- A number with a leading zero in a prerelease: each of the two versions is newer than the other.
leading_zero : compare_semver "1.0.0-01" "1.0.0-1" ≡ some more
unfolding compare_semver parse_semver compare_parsed compare_part_lists split digits_value
leading_zero = refl

leading_zero_back : compare_semver "1.0.0-1" "1.0.0-01" ≡ some more
unfolding compare_semver parse_semver compare_parsed compare_part_lists split digits_value
leading_zero_back = refl
