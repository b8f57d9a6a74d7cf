-- ===== src/Policy/Restriction.antt =====
-- Merging only restricts: `resolveFeaturePolicy` of
-- packages/longhub-feature-policy/src/resolution.ts against each entry that applies.
use mathlib.Core.List.{Memᴰ}
use mathlib.Core.List.Memᴰ
use longhub_platform.Common.{
  ℕ, ◌≤◌, ◌<◌, String, Bool, true, false, not, ◌&&◌, some, List, [], ◌∷◌, map, ◌≡◌, inl, inr, arith,
  any, all, Option-cases, or_else, if◌then◌else◌,
}
use longhub_platform.Policy.{
  Entry, Document, Context, Resolved, mode_rank, location_rank, is_high, high, low, is_applicable,
  applicable_entries, merge_entries, resolve, resolve_at,
}
use longhub_platform.Policy.Merging.{
  all-mem, any-mem, least-le, highest-le, fewest-le, mem-union_sorted, mem-applicable_entries,
}

-- Each limit of the entry stands in the policy, and is no larger there.
pub record IsLimited (p : Resolved) (e : Entry) : Type 0 where
  pub count : (n : ℕ) → e.limits.count ≡ some n → (m : ℕ) × (p.limits.count ≡ some m) × (m ≤ n)
  pub bytes : (n : ℕ) → e.limits.bytes ≡ some n → (m : ℕ) × (p.limits.bytes ≡ some m) × (m ≤ n)
  pub duration :
      (n : ℕ) → e.limits.duration_ms ≡ some n → (m : ℕ) × (p.limits.duration_ms ≡ some m) × (m ≤ n)
  pub concurrency :
      (n : ℕ) → e.limits.concurrency ≡ some n → (m : ℕ) × (p.limits.concurrency ≡ some m) × (m ≤ n)
  pub cost :
      (n : ℕ) → e.limits.cost_cents ≡ some n → (m : ℕ) × (p.limits.cost_cents ≡ some m) × (m ≤ n)

-- The policy is at least as strict as the entry.
pub record IsStricter (p : Resolved) (e : Entry) : Type 0 where
  pub emergency : p.emergency_disabled ≡ false → e.emergency_disabled ≡ false
  pub enabled : p.enabled ≡ true → (e.enabled ≡ true) × (e.emergency_disabled ≡ false)
  pub risk : is_high p.risk_level ≡ false → is_high e.risk_level ≡ false
  pub mode : mode_rank e.mode ≤ mode_rank p.mode
  pub limits : IsLimited p e
  pub location :
      location_rank e.data_policy.processing_location
      ≤ location_rank p.data_policy.processing_location
  pub retention : p.data_policy.retention_days ≤ e.data_policy.retention_days
  pub exports : p.data_policy.export_allowed ≡ true → e.data_policy.export_allowed ≡ true
  pub deletes : p.data_policy.deletion_allowed ≡ true → e.data_policy.deletion_allowed ≡ true
  pub entitlements : (x : String) → Memᴰ x e.required_entitlements → Memᴰ x p.required_entitlements
  pub permissions : (x : String) → Memᴰ x e.required_permissions → Memᴰ x p.required_permissions

merged-IsLimited :
    (follows : String → String → Bool) (d : Document) (id : String) (x e : Entry) (xs : List Entry)
    → Memᴰ e (x ∷ xs)
    → IsLimited (merge_entries follows d id x xs) e
unfolding merge_entries
merged-IsLimited follows d id x e xs m = record {
  count = λ n h. least-le (λ (y : Entry). y.limits.count) e (x ∷ xs) n m h;
  bytes = λ n h. least-le (λ (y : Entry). y.limits.bytes) e (x ∷ xs) n m h;
  duration = λ n h. least-le (λ (y : Entry). y.limits.duration_ms) e (x ∷ xs) n m h;
  concurrency = λ n h. least-le (λ (y : Entry). y.limits.concurrency) e (x ∷ xs) n m h;
  cost = λ n h. least-le (λ (y : Entry). y.limits.cost_cents) e (x ∷ xs) n m h;
}

merged-enabled :
    (e x : Entry) (xs : List Entry)
    → Memᴰ e (x ∷ xs)
    → (not (any (λ y. y.emergency_disabled) (x ∷ xs)) && all (λ y. y.enabled) (x ∷ xs)) ≡ true
    → (e.enabled ≡ true) × (e.emergency_disabled ≡ false)
merged-enabled e x xs m h =
    let on : all (λ (y : Entry). y.enabled) (x ∷ xs) ≡ true = ground arith in
    let calm : any (λ (y : Entry). y.emergency_disabled) (x ∷ xs) ≡ false = ground arith in
    (
      all-mem (λ (y : Entry). y.enabled) e (x ∷ xs) on m,
      any-mem (λ (y : Entry). y.emergency_disabled) e (x ∷ xs) calm m,
    )

merged-risk :
    (e x : Entry) (xs : List Entry)
    → Memᴰ e (x ∷ xs)
    → is_high (if any (λ y. is_high y.risk_level) (x ∷ xs) then high else low) ≡ false
    → is_high e.risk_level ≡ false
merged-risk e x xs m h =
    let calm : any (λ (y : Entry). is_high y.risk_level) (x ∷ xs) ≡ false = ground arith in
    any-mem (λ (y : Entry). is_high y.risk_level) e (x ∷ xs) calm m

merged-IsStricter :
    (follows : String → String → Bool) (d : Document) (id : String) (x e : Entry) (xs : List Entry)
    → Memᴰ e (x ∷ xs)
    → IsStricter (merge_entries follows d id x xs) e
unfolding merge_entries
merged-IsStricter follows d id x e xs m = record {
  emergency = λ h. any-mem (λ (y : Entry). y.emergency_disabled) e (x ∷ xs) h m;
  enabled = λ h. merged-enabled e x xs m h;
  risk = λ h. merged-risk e x xs m h;
  mode =
      highest-le mode_rank x.mode e.mode (map (λ (y : Entry). y.mode) xs)
        (Memᴰ.map (λ (y : Entry). y.mode) m);
  limits = merged-IsLimited follows d id x e xs m;
  location =
      highest-le location_rank x.data_policy.processing_location e.data_policy.processing_location
        (map (λ (y : Entry). y.data_policy.processing_location) xs)
        (Memᴰ.map (λ (y : Entry). y.data_policy.processing_location) m);
  retention =
      fewest-le x.data_policy.retention_days e.data_policy.retention_days
        (map (λ (y : Entry). y.data_policy.retention_days) xs)
        (Memᴰ.map (λ (y : Entry). y.data_policy.retention_days) m);
  exports = λ h. all-mem (λ (y : Entry). y.data_policy.export_allowed) e (x ∷ xs) h m;
  deletes = λ h. all-mem (λ (y : Entry). y.data_policy.deletion_allowed) e (x ∷ xs) h m;
  entitlements = λ r h.
      mem-union_sorted follows r e.required_entitlements _
        (Memᴰ.map (λ (y : Entry). y.required_entitlements) m) h;
  permissions = λ r h.
      mem-union_sorted follows r e.required_permissions _
        (Memᴰ.map (λ (y : Entry). y.required_permissions) m) h;
}

-- A resolved policy is a merge of all applicable entries of a document in force.
resolve_facts :
    (follows : String → String → Bool) (clock : ℕ) (d : Document) (id : String) (c : Context)
    (p : Resolved)
    → resolve follows clock d id c ≡ some (some p)
    → (now : ℕ) × (x : Entry) × (xs : List Entry) × (or_else c.now (some clock) ≡ some now)
      × (d.issued_at ≤ now)
      × (now < d.expires_at)
      × (applicable_entries id c d.features ≡ some (x ∷ xs))
      × (p ≡ merge_entries follows d id x xs)
unfolding resolve resolve_at
resolve_facts follows clock d id c p h = elim (Option-cases (or_else c.now (some clock))) [
  | inl e ↦ absurd (ground arith)
  | inr (now, e) ↦ elim (Option-cases (applicable_entries id c d.features)) [
    | inl e' ↦ absurd (ground arith)
    | inr ([], e') ↦ absurd (ground arith)
    | inr (x ∷ xs, e') ↦ (now, x, xs, e, ground arith, ground arith, e', ground arith)
  ]
]

-- A policy that is resolved comes from a document that is in force at the time, and is at least as
-- strict as every entry of the document that is for the feature and applies in the context: in its
-- switches, risk level, mode, limits, place of processing, retention, export, deletion and requirements.
pub resolve-IsStricter :
    (follows : String → String → Bool) (clock : ℕ) (d : Document) (id : String) (c : Context)
    (p : Resolved) (e : Entry)
    → resolve follows clock d id c ≡ some (some p)
    → Memᴰ e d.features
    → e.feature_id ≡ id
    → is_applicable e c ≡ some true
    → (now : ℕ) × (or_else c.now (some clock) ≡ some now)
      × (d.issued_at ≤ now)
      × (now < d.expires_at)
      × IsStricter p e
resolve-IsStricter follows clock d id c p e h m same fits =
    let (now, x, xs, time, issued, running, kept, made) = resolve_facts follows clock d id c p h in
    (
      now,
      time,
      issued,
      running,
      rw made (
          merged-IsStricter follows d id x e xs
            (mem-applicable_entries id c e d.features (x ∷ xs) kept m same fits)),
    )
