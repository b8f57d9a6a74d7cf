-- ===== src/Activation.antt =====
-- Activation codes: `ActivationCodeRecord` of apps/longhub-cloud-api/src/store.ts, the methods of
-- `MemoryStore` in apps/longhub-cloud-api/src/memory-store.ts that create, revoke and redeem a code,
-- and apps/longhub-cloud-api/src/activation-code.ts. Times are milliseconds, whose order is that of
-- their texts. Fresh identifiers and the clock are arguments. A code is
-- known to the store by its hash, which is made outside it. The status of a device is included.
pub mod Uses
pub mod Redeeming
mod Examples
use Prim.Native.String.{◌++◌ as ◌<>◌}
use longhub_platform.Common.{
  ℕ, suc, ◌+◌, String, Bool, true, false, ◌&&◌, ◌||◌, not, Option, none, some, List, [], ◌∷◌, leb,
  ltb, ◌==◌, ◌=s◌, if◌then◌else◌, select, head?, any, all, length, codes, same_option, filled,
}
use longhub_platform.Common.Keyed
use longhub_platform.Common.Keyed.{Keyed, values}
use longhub_platform.Devices.{Device}
use longhub_platform.Skills.{EntitlementStatus, is_granted}
use longhub_platform.Skills.Plans.{is_space}
use longhub_platform.Billing.{PackEntitlement, Scope}

pub data CodeStatus : Type 0 where
  active revoked : CodeStatus

pub record ActivationCode : Type 0 where
  pub activation_code_id : String
  pub tenant_id : String
  pub code_hash : String
  pub code_hint : String
  pub label : Option String
  pub status : CodeStatus
  pub max_uses : ℕ
  pub use_count : ℕ
  pub pack_ids : List String
  pub expires_at : ℕ
  pub created_at : ℕ

-- The fields of `MemoryStore` that a redemption reads or writes.
pub record ActivationStore : Type 0 where
  pub devices : Keyed Device
  pub codes : Keyed ActivationCode
  pub packs : Keyed PackEntitlement

pub record CodeParams : Type 0 where
  pub tenant_id : String
  pub code_hash : String
  pub code_hint : String
  pub label : Option String
  pub max_uses : ℕ
  pub pack_ids : List String
  pub expires_at : ℕ

-- `ActivationRedemptionResult`.
pub data Redemption : Type 0 where
  redeemed : (code : ActivationCode) (device : Device) (already_activated : Bool) → Redemption
  device_not_found code_unavailable : Redemption

abbrev pub is_usable_status : CodeStatus → Bool
is_usable_status active = true
is_usable_status revoked = false

abbrev pub new_code : String → ℕ → CodeParams → ActivationCode
new_code uuid now p = record {
  activation_code_id = "act-" <> uuid;
  tenant_id = p.tenant_id;
  code_hash = p.code_hash;
  code_hint = p.code_hint;
  label = p.label;
  status = active;
  max_uses = p.max_uses;
  use_count = 0;
  pack_ids = p.pack_ids;
  expires_at = p.expires_at;
  created_at = now;
}

unfoldable pub create_activation_code :
    ActivationStore → String → ℕ → CodeParams → ActivationStore × ActivationCode
create_activation_code s uuid now p =
    let c = new_code uuid now p in
    (record s { codes = Keyed.set c.activation_code_id c s.codes }, c)

unfoldable pub revoke_activation_code :
    ActivationStore → String → ActivationStore × Option ActivationCode
revoke_activation_code s id = elim (Keyed.get id s.codes) [
  | none ↦ (s, none)
  | some c ↦
      let c' = record c { status = revoked } in
      (record s { codes = Keyed.set id c' s.codes }, some c')
]

-- What the loop over the entitlements of the previous code does to each.
abbrev pub revoke_source : String → Option String → PackEntitlement → PackEntitlement
revoke_source device none e = e
revoke_source device (some code) e =
    if e.device_id =s device && same_option e.source_activation_code_id (some code)
    then record e { status = EntitlementStatus.revoked }
    else e

-- Has the device a running entitlement to the Pack?
abbrev pub has_pack : String → String → ℕ → Keyed PackEntitlement → Bool
has_pack device pack now m =
    any
      (λ (e : PackEntitlement).
        e.device_id =s device
        && (e.pack_id =s pack && (is_granted e.status && ltb now e.expires_at)))
      (values m)

abbrev pub code_entitlement : String → Device → ActivationCode → ℕ → String → PackEntitlement
code_entitlement uuid d c now pack = record {
  entitlement_id = "ent-" <> uuid;
  tenant_id = d.tenant_id;
  device_id = d.device_id;
  pack_id = pack;
  scope = Scope.device;
  status = EntitlementStatus.active;
  expires_at = c.expires_at;
  source_activation_code_id = some c.activation_code_id;
  source_order_id = none;
  created_at = now;
}

-- The loop over the Packs of the code; the nth may draw the nth identifier.
unfoldable pub grant_packs :
    (ℕ → String)
    → ℕ
    → Device
    → ActivationCode
    → ℕ
    → List String
    → Keyed PackEntitlement
    → Keyed PackEntitlement
grant_packs uuids n d c now [] m = m
grant_packs uuids n d c now (pack ∷ packs) m =
    let e = code_entitlement (uuids n) d c now pack in
    let m' = if has_pack d.device_id pack now m then m else Keyed.set e.entitlement_id e m in
    grant_packs uuids (suc n) d c now packs m'

abbrev pub used : ActivationCode → ActivationCode
used c = record c { use_count = suc c.use_count }

abbrev pub activated : Device → ActivationCode → ℕ → Device
activated d c now = record d {
  activation_code_id = some c.activation_code_id;
  activated_at = some now;
}

-- The writes of a redemption by a device that has another code or none.
abbrev pub take_code :
    ActivationStore
    → (ℕ → String)
    → String
    → Device
    → ActivationCode
    → ℕ
    → ActivationStore × Redemption
take_code s uuids device d c now =
    let packs =
      Keyed.update_all (revoke_source d.device_id (filled d.activation_code_id)) s.packs in
    (
      record {
        devices = Keyed.set device (activated d c now) s.devices;
        codes = Keyed.set c.activation_code_id (used c) s.codes;
        packs = grant_packs uuids 0 d c now c.pack_ids packs;
      },
      redeemed (used c) (activated d c now) false,
    )

abbrev pub is_available : Device → ActivationCode → ℕ → Bool
is_available d c now =
    c.tenant_id =s d.tenant_id && (is_usable_status c.status && ltb now c.expires_at)

unfoldable pub redeem_activation_code :
    ActivationStore → (ℕ → String) → String → String → ℕ → ActivationStore × Redemption
redeem_activation_code s uuids device hash now = elim (Keyed.get device s.devices) [
  | none ↦ (s, device_not_found)
  | some d ↦ elim (head? (select (λ (c : ActivationCode). c.code_hash =s hash) (values s.codes))) [
    | none ↦ (s, code_unavailable)
    | some c ↦
        if not (is_available d c now)
        then (s, code_unavailable)
        else if same_option d.activation_code_id (some c.activation_code_id)
        then (s, redeemed c d true)
        else if leb c.max_uses c.use_count
        then (s, code_unavailable)
        else take_code s uuids device d c now
  ]
]

pub data InactiveReason : Type 0 where
  activation_required activation_revoked activation_expired : InactiveReason

pub record ActivationStatus : Type 0 where
  pub device_id : String
  pub is_activated : Bool
  pub reason : Option InactiveReason
  pub expires_at : Option ℕ
  pub code_hint : Option String

abbrev pub inactive : String → InactiveReason → ActivationStatus
inactive id reason = record {
  device_id = id;
  is_activated = false;
  reason = some reason;
  expires_at = none;
  code_hint = none;
}

-- The status of a device whose code is found.
abbrev pub code_status : Device → ActivationCode → ℕ → ActivationStatus
code_status d c now =
    if not (is_usable_status c.status) then inactive d.device_id activation_revoked else record {
      device_id = d.device_id;
      is_activated = ltb now c.expires_at;
      reason = if ltb now c.expires_at then none else some activation_expired;
      expires_at = some c.expires_at;
      code_hint = some c.code_hint;
    }

unfoldable pub device_activation_status : ActivationStore → Device → ℕ → ActivationStatus
device_activation_status s d now = elim (filled d.activation_code_id) [
  | none ↦ inactive d.device_id activation_required
  | some id ↦ elim (Keyed.get id s.codes) [
    | none ↦ inactive d.device_id activation_revoked
    | some c ↦ code_status d c now
  ]
]
