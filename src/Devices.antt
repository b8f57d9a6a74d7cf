-- ===== src/Devices.antt =====
-- Devices and their pairing with an account: `DeviceRecord` and `DevicePairingChallengeRecord` of
-- apps/longhub-cloud-api/src/store.ts, and the methods of `MemoryStore` in
-- apps/longhub-cloud-api/src/memory-store.ts that register, pair, bind and update devices. Times are
-- milliseconds, whose order is that of their canonical texts; fresh identifiers and the clock are
-- arguments. What a method returns is the record that it leaves, the device's token removed.
pub mod Steps
pub mod Pairing
mod Examples
use Prim.Native.String.{◌++◌ as ◌<>◌}
use longhub_platform.Common.{
  ℕ, String, Bool, true, false, ◌&&◌, ◌||◌, not, Option, none, some, List, [], ◌∷◌, map, leb, ◌=s◌,
  if◌then◌else◌, select, head?, is_some, or_else, prefer,
}
use longhub_platform.Common.Keyed
use longhub_platform.Common.Keyed.{Keyed, values}

pub data DeviceStatus : Type 0 where
  active revoked : DeviceStatus

pub record Device : Type 0 where
  pub device_id : String
  pub tenant_id : String
  pub status : DeviceStatus
  pub platform : String
  pub app_version : String
  pub device_fingerprint : String
  pub display_name : Option String
  pub device_token : Option String
  pub user_id : Option String
  pub activation_code_id : Option String
  pub activated_at : Option ℕ
  pub last_seen_at : Option ℕ
  pub last_model_success_at : Option ℕ
  pub last_error_code : Option String
  pub credential_rotated_at : Option ℕ
  pub min_required_version : Option String
  pub rollout_group : Option String
  pub created_at : ℕ

pub record Challenge : Type 0 where
  pub challenge_id : String
  pub device_id : String
  pub tenant_id : String
  pub code_hash : String
  pub expires_at : ℕ
  pub consumed_at : Option ℕ
  pub created_at : ℕ

pub data RefusedPairing : Type 0 where
  code_invalid code_expired device_not_found device_already_bound device_revoked : RefusedPairing

pub data PairingResult : Type 0 where
  paired : Device → PairingResult
  not_paired : RefusedPairing → PairingResult

-- The fields of `MemoryStore` for devices.
pub record DeviceStore : Type 0 where
  pub devices : Keyed Device
  pub challenges : Keyed Challenge
  pub by_hash : Keyed String

pub record RegisterParams : Type 0 where
  pub tenant_id : String
  pub platform : String
  pub app_version : String
  pub device_fingerprint : String
  pub display_name : Option String

pub record DevicePatch : Type 0 where
  pub status : Option DeviceStatus
  pub last_seen_at : Option ℕ
  pub last_model_success_at : Option ℕ
  pub last_error_code : Option String
  pub credential_rotated_at : Option ℕ
  pub min_required_version : Option String
  pub rollout_group : Option String
  pub device_token : Option String

abbrev pub is_in_use : DeviceStatus → Bool
is_in_use active = true
is_in_use revoked = false

-- `deviceClone`, without the token.
abbrev pub public_device : Device → Device
public_device d = record d { device_token = none }

abbrev pub same_device : RegisterParams → Device → Bool
same_device p d =
    (d.tenant_id =s p.tenant_id)
    && ((d.device_fingerprint =s p.device_fingerprint) && is_in_use d.status)

-- Three fresh identifiers: of the device, and the two of its token.
abbrev pub new_device : String → String → String → ℕ → RegisterParams → Device
new_device uuid left right now p = record {
  device_id = "dev-" <> uuid;
  tenant_id = p.tenant_id;
  status = active;
  platform = p.platform;
  app_version = p.app_version;
  device_fingerprint = p.device_fingerprint;
  display_name = p.display_name;
  device_token = some ("dt-" <> (left <> right));
  user_id = none;
  activation_code_id = none;
  activated_at = none;
  last_seen_at = none;
  last_model_success_at = none;
  last_error_code = none;
  credential_rotated_at = none;
  min_required_version = none;
  rollout_group = none;
  created_at = now;
}

unfoldable pub register_device :
    DeviceStore → String → String → String → ℕ → RegisterParams → DeviceStore × (Device × Bool)
register_device s uuid left right now p = elim (head? (select (same_device p) (values s.devices))) [
  | some d ↦ (s, (public_device d, true))
  | none ↦
      let d = new_device uuid left right now p in
      (record s { devices = Keyed.set d.device_id d s.devices }, (d, false))
]

abbrev pub delete_keys : List String → Keyed String → Keyed String
delete_keys [] m = m
delete_keys (k ∷ ks) m = delete_keys ks (Keyed.delete k m)

-- The loop that deletes challenges, with the entries of their hashes.
abbrev pub drop_challenges : (Challenge → Bool) → DeviceStore → DeviceStore
drop_challenges p s = record s {
  by_hash = delete_keys (map (λ c. c.code_hash) (select p (values s.challenges))) s.by_hash;
  challenges = Keyed.delete_where p s.challenges;
}

abbrev pub is_outstanding : String → Challenge → Bool
is_outstanding device c = (c.device_id =s device) && not (is_some c.consumed_at)

-- `expires_at` is `none` where the text given is no date.
unfoldable pub create_challenge :
    DeviceStore
    → ℕ
    → String
    → String
    → String
    → Option ℕ
    → Option ℕ
    → DeviceStore × Option Challenge
create_challenge s clock challenge_id device_id code_hash expires_at at =
    elim (Keyed.get device_id s.devices) [
      | none ↦ (s, none)
      | some d ↦
          if not (is_in_use d.status) || is_some d.user_id then (s, none) else elim expires_at [
            | none ↦ (s, none)
            | some expires ↦
                let now = or_else at clock in
                let s' = drop_challenges (is_outstanding d.device_id) s in
                let c : Challenge = record {
                  challenge_id = challenge_id;
                  device_id = d.device_id;
                  tenant_id = d.tenant_id;
                  code_hash = code_hash;
                  expires_at = expires;
                  consumed_at = none;
                  created_at = now;
                } in
                if leb expires now then (s, none) else (
                  record s' {
                    challenges = Keyed.set challenge_id c s'.challenges;
                    by_hash = Keyed.set code_hash challenge_id s'.by_hash;
                  },
                  some c,
                )
          ]
    ]

abbrev pub forget_challenge : Challenge → DeviceStore → DeviceStore
forget_challenge c s = record s {
  by_hash = Keyed.delete c.code_hash s.by_hash;
  challenges = Keyed.delete c.challenge_id s.challenges;
}

-- The rest of `consumeDevicePairingChallenge` for a challenge that has not expired.
unfoldable pub pair_device :
    DeviceStore → String → Challenge → String → ℕ → DeviceStore × PairingResult
pair_device s challenge_key c user now = elim (Keyed.get c.device_id s.devices) [
  | none ↦ (forget_challenge c s, not_paired device_not_found)
  | some d ↦
      let d' = record d { user_id = some user } in
      let c' = record c { consumed_at = some now } in
      if not (is_in_use d.status)
      then (s, not_paired device_revoked)
      else if is_some d.user_id
      then (s, not_paired device_already_bound)
      else (
        drop_challenges (λ x. x.device_id =s d.device_id)
            (record s {
              devices = Keyed.set c.device_id d' s.devices;
              challenges = Keyed.set challenge_key c' s.challenges;
            }),
        paired (public_device d'),
      )
]

unfoldable pub consume_challenge :
    DeviceStore → ℕ → String → String → Option ℕ → DeviceStore × PairingResult
consume_challenge s clock code_hash user at = elim (Keyed.get code_hash s.by_hash) [
  | none ↦ (s, not_paired code_invalid)
  | some id ↦ elim (Keyed.get id s.challenges) [
    | none ↦ (s, not_paired code_invalid)
    | some c ↦
        let now = or_else at clock in
        if (id =s "") || is_some c.consumed_at
        then (s, not_paired code_invalid)
        else if leb c.expires_at now
        then (forget_challenge c s, not_paired code_expired)
        else pair_device s id c user now
  ]
]

unfoldable pub bind_device : DeviceStore → String → String → DeviceStore × Option Device
bind_device s id user = elim (Keyed.get id s.devices) [
  | none ↦ (s, none)
  | some d ↦
      let d' = record d { user_id = some user } in
      (record s { devices = Keyed.set id d' s.devices }, some (public_device d'))
]

unfoldable pub update_device_version : DeviceStore → String → String → DeviceStore × Option Device
update_device_version s id version = elim (Keyed.get id s.devices) [
  | none ↦ (s, none)
  | some d ↦
      let d' = record d { app_version = version } in
      (record s { devices = Keyed.set id d' s.devices }, some (public_device d'))
]

abbrev pub assign_device : Device → DevicePatch → Device
assign_device d p = record d {
  status = or_else p.status d.status;
  last_seen_at = prefer p.last_seen_at d.last_seen_at;
  last_model_success_at = prefer p.last_model_success_at d.last_model_success_at;
  last_error_code = prefer p.last_error_code d.last_error_code;
  credential_rotated_at = prefer p.credential_rotated_at d.credential_rotated_at;
  min_required_version = prefer p.min_required_version d.min_required_version;
  rollout_group = prefer p.rollout_group d.rollout_group;
  device_token = prefer p.device_token d.device_token;
}

-- The token is returned where the patch sets it.
unfoldable pub update_device_operations :
    DeviceStore → String → DevicePatch → DeviceStore × Option Device
update_device_operations s id p = elim (Keyed.get id s.devices) [
  | none ↦ (s, none)
  | some d ↦
      let d' = assign_device d p in
      (
        record s { devices = Keyed.set id d' s.devices },
        some (if is_some p.device_token then d' else public_device d'),
      )
]
