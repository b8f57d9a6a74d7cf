-- ===== src/Devices/Examples.antt =====
-- A device that is paired with an account, with the theorem on pairing at it.
use longhub_platform.Common.{none, some, List, [], ◌∷◌, ◌≡◌, refl, arith, String-discrete}
use longhub_platform.Common.Keyed
use longhub_platform.Devices.{
  Device, DeviceStore, Challenge, active, paired, public_device, create_challenge,
  consume_challenge, pair_device,
}
use longhub_platform.Devices.Steps.{consumes, reports, run, Call}
use longhub_platform.Devices.Pairing.{IsNamed, paired_for_good}

abbrev desk : Device
desk = record {
  device_id = "dev-a";
  tenant_id = "acme";
  status = active;
  platform = "windows";
  app_version = "1.0.0";
  device_fingerprint = "f1";
  display_name = none;
  device_token = some "dt-a";
  user_id = none;
  activation_code_id = none;
  activated_at = none;
  last_seen_at = none;
  last_model_success_at = none;
  last_error_code = none;
  credential_rotated_at = none;
  min_required_version = none;
  rollout_group = none;
  created_at = 1;
}

abbrev fresh : DeviceStore
fresh = record { devices = ("dev-a", desk) ∷ []; challenges = []; by_hash = [] }

abbrev challenge : Challenge
challenge = record {
  challenge_id = "ch-1";
  device_id = "dev-a";
  tenant_id = "acme";
  code_hash = "h1";
  expires_at = 500;
  consumed_at = none;
  created_at = 100;
}

abbrev waiting : DeviceStore
waiting = record fresh { challenges = ("ch-1", challenge) ∷ []; by_hash = ("h1", "ch-1") ∷ [] }

challenged :
    create_challenge fresh 100 "ch-1" "dev-a" "h1" (some 500) none ≡ (waiting, some challenge)
unfolding create_challenge Keyed.get Keyed.set Keyed.delete_where String-discrete
challenged = refl

abbrev paired_desk : Device
paired_desk = public_device (record desk { user_id = some "u1" })

consumed : (consume_challenge waiting 200 "h1" "u1" none).1 ≡ paired paired_desk
unfolding consume_challenge pair_device Keyed.get String-discrete
consumed = refl

waiting-IsNamed : IsNamed waiting
unfolding Keyed.get
waiting-IsNamed id d h = ground arith

-- Another account tries the same code.
abbrev later : List Call
later = consumes 300 "h1" "u2" none ∷ reports "dev-a" "1.1.0" ∷ []

paired_for_good_example :
    (u : Device) × (Keyed.get "dev-a"
        (run (consume_challenge waiting 200 "h1" "u1" none).0 later).devices
      ≡ some u)
    × (u.user_id ≡ some "u1")
    × (create_challenge
          (run (consume_challenge waiting 200 "h1" "u1" none).0 later)
          400
          "ch-2"
          "dev-a"
          "h2"
          (some 900)
          none
        ≡ (run (consume_challenge waiting 200 "h1" "u1" none).0 later, none))
paired_for_good_example =
    paired_for_good waiting 200 "h1" "u1" none paired_desk later 400 "ch-2" "h2" (some 900) none
      waiting-IsNamed consumed (refl, (refl, tt))
