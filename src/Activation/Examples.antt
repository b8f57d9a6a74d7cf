-- ===== src/Activation/Examples.antt =====
-- A code for one device, redeemed.
use longhub_platform.Common.{true, false, none, [], ◌∷◌, ◌≡◌, refl, arith, String-discrete}
use longhub_platform.Common.Keyed
use longhub_platform.Common.Keyed.{Keyed}
use longhub_platform.Devices.{Device, DeviceStatus}
use longhub_platform.Activation.{
  ActivationStore, CodeParams, redeemed, used, activated, new_code, redeem_activation_code,
  device_activation_status,
}
use longhub_platform.Activation.Uses.{IsCovered, creates, redeems, run, run-IsCovered}
use longhub_platform.Activation.Redeeming.{redeem_activates}

abbrev laptop : Device
laptop = record {
  device_id = "d1";
  tenant_id = "t1";
  status = DeviceStatus.active;
  platform = "darwin";
  app_version = "1.0.0";
  device_fingerprint = "f";
  display_name = none;
  device_token = none;
  user_id = none;
  activation_code_id = none;
  activated_at = none;
  last_seen_at = none;
  last_model_success_at = none;
  last_error_code = none;
  credential_rotated_at = none;
  min_required_version = none;
  rollout_group = none;
  created_at = 0;
}

abbrev params : CodeParams
params = record {
  tenant_id = "t1";
  code_hash = "h";
  code_hint = "AB";
  label = none;
  max_uses = 1;
  pack_ids = "p1" ∷ [];
  expires_at = 1000;
}

abbrev empty : ActivationStore
empty = record { devices = ("d1", laptop) ∷ []; codes = []; packs = [] }

abbrev one_code : ActivationStore
one_code = record empty { codes = ("act-1", new_code "1" 10 params) ∷ [] }

empty-IsCovered : IsCovered empty
unfolding Keyed.get
empty-IsCovered = record {
  distinct = tt;
  named = λ id c e. absurd (cc e);
  within = λ id c e. absurd (cc e);
  covered = λ id c e. absurd (cc e);
  unknown = λ id e. refl;
}

one_code-IsCovered : IsCovered one_code
unfolding Keyed.get String-discrete
one_code-IsCovered = record {
  distinct = (refl, tt);
  named = λ id c e. ground arith;
  within = λ id c e. ground arith;
  covered = λ id c e. omega arith;
  unknown = λ id e. refl;
}

run-IsCovered_example :
    IsCovered (run empty (creates "1" 10 params ∷ redeems (λ n. "e") "d1" "h" 20 ∷ []))
unfolding Keyed.get
run-IsCovered_example =
    run-IsCovered empty (creates "1" 10 params ∷ redeems (λ n. "e") "d1" "h" 20 ∷ [])
      (refl, (tt, tt)) empty-IsCovered

taken :
    (redeem_activation_code one_code (λ n. "e") "d1" "h" 20).1
    ≡ redeemed (used (new_code "1" 10 params)) (activated laptop (new_code "1" 10 params) 20) false
unfolding redeem_activation_code Keyed.get String-discrete
taken = refl

redeem_activates_example :
    (device_activation_status
      (redeem_activation_code one_code (λ n. "e") "d1" "h" 20).0
      (activated laptop (new_code "1" 10 params) 20)
      500).is_activated
    ≡ true
unfolding String-discrete
redeem_activates_example =
    redeem_activates one_code (λ n. "e") "d1" "h" 20 500 (used (new_code "1" 10 params))
      (activated laptop (new_code "1" 10 params) 20) false one_code-IsCovered.distinct
      one_code-IsCovered.named taken (λ e. cc e) (omega arith)
