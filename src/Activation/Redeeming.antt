-- ===== src/Activation/Redeeming.antt =====
-- What a redemption of `MemoryStore` in apps/longhub-cloud-api/src/memory-store.ts means for
-- `deviceActivationStatus` of apps/longhub-cloud-api/src/activation-code.ts.
use longhub_platform.Common.{
  ℕ, ◌<◌, String, Bool, true, false, Option, some, ◌≡◌, ◌≢◌, refl, sym, ap, ◌∙◌, inl, inr, arith,
  ◌=s◌, same_option, filled,
}
use longhub_platform.Common.Keyed
use longhub_platform.Common.Keyed.{Distinct}
use longhub_platform.Devices.{Device}
use longhub_platform.Activation.{
  ActivationCode, ActivationStore, redeemed, redeem_activation_code, device_activation_status,
  is_available, is_usable_status, used, activated,
}
use longhub_platform.Activation.Uses.{redeem_outcomes, find-stored}

-- The code of a device, found and in time.
active-status :
    (s : ActivationStore) (d : Device) (c : ActivationCode) (now : ℕ)
    → c.activation_code_id ≢ ""
    → d.activation_code_id ≡ some c.activation_code_id
    → Keyed.get c.activation_code_id s.codes ≡ some c
    → is_usable_status c.status ≡ true
    → now < c.expires_at
    → (device_activation_status s d now).is_activated ≡ true
unfolding device_activation_status
active-status s d c now filled_in under stored usable in_time =
    let id : filled (some c.activation_code_id) ≡ some c.activation_code_id = ground arith in
    rw (under, device_activation_status) (rw id (rw stored (ground arith)))

usable :
    (d : Device) (c : ActivationCode) (now : ℕ)
    → is_available d c now ≡ true
    → is_usable_status c.status ≡ true
usable d c now h = ground arith

same-eq : (o : Option String) (a : String) → same_option o (some a) ≡ true → o ≡ some a
same-eq o a h = ground arith

-- A redemption activates: where a code is redeemed for a device, now or before, the device that is
-- returned is activated in the store that is left, at every time before the code runs out. Codes
-- stand once, each under its own name, and the code that is returned has a name that is not empty.
pub redeem_activates :
    (s : ActivationStore) (uuids : ℕ → String) (device hash : String) (now later : ℕ)
    (c : ActivationCode) (d : Device) (already : Bool)
    → Distinct s.codes
    → ((id : String) (x : ActivationCode)
        → Keyed.get id s.codes ≡ some x
        → x.activation_code_id ≡ id)
    → (redeem_activation_code s uuids device hash now).1 ≡ redeemed c d already
    → c.activation_code_id ≢ ""
    → later < c.expires_at
    → (device_activation_status
        (redeem_activation_code s uuids device hash now).0
        d
        later).is_activated
      ≡ true
redeem_activates s uuids device hash now later c d already distinct named done filled_in in_time =
    elim (redeem_outcomes s uuids device hash now) [
      | inl refused ↦ absurd (cc (rw refused at done))
      | inr (inl refused) ↦ absurd (cc (rw refused at done))
      | inr (inr (d0, c0, found, hit, available, way)) ↦
          let (k, stored) =
            find-stored (λ (x : ActivationCode). x.code_hash =s hash) s.codes c0 distinct hit in
          let name : c0.activation_code_id ≡ k = named k c0 stored in
          let row : Keyed.get c0.activation_code_id s.codes ≡ some c0 =
            ap (λ (j : String). Keyed.get j s.codes) name ∙ stored in
          elim way [
            | inl (same, ran) ↦
                let e : redeemed c0 d0 true ≡ redeemed c d already = rw ran at done in
                let ec : c0 ≡ c = cc e in
                let ed : d0 ≡ d = cc e in
                rw (ran, sym ed)
                  (active-status s d0 c0 later (rw ec filled_in) (same-eq _ _ same) row
                    (usable d0 c0 now available) (rw ec in_time))
            | inr (_, _, ran) ↦
                let e : redeemed (used c0) (activated d0 c0 now) false ≡ redeemed c d already =
                  rw ran at done in
                let ec : used c0 ≡ c = cc e in
                let eid : c0.activation_code_id ≡ c.activation_code_id =
                  ap (λ (x : ActivationCode). x.activation_code_id) ec in
                let ending : c0.expires_at ≡ c.expires_at =
                  ap (λ (x : ActivationCode). x.expires_at) ec in
                let ed : activated d0 c0 now ≡ d = cc e in
                rw (ran, sym ed)
                  (active-status _ (activated d0 c0 now) (used c0) later (rw eid filled_in) refl
                    (Keyed.get-set_self c0.activation_code_id (used c0) s.codes)
                    (usable d0 c0 now available) (rw ending in_time))
          ]
    ]
