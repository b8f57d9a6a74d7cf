-- ===== src/Devices/Pairing.antt =====
-- A device is paired at most once: the pairing methods of
-- apps/longhub-cloud-api/src/memory-store.ts against all later calls.
use Prim.Native.String.{◌++◌ as ◌<>◌}
use longhub_platform.Common.{
  ℕ, String, Bool, true, not, Option, none, some, List, [], ◌∷◌, ◌≡◌, refl, ◌∙◌, sym, ap, ◌≢◌, inl,
  inr, arith, All, ◌=s◌, Bool-cases,
}
use longhub_platform.Common.Keyed
use longhub_platform.Common.Keyed.{values}
use longhub_platform.Devices.{
  Device, DeviceStore, paired, create_challenge, consume_challenge, assign_device, public_device,
}
use longhub_platform.Devices.Steps.{
  Call, registers, challenges, consumes, binds, reports, operates, step, run, challenge-devices,
  consume_cases, register_cases, bind_device_cases, update_device_version_cases,
  update_device_operations_cases,
}

-- Does a call neither bind the device by hand nor register a new device under its identifier?
abbrev pub leaves : String → Call → Bool
leaves id (registers uuid left right now p) = not (("dev-" <> uuid) =s id)
leaves id (binds id' user) = not (id' =s id)
leaves id _ = true

-- The device stands in the store, bound to the user.
pub record IsBound (id user : String) (s : DeviceStore) : Type 0 where
  pub device : Device
  pub found : Keyed.get id s.devices ≡ some device
  pub bound : device.user_id ≡ some user

-- Each device stands under its own identifier.
abbrev pub IsNamed : DeviceStore → Type 0
IsNamed s = (id : String) (d : Device) → Keyed.get id s.devices ≡ some d → d.device_id ≡ id

IsBound-same :
    (id user : String) (s s' : DeviceStore)
    → s'.devices ≡ s.devices
    → IsBound id user s
    → IsBound id user s'
IsBound-same id user s s' e v = record { device = v.device; found = rw e v.found; bound = v.bound }

IsBound-elsewhere :
    (id user k : String) (d : Device) (s s' : DeviceStore)
    → k ≢ id
    → s'.devices ≡ Keyed.set k d s.devices
    → IsBound id user s
    → IsBound id user s'
IsBound-elsewhere id user k d s s' apart e v = record {
  device = v.device;
  found = rw e (Keyed.get-set_ne k id d s.devices apart ∙ v.found);
  bound = v.bound;
}

-- A write that keeps the user of the device.
IsBound-write :
    (id user k : String) (d d' : Device) (s s' : DeviceStore)
    → Keyed.get k s.devices ≡ some d
    → d'.user_id ≡ d.user_id
    → s'.devices ≡ Keyed.set k d' s.devices
    → IsBound id user s
    → IsBound id user s'
IsBound-write id user k d d' s s' found same e v = elim (Bool-cases (k =s id)) [
  | inl here ↦
      let key : k ≡ id = ground arith in
      let both : some d ≡ some v.device =
        sym found ∙ ap (λ (j : String). Keyed.get j s.devices) key ∙ v.found in
      let row : d ≡ v.device = cc in
      record {
        device = d';
        found = rw (e, key) (Keyed.get-set_self id d' s.devices);
        bound = same ∙ ap (λ (x : Device). x.user_id) row ∙ v.bound;
      }
  | inr there ↦ IsBound-elsewhere id user k d' s s' (λ (key : k ≡ id). absurd (ground arith)) e v
]

step-IsBound :
    (id user : String) (s : DeviceStore) (c : Call)
    → leaves id c ≡ true
    → IsBound id user s
    → IsBound id user (step s c)
unfolding step
step-IsBound id user s (registers uuid left right now p) h v =
    elim (register_cases s uuid left right now p) [
      | inl e ↦ IsBound-same id user s _ (ap (λ (x : DeviceStore). x.devices) e) v
      | inr (d, e) ↦
          IsBound-elsewhere id user ("dev-" <> uuid) d s _
            (λ (key : ("dev-" <> uuid) ≡ id). absurd (ground arith)) e v
    ]
step-IsBound id user s (challenges clock challenge device hash expires at) h v =
    IsBound-same id user s _ (challenge-devices s clock challenge device hash expires at) v
step-IsBound id user s (consumes clock hash user' at) h v =
    elim (consume_cases s clock hash user' at) [
      | inl (same, _) ↦ IsBound-same id user s _ same v
      | inr (k, d, found, free, wrote, _) ↦
          let apart : k ≢ id = λ key.
            let both : some d ≡ some v.device =
              sym found ∙ ap (λ (j : String). Keyed.get j s.devices) key ∙ v.found in
            let row : d ≡ v.device = cc in
            let bound : none ≡ some user =
              sym free ∙ ap (λ (x : Device). x.user_id) row ∙ v.bound in
            cc bound in
          IsBound-elsewhere id user k (record d { user_id = some user' }) s _ apart wrote v
    ]
step-IsBound id user s (binds id' user') h v = elim (bind_device_cases s id' user') [
  | inl same ↦ IsBound-same id user s _ same v
  | inr (d, found, wrote) ↦
      IsBound-elsewhere id user id' (record d { user_id = some user' }) s _
        (λ (key : id' ≡ id). absurd (ground arith)) wrote v
]
step-IsBound id user s (reports id' version) h v =
    elim (update_device_version_cases s id' version) [
      | inl same ↦ IsBound-same id user s _ same v
      | inr (d, found, wrote) ↦
          IsBound-write id user id' d (record d { app_version = version }) s _ found refl wrote v
    ]
step-IsBound id user s (operates id' p) h v = elim (update_device_operations_cases s id' p) [
  | inl same ↦ IsBound-same id user s _ same v
  | inr (d, found, wrote) ↦ IsBound-write id user id' d (assign_device d p) s _ found refl wrote v
]

run-IsBound :
    (id user : String) (s : DeviceStore) (cs : List Call)
    → All (λ c. leaves id c ≡ true) cs
    → IsBound id user s
    → IsBound id user (run s cs)
unfolding run
run-IsBound id user s [] h v = v
run-IsBound id user s (c ∷ cs) h v =
    run-IsBound id user (step s c) cs h.1 (step-IsBound id user s c h.0 v)

consumed-IsBound :
    (s : DeviceStore) (clock : ℕ) (hash user : String) (at : Option ℕ) (d : Device)
    → IsNamed s
    → (consume_challenge s clock hash user at).1 ≡ paired d
    → IsBound d.device_id user (consume_challenge s clock hash user at).0
consumed-IsBound s clock hash user at d n h = elim (consume_cases s clock hash user at) [
  | inl (_, refused) ↦ absurd (refused d h)
  | inr (k, e, found, free, wrote, result) ↦
      let both : paired d ≡ paired (public_device (record e { user_id = some user })) =
        sym h ∙ result in
      let same : d ≡ public_device (record e { user_id = some user }) = cc in
      let name : d.device_id ≡ k = ap (λ (x : Device). x.device_id) same ∙ n k e found in
      record {
        device = record e { user_id = some user };
        found =
            rw (wrote, name) (Keyed.get-set_self k (record e { user_id = some user }) s.devices);
        bound = refl;
      }
]

bound_no_challenge :
    (id user : String) (s : DeviceStore) (clock : ℕ) (challenge hash : String)
    (expires at : Option ℕ)
    → IsBound id user s
    → create_challenge s clock challenge id hash expires at ≡ (s, none)
unfolding create_challenge
bound_no_challenge id user s clock challenge hash expires at v =
    rw (v.found, create_challenge) (ground (arith, v.bound))

-- A pairing code has bound a device to a user. Whatever calls follow, other than binding the device
-- by hand and a registration under its identifier, the device stays bound to that user, and no
-- further pairing challenge is made for it. Each device of the store stands under its identifier.
pub paired_for_good :
    (s : DeviceStore) (clock : ℕ) (hash user : String) (at : Option ℕ) (d : Device) (cs : List Call)
    (clock' : ℕ) (challenge hash' : String) (expires at' : Option ℕ)
    → IsNamed s
    → (consume_challenge s clock hash user at).1 ≡ paired d
    → All (λ c. leaves d.device_id c ≡ true) cs
    → let s' = run (consume_challenge s clock hash user at).0 cs in
      (u : Device) × (Keyed.get d.device_id s'.devices ≡ some u)
      × (u.user_id ≡ some user)
      × (create_challenge s' clock' challenge d.device_id hash' expires at' ≡ (s', none))
paired_for_good s clock hash user at d cs clock' challenge hash' expires at' n h l =
    let v =
      run-IsBound d.device_id user (consume_challenge s clock hash user at).0 cs l
        (consumed-IsBound s clock hash user at d n h) in
    (
      v.device,
      v.found,
      v.bound,
      bound_no_challenge d.device_id user _ clock' challenge hash' expires at' v,
    )
