-- ===== src/Devices/Steps.antt =====
-- What each call does to the devices of apps/longhub-cloud-api/src/memory-store.ts.
use Prim.Native.String.{◌++◌ as ◌<>◌}
use longhub_platform.Common.{
  ℕ, String, Option, none, some, List, [], ◌∷◌, ◌≡◌, refl, ◌≢◌, ◌⊎◌, inl, inr, arith, ◌=s◌,
  Bool-cases, Option-cases, is_some, head?, select, leb, ◌||◌, or_else,
}
use longhub_platform.Common.Keyed
use longhub_platform.Common.Keyed.{values}
use longhub_platform.Devices.{
  Device, DeviceStore, Challenge, DevicePatch, RegisterParams, paired, register_device,
  create_challenge, consume_challenge, pair_device, bind_device, update_device_version,
  update_device_operations, assign_device, same_device, new_device, is_in_use, public_device,
}

-- A call, with its fresh identifiers and clock.
pub data Call : Type 0 where
  registers : String → String → String → ℕ → RegisterParams → Call
  challenges : ℕ → String → String → String → Option ℕ → Option ℕ → Call
  consumes : ℕ → String → String → Option ℕ → Call
  binds : String → String → Call
  reports : String → String → Call
  operates : String → DevicePatch → Call

unfoldable pub step : DeviceStore → Call → DeviceStore
step s (registers uuid left right now p) = (register_device s uuid left right now p).0
step s (challenges clock challenge device hash expires at) =
    (create_challenge s clock challenge device hash expires at).0
step s (consumes clock hash user at) = (consume_challenge s clock hash user at).0
step s (binds id user) = (bind_device s id user).0
step s (reports id version) = (update_device_version s id version).0
step s (operates id p) = (update_device_operations s id p).0

unfoldable pub run : DeviceStore → List Call → DeviceStore
run s [] = s
run s (c ∷ cs) = run (step s c) cs

pub challenge-devices :
    (s : DeviceStore) (clock : ℕ) (challenge device hash : String) (expires at : Option ℕ)
    → (create_challenge s clock challenge device hash expires at).0.devices ≡ s.devices
unfolding create_challenge
challenge-devices s clock challenge device hash expires at =
    elim (Option-cases (Keyed.get device s.devices)) [
      | inl e ↦ rw (e, create_challenge)
      | inr (d, e) ↦ elim (Option-cases expires) [
        | inl e' ↦ rw (e, create_challenge) (rw e' (ground arith))
        | inr (t, e') ↦ rw (e, create_challenge) (rw e' (ground arith))
      ]
    ]

-- Pairing writes no device, or takes one that is not bound.
pair_cases :
    (s : DeviceStore) (key : String) (c : Challenge) (user : String) (now : ℕ)
    → (((pair_device s key c user now).0.devices ≡ s.devices)
        × ((d : Device) → (pair_device s key c user now).1 ≢ paired d))
      ⊎ ((d : Device) × (Keyed.get c.device_id s.devices ≡ some d)
          × (d.user_id ≡ none)
          × ((pair_device s key c user now).0.devices
              ≡ Keyed.set c.device_id (record d { user_id = some user }) s.devices)
          × ((pair_device s key c user now).1
              ≡ paired (public_device (record d { user_id = some user }))))
unfolding pair_device
pair_cases s key c user now = elim (Option-cases (Keyed.get c.device_id s.devices)) [
  | inl e ↦ inl (rw (e, pair_device) (refl, λ d h. cc))
  | inr (d, e) ↦ elim (Bool-cases (is_in_use d.status)) [
    | inr off ↦ inl (rw (e, pair_device) (rw off (refl, λ d h. cc)))
    | inl on ↦ elim (Option-cases d.user_id) [
      | inr (u, e') ↦ inl (rw (e, pair_device) (rw on (rw e' (refl, λ d h. cc))))
      | inl e' ↦ inr (
        d,
        e,
        e',
        rw (e, pair_device) (rw on (rw e' refl)),
        rw (e, pair_device) (rw on (rw e' refl)),
      )
    ]
  ]
]

-- A call of the consumption that pairs has found the device unbound.
pub consume_cases :
    (s : DeviceStore) (clock : ℕ) (hash user : String) (at : Option ℕ)
    → (((consume_challenge s clock hash user at).0.devices ≡ s.devices)
        × ((d : Device) → (consume_challenge s clock hash user at).1 ≢ paired d))
      ⊎ ((k : String) × (d : Device) × (Keyed.get k s.devices ≡ some d)
          × (d.user_id ≡ none)
          × ((consume_challenge s clock hash user at).0.devices
              ≡ Keyed.set k (record d { user_id = some user }) s.devices)
          × ((consume_challenge s clock hash user at).1
              ≡ paired (public_device (record d { user_id = some user }))))
unfolding consume_challenge
consume_cases s clock hash user at = elim (Option-cases (Keyed.get hash s.by_hash)) [
  | inl e ↦ inl (rw (e, consume_challenge) (refl, λ d h. cc))
  | inr (id, e) ↦ elim (Option-cases (Keyed.get id s.challenges)) [
    | inl e' ↦ inl (rw (e, consume_challenge) (rw e' (refl, λ d h. cc)))
    | inr (c, e') ↦ elim (Bool-cases ((id =s "") || is_some c.consumed_at)) [
      | inl used ↦ inl (rw (e, consume_challenge) (rw e' (rw used (refl, λ d h. cc))))
      | inr good ↦ elim (Bool-cases (leb c.expires_at (or_else at clock))) [
        | inl late ↦ inl (rw (e, consume_challenge) (rw e' (rw good (rw late (refl, λ d h. cc)))))
        | inr early ↦ elim (pair_cases s id c user (or_else at clock)) [
          | inl (same, none_paired) ↦
              inl (rw (e, consume_challenge) (rw e' (rw good (rw early (same, none_paired)))))
          | inr (d, found, free, wrote, result) ↦ inr (
            c.device_id,
            d,
            found,
            free,
            rw (e, consume_challenge) (rw e' (rw good (rw early wrote))),
            rw (e, consume_challenge) (rw e' (rw good (rw early result))),
          )
        ]
      ]
    ]
  ]
]

pub register_cases :
    (s : DeviceStore) (uuid left right : String) (now : ℕ) (p : RegisterParams)
    → ((register_device s uuid left right now p).0 ≡ s)
      ⊎ ((d : Device) × ((register_device s uuid left right now p).0.devices
            ≡ Keyed.set ("dev-" <> uuid) d s.devices))
unfolding register_device
register_cases s uuid left right now p =
    elim (Option-cases (head? (select (same_device p) (values s.devices)))) [
      | inr (d, e) ↦ inl (rw (e, register_device))
      | inl e ↦ inr (new_device uuid left right now p, rw (e, register_device) refl)
    ]

pub bind_device_cases :
    (s : DeviceStore) (id user : String)
    → ((bind_device s id user).0.devices ≡ s.devices)
      ⊎ ((d : Device) × (Keyed.get id s.devices ≡ some d)
          × ((bind_device s id user).0.devices
              ≡ Keyed.set id (record d { user_id = some user }) s.devices))
unfolding bind_device
bind_device_cases s id user = elim (Option-cases (Keyed.get id s.devices)) [
  | inl e ↦ inl (rw (e, bind_device) refl)
  | inr (d, e) ↦ inr (d, e, rw (e, bind_device) refl)
]

pub update_device_version_cases :
    (s : DeviceStore) (id version : String)
    → ((update_device_version s id version).0.devices ≡ s.devices)
      ⊎ ((d : Device) × (Keyed.get id s.devices ≡ some d)
          × ((update_device_version s id version).0.devices
              ≡ Keyed.set id (record d { app_version = version }) s.devices))
unfolding update_device_version
update_device_version_cases s id version = elim (Option-cases (Keyed.get id s.devices)) [
  | inl e ↦ inl (rw (e, update_device_version) refl)
  | inr (d, e) ↦ inr (d, e, rw (e, update_device_version) refl)
]

pub update_device_operations_cases :
    (s : DeviceStore) (id : String) (p : DevicePatch)
    → ((update_device_operations s id p).0.devices ≡ s.devices)
      ⊎ ((d : Device) × (Keyed.get id s.devices ≡ some d)
          × ((update_device_operations s id p).0.devices
              ≡ Keyed.set id (assign_device d p) s.devices))
unfolding update_device_operations
update_device_operations_cases s id p = elim (Option-cases (Keyed.get id s.devices)) [
  | inl e ↦ inl (rw (e, update_device_operations) refl)
  | inr (d, e) ↦ inr (d, e, rw (e, update_device_operations) refl)
]
