-- ===== src/Activation/Uses.antt =====
-- How many devices a code activates: the methods of activation codes in
-- apps/longhub-cloud-api/src/memory-store.ts against the limit of a code.
use Prim.Native.String.{◌++◌ as ◌<>◌}
use longhub_platform.Common.{
  ℕ, suc, ◌+◌, ◌≤◌, ◌<◌, String, Bool, true, false, none, some, List, [], ◌∷◌, ◌≡◌, refl, sym, ap,
  ◌∙◌, ◌⊎◌, inl, inr, arith, ◌=s◌, =s_iff, =s_refl, Bool-cases, Option-cases, select, head?,
  same_option, leb, count, bit,
}
use longhub_platform.Common.Keyed
use longhub_platform.Common.Keyed.{Keyed, values, Distinct, Distinct-set}
use longhub_platform.Devices.{Device}
use longhub_platform.Activation.{
  ActivationCode, ActivationStore, CodeParams, redeemed, device_not_found, code_unavailable,
  revoked, new_code, create_activation_code, revoke_activation_code, redeem_activation_code,
  take_code, used, activated, is_available,
}

abbrev pub is_bound : String → Device → Bool
is_bound id d = same_option d.activation_code_id (some id)

-- How many devices stand under a code.
abbrev pub bound : String → Keyed Device → ℕ
bound id devices = count (is_bound id) (values devices)

-- Codes stand once, each under its own name; no code has more devices than uses, or more uses than
-- its limit; and no device stands under a code that is not there.
pub record IsCovered (s : ActivationStore) : Type 0 where
  pub distinct : Distinct s.codes
  pub named :
      (id : String) (c : ActivationCode) → Keyed.get id s.codes ≡ some c → c.activation_code_id ≡ id
  pub within :
      (id : String) (c : ActivationCode) → Keyed.get id s.codes ≡ some c → c.use_count ≤ c.max_uses
  pub covered :
      (id : String) (c : ActivationCode)
      → Keyed.get id s.codes ≡ some c
      → bound id s.devices ≤ c.use_count
  pub unknown : (id : String) → Keyed.get id s.codes ≡ none → bound id s.devices ≡ 0

pub find-stored :
    (p : ActivationCode → Bool) (m : Keyed ActivationCode) (c : ActivationCode)
    → Distinct m
    → head? (select p (values m)) ≡ some c
    → (k : String) × (Keyed.get k m ≡ some c)
unfolding Keyed.get
find-stored p [] c d h = absurd (cc h)
find-stored p ((k, v) ∷ m) c d h = elim (Bool-cases (p v)) [
  | inl hit ↦ let e : some v ≡ some c = rw hit at h in (k, ground arith)
  | inr miss ↦ let (k', found) = find-stored p m c d.1 (rw miss at h) in (k', ground (arith, d.0))
]

-- A redemption is refused, finds the device under the code, or lets the device take a code that has
-- a use left.
pub redeem_outcomes :
    (s : ActivationStore) (uuids : ℕ → String) (device hash : String) (now : ℕ)
    → (redeem_activation_code s uuids device hash now ≡ (s, device_not_found))
      ⊎ ((redeem_activation_code s uuids device hash now ≡ (s, code_unavailable))
          ⊎ ((d : Device) × (c : ActivationCode) × (Keyed.get device s.devices ≡ some d)
              × (head? (select (λ (x : ActivationCode). x.code_hash =s hash) (values s.codes))
                  ≡ some c)
              × (is_available d c now ≡ true)
              × (((same_option d.activation_code_id (some c.activation_code_id) ≡ true)
                    × (redeem_activation_code s uuids device hash now ≡ (s, redeemed c d true)))
                  ⊎ ((same_option d.activation_code_id (some c.activation_code_id) ≡ false)
                      × (c.use_count < c.max_uses)
                      × (redeem_activation_code s uuids device hash now
                          ≡ take_code s uuids device d c now)))))
unfolding redeem_activation_code
redeem_outcomes s uuids device hash now = elim (Option-cases (Keyed.get device s.devices)) [
  | inl e ↦ inl (rw (e, redeem_activation_code) refl)
  | inr (d, e) ↦
      elim (Option-cases
        (head? (select (λ (x : ActivationCode). x.code_hash =s hash) (values s.codes)))) [
          | inl g ↦ inr (inl (rw (e, redeem_activation_code) (rw g refl)))
          | inr (c, g) ↦ elim (Bool-cases (is_available d c now)) [
            | inr a ↦ inr (inl (rw (e, redeem_activation_code) (rw g (rw a refl))))
            | inl a ↦
                elim (Bool-cases (same_option d.activation_code_id (some c.activation_code_id))) [
                  | inl b ↦ inr (
                      inr (
                        d,
                        c,
                        e,
                        g,
                        a,
                        inl (b, rw (e, redeem_activation_code) (rw g (rw (a, b) refl))),
                      ))
                  | inr b ↦ elim (Bool-cases (leb c.max_uses c.use_count)) [
                    | inl full ↦
                        inr (inl (rw (e, redeem_activation_code) (rw g (rw (a, b, full) refl))))
                    | inr free ↦ inr (
                        inr (
                          d,
                          c,
                          e,
                          g,
                          a,
                          inr (
                            b,
                            ground arith,
                            rw (e, redeem_activation_code) (rw g (rw (a, b, free) refl)),
                          ),
                        ))
                  ]
                ]
          ]
        ]
]

-- The devices of the code that is taken, and of another.
bound-own :
    (devices : Keyed Device) (device : String) (d : Device) (c : ActivationCode) (now : ℕ)
    → Keyed.get device devices ≡ some d
    → same_option d.activation_code_id (some c.activation_code_id) ≡ false
    → bound c.activation_code_id (Keyed.set device (activated d c now) devices)
      ≡ suc (bound c.activation_code_id devices)
bound-own devices device d c now found other =
    let moved =
      Keyed.count-set_old (is_bound c.activation_code_id) device (activated d c now) d devices
        found in
    let moved' : bound c.activation_code_id (Keyed.set device (activated d c now) devices) + 0
        ≡ bound c.activation_code_id devices + 1 =
      rw (other, =s_refl c.activation_code_id) at moved in
    omega arith

bound-other :
    (devices : Keyed Device) (device id : String) (d : Device) (c : ActivationCode) (now : ℕ)
    → Keyed.get device devices ≡ some d
    → (c.activation_code_id =s id) ≡ false
    → bound id (Keyed.set device (activated d c now) devices) ≤ bound id devices
bound-other devices device id d c now found other =
    let moved = Keyed.count-set_old (is_bound id) device (activated d c now) d devices found in
    let moved' : bound id (Keyed.set device (activated d c now) devices)
          + bit (same_option d.activation_code_id (some id))
        ≡ bound id devices + 0 =
      rw other at moved in
    omega arith

-- The devices and codes after a code is taken.
taken-IsCovered :
    (s : ActivationStore) (device : String) (d : Device) (c : ActivationCode) (now : ℕ)
    (packs : Keyed _)
    → IsCovered s
    → Keyed.get device s.devices ≡ some d
    → Keyed.get c.activation_code_id s.codes ≡ some c
    → same_option d.activation_code_id (some c.activation_code_id) ≡ false
    → c.use_count < c.max_uses
    → IsCovered (record {
      devices = Keyed.set device (activated d c now) s.devices;
      codes = Keyed.set c.activation_code_id (used c) s.codes;
      packs = packs;
    })
taken-IsCovered s device d c now packs v found stored other free = record {
  distinct = Distinct-set c.activation_code_id (used c) s.codes v.distinct;
  named = λ id x e.
      ground (arith, Keyed.get-set c.activation_code_id id (used c) s.codes, v.named id x);
  within = λ id x e.
      ground (arith, Keyed.get-set c.activation_code_id id (used c) s.codes, v.within id x);
  covered = λ id x e. elim (Bool-cases (c.activation_code_id =s id)) [
    | inl same ↦
        let k : c.activation_code_id ≡ id = (=s_iff c.activation_code_id id).0 same in
        let row : some (used c) ≡ some x =
          sym (Keyed.get-set_self c.activation_code_id (used c) s.codes)
          ∙ ap (λ (j : String). Keyed.get j (Keyed.set c.activation_code_id (used c) s.codes)) k
          ∙ e in
        let uses : used c ≡ x = cc row in
        let before = v.covered c.activation_code_id c stored in
        let more = bound-own s.devices device d c now found other in
        rw (sym k, sym uses) (omega arith)
    | inr different ↦
        let old : Keyed.get id s.codes ≡ some x =
          rw (Keyed.get-set c.activation_code_id id (used c) s.codes, different) at e in
        let before = v.covered id x old in
        let less = bound-other s.devices device id d c now found different in omega arith
  ];
  unknown = λ id e. elim (Bool-cases (c.activation_code_id =s id)) [
    | inl same ↦
        absurd (cc (rw (Keyed.get-set c.activation_code_id id (used c) s.codes, same) at e))
    | inr different ↦
        let old : Keyed.get id s.codes ≡ none =
          rw (Keyed.get-set c.activation_code_id id (used c) s.codes, different) at e in
        let before = v.unknown id old in
        let less = bound-other s.devices device id d c now found different in omega arith
  ];
}

-- A code that is rewritten in its place, with the same uses.
rewritten-IsCovered :
    (s : ActivationStore) (id : String) (c c' : ActivationCode)
    → IsCovered s
    → Keyed.get id s.codes ≡ some c
    → c'.activation_code_id ≡ c.activation_code_id
    → c'.use_count ≡ c.use_count
    → c'.max_uses ≡ c.max_uses
    → IsCovered (record s { codes = Keyed.set id c' s.codes })
rewritten-IsCovered s id c c' v found same uses limit = record {
  distinct = Distinct-set id c' s.codes v.distinct;
  named = λ j x e. ground (arith, Keyed.get-set id j c' s.codes, v.named j x, v.named id c found);
  within =
      λ j x e. ground (arith, Keyed.get-set id j c' s.codes, v.within j x, v.within id c found);
  covered =
      λ j x e. ground (arith, Keyed.get-set id j c' s.codes, v.covered j x, v.covered id c found);
  unknown = λ j e. ground (arith, Keyed.get-set id j c' s.codes, v.unknown j);
}

-- A call on codes, with its fresh identifiers and clock.
pub data Call : Type 0 where
  creates : String → ℕ → CodeParams → Call
  revokes : String → Call
  redeems : (ℕ → String) → String → String → ℕ → Call

unfoldable pub step : ActivationStore → Call → ActivationStore
step s (creates uuid now p) = (create_activation_code s uuid now p).0
step s (revokes id) = (revoke_activation_code s id).0
step s (redeems uuids device hash now) = (redeem_activation_code s uuids device hash now).0

unfoldable pub run : ActivationStore → List Call → ActivationStore
run s [] = s
run s (c ∷ cs) = run (step s c) cs

-- The identifier of a new code is not in use.
abbrev pub Draws : ActivationStore → Call → Type 0
Draws s (creates uuid now p) = Keyed.get ("act-" <> uuid) s.codes ≡ none
Draws s _ = Unit

abbrev pub DrawsAll : ActivationStore → List Call → Type 0
DrawsAll s [] = Unit
DrawsAll s (c ∷ cs) = Draws s c × DrawsAll (step s c) cs

revoke-IsCovered :
    (s : ActivationStore) (id : String) → IsCovered s → IsCovered (revoke_activation_code s id).0
unfolding revoke_activation_code
revoke-IsCovered s id v = elim (Option-cases (Keyed.get id s.codes)) [
  | inl e ↦ rw (e, revoke_activation_code) v
  | inr (c, e) ↦
      rw (e, revoke_activation_code)
        (rewritten-IsCovered s id c (record c { status = revoked }) v e refl refl refl)
]

redeem-IsCovered :
    (s : ActivationStore) (uuids : ℕ → String) (device hash : String) (now : ℕ)
    → IsCovered s
    → IsCovered (redeem_activation_code s uuids device hash now).0
redeem-IsCovered s uuids device hash now v = elim (redeem_outcomes s uuids device hash now) [
  | inl same ↦ rw same v
  | inr (inl same) ↦ rw same v
  | inr (inr (d, c, _, _, _, inl (_, same))) ↦ rw same v
  | inr (inr (d, c, found, hit, _, inr (other, free, ran))) ↦
      let (k, stored) =
        find-stored (λ (x : ActivationCode). x.code_hash =s hash) s.codes c v.distinct hit in
      let name : c.activation_code_id ≡ k = v.named k c stored in
      rw ran (
        taken-IsCovered s device d c now _ v found
          (ap (λ (j : String). Keyed.get j s.codes) name ∙ stored) other free)
]

step-IsCovered : (s : ActivationStore) (c : Call) → Draws s c → IsCovered s → IsCovered (step s c)
unfolding step create_activation_code
step-IsCovered s (creates uuid now p) fresh v =
    let c' = new_code uuid now p in
    record {
      distinct = Distinct-set ("act-" <> uuid) c' s.codes v.distinct;
      named = λ j x e. ground (arith, Keyed.get-set ("act-" <> uuid) j c' s.codes, v.named j x);
      within = λ j x e. ground (arith, Keyed.get-set ("act-" <> uuid) j c' s.codes, v.within j x);
      covered = λ j x e. ground (
        arith,
        Keyed.get-set ("act-" <> uuid) j c' s.codes,
        v.covered j x,
        v.unknown ("act-" <> uuid) fresh,
      );
      unknown = λ j e. ground (arith, Keyed.get-set ("act-" <> uuid) j c' s.codes, v.unknown j);
    }
step-IsCovered s (revokes id) fresh v = revoke-IsCovered s id v
step-IsCovered s (redeems uuids device hash now) fresh v =
    redeem-IsCovered s uuids device hash now v

-- A code activates no more devices than it may. Take a store whose codes stand once, each under its
-- own name, where no code has more devices than uses or more uses than its limit, and no device
-- stands under a code that is not there. Whatever codes are then created under fresh identifiers,
-- revoked and redeemed, all five still hold.
pub run-IsCovered :
    (s : ActivationStore) (cs : List Call) → DrawsAll s cs → IsCovered s → IsCovered (run s cs)
unfolding run
run-IsCovered s [] fresh v = v
run-IsCovered s (c ∷ cs) fresh v =
    run-IsCovered (step s c) cs fresh.1 (step-IsCovered s c fresh.0 v)
