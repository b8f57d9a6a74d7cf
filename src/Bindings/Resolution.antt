-- ===== src/Bindings/Resolution.antt =====
-- What a binding resolves to after it is written or revoked: `upsertCloudAgentSkillBinding`,
-- `revokeCloudAgentSkillBinding` and `resolveCloudAgentSkillBinding` of
-- apps/longhub-cloud-api/src/memory-store.ts.
use Prim.Native.String.{◌++◌ as ◌<>◌}
use longhub_platform.Common.{
  ℕ, String, true, none, some, ◌≡◌, refl, inl, inr, arith, Bool-cases, Option-cases, if◌then◌else◌,
}
use longhub_platform.Common.Keyed
use longhub_platform.Common.Keyed.{values}
use longhub_platform.Bindings.{
  AgentBinding, BindingOwner, BindingStore, is_usable, binding_key, new_binding, add_binding,
  renewed, upsert_binding, serves, resolve_binding, revoke_binding,
}

-- What the query finds where its key leads to an active binding.
found_binding :
    (s : BindingStore) (q : BindingOwner) (k id : String) (b : AgentBinding)
    → binding_key q ≡ k
    → Keyed.get k s.by_owner ≡ some id
    → Keyed.get id s.bindings ≡ some b
    → is_usable b.status ≡ true
    → resolve_binding s q ≡ (if serves q b then some b else none)
unfolding resolve_binding
found_binding s q k id b key link row on =
    rw (key, resolve_binding) (rw link (rw row (ground arith)))

added_binding :
    (s : BindingStore) (uuid : String) (now : ℕ) (p q : BindingOwner)
    → binding_key q ≡ binding_key p
    → resolve_binding (add_binding s uuid now p).0 q ≡ (
        if serves q (add_binding s uuid now p).1.0
        then some (add_binding s uuid now p).1.0
        else none)
added_binding s uuid now p q key =
    found_binding _ q (binding_key p) ("casb-" <> uuid) (new_binding uuid now p) key
      (Keyed.get-set_self (binding_key p) ("casb-" <> uuid) s.by_owner)
      (Keyed.get-set_self ("casb-" <> uuid) (new_binding uuid now p) s.bindings) refl

-- After a binding is written, whether it is new, renewed, or repairs an index entry that led
-- nowhere, a query with the same tenant, device, Agent and Skill finds just that binding, if the
-- query names no user or the binding's own; for another user it finds nothing.
pub resolve_upserted :
    (s : BindingStore) (uuid : String) (now : ℕ) (p q : BindingOwner)
    → binding_key q ≡ binding_key p
    → let b = (upsert_binding s uuid now p).1.0 in
      resolve_binding (upsert_binding s uuid now p).0 q ≡ (if serves q b then some b else none)
unfolding upsert_binding
resolve_upserted s uuid now p q key = elim (Option-cases (Keyed.get (binding_key p) s.by_owner)) [
  | inl e ↦ rw (e, upsert_binding) (added_binding s uuid now p q key)
  | inr (id, e) ↦ elim (Option-cases (Keyed.get id s.bindings)) [
    | inl e' ↦
        rw (e, upsert_binding)
          (rw e' (
            added_binding (record s { by_owner = Keyed.delete (binding_key p) s.by_owner }) uuid now
              p q key))
    | inr (b, e') ↦
        rw (e, upsert_binding)
          (rw e' (
            found_binding (record s { bindings = Keyed.set id (renewed b p) s.bindings }) q
              (binding_key p) id (renewed b p) key e
              (Keyed.get-set_self id (renewed b p) s.bindings) refl))
  ]
]

-- A binding that was revoked is not found, whoever asks and whether or not it was active before.
pub resolve_revoked :
    (s : BindingStore) (now : ℕ) (id : String) (q : BindingOwner)
    → Keyed.get (binding_key q) s.by_owner ≡ some id
    → resolve_binding (revoke_binding s now id).0 q ≡ none
unfolding resolve_binding revoke_binding
resolve_revoked s now id q link = elim (Option-cases (Keyed.get id s.bindings)) [
  | inl e ↦ rw (e, revoke_binding) (rw (link, resolve_binding) (rw e refl))
  | inr (b, e) ↦ elim (Bool-cases (is_usable b.status)) [
    | inl on ↦
        rw (e, revoke_binding)
          (rw on (rw (link, resolve_binding) (rw (Keyed.get-set_self id _ s.bindings) refl)))
    | inr off ↦ rw (e, revoke_binding) (rw off (rw (link, resolve_binding) (rw e (rw off refl))))
  ]
]
