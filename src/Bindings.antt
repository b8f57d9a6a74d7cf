-- ===== src/Bindings.antt =====
-- The bindings that let an Agent of a device call a cloud Skill: `CloudAgentSkillBindingRecord` of
-- apps/longhub-cloud-api/src/store.ts, and the methods of `MemoryStore` on it in
-- apps/longhub-cloud-api/src/memory-store.ts. A fresh `randomUUID` and the clock are arguments, and
-- so is `follows`, the order of identifiers that `localeCompare` gives.
pub mod Listing
pub mod Resolution
mod Examples
use Prim.Native.String.{◌++◌ as ◌<>◌}
use longhub_platform.Common.{
  ℕ, String, Bool, true, false, ◌&&◌, ◌||◌, not, Option, none, some, List, [], ◌∷◌, ltb, ◌==◌, ◌=s◌,
  if◌then◌else◌, select, sort_by, same_option, prefer,
}
use longhub_platform.Common.Keyed
use longhub_platform.Common.Keyed.{Keyed, values}

pub data BindingStatus : Type 0 where
  active revoked : BindingStatus

pub record AgentBinding : Type 0 where
  pub binding_id : String
  pub tenant_id : String
  pub device_id : String
  pub user_id : Option String
  pub agent_id : String
  pub skill_id : String
  pub status : BindingStatus
  pub created_at : ℕ
  pub revoked_at : Option ℕ

-- The request to write a binding and the query for one have the same fields.
pub record BindingOwner : Type 0 where
  pub tenant_id : String
  pub device_id : String
  pub user_id : Option String
  pub agent_id : String
  pub skill_id : String

pub record BindingList : Type 0 where
  pub tenant_id : Option String
  pub device_id : Option String
  pub user_id : Option String
  pub agent_id : Option String
  pub skill_id : Option String
  pub status : Option BindingStatus

pub record BindingStore : Type 0 where
  pub bindings : Keyed AgentBinding
  pub by_owner : Keyed String

abbrev pub is_usable : BindingStatus → Bool
is_usable active = true
is_usable revoked = false

abbrev pub binding_key : BindingOwner → String
binding_key p =
    p.tenant_id <> ("\0" <> (p.device_id <> ("\0" <> (p.agent_id <> ("\0" <> p.skill_id)))))

abbrev pub new_binding : String → ℕ → BindingOwner → AgentBinding
new_binding uuid now p = record {
  binding_id = "casb-" <> uuid;
  tenant_id = p.tenant_id;
  device_id = p.device_id;
  user_id = p.user_id;
  agent_id = p.agent_id;
  skill_id = p.skill_id;
  status = active;
  created_at = now;
  revoked_at = none;
}

abbrev pub add_binding :
    BindingStore → String → ℕ → BindingOwner → BindingStore × (AgentBinding × Bool)
add_binding s uuid now p =
    let b = new_binding uuid now p in
    (
      record s {
        bindings = Keyed.set b.binding_id b s.bindings;
        by_owner = Keyed.set (binding_key p) b.binding_id s.by_owner;
      },
      (b, false),
    )

abbrev pub renewed : AgentBinding → BindingOwner → AgentBinding
renewed b p = record b { user_id = prefer p.user_id b.user_id; status = active; revoked_at = none }

-- The binding, and whether it existed.
unfoldable pub upsert_binding :
    BindingStore → String → ℕ → BindingOwner → BindingStore × (AgentBinding × Bool)
upsert_binding s uuid now p = elim (Keyed.get (binding_key p) s.by_owner) [
  | none ↦ add_binding s uuid now p
  | some id ↦ elim (Keyed.get id s.bindings) [
    | none ↦
        add_binding (record s { by_owner = Keyed.delete (binding_key p) s.by_owner }) uuid now p
    | some b ↦
        let b' = renewed b p in (record s { bindings = Keyed.set id b' s.bindings }, (b', true))
  ]
]

-- A query without a user reads the binding of any user.
abbrev pub serves : BindingOwner → AgentBinding → Bool
serves q b = elim q.user_id [ none ↦ true | some u ↦ same_option b.user_id (some u) ]

unfoldable pub resolve_binding : BindingStore → BindingOwner → Option AgentBinding
resolve_binding s q = elim (Keyed.get (binding_key q) s.by_owner) [
  | none ↦ none
  | some id ↦ elim (Keyed.get id s.bindings) [
    | none ↦ none
    | some b ↦ if not (is_usable b.status) then none else if not (serves q b) then none else some b
  ]
]

unfoldable pub revoke_binding : BindingStore → ℕ → String → BindingStore × Option AgentBinding
revoke_binding s now id = elim (Keyed.get id s.bindings) [
  | none ↦ (s, none)
  | some b ↦
      let b' = record b { status = revoked; revoked_at = some now } in
      if is_usable b.status
      then (record s { bindings = Keyed.set id b' s.bindings }, some b')
      else (s, some b)
]

abbrev pub asks : Option String → String → Bool
asks none v = true
asks (some w) v = v =s w

abbrev pub asks_status : Option BindingStatus → BindingStatus → Bool
asks_status none v = true
asks_status (some active) v = is_usable v
asks_status (some revoked) v = not (is_usable v)

abbrev pub is_listed : BindingList → AgentBinding → Bool
is_listed q b =
    asks q.tenant_id b.tenant_id
    && (asks q.device_id b.device_id
        && ((elim q.user_id [ none ↦ true | some u ↦ same_option b.user_id (some u) ])
            && (asks q.agent_id b.agent_id
                && (asks q.skill_id b.skill_id && asks_status q.status b.status))))

-- The newest first, and those of one time by identifier.
unfoldable pub list_bindings :
    (String → String → Bool) → BindingStore → BindingList → List AgentBinding
list_bindings follows s q =
    sort_by
      (λ a b.
        ltb b.created_at a.created_at
        || (a.created_at == b.created_at && follows a.binding_id b.binding_id))
      (select (is_listed q) (values s.bindings))
