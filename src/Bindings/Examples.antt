-- ===== src/Bindings/Examples.antt =====
-- A binding that is written, read and revoked, with the theorems on bindings at it.
use mathlib.Core.List.{Memᴰ}
use longhub_platform.Common.{
  Bool, arith, same_option, count, true, none, some, [], ◌∷◌, ◌≡◌, refl, ◌↔◌, if◌then◌else◌,
  String-discrete,
}
use longhub_platform.Common.Keyed
use longhub_platform.Common.Keyed.{values}
use longhub_platform.Bindings.{
  BindingOwner, BindingList, BindingStore, binding_key, new_binding, upsert_binding, serves,
  resolve_binding, revoke_binding, AgentBinding, list_bindings,
}
use longhub_platform.Bindings.Resolution.{resolve_upserted, resolve_revoked}
use longhub_platform.Bindings.Listing.{IsAsked, IsNewer, list_bindings-mem}
use longhub_platform.Common.Sorting.{Ordered}

abbrev owner : BindingOwner
owner = record {
  tenant_id = "acme";
  device_id = "desk";
  user_id = some "u1";
  agent_id = "writer";
  skill_id = "poster";
}

abbrev other_user : BindingOwner
other_user = record owner { user_id = some "u2" }

abbrev nothing : BindingStore
nothing = record { bindings = []; by_owner = [] }

abbrev bound : BindingStore
bound = record {
  bindings = ("casb-a", new_binding "a" 5 owner) ∷ [];
  by_owner = (binding_key owner, "casb-a") ∷ [];
}

resolve_upserted_example : resolve_binding (upsert_binding nothing "a" 5 owner).0 other_user ≡ (
    if serves other_user (upsert_binding nothing "a" 5 owner).1.0
    then some (upsert_binding nothing "a" 5 owner).1.0
    else none)
resolve_upserted_example = resolve_upserted nothing "a" 5 owner other_user refl

resolve_revoked_example : resolve_binding (revoke_binding bound 9 "casb-a").0 owner ≡ none
unfolding Keyed.get String-discrete
resolve_revoked_example = resolve_revoked bound 9 "casb-a" owner refl

abbrev everything : BindingList
everything = record {
  tenant_id = none;
  device_id = none;
  user_id = some "u1";
  agent_id = none;
  skill_id = none;
  status = none;
}

-- The bindings of the user.
abbrev is_owned : AgentBinding → Bool
is_owned b = same_option b.user_id (some "u1")

owned-IsAsked : (b : AgentBinding) → is_owned b ≡ true → IsAsked everything b
owned-IsAsked b h = record {
  tenant = λ t e. absurd (cc e);
  device = λ d e. absurd (cc e);
  user = λ u e. ground arith;
  agent = λ a e. absurd (cc e);
  skill = λ k e. absurd (cc e);
  status = λ x e. absurd (cc e);
}

list_bindings-mem_example :
    let list = list_bindings (λ a b. true) bound everything in
    (Memᴰ (new_binding "a" 5 owner) list ↔ (
      Memᴰ (new_binding "a" 5 owner) (values bound.bindings)
      × IsAsked everything (new_binding "a" 5 owner)))
    × (count is_owned list ≡ count is_owned (values bound.bindings))
    × Ordered IsNewer list
list_bindings-mem_example =
    list_bindings-mem (λ a b. true) bound everything (new_binding "a" 5 owner) is_owned
      owned-IsAsked
