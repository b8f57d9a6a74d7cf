-- ===== src/Bindings/Listing.antt =====
-- The list of bindings: `listCloudAgentSkillBindings` of
-- apps/longhub-cloud-api/src/memory-store.ts.
use mathlib.Core.List.{Memᴰ}
use longhub_platform.Common.{
  ◌≤◌, String, Bool, true, Option, none, some, ◌≡◌, refl, ◌∙◌, ◌↔◌, arith, count, same_option,
}
use longhub_platform.Common.Sorting.{
  mem-select, mem_of_select, mem-sort_by, mem_of_sort_by, count-sort_by, count-select_kept, Ordered,
  Ordered-sort_by,
}
use longhub_platform.Common.Keyed.{values}
use longhub_platform.Bindings.{
  AgentBinding, BindingStatus, BindingList, BindingStore, active, revoked, asks, asks_status,
  is_listed, list_bindings,
}

-- What a query asks of a binding: each field that it names is the binding's.
pub record IsAsked (q : BindingList) (b : AgentBinding) : Type 0 where
  pub tenant : (t : String) → q.tenant_id ≡ some t → b.tenant_id ≡ t
  pub device : (d : String) → q.device_id ≡ some d → b.device_id ≡ d
  pub user : (u : String) → q.user_id ≡ some u → b.user_id ≡ some u
  pub agent : (a : String) → q.agent_id ≡ some a → b.agent_id ≡ a
  pub skill : (k : String) → q.skill_id ≡ some k → b.skill_id ≡ k
  pub status : (x : BindingStatus) → q.status ≡ some x → b.status ≡ x

asks-named :
    (o : Option String) (v : String) → ((t : String) → o ≡ some t → v ≡ t) → asks o v ≡ true
asks-named none v h = refl
asks-named (some t) v h = let e : v ≡ t = h t refl in ground arith

asks-user :
    (o v : Option String)
    → ((u : String) → o ≡ some u → v ≡ some u)
    → (elim o [ none ↦ true | some u ↦ same_option v (some u) ]) ≡ true
asks-user none v h = refl
asks-user (some u) v h = let e : v ≡ some u = h u refl in rw e (ground arith)

asks_status-named :
    (o : Option BindingStatus) (v : BindingStatus)
    → ((x : BindingStatus) → o ≡ some x → v ≡ x)
    → asks_status o v ≡ true
asks_status-named none v h = refl
asks_status-named (some active) v h = rw (h active refl) refl
asks_status-named (some revoked) v h = rw (h revoked refl) refl

named_status :
    (o : Option BindingStatus) (v x : BindingStatus) → asks_status o v ≡ true → o ≡ some x → v ≡ x
named_status o v x h e = ground arith

named_user :
    (o v : Option String) (u : String)
    → (elim o [ none ↦ true | some w ↦ same_option v (some w) ]) ≡ true
    → o ≡ some u
    → v ≡ some u
named_user o v u h e = ground arith

listed : (q : BindingList) (b : AgentBinding) → IsAsked q b → is_listed q b ≡ true
listed q b h =
    let t = asks-named q.tenant_id b.tenant_id h.tenant in
    let d = asks-named q.device_id b.device_id h.device in
    let u = asks-user q.user_id b.user_id h.user in
    let a = asks-named q.agent_id b.agent_id h.agent in
    let k = asks-named q.skill_id b.skill_id h.skill in
    let x = asks_status-named q.status b.status h.status in rw (t, d, u) (rw (a, k) x)

listed-IsAsked : (q : BindingList) (b : AgentBinding) → is_listed q b ≡ true → IsAsked q b
listed-IsAsked q b h = record {
  tenant = λ t e. ground arith;
  device = λ d e. ground arith;
  user = λ u e. named_user q.user_id b.user_id u (ground arith) e;
  agent = λ a e. ground arith;
  skill = λ k e. ground arith;
  status = λ x e. named_status q.status b.status x (ground arith) e;
}

abbrev pub IsNewer : AgentBinding → AgentBinding → Type 0
IsNewer a b = b.created_at ≤ a.created_at

-- A binding is in the list exactly if the store has it and it agrees with every field that the query
-- names; what agrees with the query is listed as often as the store has it; and the list goes from
-- the newest to the oldest.
pub list_bindings-mem :
    (follows : String → String → Bool) (s : BindingStore) (q : BindingList) (b : AgentBinding)
    (p : AgentBinding → Bool)
    → ((x : AgentBinding) → p x ≡ true → IsAsked q x)
    → (Memᴰ b (list_bindings follows s q) ↔ (Memᴰ b (values s.bindings) × IsAsked q b))
      × (count p (list_bindings follows s q) ≡ count p (values s.bindings))
      × Ordered IsNewer (list_bindings follows s q)
unfolding list_bindings
list_bindings-mem follows s q b p asked = (
  (
    λ m.
        let (m', h) = mem_of_select (is_listed q) b (values s.bindings) (mem_of_sort_by _ b _ m) in
        (m', listed-IsAsked q b h),
    λ (m, h). mem-sort_by _ b _ (mem-select (is_listed q) b (values s.bindings) m (listed q b h)),
  ),
  count-sort_by _ p _
      ∙ count-select_kept (is_listed q) p (values s.bindings) (λ x h. listed q x (asked x h)),
  Ordered-sort_by IsNewer _ (λ x y h. ground arith) (λ x y h. ground arith)
      (λ x y z g h. omega arith) _,
)
