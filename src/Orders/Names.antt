-- ===== src/Orders/Names.antt =====
-- Orders stand under their own names: the keys that the methods of
-- apps/longhub-cloud-api/src/memory-store.ts write orders at.
use longhub_platform.Common.{ℕ, String, some, ◌≡◌, refl, arith, ◌⊎◌, inl, inr}
use longhub_platform.Common.Keyed
use longhub_platform.Common.Keyed.{Keyed}
use longhub_platform.Orders.{
  UserStatus, TransactionParams, create_user, set_user_status, add_wallet_transaction, Shop, Order,
  OrderParams, OrderPatch, create_order, update_order, assign_order, new_order,
}

abbrev pub IsNamed : Keyed Order → Type 0
IsNamed m = (id : String) (o : Order) → Keyed.get id m ≡ some o → o.order_id ≡ id

pub set-IsNamed :
    (m : Keyed Order) (k : String) (o : Order)
    → IsNamed m
    → o.order_id ≡ k
    → IsNamed (Keyed.set k o m)
set-IsNamed m k o v e id w h = ground (arith, Keyed.get-set k id o m, v id w)

pub update_order_cases :
    (s : Shop) (id : String) (p : OrderPatch)
    → ((update_order s id p).0 ≡ s)
      ⊎ ((o : Order) × (Keyed.get id s.orders ≡ some o)
          × ((update_order s id p).0
              ≡ record s { orders = Keyed.set id (assign_order o p) s.orders }))
unfolding update_order
update_order_cases s id p = ground arith

pub create_order-IsNamed :
    (s : Shop) (uuid : String) (now : ℕ) (p : OrderParams)
    → IsNamed s.orders
    → IsNamed (create_order s uuid now p).0.orders
unfolding create_order
create_order-IsNamed s uuid now p v =
    set-IsNamed s.orders (new_order uuid now p).order_id (new_order uuid now p) v refl

pub update_order-IsNamed :
    (s : Shop) (id : String) (p : OrderPatch)
    → IsNamed s.orders
    → IsNamed (update_order s id p).0.orders
update_order-IsNamed s id p v = elim (update_order_cases s id p) [
  | inl same ↦ rw same v
  | inr (o, e, wrote) ↦ rw wrote (set-IsNamed s.orders id (assign_order o p) v (v id o e))
]

-- The calls on accounts write no order.
pub create_user-orders :
    (s : Shop) (uuid : String) (now : ℕ) (email hash : String)
    → (create_user s uuid now email hash).0.orders ≡ s.orders
unfolding create_user
create_user-orders s uuid now email hash = ground arith

pub set_user_status-orders :
    (s : Shop) (id : String) (status : UserStatus)
    → (set_user_status s id status).0.orders ≡ s.orders
unfolding set_user_status
set_user_status-orders s id status = ground arith

pub add_wallet_transaction-orders :
    (s : Shop) (uuid : String) (now : ℕ) (p : TransactionParams)
    → (add_wallet_transaction s uuid now p).0.orders ≡ s.orders
unfolding add_wallet_transaction
add_wallet_transaction-orders s uuid now p = ground arith
