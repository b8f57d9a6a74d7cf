-- ===== src/Orders.antt =====
-- Accounts, products, orders and the wallet: `UserRecord`, `ProductRecord`, `OrderRecord` and
-- `WalletTransactionRecord` of apps/longhub-cloud-api/src/store.ts, and the methods of `MemoryStore`
-- on them in apps/longhub-cloud-api/src/memory-store.ts. Money is in whole fen: the amount of an
-- order and a balance are never negative, while a transaction has a sign. A fresh `randomUUID` and
-- the clock are arguments.
pub mod Wallet
pub mod Names
use Prim.Native.String.{◌++◌ as ◌<>◌}
use longhub_platform.Common.{
  ℕ, String, Bool, true, false, Option, none, some, List, [], ◌∷◌, ◌++◌, ◌=s◌, if◌then◌else◌,
  select, head?, or_else, prefer, Result, ok, err,
}
use longhub_platform.Common.Int.{ℤ, pos, negsuc, ◌+ℤ◌}
use longhub_platform.Common.Keyed
use longhub_platform.Common.Keyed.{Keyed, values}
use longhub_platform.Skills.{Period, PlanStatus, listed}

pub data UserStatus : Type 0 where
  active disabled : UserStatus

pub record User : Type 0 where
  pub user_id : String
  pub email : String
  pub password_hash : String
  pub status : UserStatus
  pub balance_fen : ℕ
  pub created_at : ℕ

pub record Product : Type 0 where
  pub product_id : String
  pub pack_id : String
  pub name : String
  pub description : String
  pub price_monthly_fen : ℕ
  pub price_yearly_fen : ℕ
  pub status : PlanStatus
  pub created_at : ℕ

pub data OrderType : Type 0 where
  plan cloud_skill_plan recharge : OrderType

pub data OrderStatus : Type 0 where
  pending paid cancelled refunded : OrderStatus

pub data PayMethod : Type 0 where
  balance mock provider : PayMethod

pub record Order : Type 0 where
  pub order_id : String
  pub user_id : String
  pub type : OrderType
  pub product_id : Option String
  pub pack_id : Option String
  pub plan_id : Option String
  pub tenant_id : Option String
  pub period : Option Period
  pub amount_fen : ℕ
  pub status : OrderStatus
  pub pay_method : Option PayMethod
  pub created_at : ℕ
  pub paid_at : Option ℕ
  pub refunded_at : Option ℕ

pub data TransactionType : Type 0 where
  recharged purchase refund adjust : TransactionType

pub record Transaction : Type 0 where
  pub txn_id : String
  pub user_id : String
  pub type : TransactionType
  pub amount_fen : ℤ
  pub balance_after_fen : ℕ
  pub order_id : Option String
  pub settlement_id : Option String
  pub remark : Option String
  pub created_at : ℕ

-- The fields of `MemoryStore` for accounts and orders.
pub record Shop : Type 0 where
  pub users : Keyed User
  pub products : Keyed Product
  pub orders : Keyed Order
  pub transactions : List Transaction

pub data WalletError : Type 0 where
  unknown_user insufficient_balance : WalletError

abbrev pub new_user : String → ℕ → String → String → User
new_user uuid now email hash = record {
  user_id = "usr-" <> uuid;
  email = email;
  password_hash = hash;
  status = active;
  balance_fen = 0;
  created_at = now;
}

-- The user, and whether it existed.
unfoldable pub create_user : Shop → String → ℕ → String → String → Shop × (User × Bool)
create_user s uuid now email hash =
    elim (head? (select (λ (u : User). u.email =s email) (values s.users))) [
      | some u ↦ (s, (u, true))
      | none ↦
          let u = new_user uuid now email hash in
          (record s { users = Keyed.set u.user_id u s.users }, (u, false))
    ]

unfoldable pub set_user_status : Shop → String → UserStatus → Shop × Option User
set_user_status s id status = elim (Keyed.get id s.users) [
  | none ↦ (s, none)
  | some u ↦
      let u' = record u { status = status } in
      (record s { users = Keyed.set id u' s.users }, some u')
]

pub record ProductParams : Type 0 where
  pub pack_id : String
  pub name : String
  pub description : String
  pub price_monthly_fen : ℕ
  pub price_yearly_fen : ℕ
  pub status : Option PlanStatus

pub record ProductPatch : Type 0 where
  pub name : Option String
  pub description : Option String
  pub price_monthly_fen : Option ℕ
  pub price_yearly_fen : Option ℕ
  pub status : Option PlanStatus

unfoldable pub create_product : Shop → String → ℕ → ProductParams → Shop × Product
create_product s uuid now p =
    let product : Product = record {
      product_id = "prd-" <> uuid;
      pack_id = p.pack_id;
      name = p.name;
      description = p.description;
      price_monthly_fen = p.price_monthly_fen;
      price_yearly_fen = p.price_yearly_fen;
      status = or_else p.status listed;
      created_at = now;
    } in
    (record s { products = Keyed.set product.product_id product s.products }, product)

unfoldable pub update_product : Shop → String → ProductPatch → Shop × Option Product
update_product s id p = elim (Keyed.get id s.products) [
  | none ↦ (s, none)
  | some old ↦
      let product = record old {
        name = or_else p.name old.name;
        description = or_else p.description old.description;
        price_monthly_fen = or_else p.price_monthly_fen old.price_monthly_fen;
        price_yearly_fen = or_else p.price_yearly_fen old.price_yearly_fen;
        status = or_else p.status old.status;
      } in
      (record s { products = Keyed.set id product s.products }, some product)
]

pub record OrderParams : Type 0 where
  pub user_id : String
  pub type : OrderType
  pub product_id : Option String
  pub pack_id : Option String
  pub plan_id : Option String
  pub tenant_id : Option String
  pub period : Option Period
  pub amount_fen : ℕ

pub record OrderPatch : Type 0 where
  pub status : Option OrderStatus
  pub pay_method : Option PayMethod
  pub paid_at : Option ℕ
  pub refunded_at : Option ℕ

abbrev pub new_order : String → ℕ → OrderParams → Order
new_order uuid now p = record {
  order_id = "ord-" <> uuid;
  user_id = p.user_id;
  type = p.type;
  product_id = p.product_id;
  pack_id = p.pack_id;
  plan_id = p.plan_id;
  tenant_id = p.tenant_id;
  period = p.period;
  amount_fen = p.amount_fen;
  status = pending;
  pay_method = none;
  created_at = now;
  paid_at = none;
  refunded_at = none;
}

unfoldable pub create_order : Shop → String → ℕ → OrderParams → Shop × Order
create_order s uuid now p =
    let o = new_order uuid now p in (record s { orders = Keyed.set o.order_id o s.orders }, o)

abbrev pub assign_order : Order → OrderPatch → Order
assign_order o p = record o {
  status = or_else p.status o.status;
  pay_method = prefer p.pay_method o.pay_method;
  paid_at = prefer p.paid_at o.paid_at;
  refunded_at = prefer p.refunded_at o.refunded_at;
}

unfoldable pub update_order : Shop → String → OrderPatch → Shop × Option Order
update_order s id p = elim (Keyed.get id s.orders) [
  | none ↦ (s, none)
  | some o ↦ let o' = assign_order o p in (record s { orders = Keyed.set id o' s.orders }, some o')
]

pub record TransactionParams : Type 0 where
  pub user_id : String
  pub type : TransactionType
  pub amount_fen : ℤ
  pub order_id : Option String
  pub remark : Option String

abbrev pub post :
    Shop → String → ℕ → TransactionParams → User → ℤ → Shop × Result WalletError Transaction
post s uuid now p u (negsuc n) = (s, err insufficient_balance)
post s uuid now p u (pos next) =
    let t : Transaction = record {
      txn_id = "txn-" <> uuid;
      user_id = p.user_id;
      type = p.type;
      amount_fen = p.amount_fen;
      balance_after_fen = next;
      order_id = p.order_id;
      settlement_id = none;
      remark = p.remark;
      created_at = now;
    } in
    (
      record s {
        users = Keyed.set p.user_id (record u { balance_fen = next }) s.users;
        transactions = s.transactions ++ t ∷ [];
      },
      ok t,
    )

unfoldable pub add_wallet_transaction :
    Shop → String → ℕ → TransactionParams → Shop × Result WalletError Transaction
add_wallet_transaction s uuid now p = elim (Keyed.get p.user_id s.users) [
  | none ↦ (s, err unknown_user)
  | some u ↦ post s uuid now p u (pos u.balance_fen +ℤ p.amount_fen)
]
