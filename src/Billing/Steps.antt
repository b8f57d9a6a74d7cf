-- ===== src/Billing/Steps.antt =====
-- What may happen to a store between two settlements: the methods of `MemoryStore` in
-- apps/longhub-cloud-api/src/memory-store.ts that write accounts, orders or settlements, in any order,
-- and every other one, which writes none of them.
use Prim.Native.String.{◌++◌ as ◌<>◌}
use longhub_platform.Common.{ℕ, String, Bool, none, ◌≡◌}
use longhub_platform.Common.Keyed
use longhub_platform.Orders.{
  UserStatus, OrderParams, OrderPatch, create_order, update_order, TransactionParams, new_user,
  create_user, set_user_status, add_wallet_transaction,
}
use longhub_platform.Billing.{BillingStore, Fresh, PaymentParams, RefundParams}
use longhub_platform.Billing.Payment.{settle_payment}
use longhub_platform.Billing.Refund.{settle_refund}

-- The identifier that a settlement draws has not been drawn before.
pub record IsUnused (s : BillingStore) (f : Fresh) : Type 0 where
  pub no_settlement : Keyed.get ("bst-" <> f.settlement) s.settlements ≡ none
  pub no_result : Keyed.get ("bst-" <> f.settlement) s.results ≡ none

-- The fields of accounts, orders and settlements, the same in two stores.
pub record IsSame (s s' : BillingStore) : Type 0 where
  pub users : s'.shop.users ≡ s.shop.users
  pub transactions : s'.shop.transactions ≡ s.shop.transactions
  pub orders : s'.shop.orders ≡ s.shop.orders
  pub settlements : s'.settlements ≡ s.settlements
  pub results : s'.results ≡ s.results
  pub by_order : s'.by_order ≡ s.by_order
  pub by_key : s'.by_key ≡ s.by_key

pub data Step : BillingStore → BillingStore → Type 0 where
  pays :
      (follows : String → String → Bool) (s : BillingStore) (f : Fresh) (p : PaymentParams)
      → IsUnused s f
      → Step s (settle_payment follows s f p).0
  refunds :
      (s : BillingStore) (f : Fresh) (p : RefundParams)
      → IsUnused s f
      → Step s (settle_refund s f p).0
  signs_up :
      (s : BillingStore) (uuid : String) (now : ℕ) (email hash : String)
      → Keyed.get (new_user uuid now email hash).user_id s.shop.users ≡ none
      → Step s (record s { shop = (create_user s.shop uuid now email hash).0 })
  sets_status :
      (s : BillingStore) (id : String) (status : UserStatus)
      → Step s (record s { shop = (set_user_status s.shop id status).0 })
  transacts :
      (s : BillingStore) (uuid : String) (now : ℕ) (p : TransactionParams)
      → Step s (record s { shop = (add_wallet_transaction s.shop uuid now p).0 })
  orders :
      (s : BillingStore) (uuid : String) (now : ℕ) (p : OrderParams)
      → Step s (record s { shop = (create_order s.shop uuid now p).0 })
  reorders :
      (s : BillingStore) (id : String) (p : OrderPatch)
      → Step s (record s { shop = (update_order s.shop id p).0 })
  elsewhere : (s s' : BillingStore) → IsSame s s' → Step s s'

pub data Reach (s : BillingStore) : BillingStore → Type 0 where
  here : Reach s s
  next : {t u : BillingStore} → Reach s t → Step t u → Reach s u
