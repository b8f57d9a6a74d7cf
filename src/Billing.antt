-- ===== src/Billing.antt =====
-- The settlement of orders: `EntitlementRecord`, `AuditLogRecord` and the `BillingSettlement` types
-- of apps/longhub-cloud-api/src/store.ts, with `billingSettlementReplay`, `settleOrderPayment` and
-- `settleOrderRefund` of `MemoryStore` in apps/longhub-cloud-api/src/memory-store.ts. A method first
-- stages what it will write and can only fail there, so that an error leaves the store as it was. A
-- time that a caller may give is absent, a text that is no date (`some none`), or a time. Fresh
-- identifiers and readings of the clock are arguments, and so is `localeCompare` (`follows`).
pub mod Payment
pub mod Refund
pub mod Cases
pub mod Steps
pub mod Ledger
pub mod Recorded
pub mod Once
pub mod Reversal
pub mod Grants
pub mod Delivery
pub mod Fulfilment
mod Examples
use Prim.Native.String.{◌++◌ as ◌<>◌}
use longhub_platform.Common.{
  ℕ, ◌*◌, ◌+◌, String, Bool, true, false, ◌&&◌, ◌||◌, not, Option, none, some, List, [], ◌∷◌, ◌=s◌,
  if◌then◌else◌, Result, ok, err, same_option, leb, ◌==◌, all, length, codes,
}
use longhub_platform.Common.Results.{◌>>=◌, ◌>>◌, guard, require}
use longhub_platform.Common.Keyed
use longhub_platform.Common.Keyed.{Keyed}
use longhub_platform.Orders.{Shop, Order, Transaction, User, PayMethod, balance, mock, provider}
use longhub_platform.Devices.{DeviceStore}
use longhub_platform.Skills.{
  SkillStore, Subscription, Entitlement, EntitlementStatus, Period, monthly, yearly,
}
use longhub_platform.Outbox.{OutboxRecord}

pub data Scope : Type 0 where
  tenant user device : Scope

-- `EntitlementRecord`, of a Pack.
pub record PackEntitlement : Type 0 where
  pub entitlement_id : String
  pub tenant_id : String
  pub device_id : String
  pub pack_id : String
  pub scope : Scope
  pub status : EntitlementStatus
  pub expires_at : ℕ
  pub source_activation_code_id : Option String
  pub source_order_id : Option String
  pub created_at : ℕ

pub data Operation : Type 0 where
  payment refund : Operation

pub data BillingReason : Type 0 where
  order_not_found order_not_pending order_not_paid invalid_payment_method : BillingReason
  recharge_balance_forbidden recharge_refund_forbidden insufficient_balance : BillingReason
  idempotency_key_invalid idempotency_conflict refund_requires_reconciliation : BillingReason
  settlement_unavailable fulfillment_invalid : BillingReason

pub record Settlement : Type 0 where
  pub settlement_id : String
  pub order_id : String
  pub operation : Operation
  pub idempotency_key : String
  pub request_hash : String
  pub method : Option PayMethod
  pub provider_reference : Option String
  pub amount_fen : ℕ
  pub created_at : ℕ

-- The detail of an entry is left out.
pub record AuditLog : Type 0 where
  pub audit_id : String
  pub actor : String
  pub action : String
  pub created_at : ℕ

-- A list that is absent from a result is empty here.
pub record BillingResult : Type 0 where
  pub replayed : Bool
  pub settlement : Settlement
  pub order : Order
  pub wallet_transaction : Option Transaction
  pub subscription : Option Subscription
  pub cloud_skill_entitlements : List Entitlement
  pub entitlements : List PackEntitlement
  pub outbox : OutboxRecord

-- The fields of `MemoryStore` that a settlement reads or writes.
pub record BillingStore : Type 0 where
  pub shop : Shop
  pub devices : DeviceStore
  pub packs : Keyed PackEntitlement
  pub skills : SkillStore
  pub outbox : Keyed OutboxRecord
  pub settlements : Keyed Settlement
  pub by_order : Keyed String
  pub by_key : Keyed String
  pub results : Keyed BillingResult
  pub audits : List AuditLog

-- The `randomUUID`s that one settlement may draw, one for each entitlement that it stages, and its
-- two readings of the clock.
pub record Fresh : Type 0 where
  pub settlement : String
  pub transaction : String
  pub subscription : String
  pub entitlement : ℕ → String
  pub outbox : String
  pub audit : String
  pub clock : ℕ
  pub created_at : ℕ

-- `none` is a method that is none of the three.
pub record PaymentParams : Type 0 where
  pub order_id : String
  pub user_id : String
  pub method : Option PayMethod
  pub provider_reference : Option String
  pub idempotency_key : String
  pub request_hash : String
  pub paid_at : Option (Option ℕ)

pub record RefundParams : Type 0 where
  pub order_id : String
  pub actor : String
  pub idempotency_key : String
  pub request_hash : String
  pub provider_reference : Option String
  pub refunded_at : Option (Option ℕ)

abbrev pub operation_name : Operation → String
operation_name payment = "payment"
operation_name refund = "refund"

-- The keys of the two lookups.
abbrev pub order_lookup : String → Operation → String
order_lookup order op = order <> ("\0" <> operation_name op)

abbrev pub key_lookup : Operation → String → String
key_lookup op key = operation_name op <> ("\0" <> key)

abbrev pub same_operation : Operation → Operation → Bool
same_operation payment payment = true
same_operation refund refund = true
same_operation _ _ = false

abbrev pub same_method : Option PayMethod → Option PayMethod → Bool
same_method none none = true
same_method (some balance) (some balance) = true
same_method (some mock) (some mock) = true
same_method (some provider) (some provider) = true
same_method _ _ = false

-- Does a recorded settlement stand for this request?
abbrev pub answers :
    Operation → String → String → String → Option PayMethod → Option String → Settlement → Bool
answers op order key hash method reference t =
    t.order_id =s order
    && (same_operation t.operation op
        && (t.idempotency_key =s key
            && (t.request_hash =s hash
                && (same_option t.provider_reference reference
                    && (not (same_operation op payment) || same_method t.method method)))))

abbrev pub recorded_result :
    BillingStore
    → Operation
    → String
    → String
    → String
    → Option PayMethod
    → Option String
    → String
    → Result BillingReason (Option BillingResult)
recorded_result s op order key hash method reference id = do
  let t = (← require (Keyed.get id s.settlements) idempotency_conflict)
  let r = (← require (Keyed.get id s.results) idempotency_conflict)
  guard (answers op order key hash method reference t) idempotency_conflict
  ok (some (record r { replayed = true }))

abbrev pub replay_at :
    BillingStore
    → Operation
    → String
    → String
    → String
    → Option PayMethod
    → Option String
    → Option String
    → Option String
    → Result BillingReason (Option BillingResult)
replay_at s op order key hash method reference none none = ok none
replay_at s op order key hash method reference (some a) (some b) =
    if a =s b
    then recorded_result s op order key hash method reference a
    else err idempotency_conflict
replay_at s op order key hash method reference _ _ = err idempotency_conflict

-- `billingSettlementReplay`: the result that is already there, where there is one.
unfoldable pub replay :
    BillingStore
    → Operation
    → String
    → String
    → String
    → Option PayMethod
    → Option String
    → Result BillingReason (Option BillingResult)
replay s op order key hash method reference =
    if (key =s "") || (hash =s "")
    then err idempotency_conflict
    else replay_at s op order key hash method reference
        (Keyed.get (order_lookup order op) s.by_order) (Keyed.get (key_lookup op key) s.by_key)

abbrev pub period_days : Period → ℕ
period_days monthly = 31
period_days yearly = 366

-- `billingPeriodExpiry` of a time that is a date.
abbrev pub period_expiry : ℕ → Period → ℕ
period_expiry started p = started + period_days p * 24 * 60 * 60 * 1000

abbrev pub is_alphanumeric : ℕ → Bool
is_alphanumeric c =
    (leb b'A' c && leb c b'Z') || ((leb b'a' c && leb c b'z') || (leb b'0' c && leb c b'9'))

abbrev pub is_reference_char : ℕ → Bool
is_reference_char c =
    is_alphanumeric c || (c == b'.' || (c == b'_' || (c == b':' || (c == b'/' || c == b'-'))))

abbrev pub is_reference_codes : List ℕ → Bool
is_reference_codes [] = false
is_reference_codes (c ∷ rest) =
    is_alphanumeric c && (leb (length rest) 255 && all is_reference_char rest)

-- /^[A-Za-z0-9][A-Za-z0-9._:/-]{0,255}$/u
unfoldable pub valid_reference : Option String → Bool
valid_reference none = false
valid_reference (some s) = is_reference_codes (codes s)

-- What a settlement is about to write: its result, and the account whose balance changes.
pub record Staged : Type 0 where
  pub result : BillingResult
  pub account : Option User

-- The loops that write staged entitlements.
abbrev pub set_packs : List PackEntitlement → Keyed PackEntitlement → Keyed PackEntitlement
set_packs [] m = m
set_packs (e ∷ es) m = set_packs es (Keyed.set e.entitlement_id e m)

abbrev pub set_grants : List Entitlement → Keyed Entitlement → Keyed Entitlement
set_grants [] m = m
set_grants (e ∷ es) m = set_grants es (Keyed.set e.entitlement_id e m)
