-- ===== src/Outbox.antt =====
-- The billing outbox: `BillingOutboxRecord` of apps/longhub-cloud-api/src/store.ts, and
-- `claimBillingOutbox`, `completeBillingOutbox`, `failBillingOutbox` of `MemoryStore` in
-- apps/longhub-cloud-api/src/memory-store.ts. Times are milliseconds, and a time that a caller may
-- give is absent, a text that is no date (`some none`), or a time. A fresh `randomUUID` and the
-- clock are arguments. `localeCompare` of two identifiers, which the platform defines, is the
-- argument `follows`: does the first one not come after the second?
pub mod Steps
pub mod Leases
pub mod Settled
pub mod Tallies
pub mod Worker
mod Examples
use Prim.Native.String.{◌++◌ as ◌<>◌}
use longhub_platform.Common.{
  ℕ, suc, ◌+◌, String, Bool, true, false, ◌&&◌, ◌||◌, not, Option, none, some, List, [], ◌∷◌, map,
  ltb, leb, ◌==◌, ◌=s◌, if◌then◌else◌, any, all, select, sort_by, take, length, is_some, codes,
  prefer,
}
use longhub_platform.Common.Keyed
use longhub_platform.Orders.{OrderType, PayMethod}
use longhub_platform.Common.Keyed.{Keyed}

pub data EventType : Type 0 where
  payment_settled refund_settled : EventType

-- The payload of both settlements: a payment has the method, a refund the actor.
pub record Payload : Type 0 where
  pub order_id : String
  pub user_id : String
  pub order_type : OrderType
  pub method : Option PayMethod
  pub amount_fen : ℕ
  pub actor : Option String

pub record OutboxRecord : Type 0 where
  pub outbox_id : String
  pub event_type : EventType
  pub aggregate_id : String
  pub settlement_id : String
  pub payload : Payload
  pub attempts : ℕ
  pub available_at : ℕ
  pub locked_until : Option ℕ
  pub lock_token : Option String
  pub published_at : Option ℕ
  pub dead_lettered_at : Option ℕ
  pub last_error : Option String
  pub created_at : ℕ

-- A number that is no safe non-negative integer is `some none`.
pub record ClaimParams : Type 0 where
  pub limit : Option (Option ℕ)
  pub lease_ms : Option (Option ℕ)
  pub now : Option (Option ℕ)

pub record FailureParams : Type 0 where
  pub outbox_id : String
  pub lock_token : String
  pub failed_at : Option (Option ℕ)
  pub retry_at : Option ℕ
  pub error_code : String
  pub dead_lettered_at : Option (Option ℕ)

abbrev pub default_outbox_lease_ms : ℕ
default_outbox_lease_ms = 30000

abbrev pub max_outbox_lease_ms : ℕ
max_outbox_lease_ms = 300000

abbrev pub normalize_outbox_limit : Option (Option ℕ) → Option ℕ
normalize_outbox_limit none = some 25
normalize_outbox_limit (some none) = none
normalize_outbox_limit (some (some v)) = if leb 1 v && leb v 100 then some v else none

abbrev pub normalize_outbox_lease : Option (Option ℕ) → Option ℕ
normalize_outbox_lease none = some default_outbox_lease_ms
normalize_outbox_lease (some none) = none
normalize_outbox_lease (some (some v)) =
    if leb 1000 v && leb v max_outbox_lease_ms then some v else none

abbrev pub parse_outbox_time : ℕ → Option (Option ℕ) → Option ℕ
parse_outbox_time clock none = some clock
parse_outbox_time clock (some t) = t

abbrev pub is_token_char : ℕ → Bool
is_token_char c = (leb b'0' c && leb c b'9') || ((leb b'a' c && leb c b'f') || c == b'-')

-- /^bol-[0-9a-f-]{36}$/u
unfoldable pub is_lock_token : String → Bool
is_lock_token s = elim (codes s) [
  | b ∷ o ∷ l ∷ dash ∷ rest ↦
      b == b'b'
      && (o == b'o'
          && (l == b'l' && (dash == b'-' && (length rest == 36 && all is_token_char rest))))
  | _ ↦ false
]

abbrev pub is_upper : ℕ → Bool
is_upper c = leb b'A' c && leb c b'Z'

-- /^[A-Z][A-Z0-9_]{0,63}$/u
unfoldable pub is_error_code : String → Bool
is_error_code s = elim (codes s) [
  | [] ↦ false
  | c ∷ rest ↦
      is_upper c
      && (leb (length rest) 63
          && all (λ d. is_upper d || ((leb b'0' d && leb d b'9') || d == b'_')) rest)
]

abbrev pub is_free : ℕ → Option ℕ → Bool
is_free now none = true
is_free now (some t) = leb t now

-- The filter of `claimBillingOutbox`.
abbrev pub is_due : ℕ → OutboxRecord → Bool
is_due now r =
    not (is_some r.published_at)
    && (not (is_some r.dead_lettered_at) && (leb r.available_at now && is_free now r.locked_until))

-- Its order: by time available, then by creation, then by identifier.
abbrev pub precedes : (String → String → Bool) → OutboxRecord → OutboxRecord → Bool
precedes follows a b =
    ltb a.available_at b.available_at
    || (a.available_at == b.available_at
        && (ltb a.created_at b.created_at
            || (a.created_at == b.created_at && follows a.outbox_id b.outbox_id)))

-- What the loop writes into a claimed record.
abbrev pub lock : String → ℕ → OutboxRecord → OutboxRecord
lock token until r = record r {
  attempts = suc r.attempts;
  lock_token = some token;
  locked_until = some until;
  last_error = none;
}

-- The entries that a claim takes. The source takes the records themselves; a record is one with its
-- entry, since each key of a `Map` has one.
abbrev pub due_entries : (String → String → Bool) → ℕ → ℕ → Keyed OutboxRecord → Keyed OutboxRecord
due_entries follows now limit s =
    take limit (sort_by (λ a b. precedes follows a.1 b.1) (select (λ e. is_due now e.1) s))

abbrev pub names : String → List String → Bool
names id = any (λ k. k =s id)

unfoldable pub lock_entries : String → ℕ → List String → Keyed OutboxRecord → Keyed OutboxRecord
lock_entries token until ids [] = []
lock_entries token until ids ((k, r) ∷ s) =
    (k, if names k ids then lock token until r else r) ∷ lock_entries token until ids s

abbrev pub claim_at :
    (String → String → Bool)
    → Keyed OutboxRecord
    → String
    → ℕ
    → ℕ
    → ℕ
    → Keyed OutboxRecord × List OutboxRecord
claim_at follows s token now until limit =
    let chosen = due_entries follows now limit s in
    (lock_entries token until (map (λ e. e.0) chosen) s, map (λ e. lock token until e.1) chosen)

unfoldable pub claim :
    (String → String → Bool)
    → Keyed OutboxRecord
    → String
    → ℕ
    → ClaimParams
    → Keyed OutboxRecord × List OutboxRecord
claim follows s uuid clock p = elim (normalize_outbox_limit p.limit) [
  | none ↦ (s, [])
  | some limit ↦ elim (normalize_outbox_lease p.lease_ms) [
    | none ↦ (s, [])
    | some lease ↦ elim (parse_outbox_time clock p.now) [
      | none ↦ (s, [])
      | some now ↦ claim_at follows s ("bol-" <> uuid) now (now + lease) limit
    ]
  ]
]

abbrev pub is_token : Option String → String → Bool
is_token none token = false
is_token (some t) token = t =s token

abbrev pub is_running : ℕ → Option ℕ → Bool
is_running at none = false
is_running at (some t) = not (leb t at)

-- Does the caller hold the record's lease at this time?
abbrev pub holds : OutboxRecord → String → ℕ → Bool
holds r token at =
    is_lock_token token
    && (is_token r.lock_token token
        && (not (is_some r.published_at)
            && (not (is_some r.dead_lettered_at) && is_running at r.locked_until)))

abbrev pub published_row : ℕ → OutboxRecord → OutboxRecord
published_row at r = record r {
  published_at = some at;
  lock_token = none;
  locked_until = none;
  last_error = none;
}

unfoldable pub complete :
    Keyed OutboxRecord → ℕ → String → String → Option (Option ℕ) → Keyed OutboxRecord × Bool
complete s clock id token published_at = elim (Keyed.get id s) [
  | none ↦ (s, false)
  | some r ↦ elim (parse_outbox_time clock published_at) [
    | none ↦ (s, false)
    | some at ↦ if holds r token at then (Keyed.set id (published_row at r) s, true) else (s, false)
  ]
]

-- The end of the record, where the caller gives one: `none` if it is no date.
abbrev pub parse_end : Option (Option ℕ) → Option (Option ℕ)
parse_end none = some none
parse_end (some none) = none
parse_end (some (some t)) = some (some t)

abbrev pub failed_row : ℕ → Option ℕ → String → OutboxRecord → OutboxRecord
failed_row retry ended code r = record r {
  available_at = retry;
  lock_token = none;
  locked_until = none;
  last_error = some code;
  dead_lettered_at = prefer ended r.dead_lettered_at;
}

unfoldable pub fail : Keyed OutboxRecord → ℕ → FailureParams → Keyed OutboxRecord × Bool
fail s clock p = elim (Keyed.get p.outbox_id s) [
  | none ↦ (s, false)
  | some r ↦ elim (parse_outbox_time clock p.failed_at) [
    | none ↦ (s, false)
    | some at ↦ elim p.retry_at [
      | none ↦ (s, false)
      | some retry ↦ elim (parse_end p.dead_lettered_at) [
        | none ↦ (s, false)
        | some ended ↦
            if holds r p.lock_token at && is_error_code p.error_code
            then (Keyed.set p.outbox_id (failed_row retry ended p.error_code r) s, true)
            else (s, false)
      ]
    ]
  ]
]
