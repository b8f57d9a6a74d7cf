-- ===== src/Billing/Examples.antt =====
-- Settlements on a small store: a buyer with a balance, a plan with one Skill, and an order of it.
use longhub_platform.Common.{
  ℕ, zero, suc, String, true, none, some, List, [], ◌∷◌, ◌≡◌, ◌≢◌, refl, ap, ◌∙◌, map, arith, ok,
  String-discrete, text_le, sort_by, insert_by,
}
use longhub_platform.Common.Int.{pos, ◌+ℤ◌}
use longhub_platform.Common.Keyed
use longhub_platform.Common.Keyed.{Keyed}
use longhub_platform.Orders.{
  User, UserStatus, Transaction, TransactionType, Order, OrderType, OrderStatus, PayMethod,
  set_user_status,
}
use longhub_platform.Orders.Names.{IsNamed}
use longhub_platform.Skills.{
  Plan, PlanStatus, Period, EntitlementStatus, create_subscription, add_subscription,
  grant_entitlement, put_entitlement, Subscription, SubscriptionStatus, Grant,
}
use longhub_platform.Skills.Resolution.{AccessQuery, resolve_access, first_grant, grant_of}
use longhub_platform.Skills.Revocation.{Call, run, step}
use longhub_platform.Billing.{BillingStore, Fresh, PaymentParams, RefundParams, Staged, replay}
use longhub_platform.Billing.Payment.{settle_payment, stage_payment, staged_payment, commit_payment}
use longhub_platform.Billing.Payment.Checks.{Payable, payable}
use longhub_platform.Billing.Payment.Staging.{Delivery, subscription_of, deliver_skills}
use longhub_platform.Billing.Refund.{
  Refundable, settle_refund, stage_refund, refundable, withdraw_skills, staged_refund,
  refunded_subscription, revoked_grant, commit_refund,
}
use longhub_platform.Billing.Delivery.{first_delivery}
use longhub_platform.Billing.Steps.{here, next, sets_status, pays, IsUnused}
use longhub_platform.Billing.Ledger.{Audited, books_balance}
use longhub_platform.Billing.Once.{paid_once, refunded_once}
use longhub_platform.Billing.Reversal.{refund_restores_balances}
use longhub_platform.Billing.Fulfilment.{refund_ends_access, payment_gives_access}

abbrev buyer : User
buyer = record {
  user_id = "u1";
  email = "a@b.c";
  password_hash = "x";
  status = UserStatus.active;
  balance_fen = 1000;
  created_at = 0;
}

abbrev recharge : Transaction
recharge = record {
  txn_id = "txn-0";
  user_id = "u1";
  type = TransactionType.recharged;
  amount_fen = pos 1000;
  balance_after_fen = 1000;
  order_id = none;
  settlement_id = none;
  remark = none;
  created_at = 0;
}

abbrev offer : Plan
offer = record {
  plan_id = "pl1";
  name = "Plan";
  description = "";
  skill_ids = "sk1" ∷ [];
  price_monthly_fen = 0;
  price_yearly_fen = 0;
  included_calls = 10;
  requests_per_minute = 5;
  max_concurrency = 1;
  status = PlanStatus.listed;
  created_at = 0;
}

abbrev order : Order
order = record {
  order_id = "o1";
  user_id = "u1";
  type = OrderType.cloud_skill_plan;
  product_id = none;
  pack_id = none;
  plan_id = some "pl1";
  tenant_id = some "t1";
  period = some Period.monthly;
  amount_fen = 300;
  status = OrderStatus.pending;
  pay_method = none;
  created_at = 0;
  paid_at = none;
  refunded_at = none;
}

abbrev store : BillingStore
store = record {
  shop = record {
    users = ("u1", buyer) ∷ [];
    products = [];
    orders = ("o1", order) ∷ [];
    transactions = recharge ∷ [];
  };
  devices = record { devices = []; challenges = []; by_hash = [] };
  packs = [];
  skills = record {
    plans = ("pl1", offer) ∷ [];
    subscriptions = [];
    subscriptions_by_order = [];
    entitlements = [];
  };
  outbox = [];
  settlements = [];
  by_order = [];
  by_key = [];
  results = [];
  audits = [];
}

-- Different identifiers for different entitlements.
abbrev ticks : ℕ → String
ticks zero = ""
ticks (suc n) = String.◌∷◌ "i" (ticks n)

abbrev size : String → ℕ
size String.[] = zero
size (String.◌∷◌ c s) = suc (size s)

size-ticks : (n : ℕ) → size (ticks n) ≡ n
size-ticks zero = refl
size-ticks (suc n) = omega (arith, size-ticks n)

ticks_inj : (i j : ℕ) → ticks i ≡ ticks j → i ≡ j
ticks_inj i j h = omega (arith, size-ticks i, size-ticks j, ap size h)

abbrev fresh : Fresh
fresh = record {
  settlement = "1";
  transaction = "1";
  subscription = "1";
  entitlement = ticks;
  outbox = "1";
  audit = "1";
  clock = 100;
  created_at = 100;
}

abbrev fresh2 : Fresh
fresh2 = record fresh { settlement = "2"; transaction = "2"; outbox = "2" }

abbrev pay : PaymentParams
pay = record {
  order_id = "o1";
  user_id = "u1";
  method = some PayMethod.balance;
  provider_reference = none;
  idempotency_key = "k1";
  request_hash = "h1";
  paid_at = none;
}

abbrev give_back : RefundParams
give_back = record {
  order_id = "o1";
  actor = "admin";
  idempotency_key = "k2";
  request_hash = "h2";
  provider_reference = none;
  refunded_at = none;
}

abbrev bought : Payable
bought = record { order = order; user = buyer; method = PayMethod.balance; paid_at = 100 }

abbrev sold : Delivery
sold = first_delivery store.skills fresh bought "pl1" "t1" Period.monthly offer

abbrev staged : Staged
staged = staged_payment fresh pay bought 700 sold

abbrev paid_store : BillingStore
paid_store = commit_payment store staged

paid : settle_payment text_le store fresh pay ≡ (paid_store, ok staged.result)
unfolding settle_payment replay Keyed.get String-discrete stage_payment payable ◌+ℤ◌ deliver_skills
    sort_by insert_by
paid = refl

users_named : (k : String) (u : User) → Keyed.get k store.shop.users ≡ some u → u.user_id ≡ k
unfolding Keyed.get
users_named k u h = ground arith

store-IsNamed : IsNamed store.shop.orders
unfolding Keyed.get
store-IsNamed id o h = ground arith

store-Audited : Audited store
unfolding Keyed.get ◌+ℤ◌ String-discrete
store-Audited = record { named = users_named; balanced = λ id. ground arith; chained = (refl, tt) }

abbrev sub : Subscription
sub = record {
  subscription_id = "csub-1";
  user_id = "u1";
  tenant_id = "t1";
  plan_id = "pl1";
  status = SubscriptionStatus.active;
  period = Period.monthly;
  starts_at = 100;
  expires_at = 2678400100;
  cancelled_at = none;
  refunded_at = none;
  source_order_id = "o1";
  created_at = 100;
}

abbrev returning : Refundable
returning = record {
  order = staged.result.order;
  user = record buyer { balance_fen = 700 };
  refunded_at = 100;
}

abbrev withdrawn : Delivery
withdrawn = record {
  packs = [];
  subscription = some (refunded_subscription 100 sub);
  grants = map revoked_grant sold.grants;
}

abbrev reversed : Staged
reversed = staged_refund fresh2 give_back returning withdrawn

returned :
    settle_refund paid_store fresh2 give_back
    ≡ (commit_refund paid_store fresh2 give_back reversed, ok reversed.result)
unfolding settle_refund replay Keyed.get Keyed.set String-discrete stage_refund refundable ◌+ℤ◌
    withdraw_skills sort_by insert_by
returned = refl

paid_store-IsNamed : IsNamed paid_store.shop.orders
unfolding Keyed.get Keyed.set String-discrete
paid_store-IsNamed id o h = ground arith

unused : IsUnused store fresh
unfolding Keyed.get
unused = record { no_settlement = refl; no_result = refl }

no_subscription : subscription_of store.skills "o1" ≡ none
unfolding Keyed.get
no_subscription = refl

here_order : Keyed.get "o1" store.shop.orders ≡ some order
unfolding Keyed.get String-discrete
here_order = refl

here_plan : Keyed.get "pl1" store.skills.plans ≡ some offer
unfolding Keyed.get String-discrete
here_plan = refl

-- The buyer's account is closed for a while.
abbrev closed : BillingStore → BillingStore
closed s = record s { shop = (set_user_status s.shop "u1" UserStatus.disabled).0 }

books_balance_example : Audited (closed (settle_payment text_le store fresh pay).0)
books_balance_example = books_balance store-Audited (
    next (next here (pays text_le store fresh pay unused))
      (sets_status (settle_payment text_le store fresh pay).0 "u1" UserStatus.disabled))

paid_once_example :
    settle_payment text_le (closed (settle_payment text_le store fresh pay).0) fresh2 pay ≡ (
      closed (settle_payment text_le store fresh pay).0,
      ok (record staged.result { replayed = true }),
    )
paid_once_example =
    paid_once text_le store fresh pay staged.result
      (closed (settle_payment text_le store fresh pay).0) fresh2 store-IsNamed (λ e. cc e)
      (ap (λ x. x.1) paid)
      (next here (sets_status (settle_payment text_le store fresh pay).0 "u1" UserStatus.disabled))

refunded_once_example :
    settle_refund (closed (settle_refund paid_store fresh2 give_back).0) fresh give_back ≡ (
      closed (settle_refund paid_store fresh2 give_back).0,
      ok (record reversed.result { replayed = true }),
    )
refunded_once_example =
    refunded_once paid_store fresh2 give_back reversed.result
      (closed (settle_refund paid_store fresh2 give_back).0) fresh paid_store-IsNamed (λ e. cc e)
      (ap (λ x. x.1) returned)
      (next here
        (sets_status (settle_refund paid_store fresh2 give_back).0 "u1" UserStatus.disabled))

refund_restores_balances_example :
    Keyed.get "u1"
      (settle_refund (settle_payment text_le store fresh pay).0 fresh2 give_back).0.shop.users
    ≡ Keyed.get "u1" store.shop.users
refund_restores_balances_example =
    refund_restores_balances text_le store fresh fresh2 pay give_back staged.result reversed.result
      "u1" users_named store-IsNamed refl refl (ap (λ x. x.1) paid) refl
      (ap (λ x. (settle_refund x.0 fresh2 give_back).1) paid ∙ ap (λ x. x.1) returned) refl

abbrev query : AccessQuery
query = record {
  user_id = some "u1";
  user_id_camel = none;
  tenant_id = some "t1";
  tenant_id_camel = none;
  skill_id = some "sk1";
  skill_id_camel = none;
  allowed_plan_ids = none;
  allowed_plan_ids_camel = none;
  now = some 200;
}

payment_gives_access_example :
    (g : Grant) × (resolve_access (settle_payment text_le store fresh pay).0.skills 0 query
      ≡ some g)
unfolding String-discrete
payment_gives_access_example =
    payment_gives_access text_le store fresh pay staged.result order "pl1" "t1" "sk1" offer sub 0
      query (record { unsubscribed = no_subscription; unentitled = tt; distinct = ticks_inj })
      (ap (λ x. x.1) paid) refl refl here_order refl refl refl here_plan refl refl refl refl refl
      (omega arith) (omega arith) refl

-- Another subscription of the same buyer, made after the refund.
abbrev calls : List Call
calls =
    Call.subscribe "9" 300 (record {
      user_id = "u1";
      tenant_id = "t1";
      plan_id = "pl1";
      period = Period.monthly;
      starts_at = 100;
      expires_at = 5000;
      source_order_id = "o9";
      status = none;
    })
    ∷ Call.grant "9" 300 (record {
      subscription_id = "csub-9";
      tenant_id = none;
      user_id = none;
      skill_id = "sk1";
      plan_id = "pl1";
      expires_at = none;
    })
    ∷ []

abbrev other_sub : Subscription
other_sub = record sub {
  subscription_id = "csub-9";
  expires_at = 5000;
  source_order_id = "o9";
  created_at = 300;
}

abbrev other_grant : Grant
other_grant = record {
  entitlement = record {
    entitlement_id = "csent-9";
    subscription_id = "csub-9";
    tenant_id = "t1";
    user_id = "u1";
    skill_id = "sk1";
    plan_id = "pl1";
    status = EntitlementStatus.active;
    expires_at = 5000;
    created_at = 300;
  };
  subscription = other_sub;
  plan = offer;
}

resolved_after :
    resolve_access (run (commit_refund paid_store fresh2 give_back reversed).skills calls) 0 query
    ≡ some other_grant
unfolding resolve_access first_grant grant_of Keyed.get Keyed.set Keyed.update_all sort_by insert_by
    String-discrete run step create_subscription add_subscription grant_entitlement put_entitlement
resolved_after = refl

refund_ends_access_example : ◌≢◌ {A = String} "csub-9" "csub-1"
unfolding String-discrete
refund_ends_access_example =
    refund_ends_access paid_store fresh2 give_back reversed.result (refunded_subscription 100 sub)
      calls 0 query "u1" "t1" "sk1" other_grant (ap (λ x. x.1) returned) refl refl
      (refl, (refl, tt)) refl refl refl
      (ap (λ x. resolve_access (run x.0.skills calls) 0 query) returned ∙ resolved_after)
