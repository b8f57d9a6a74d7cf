-- ===== src/Executions/Counts.antt =====
-- The counters of the admission gate through a new row.
use longhub_platform.Common.{
  ℕ, ◌+◌, ◌≤◌, String, Bool, true, false, ◌&&◌, none, ◌≡◌, arith, bit, select, length,
  length-select, count-select, ◌=s◌,
}
use longhub_platform.Common.Keyed
use longhub_platform.Common.Keyed.{Keyed, values}
use longhub_platform.Executions.{
  Reservation, Request, cycle_calls, minute_calls, active_calls, owned_by, in_cycle, minute_start,
  is_held,
}
use longhub_platform.Common.{leb}

-- A counter of selected rows grows by one at most.
counted {ℓ} :
    {A : Type ℓ} (p q : A → Bool) (k : String) (v : A) (m : Keyed A)
    → Keyed.get k m ≡ none
    → length (select p (select q (values (Keyed.set k v m))))
      ≡ length (select p (select q (values m))) + bit (q v && p v)
counted p q k v m fresh = omega (
  arith,
  length-select p (select q (values (Keyed.set k v m))),
  length-select p (select q (values m)),
  count-select q p (values (Keyed.set k v m)),
  count-select q p (values m),
  Keyed.count-set_new (λ x. q x && p x) k v m fresh,
)

counted_twice {ℓ} :
    {A : Type ℓ} (p q r : A → Bool) (k : String) (v : A) (m : Keyed A)
    → Keyed.get k m ≡ none
    → length (select p (select q (select r (values (Keyed.set k v m)))))
      ≡ length (select p (select q (select r (values m)))) + bit (r v && (q v && p v))
counted_twice p q r k v m fresh = omega (
  arith,
  length-select p (select q (select r (values (Keyed.set k v m)))),
  length-select p (select q (select r (values m))),
  count-select q p (select r (values (Keyed.set k v m))),
  count-select q p (select r (values m)),
  count-select r (λ x. q x && p x) (values (Keyed.set k v m)),
  count-select r (λ x. q x && p x) (values m),
  Keyed.count-set_new (λ x. r x && (q x && p x)) k v m fresh,
)

pub cycle_calls-set :
    (id skill : String) (starts now : ℕ) (k : String) (v : Reservation) (m : Keyed Reservation)
    → Keyed.get k m ≡ none
    → cycle_calls id skill starts now (values (Keyed.set k v m))
      ≡ cycle_calls id skill starts now (values m)
        + bit ((v.subscription_id =s id) && in_cycle skill starts now v)
unfolding cycle_calls
cycle_calls-set id skill starts now k v m fresh = counted (in_cycle skill starts now) _ k v m fresh

pub minute_calls-set :
    (id : String) (q : Request) (now : ℕ) (k : String) (v : Reservation) (m : Keyed Reservation)
    → Keyed.get k m ≡ none
    → minute_calls id q now (values (Keyed.set k v m))
      ≡ minute_calls id q now (values m)
        + bit (
            (v.subscription_id =s id)
            && (owned_by q.tenant_id q.user_id q.device_id v
                && (leb (minute_start now) v.reserved_at && leb v.reserved_at now)))
unfolding minute_calls
minute_calls-set id q now k v m fresh = counted_twice _ _ _ k v m fresh

pub active_calls-set :
    (id : String) (q : Request) (now : ℕ) (k : String) (v : Reservation) (m : Keyed Reservation)
    → Keyed.get k m ≡ none
    → active_calls id q now (values (Keyed.set k v m))
      ≡ active_calls id q now (values m)
        + bit (
            (v.subscription_id =s id)
            && (owned_by q.tenant_id q.user_id q.device_id v && is_held now v))
unfolding active_calls
active_calls-set id q now k v m fresh = counted_twice _ _ _ k v m fresh

pub bit-le : (b : Bool) → bit b ≤ 1
bit-le true = omega arith
bit-le false = omega arith
