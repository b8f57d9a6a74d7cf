-- ===== src/Executions/Usage.antt =====
-- The included calls that a subscription has used: rows are retained after release, as the comments
-- of apps/longhub-cloud-api/src/memory-store.ts say.
use Prim.Native.String.{◌++◌ as ◌<>◌}
use mathlib.Core.Option
use longhub_platform.Common.{
  ℕ, ◌≤◌, String, Bool, Option, none, some, List, [], ◌∷◌, ◌≡◌, ◌∙◌, sym, ap, arith, count,
  length-select, count-select, ◌=s◌, ◌&&◌,
}
use longhub_platform.Common.Keyed
use longhub_platform.Common.Keyed.{Keyed, values}
use longhub_platform.Executions.{
  Gate, Reservation, cycle_calls, in_cycle, subscription_rows, expire_one,
}
use longhub_platform.Executions.Counts.{cycle_calls-set}
use longhub_platform.Executions.Steps.{
  Call, step, run, IsFresh, FreshRun, Change, kept, expired, unlinked, added, freed, step-Change,
}

-- Is the row one of the calls that `cycle_calls` counts?
abbrev is_call : String → String → ℕ → ℕ → Reservation → Bool
is_call id skill starts now r = (r.subscription_id =s id) && in_cycle skill starts now r

cycle_calls-count :
    (id skill : String) (starts now : ℕ) (rows : List Reservation)
    → cycle_calls id skill starts now rows ≡ count (is_call id skill starts now) rows
unfolding cycle_calls
cycle_calls-count id skill starts now rows =
    length-select (in_cycle skill starts now) (subscription_rows id rows)
    ∙ count-select (λ r. r.subscription_id =s id) (in_cycle skill starts now) rows

cycle_calls-expire :
    (id skill : String) (starts now at : ℕ) (m : Keyed Reservation)
    → cycle_calls id skill starts now (values (Keyed.update_all (expire_one at) m))
      ≡ cycle_calls id skill starts now (values m)
cycle_calls-expire id skill starts now at m =
    cycle_calls-count id skill starts now _
    ∙ Keyed.count-update_all (is_call id skill starts now) (is_call id skill starts now)
        (expire_one at) m (λ r. ground arith)
    ∙ sym (cycle_calls-count id skill starts now (values m))

-- Writing the time of release keeps the count.
cycle_calls-free :
    (id skill : String) (starts now at : ℕ) (k : String) (r : Reservation) (m : Keyed Reservation)
    → Keyed.get k m ≡ some r
    → cycle_calls id skill starts now (values (Keyed.set k (record r { released_at = some at }) m))
      ≡ cycle_calls id skill starts now (values m)
cycle_calls-free id skill starts now at k r m found = omega (
  arith,
  cycle_calls-count id skill starts now
      (values (Keyed.set k (record r { released_at = some at }) m)),
  cycle_calls-count id skill starts now (values m),
  Keyed.count-set_old (is_call id skill starts now) k (record r { released_at = some at }) r m
      found,
)

pub fresh_row :
    (s : Gate) (o : Option String) (uuid : String) (at : ℕ)
    → IsFresh o s
    → o ≡ some uuid
    → Keyed.get ("csres-" <> uuid) (Keyed.update_all (expire_one at) s.reservations) ≡ none
fresh_row s none uuid at f e = cc
fresh_row s (some u) uuid at f e =
    let same : uuid ≡ u = cc in
    rw same (
      Keyed.get-update_all (expire_one at) ("csres-" <> u) s.reservations
      ∙ ap (Option.map (expire_one at)) f)

Change-usage :
    {o : Option String} {s s' : Gate} (id skill : String) (starts now : ℕ)
    → Change o s s'
    → IsFresh o s
    → cycle_calls id skill starts now (values s.reservations)
      ≤ cycle_calls id skill starts now (values s'.reservations)
Change-usage id skill starts now (kept e) f = rw e (omega arith)
Change-usage {s = s} id skill starts now (expired at er et) f =
    rw er (omega (arith, cycle_calls-expire id skill starts now at s.reservations))
Change-usage {s = s} id skill starts now (unlinked at _ _ _ _ er et) f =
    rw er (omega (arith, cycle_calls-expire id skill starts now at s.reservations))
Change-usage {o = o} {s = s} id skill starts now (added at uuid task r by_task eo ek _ _ er et) f =
    let rows = Keyed.update_all (expire_one at) s.reservations in
    let absent = ap (λ (k : String). Keyed.get k rows) ek ∙ fresh_row s o uuid at f eo in
    rw er (
      omega (
        arith,
        cycle_calls-expire id skill starts now at s.reservations,
        cycle_calls-set id skill starts now r.reservation_id r rows absent,
      ))
Change-usage {s = s} id skill starts now (freed at k r found er et) f = rw er (
    omega (
      arith,
      cycle_calls-expire id skill starts now at s.reservations,
      cycle_calls-free id skill starts now at k r (Keyed.update_all (expire_one at) s.reservations)
          found,
    ))

-- Whatever is reserved and released afterwards, under fresh identifiers, the number of calls of a
-- Skill that a subscription has used up to a time never falls: neither a release nor the expiry of
-- a lease gives an included call back.
pub usage_never_falls :
    (s : Gate) (cs : List Call) (id skill : String) (starts now : ℕ)
    → FreshRun s cs
    → cycle_calls id skill starts now (values s.reservations)
      ≤ cycle_calls id skill starts now (values (run s cs).reservations)
unfolding run
usage_never_falls s [] id skill starts now f = omega arith
usage_never_falls s (c ∷ cs) id skill starts now f = omega (
  arith,
  Change-usage id skill starts now (step-Change s c) f.0,
  usage_never_falls (step s c) cs id skill starts now f.1,
)
