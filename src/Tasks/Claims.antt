-- ===== src/Tasks/Claims.antt =====
-- A task is claimed at most once: `claimPendingTask` of
-- apps/longhub-cloud-api/src/memory-store.ts against every later sequence of calls.
use text.Mathlib.TextLemmas.{append_cancel_left}
use longhub_platform.Common.{
  ℕ, String, false, Option, none, some, List, [], ◌∷◌, ◌≡◌, sym, ap, ◌∙◌, ◌≢◌, suc, arith, All,
  ◌=s◌, Bool-cases, inl, inr,
}
use longhub_platform.Common.Keyed
use longhub_platform.Common.Decimal.{show_injective}
use longhub_platform.Tasks.{
  Task, Store, pending, running, same_status, Status-discrete, task_id_of, claim_pending_task, emit,
}
use longhub_platform.Tasks.Cases.{claim_cases}
use longhub_platform.Tasks.Runs.{
  Call, step, run, revives, Change, kept, wrote, added, dropped, step-Change,
}
use longhub_platform.Tasks.Invariant.{Inv, Issued}

pub task_id_of_injective : (m n : ℕ) → task_id_of m ≡ task_id_of n → m ≡ n
task_id_of_injective m n e = show_injective m n (append_cancel_left "ct-" _ _ e)

-- An identifier that has been given out is not given out again.
pub Issued-ne-next : (n : ℕ) (id : String) → Issued n id → task_id_of (suc n) ≢ id
Issued-ne-next n id (m, e, le) same = omega (arith, task_id_of_injective (suc n) m (same ∙ e))

-- The identifier was given out, and no pending task stands under it.
pub record IsSettled (id : String) (s : Store) : Type 0 where
  pub past : Issued s.task_seq id
  pub settled : (t : Task) → Keyed.get id s.tasks ≡ some t → same_status t.status pending ≡ false

wrote-settled :
    (s : Store) (id k : String) (t u v : Task)
    → IsSettled k s
    → Keyed.get id s.tasks ≡ some u
    → (same_status u.status pending ≡ false → same_status t.status pending ≡ false)
    → Keyed.get k (Keyed.set id t s.tasks) ≡ some v
    → same_status v.status pending ≡ false
wrote-settled s id k t u v h found keep e = elim (Bool-cases (id =s k)) [
  | inl same ↦
      let old = h.settled u (ground arith) in ground (arith, Keyed.get-set id k t s.tasks, keep old)
  | inr other ↦ h.settled v (ground (arith, Keyed.get-set id k t s.tasks))
]

Change-IsSettled :
    {c : Call} {s s' : Store} (k : String)
    → Change c s s'
    → revives c ≡ false
    → IsSettled k s
    → IsSettled k s'
Change-IsSettled k (kept et ei ef en) r h = record {
  past = rw en h.past;
  settled = rw et h.settled;
}
Change-IsSettled {s = s} k (wrote id t u found et ei ef en keep) r h = record {
  past = rw en h.past;
  settled = rw et (λ v e. wrote-settled s id k t u v h found (keep r) e);
}
Change-IsSettled {s = s} k (added key f t _ et ei ef en) r h = record {
  past = rw en (let (m, e, le) = h.past in (m, e, omega arith));
  settled = rw et (λ v e.
      h.settled v (sym (Keyed.get-set_ne _ k t s.tasks (Issued-ne-next s.task_seq k h.past)) ∙ e));
}
Change-IsSettled {s = s} k (dropped id _ et ei ef en) r h = record {
  past = rw en h.past;
  settled = rw et (λ v e. h.settled v (ground (arith, Keyed.get-delete id k s.tasks)));
}

run-IsSettled :
    (k : String) (s : Store) (cs : List Call)
    → All (λ c. revives c ≡ false) cs
    → IsSettled k s
    → IsSettled k (run s cs)
unfolding run
run-IsSettled k s [] t h = h
run-IsSettled k s (c ∷ cs) t h =
    run-IsSettled k (step s c) cs t.1 (Change-IsSettled k (step-Change s c) t.0 h)

claim_settled :
    (s : Store) (now : ℕ) (id : String) → IsSettled id s → claim_pending_task s now id ≡ (s, none)
claim_settled s now id h = elim (claim_cases s now id) [
  | inl e ↦ e
  | inr (t, found, p, e) ↦ absurd (cc (h.settled t found))
]

claim-IsSettled :
    (s : Store) (now : ℕ) (id : String) (t : Task)
    → Inv s
    → (claim_pending_task s now id).1 ≡ some t
    → IsSettled id (claim_pending_task s now id).0
unfolding emit Status-discrete
claim-IsSettled s now id t v h = elim (claim_cases s now id) [
  | inl e ↦ let lost : none ≡ some t = sym (ap (λ (r : Store × Option Task). r.1) e) ∙ h in cc lost
  | inr (u, found, p, e) ↦ rw e (record {
    past = v.issued id (rw found);
    settled = λ w f.
        ground
          (arith, Keyed.get-set_self id (record u { status = running; updated_at = now }) s.tasks);
  })
]

-- In a store that satisfies the invariant, once a call has claimed a task, no later call claims it
-- again, whatever calls come between, as long as none of them moves a task back to `pending`; the
-- late claim changes nothing.
pub claim_once :
    (s : Store) (now later : ℕ) (id : String) (t : Task) (cs : List Call)
    → Inv s
    → (claim_pending_task s now id).1 ≡ some t
    → All (λ c. revives c ≡ false) cs
    → let s' = run (claim_pending_task s now id).0 cs in claim_pending_task s' later id ≡ (s', none)
claim_once s now later id t cs v h r =
    claim_settled _ later id (run-IsSettled id _ cs r (claim-IsSettled s now id t v h))
