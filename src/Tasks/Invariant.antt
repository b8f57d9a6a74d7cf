-- ===== src/Tasks/Invariant.antt =====
-- The invariant of the task store: the idempotency index leads to tasks, and the identifiers of
-- tasks are those that have been given out.
use longhub_platform.Common.{
  ℕ, String, true, false, Option, none, some, List, [], ◌∷◌, ◌≡◌, ◌≤◌, suc, arith, All, ◌=s◌,
  Bool-cases, inl, inr, is_some, Option-cases, ok, or_else,
}
use longhub_platform.Common.Keyed
use longhub_platform.Common.Keyed.{Keyed, values}
use longhub_platform.Tasks.Fingerprint.{legacy_unbound}
use longhub_platform.Tasks.{
  Task, Store, Owner, Binding, empty, task_id_of, owner_key, task_idempotency_binding,
  find_task_by_idempotency,
}
use longhub_platform.Tasks.Runs.{Call, step, run, Change, kept, wrote, added, dropped, step-Change}

-- Every key of the idempotency index leads to a task.
abbrev pub Leads : Keyed Task → String → Type 0
Leads tasks id = is_some (Keyed.get id tasks) ≡ true

-- Task identifiers are those given out so far.
abbrev pub Issued : ℕ → String → Type 0
Issued n id = (m : ℕ) × (id ≡ task_id_of m) × (m ≤ n)

pub record Inv (s : Store) : Type 0 where
  pub indexed : All (Leads s.tasks) (values s.idempotency)
  pub distinct : Keyed.Distinct s.idempotency
  pub issued : (id : String) → Leads s.tasks id → Issued s.task_seq id

Leads-set : (id k : String) (t : Task) (m : Keyed Task) → Leads m k → Leads (Keyed.set id t m) k
Leads-set id k t m h = ground (arith, Keyed.get-set id k t m)

Leads-set_self : (id : String) (t : Task) (m : Keyed Task) → Leads (Keyed.set id t m) id
Leads-set_self id t m = rw (Keyed.get-set_self id t m)

Leads-set_old :
    (id k : String) (t u : Task) (m : Keyed Task)
    → Keyed.get id m ≡ some u
    → Leads (Keyed.set id t m) k
    → Leads m k
Leads-set_old id k t u m e h = ground (arith, Keyed.get-set id k t m)

Leads-delete :
    (id k : String) (m : Keyed Task) → Leads m k → (k =s id) ≡ false → Leads (Keyed.delete id m) k
Leads-delete id k m h ne = ground (arith, Keyed.get-delete id k m)

Leads-delete_back : (id k : String) (m : Keyed Task) → Leads (Keyed.delete id m) k → Leads m k
Leads-delete_back id k m h = ground (arith, Keyed.get-delete id k m)

issued_next :
    (s : Store) (v : Inv s) (k : String) (t : Task)
    → Leads (Keyed.set (task_id_of (suc s.task_seq)) t s.tasks) k
    → Issued (suc s.task_seq) k
issued_next s v k t h = elim (Bool-cases (task_id_of (suc s.task_seq) =s k)) [
  | inl same ↦ (suc s.task_seq, ground arith, omega arith)
  | inr other ↦
      let (m, e, le) =
        v.issued k (ground (arith, Keyed.get-set (task_id_of (suc s.task_seq)) k t s.tasks)) in
      (m, e, omega arith)
]

-- Writing over a task that is there keeps the invariant, whatever else changes.
write-Inv :
    (s s' : Store) (id : String) (t u : Task)
    → Inv s
    → Keyed.get id s.tasks ≡ some u
    → s'.tasks ≡ Keyed.set id t s.tasks
    → s'.idempotency ≡ s.idempotency
    → s'.task_seq ≡ s.task_seq
    → Inv s'
write-Inv s s' id t u v e et ei en = record {
  indexed =
      rw (et, ei)
        (Keyed.All-weaken (Leads s.tasks) _ (values s.idempotency)
          (λ k h. Leads-set id k t s.tasks h) v.indexed);
  distinct = rw ei v.distinct;
  issued = rw (et, en) (λ k h. v.issued k (Leads-set_old id k t u s.tasks e h));
}

Change-Inv : {c : Call} {s s' : Store} → Change c s s' → Inv s → Inv s'
Change-Inv {s = s} (kept et ei ef en) v = record {
  indexed = rw (et, ei) v.indexed;
  distinct = rw ei v.distinct;
  issued = rw (et, en) v.issued;
}
Change-Inv {s = s} {s' = s'} (wrote id t u e et ei ef en _) v = write-Inv s s' id t u v e et ei en
Change-Inv {s = s} (added key f t _ et ei ef en) v = record {
  indexed =
      rw (et, ei)
        (Keyed.All-set (Leads (Keyed.set (task_id_of (suc s.task_seq)) t s.tasks)) key _
          s.idempotency (Leads-set_self _ t s.tasks)
          (Keyed.All-weaken (Leads s.tasks) _ (values s.idempotency)
            (λ k h. Leads-set _ k t s.tasks h) v.indexed));
  distinct = rw ei (Keyed.Distinct-set key _ s.idempotency v.distinct);
  issued = rw (et, en) (λ k h. issued_next s v k t h);
}
Change-Inv {s = s} (dropped id _ et ei ef en) v = record {
  indexed =
      rw (et, ei)
        (Keyed.All-delete_where (Leads s.tasks) _ (λ k. k =s id) s.idempotency
          (λ k h ne. Leads-delete id k s.tasks h ne) v.indexed);
  distinct = rw ei (Keyed.Distinct-delete_where _ s.idempotency v.distinct);
  issued = rw (et, en) (λ k h. v.issued k (Leads-delete_back id k s.tasks h));
}

pub step-Inv : (s : Store) (c : Call) → Inv s → Inv (step s c)
step-Inv s c v = Change-Inv (step-Change s c) v

pub run-Inv : (s : Store) (cs : List Call) → Inv s → Inv (run s cs)
unfolding run
run-Inv s [] v = v
run-Inv s (c ∷ cs) v = run-Inv (step s c) cs (step-Inv s c v)

pub empty-Inv : Inv empty
unfolding empty Keyed.get
empty-Inv = record { indexed = tt; distinct = tt; issued = λ id h. cc h }

indexed_binding :
    (s : Store) (key : String) (o : Owner)
    → Inv s
    → (b : Option Binding) × (find_task_by_idempotency s key o ≡ ok b)
unfolding find_task_by_idempotency
indexed_binding s key o v = elim (Option-cases (Keyed.get (owner_key o key) s.idempotency)) [
  | inl e ↦ (none, rw (e, task_idempotency_binding))
  | inr (id, e) ↦ elim (Option-cases (Keyed.get id s.tasks)) [
    | inl e' ↦ absurd (cc (Keyed.All-get (Leads s.tasks) _ id s.idempotency v.indexed e))
    | inr (t, e') ↦ (
      some (record {
        task = t;
        request_fingerprint = or_else (Keyed.get id s.fingerprints) legacy_unbound;
      }),
      rw (e, task_idempotency_binding) (rw e'),
    )
  ]
]

-- Looking up an idempotency key never throws: whatever calls have been made of an empty store, an
-- entry of the index leads to a task.
pub binding_total :
    (cs : List Call) (key : String) (o : Owner)
    → (b : Option Binding) × (find_task_by_idempotency (run empty cs) key o ≡ ok b)
binding_total cs key o = indexed_binding (run empty cs) key o (run-Inv empty cs empty-Inv)
