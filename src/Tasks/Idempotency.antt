-- ===== src/Tasks/Idempotency.antt =====
-- Idempotency keys of the task store: `createTask` and `findTaskByIdempotency` of
-- apps/longhub-cloud-api/src/memory-store.ts against later calls.
use Prim.Native.Char.{Char, code}
use Prim.Native.String.{◌++◌ as ◌<>◌}
use text.Mathlib.TextLemmas.{
  append_cancel_left, nil-append, cons-append, head-eq_of_cons-eq, tail-eq_of_cons-eq,
}
use mathlib.Core.Path.{ap₂}
use longhub_platform.Common.{
  ℕ, String, true, false, Bool, Option, none, some, List, [], ◌∷◌, ◌≡◌, refl, sym, ap, ◌∙◌, ◌≢◌,
  suc, arith, All, ◌=s◌, inl, inr, Option-cases, Result, ok, err, or_else, ◌||◌, not, if◌then◌else◌,
  =s_refl,
}
use longhub_platform.Common.Keyed
use longhub_platform.Tasks.Fingerprint.{Input, Placeholder, normalize_fingerprint, legacy_unbound}
use longhub_platform.Tasks.{
  Task, Store, Owner, Error, idempotency_conflict, owner_key, nul, create_task, add_task,
  task_id_of, legacy_owner, task_idempotency_binding, create_or_replay, discard_pending_task,
  find_task_by_idempotency, guarded_task,
}
use longhub_platform.Tasks.Cases.{created_new}
use longhub_platform.Tasks.Runs.{
  Call, create, step, run, discards, Change, kept, wrote, added, dropped, step-Change,
}
use longhub_platform.Tasks.Invariant.{Inv, Leads, step-Inv}
use longhub_platform.Tasks.Claims.{Issued-ne-next}

-- No NUL in the text.
abbrev pub NulFree : String → Type 0
NulFree String.[] = Unit {0}
NulFree (String.◌∷◌ c s) = (code c ≢ 0) × NulFree s

abbrev nul_char : Char
nul_char = "\0"

nul_first : (x : String) → nul <> x ≡ String.◌∷◌ nul_char x
nul_first x = cons-append nul_char String.[] x ∙ ap (String.◌∷◌ nul_char) (nil-append x)

-- Where the first text ends at once, so does the other.
split_empty :
    (c : Char) (b x y : String)
    → code c ≢ 0
    → String.[] <> (nul <> x) ≡ String.◌∷◌ c b <> (nul <> y)
    → ⊥
split_empty c b x y h e = h (
    ap code (
      sym (
        head-eq_of_cons-eq
          (sym (nul_first x) ∙ sym (nil-append _) ∙ e ∙ cons-append c b (nul <> y)))))

split_nul :
    (a b x y : String)
    → NulFree a
    → NulFree b
    → a <> (nul <> x) ≡ b <> (nul <> y)
    → (a ≡ b) × (x ≡ y)
split_nul String.[] String.[] x y ha hb e =
    (refl, append_cancel_left nul x y (sym (nil-append _) ∙ e ∙ nil-append _))
split_nul String.[] (String.◌∷◌ c b) x y ha hb e = absurd (split_empty c b x y hb.0 e)
split_nul (String.◌∷◌ c a) String.[] x y ha hb e = absurd (split_empty c a y x ha.0 (sym e))
split_nul (String.◌∷◌ c a) (String.◌∷◌ d b) x y ha hb e =
    let e' : String.◌∷◌ c (a <> (nul <> x)) ≡ String.◌∷◌ d (b <> (nul <> y)) =
      sym (cons-append c a (nul <> x)) ∙ e ∙ cons-append d b (nul <> y) in
    let (same, rest) = split_nul a b x y ha.1 hb.1 (tail-eq_of_cons-eq e') in
    (ap₂ String.◌∷◌ (head-eq_of_cons-eq e') same, rest)

-- The NUL-joined key of the index determines the owner and the client's key, if no NUL stands in
-- the owner's three identifiers: no owner reaches the binding of another one.
pub owner_key_injective :
    (o p : Owner) (k l : String)
    → NulFree o.tenant_id
    → NulFree o.device_id
    → NulFree o.agent_id
    → NulFree p.tenant_id
    → NulFree p.device_id
    → NulFree p.agent_id
    → owner_key o k ≡ owner_key p l
    → (o ≡ p) × (k ≡ l)
unfolding owner_key
owner_key_injective o p k l ht hd ha gt gd ga e =
    let (same_tenant, e1) = split_nul o.tenant_id p.tenant_id _ _ ht gt e in
    let (same_device, e2) = split_nul o.device_id p.device_id _ _ hd gd e1 in
    let (same_agent, same_key) = split_nul o.agent_id p.agent_id _ _ ha ga e2 in
    (
      λ i. record { tenant_id = same_tenant i; device_id = same_device i; agent_id = same_agent i },
      same_key,
    )

-- The key is in the index, under a task with this fingerprint.
pub record Bound (key id f : String) (s : Store) : Type 0 where
  pub inv : Inv s
  pub entry : Keyed.get key s.idempotency ≡ some id
  pub fingerprint : Keyed.get id s.fingerprints ≡ some f

Bound-Leads : {key id f : String} {s : Store} → Bound key id f s → Leads s.tasks id
Bound-Leads {key} {id} {f} {s} b =
    Keyed.All-get (Leads s.tasks) key id s.idempotency b.inv.indexed b.entry

Change-Bound :
    {c : Call} {s s' : Store} (key id f : String)
    → Change c s s'
    → Inv s'
    → discards id c ≡ false
    → Bound key id f s
    → Bound key id f s'
Change-Bound key id f (kept et ei ef en) v d b = record {
  inv = v;
  entry = rw ei b.entry;
  fingerprint = rw ef b.fingerprint;
}
Change-Bound key id f (wrote _ t u _ et ei ef en _) v d b = record {
  inv = v;
  entry = rw ei b.entry;
  fingerprint = rw ef b.fingerprint;
}
Change-Bound {s = s} key id f (added key' f' t fresh et ei ef en) v d b = record {
  inv = v;
  entry =
      rw ei (
        ground
          (arith, Keyed.get-set key' key (task_id_of (suc s.task_seq)) s.idempotency, b.entry));
  fingerprint = rw ef (
      Keyed.get-set_ne _ id f' s.fingerprints
        (Issued-ne-next s.task_seq id (b.inv.issued id (Bound-Leads b)))
      ∙ b.fingerprint);
}
Change-Bound {c = c} {s = s} key id f (dropped id' asked et ei ef en) v d b =
    let differ : id ≢ id' = λ e. cc (ap (λ (k : String). discards k c) e) in
    record {
      inv = v;
      entry =
          rw ei (
            Keyed.get-delete_where_kept (λ k. k =s id') key id s.idempotency b.entry
              (ground arith));
      fingerprint = rw ef (ground (arith, Keyed.get-delete id' id s.fingerprints, b.fingerprint));
    }

run-Bound :
    (key id f : String) (s : Store) (cs : List Call)
    → All (λ c. discards id c ≡ false) cs
    → Bound key id f s
    → Bound key id f (run s cs)
unfolding run
run-Bound key id f s [] d b = b
run-Bound key id f s (c ∷ cs) d b =
    run-Bound key id f (step s c) cs d.1
      (Change-Bound key id f (step-Change s c) (step-Inv s c b.inv) d.0 b)

-- What a retry gets: the task, unless its fingerprint is not a valid one, is the legacy mark, or
-- differs from the first.
abbrev pub retry_result : String → Option String → Task → Result Error (Task × Bool)
retry_result f none t = err idempotency_conflict
retry_result f (some f') t =
    if (f =s legacy_unbound) || not (f =s f') then err idempotency_conflict else ok (t, true)

binding_bound :
    (s : Store) (key id n : String) (o : Owner) (t : Task)
    → Keyed.get (owner_key o key) s.idempotency ≡ some id
    → Keyed.get id s.fingerprints ≡ some n
    → Keyed.get id s.tasks ≡ some t
    → task_idempotency_binding s key o ≡ ok (some (record { task = t; request_fingerprint = n }))
unfolding task_idempotency_binding
binding_bound s key id n o t entry print found =
    rw (entry, task_idempotency_binding) (rw (found, print))

create-Bound :
    (s : Store) (now : ℕ) (key kind : String) (input : Input) (o : Option Owner) (f : Option String)
    (id n : String)
    → Bound (owner_key (or_else o legacy_owner) key) id n s
    → (t : Task) × (Keyed.get id s.tasks ≡ some t)
      × (create_task s now key kind input o f ≡ (s, retry_result n (normalize_fingerprint f) t))
unfolding create_task
create-Bound s now key kind input o f id n b = elim (Option-cases (Keyed.get id s.tasks)) [
  | inl e ↦ absurd (cc (Bound-Leads b))
  | inr (t, e) ↦
      let found = binding_bound s key id n (or_else o legacy_owner) t b.entry b.fingerprint e in
      (
        t,
        e,
        elim (Option-cases (normalize_fingerprint f)) [
          | inl bad ↦ rw (bad, create_task)
          | inr (f', good) ↦ rw (good, create_task) (rw (found, create_or_replay) (ground arith))
        ],
      )
]

add-Bound :
    (s : Store) (now : ℕ) (key kind : String) (input : Input) (o : Owner) (n : String)
    → Inv (add_task s now key kind input o n)
    → Bound (owner_key o key) (task_id_of (suc s.task_seq)) n (add_task s now key kind input o n)
unfolding add_task
add-Bound s now key kind input o n v = record {
  inv = v;
  entry = Keyed.get-set_self (owner_key o key) _ s.idempotency;
  fingerprint = Keyed.get-set_self _ n s.fingerprints;
}

created-Bound :
    (s : Store) (now : ℕ) (key kind : String) (input : Input) (o : Option Owner) (f : Option String)
    (n : String) (t : Task)
    → Inv s
    → normalize_fingerprint f ≡ some n
    → (create_task s now key kind input o f).1 ≡ ok (t, false)
    → Bound
        (owner_key (or_else o legacy_owner) key)
        t.task_id
        n
        (create_task s now key kind input o f).0
created-Bound s now key kind input o f n t v hn h =
    let (same, added') = created_new s now key kind input o f n t hn h in
    let v' = step-Inv s (create now key kind input o f) v in
    rw (added', ap (λ (u : Task). u.task_id) same)
      (add-Bound s now key kind input (or_else o legacy_owner) n (unfold step in rw added' at v'))

-- In a store that satisfies the invariant, a call has created a task under an idempotency key; then
-- any calls follow, none of which asks to discard that task. A retry under the same key and owner,
-- whatever it carries, changes nothing, and gets that very task in its present state exactly if its
-- fingerprint is the first one and is not the legacy mark; else it gets the conflict.
pub retry_after_calls :
    (s : Store) (now later : ℕ) (key kind kind' : String) (input input' : Input) (o : Option Owner)
    (f f' : Option String) (n : String) (t : Task) (cs : List Call)
    → Inv s
    → normalize_fingerprint f ≡ some n
    → (create_task s now key kind input o f).1 ≡ ok (t, false)
    → All (λ c. discards t.task_id c ≡ false) cs
    → let s' = run (create_task s now key kind input o f).0 cs in
      (u : Task) × (Keyed.get t.task_id s'.tasks ≡ some u)
      × (create_task s' later key kind' input' o f'
          ≡ (s', retry_result n (normalize_fingerprint f') u))
retry_after_calls s now later key kind kind' input input' o f f' n t cs v hn h d =
    create-Bound _ later key kind' input' o f' t.task_id n
      (run-Bound _ t.task_id n _ cs d (created-Bound s now key kind input o f n t v hn h))

-- In a store that satisfies the invariant, a discard that succeeds removes the task and every key
-- that led to it, so that the client may send the request again; other tasks stay as they are.
pub discard_frees :
    (s : Store) (id other key : String) (p : Placeholder) (o : Owner)
    → Inv s
    → (discard_pending_task s id p).1 ≡ true
    → other ≢ id
    → Keyed.get (owner_key o key) s.idempotency ≡ some id
    → let s' = (discard_pending_task s id p).0 in
      (Keyed.get id s'.tasks ≡ none)
      × (Keyed.get other s'.tasks ≡ Keyed.get other s.tasks)
      × (find_task_by_idempotency s' key o ≡ ok none)
unfolding discard_pending_task find_task_by_idempotency
discard_frees s id other key p o v h ne entry = elim (Option-cases (guarded_task s id p)) [
  | inl e ↦ let stays : false ≡ true = rw (e, discard_pending_task) at h in cc stays
  | inr (t, e) ↦
      rw (e, discard_pending_task)
        (
          ground (arith, Keyed.get-delete id id s.tasks),
          ground (arith, Keyed.get-delete id other s.tasks),
          rw (
            Keyed.get-delete_where_gone (λ k. k =s id) (owner_key o key) id s.idempotency v.distinct
                entry (=s_refl id),
            task_idempotency_binding,
          ),
        )
]
