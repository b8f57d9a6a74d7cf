-- ===== src/Outbox/Leases.antt =====
-- The lease of a claimed outbox record: `claimBillingOutbox` of
-- apps/longhub-cloud-api/src/memory-store.ts against the calls of other workers.
use Prim.Native.String.{◌++◌ as ◌<>◌}
use mathlib.Core.List.{Memᴰ}
use mathlib.Core.List.Memᴰ
use longhub_platform.Common.{
  ℕ, ◌+◌, ◌<◌, String, Bool, true, false, none, some, List, [], ◌∷◌, ◌≡◌, refl, ◌∙◌, sym, ap, ◌≢◌,
  inl, inr, arith, not, ◌&&◌, ltb, ◌=s◌, map, All,
}
use longhub_platform.Common.Keyed
use longhub_platform.Common.Keyed.{Keyed, Distinct}
use longhub_platform.Outbox.{
  OutboxRecord, ClaimParams, claim, complete, lock, lock_entries, due_entries, is_due, holds,
  parse_outbox_time, normalize_outbox_lease, is_lock_token, published_row,
}
use longhub_platform.Outbox.Steps.{
  Call, claims, completes, fails, step, run, IsNamed, get-lock_entries, lock_entries-Distinct,
  due_facts, mem_names, not_due_kept, claim_cases, complete_cases, fail_cases,
}

-- The record is under a lease, and not at its end.
pub record IsLeased (id token : String) (until : ℕ) (s : Keyed OutboxRecord) : Type 0 where
  pub distinct : Distinct s
  pub row : OutboxRecord
  pub found : Keyed.get id s ≡ some row
  pub locked : row.lock_token ≡ some token
  pub running : row.locked_until ≡ some until
  pub unpublished : row.published_at ≡ none
  pub alive : row.dead_lettered_at ≡ none

-- Is a call another worker's, and at a time in the lease where it is a claim?
abbrev pub respects : String → String → ℕ → Call → Bool
respects id token until (claims uuid clock p) = elim (parse_outbox_time clock p.now) [
  | none ↦ true
  | some now ↦ ltb now until
]
respects id token until (completes clock id' t at) = not ((id' =s id) && (t =s token))
respects id token until (fails clock p) = not ((p.outbox_id =s id) && (p.lock_token =s token))

IsLeased-elsewhere :
    (id token token' id' : String) (until t : ℕ) (r u : OutboxRecord) (s : Keyed OutboxRecord)
    → IsLeased id token until s
    → Keyed.get id' s ≡ some r
    → holds r token' t ≡ true
    → ((id' =s id) && (token' =s token)) ≡ false
    → IsLeased id token until (Keyed.set id' u s)
IsLeased-elsewhere id token token' id' until t r u s v found h other =
    let apart : id' ≢ id = λ e.
      let here : some r ≡ some v.row = sym found ∙ ap (λ (k : String). Keyed.get k s) e ∙ v.found in
      let row : r ≡ v.row = cc in
      let lock_of : r.lock_token ≡ some token =
        ap (λ (x : OutboxRecord). x.lock_token) row ∙ v.locked in
      absurd (ground arith) in
    record {
      distinct = Keyed.Distinct-set id' u s v.distinct;
      row = v.row;
      found = Keyed.get-set_ne id' id u s apart ∙ v.found;
      locked = v.locked;
      running = v.running;
      unpublished = v.unpublished;
      alive = v.alive;
    }

IsLeased-claim :
    (follows : String → String → Bool) (id token : String) (until : ℕ) (s : Keyed OutboxRecord)
    (uuid : String) (clock : ℕ) (p : ClaimParams)
    → IsLeased id token until s
    → respects id token until (claims uuid clock p) ≡ true
    → IsLeased id token until (claim follows s uuid clock p).0
IsLeased-claim follows id token until s uuid clock p v h =
    elim (claim_cases follows s uuid clock p) [
      | inl e ↦ rw e v
      | inr (limit, lease, now, _, time, e) ↦
          let early : ltb now until ≡ true = rw (time, respects) at h in
          let idle : is_due now v.row ≡ false = ground (arith, v.running) in
          rw e (record {
            distinct = lock_entries-Distinct ("bol-" <> uuid) (now + lease) _ s v.distinct;
            row = v.row;
            found =
                not_due_kept follows ("bol-" <> uuid) now (now + lease) limit id v.row s v.distinct
                  v.found idle;
            locked = v.locked;
            running = v.running;
            unpublished = v.unpublished;
            alive = v.alive;
          })
    ]

step-IsLeased :
    (follows : String → String → Bool) (id token : String) (until : ℕ) (s : Keyed OutboxRecord)
    (c : Call)
    → respects id token until c ≡ true
    → IsLeased id token until s
    → IsLeased id token until (step follows s c)
unfolding step
step-IsLeased follows id token until s (claims uuid clock p) h v =
    IsLeased-claim follows id token until s uuid clock p v h
step-IsLeased follows id token until s (completes clock id' t at) h v =
    elim (complete_cases s clock id' t at) [
      | inl e ↦ rw e v
      | inr (r, u, time, found, held, e) ↦
          rw e (IsLeased-elsewhere id token t id' until time r u s v found held (ground arith))
    ]
step-IsLeased follows id token until s (fails clock p) h v = elim (fail_cases s clock p) [
  | inl e ↦ rw e v
  | inr (r, u, time, found, held, e) ↦ rw e (
      IsLeased-elsewhere id token p.lock_token p.outbox_id until time r u s v found held
        (ground arith))
]

run-IsLeased :
    (follows : String → String → Bool) (id token : String) (until : ℕ) (s : Keyed OutboxRecord)
    (cs : List Call)
    → All (λ c. respects id token until c ≡ true) cs
    → IsLeased id token until s
    → IsLeased id token until (run follows s cs)
unfolding run
run-IsLeased follows id token until s [] h v = v
run-IsLeased follows id token until s (c ∷ cs) h v =
    run-IsLeased follows id token until (step follows s c) cs h.1
      (step-IsLeased follows id token until s c h.0 v)

leased_completes :
    (id token : String) (until clock at : ℕ) (s : Keyed OutboxRecord)
    → IsLeased id token until s
    → is_lock_token token ≡ true
    → at < until
    → (r : OutboxRecord) × (complete s clock id token (some (some at))
        ≡ (Keyed.set id (published_row at r) s, true))
unfolding complete
leased_completes id token until clock at s v good early =
    let held : holds v.row token at ≡ true =
      ground (arith, v.locked, v.running, v.unpublished, v.alive) in
    (v.row, rw (v.found, complete) (rw held refl))

claimed-IsLeased :
    (follows : String → String → Bool) (s : Keyed OutboxRecord) (uuid : String)
    (clock now lease : ℕ) (p : ClaimParams) (r : OutboxRecord)
    → Distinct s
    → IsNamed s
    → normalize_outbox_lease p.lease_ms ≡ some lease
    → parse_outbox_time clock p.now ≡ some now
    → Memᴰ r (claim follows s uuid clock p).1
    → IsLeased r.outbox_id ("bol-" <> uuid) (now + lease) (claim follows s uuid clock p).0
claimed-IsLeased follows s uuid clock now lease p r d n le time m =
    elim (claim_cases follows s uuid clock p) [
      | inl e ↦ elim (rw e at m) [ ]
      | inr (limit, lease', now', le', time', e) ↦
          let same_lease : some lease' ≡ some lease = sym le' ∙ le in
          let same_now : some now' ≡ some now = sym time' ∙ time in
          let token = "bol-" <> uuid in
          let (entry, taken, locked_row) =
            Memᴰ.of_map (λ (x : String × OutboxRecord). lock token (now' + lease') x.1)
              (due_entries follows now' limit s) (rw e at m) in
          let (there, due) = due_facts follows now' limit entry s d taken in
          let name : r.outbox_id ≡ entry.0 =
            ap (λ (x : OutboxRecord). x.outbox_id) (sym locked_row) ∙ n entry.0 entry.1 there in
          let ids = map (λ (x : String × OutboxRecord). x.0) (due_entries follows now' limit s) in
          let row : Keyed.get entry.0 (lock_entries token (now' + lease') ids s)
              ≡ some (lock token (now' + lease') entry.1) =
            get-lock_entries token (now' + lease') ids entry.0 s
            ∙ rw there (rw (mem_names entry (due_entries follows now' limit s) taken) refl) in
          rw (e, name)
            (record {
              distinct = lock_entries-Distinct token (now' + lease') ids s d;
              row = lock token (now' + lease') entry.1;
              found = row;
              locked = refl;
              running = cc;
              unpublished = ground arith;
              alive = ground arith;
            })
    ]

-- A worker has claimed a record, and other workers make calls of the outbox: claims at times within
-- the lease, and completions and failures that do not carry both the record and the worker's token.
-- Whatever they are, the worker still completes the record at any time within its lease. The outbox
-- holds each key once, under the record's own identifier, and the token is of the form that the
-- outbox asks for.
pub claimer_completes :
    (follows : String → String → Bool) (s : Keyed OutboxRecord) (uuid : String)
    (clock now lease at : ℕ) (p : ClaimParams) (r : OutboxRecord) (cs : List Call)
    → Distinct s
    → IsNamed s
    → is_lock_token ("bol-" <> uuid) ≡ true
    → normalize_outbox_lease p.lease_ms ≡ some lease
    → parse_outbox_time clock p.now ≡ some now
    → Memᴰ r (claim follows s uuid clock p).1
    → All (λ c. respects r.outbox_id ("bol-" <> uuid) (now + lease) c ≡ true) cs
    → at < now + lease
    → let s' = run follows (claim follows s uuid clock p).0 cs in
      (u : OutboxRecord) × (complete s' clock r.outbox_id ("bol-" <> uuid) (some (some at))
        ≡ (Keyed.set r.outbox_id (published_row at u) s', true))
claimer_completes follows s uuid clock now lease at p r cs d n good le time m h early =
    leased_completes r.outbox_id ("bol-" <> uuid) (now + lease) clock at _
      (run-IsLeased follows r.outbox_id ("bol-" <> uuid) (now + lease) _ cs h
        (claimed-IsLeased follows s uuid clock now lease p r d n le time m))
      good early
