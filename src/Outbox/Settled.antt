-- ===== src/Outbox/Settled.antt =====
-- The end of an outbox record: `completeBillingOutbox` and `failBillingOutbox` of
-- apps/longhub-cloud-api/src/memory-store.ts against all later calls.
use Prim.Native.String.{◌++◌ as ◌<>◌}
use longhub_platform.Common.{
  ℕ, ◌+◌, String, Bool, true, false, Option, some, List, [], ◌∷◌, ◌≡◌, refl, ◌∙◌, sym, ap, inl, inr,
  arith, ◌≢◌, Option-cases, ◌||◌, is_some,
}
use longhub_platform.Common.Keyed
use longhub_platform.Common.Keyed.{Keyed, Distinct}
use longhub_platform.Outbox.{
  OutboxRecord, ClaimParams, claim, complete, holds, is_due, published_row, parse_outbox_time,
}
use longhub_platform.Outbox.Steps.{
  Call, claims, completes, fails, step, run, lock_entries-Distinct, not_due_kept, claim_cases,
  complete_cases, fail_cases,
}

-- The record was published or given up.
abbrev pub is_over : OutboxRecord → Bool
is_over r = is_some r.published_at || is_some r.dead_lettered_at

-- The record stands in the outbox as it was when it came to its end.
record Stays (id : String) (r : OutboxRecord) (s : Keyed OutboxRecord) : Type 0 where
  distinct : Distinct s
  found : Keyed.get id s ≡ some r

written_elsewhere :
    (id id' token : String) (t : ℕ) (r r' u : OutboxRecord) (s : Keyed OutboxRecord)
    → is_over r ≡ true
    → Keyed.get id' s ≡ some r'
    → holds r' token t ≡ true
    → Stays id r s
    → Stays id r (Keyed.set id' u s)
written_elsewhere id id' token t r r' u s over found held v =
    let apart : id' ≢ id = λ e.
      let here : some r' ≡ some r = sym found ∙ ap (λ (k : String). Keyed.get k s) e ∙ v.found in
      let row : r' ≡ r = cc in
      let both : is_over r' ≡ true = ap is_over row ∙ over in absurd (ground arith) in
    record {
      distinct = Keyed.Distinct-set id' u s v.distinct;
      found = Keyed.get-set_ne id' id u s apart ∙ v.found;
    }

claim-Stays :
    (follows : String → String → Bool) (id : String) (r : OutboxRecord) (s : Keyed OutboxRecord)
    (uuid : String) (clock : ℕ) (p : ClaimParams)
    → is_over r ≡ true
    → Stays id r s
    → Stays id r (claim follows s uuid clock p).0
claim-Stays follows id r s uuid clock p over v = elim (claim_cases follows s uuid clock p) [
  | inl e ↦ rw e v
  | inr (limit, lease, now, _, _, e) ↦
      let idle : is_due now r ≡ false = ground arith in
      rw e (record {
        distinct = lock_entries-Distinct ("bol-" <> uuid) (now + lease) _ s v.distinct;
        found =
            not_due_kept follows ("bol-" <> uuid) now (now + lease) limit id r s v.distinct v.found
              idle;
      })
]

step-Stays :
    (follows : String → String → Bool) (id : String) (r : OutboxRecord) (s : Keyed OutboxRecord)
    (c : Call)
    → is_over r ≡ true
    → Stays id r s
    → Stays id r (step follows s c)
unfolding step
step-Stays follows id r s (claims uuid clock p) over v =
    claim-Stays follows id r s uuid clock p over v
step-Stays follows id r s (completes clock id' token at) over v =
    elim (complete_cases s clock id' token at) [
      | inl e ↦ rw e v
      | inr (r', u, t, found, held, e) ↦
          rw e (written_elsewhere id id' token t r r' u s over found held v)
    ]
step-Stays follows id r s (fails clock p) over v = elim (fail_cases s clock p) [
  | inl e ↦ rw e v
  | inr (r', u, t, found, held, e) ↦
      rw e (written_elsewhere id p.outbox_id p.lock_token t r r' u s over found held v)
]

run-Stays :
    (follows : String → String → Bool) (id : String) (r : OutboxRecord) (s : Keyed OutboxRecord)
    (cs : List Call)
    → is_over r ≡ true
    → Stays id r s
    → Stays id r (run follows s cs)
unfolding run
run-Stays follows id r s [] over v = v
run-Stays follows id r s (c ∷ cs) over v =
    run-Stays follows id r (step follows s c) cs over (step-Stays follows id r s c over v)

complete_facts :
    (s s' : Keyed OutboxRecord) (clock : ℕ) (id token : String) (at : Option (Option ℕ))
    → complete s clock id token at ≡ (s', true)
    → (r : OutboxRecord) × (t : ℕ) × (parse_outbox_time clock at ≡ some t)
      × (Keyed.get id s ≡ some r)
      × (s' ≡ Keyed.set id (published_row t r) s)
unfolding complete
complete_facts s s' clock id token at h = elim (Option-cases (Keyed.get id s)) [
  | inl e ↦ absurd (ground arith)
  | inr (r, e) ↦ elim (Option-cases (parse_outbox_time clock at)) [
    | inl e' ↦ absurd (ground arith)
    | inr (t, e') ↦ (r, t, e', e, ground arith)
  ]
]

-- A worker has completed a record. Whatever calls of the outbox follow, the record stays in every
-- field as the completion left it: it is not claimed, completed or failed again. The outbox holds
-- each key once.
pub completed_for_good :
    (follows : String → String → Bool) (s s' : Keyed OutboxRecord) (clock : ℕ) (id token : String)
    (at : Option (Option ℕ)) (cs : List Call)
    → Distinct s
    → complete s clock id token at ≡ (s', true)
    → (r : OutboxRecord) × (t : ℕ) × (Keyed.get id s ≡ some r)
      × (parse_outbox_time clock at ≡ some t)
      × (Keyed.get id (run follows s' cs) ≡ some (published_row t r))
completed_for_good follows s s' clock id token at cs d h =
    let (r, t, time, there, wrote) = complete_facts s s' clock id token at h in
    let stays : Stays id (published_row t r) s' = rw wrote (record {
      distinct = Keyed.Distinct-set id (published_row t r) s d;
      found = Keyed.get-set_self id (published_row t r) s;
    }) in
    (r, t, there, time, (run-Stays follows id (published_row t r) s' cs refl stays).found)
