-- ===== src/Outbox/Tallies.antt =====
-- How many records of the billing outbox of apps/longhub-cloud-api/src/memory-store.ts are
-- published, dead or held, and what each call does to these numbers.
use longhub_platform.Common.{
  ℕ, ◌+◌, String, Bool, true, false, Option, none, some, List, [], ◌∷◌, ◌≡◌, refl, inl, inr, arith,
  is_some, count, bit, Bool-cases, Option-cases, ◌&&◌,
}
use longhub_platform.Common.Keyed
use longhub_platform.Common.Keyed.{Keyed, values}
use longhub_platform.Outbox.{
  OutboxRecord, claim, complete, fail, holds, is_error_code, lock, lock_entries, names, ClaimParams,
  published_row, failed_row,
}
use longhub_platform.Outbox.Steps.{claim_cases}
use longhub_platform.Outbox.Worker.{failure_report}

abbrev pub is_published : OutboxRecord → Bool
is_published r = is_some r.published_at

abbrev pub is_dead : OutboxRecord → Bool
is_dead r = is_some r.dead_lettered_at

abbrev pub is_held : OutboxRecord → Bool
is_held r = is_some r.lock_token

-- How many records of the outbox pass a test.
abbrev pub tally : (OutboxRecord → Bool) → Keyed OutboxRecord → ℕ
tally p s = count p (values s)

held_facts :
    (r : OutboxRecord) (token : String) (at : ℕ)
    → holds r token at ≡ true
    → (is_published r ≡ false) × (is_dead r ≡ false) × (is_held r ≡ true)
held_facts r token at h = ground arith

-- A completion that succeeds publishes one record more, and gives its lease back.
pub complete-tally :
    (s : Keyed OutboxRecord) (at : ℕ) (id token : String)
    → let c = complete s at id token (some (some at)) in
      (tally is_published c.0 ≡ tally is_published s + bit c.1)
      × (tally is_dead c.0 ≡ tally is_dead s)
      × (tally is_held c.0 + bit c.1 ≡ tally is_held s)
unfolding complete
complete-tally s at id token = elim (Option-cases (Keyed.get id s)) [
  | inl e ↦ rw (e, complete) (omega arith, refl, omega arith)
  | inr (r, e) ↦ elim (Bool-cases (holds r token at)) [
    | inr h ↦ rw (e, complete) (rw h (omega arith, refl, omega arith))
    | inl h ↦
        let (live, alive, held) = held_facts r token at h in
        let p = Keyed.count-set_old is_published id (published_row at r) r s e in
        let d = Keyed.count-set_old is_dead id (published_row at r) r s e in
        let l = Keyed.count-set_old is_held id (published_row at r) r s e in
        rw (e, complete)
          (rw h (omega (arith, rw live at p), omega (arith, d), omega (arith, rw held at l)))
  ]
]

-- The record that a failure writes.
failed_row-tally :
    (s : Keyed OutboxRecord) (retry : ℕ) (ended : Option ℕ) (id code : String) (r : OutboxRecord)
    → Keyed.get id s ≡ some r
    → is_published r ≡ false
    → is_dead r ≡ false
    → is_held r ≡ true
    → let s' = Keyed.set id (failed_row retry ended code r) s in
      (tally is_published s' ≡ tally is_published s)
      × (tally is_dead s' ≡ tally is_dead s + bit (is_some ended))
      × (tally is_held s' + 1 ≡ tally is_held s)
failed_row-tally s retry ended id code r e live alive held =
    let row = failed_row retry ended code r in
    let p = Keyed.count-set_old is_published id row r s e in
    let d = Keyed.count-set_old is_dead id row r s e in
    let l = Keyed.count-set_old is_held id row r s e in
    let ending : is_dead row ≡ is_some ended = ground arith in
    (omega (arith, p), omega (arith, rw (alive, ending) at d), omega (arith, rw held at l))

-- A failure that is accepted gives the lease back, and the record up where it ends.
pub fail-tally :
    (s : Keyed OutboxRecord) (at retry : ℕ) (id token : String) (dead : Bool)
    → let f = fail s at (failure_report id token at retry dead) in
      (tally is_published f.0 ≡ tally is_published s)
      × (tally is_dead f.0 ≡ tally is_dead s + bit (dead && f.1))
      × (tally is_held f.0 + bit f.1 ≡ tally is_held s)
unfolding fail
fail-tally s at retry id token dead = elim (Option-cases (Keyed.get id s)) [
  | inl e ↦ rw (e, fail) (refl, ground arith, omega arith)
  | inr (r, e) ↦ elim (Bool-cases (holds r token at && is_error_code "PUBLISH_FAILED")) [
    | inr h ↦ ground arith
    | inl h ↦
        let owned : holds r token at ≡ true = ground arith in
        let (live, alive, held) = held_facts r token at owned in
        elim (Bool-cases dead) [
          | inl b ↦
              rw (e, b, fail) (rw h (failed_row-tally s retry (some at) id _ r e live alive held))
          | inr b ↦ rw (e, b, fail) (rw h (failed_row-tally s retry none id _ r e live alive held))
        ]
  ]
]

-- A claim changes neither the published nor the dead records.
lock_entries-tally :
    (p : OutboxRecord → Bool) (token : String) (until : ℕ) (ids : List String)
    (s : Keyed OutboxRecord)
    → ((r : OutboxRecord) → p (lock token until r) ≡ p r)
    → tally p (lock_entries token until ids s) ≡ tally p s
unfolding lock_entries
lock_entries-tally p token until ids [] h = refl
lock_entries-tally p token until ids ((k, r) ∷ s) h = elim (Bool-cases (names k ids)) [
  | inl e ↦ rw e (ground (arith, h r, lock_entries-tally p token until ids s h))
  | inr e ↦ rw e (ground (arith, lock_entries-tally p token until ids s h))
]

pub claim-tally :
    (follows : String → String → Bool) (p : OutboxRecord → Bool) (s : Keyed OutboxRecord)
    (uuid : String) (clock : ℕ) (q : ClaimParams)
    → ((token : String) (until : ℕ) (r : OutboxRecord) → p (lock token until r) ≡ p r)
    → tally p (claim follows s uuid clock q).0 ≡ tally p s
claim-tally follows p s uuid clock q h = elim (claim_cases follows s uuid clock q) [
  | inl e ↦ rw e refl
  | inr (limit, lease, now, _, _, e) ↦ rw e (lock_entries-tally p _ _ _ s (λ r. h _ _ r))
]
