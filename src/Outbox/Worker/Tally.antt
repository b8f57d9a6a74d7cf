-- ===== src/Outbox/Worker/Tally.antt =====
-- The counts that a worker returns, against the outbox that it leaves: `runOnce` of
-- apps/longhub-cloud-api/src/billing-outbox.ts.
use longhub_platform.Common.{
  ℕ, suc, ◌+◌, String, Bool, true, false, Option, none, some, List, [], ◌∷◌, ◌≡◌, refl, sym, ◌∙◌,
  inl, inr, arith, length, bit, Bool-cases, Option-cases, ok, leb, ◌&&◌,
}
use longhub_platform.Common.Keyed.{Keyed}
use longhub_platform.Outbox.{OutboxRecord, claim}
use longhub_platform.Outbox.Worker.{
  PublishedEvent, WorkerOptions, WorkerError, RunResult, Work, checked_now, iso_time, retry_delay,
  held_token, count_published, count_failed, work_record, work_all, run_once, after_publish,
  after_failure, catch_failure, try_complete, claim_request, public_event, read_clock, no_work,
  answer,
}
use longhub_platform.Outbox.Tallies.{
  is_published, is_dead, is_held, tally, complete-tally, fail-tally, claim-tally,
}

-- The records that have been dealt with.
abbrev pub settled : RunResult → ℕ
settled t = t.published + t.retried + t.dead_lettered + t.lease_lost

-- Other workers leave the numbers of published, dead and held records as they are.
pub record StandsBy (others : Keyed OutboxRecord → Keyed OutboxRecord) : Type 0 where
  pub published : (s : Keyed OutboxRecord) → tally is_published (others s) ≡ tally is_published s
  pub dead : (s : Keyed OutboxRecord) → tally is_dead (others s) ≡ tally is_dead s
  pub held : (s : Keyed OutboxRecord) → tally is_held (others s) ≡ tally is_held s

-- What the counts gain, the outbox gains; each success gives a lease back.
record IsTallied (w w' : Work) : Type 0 where
  published :
      tally is_published w'.outbox + w.result.published
      ≡ tally is_published w.outbox + w'.result.published
  dead :
      tally is_dead w'.outbox + w.result.dead_lettered
      ≡ tally is_dead w.outbox + w'.result.dead_lettered
  held :
      tally is_held w'.outbox + (w'.result.published + w'.result.retried + w'.result.dead_lettered)
      ≡ tally is_held w.outbox + (w.result.published + w.result.retried + w.result.dead_lettered)

same-IsTallied : (w : Work) → IsTallied w w
same-IsTallied w = record { published = refl; dead = refl; held = refl }

IsTallied-trans : {u v w : Work} → IsTallied u v → IsTallied v w → IsTallied u w
IsTallied-trans a b = record {
  published = omega (arith, a.published, b.published);
  dead = omega (arith, a.dead, b.dead);
  held = omega (arith, a.held, b.held);
}

-- A completion, and a failure, with what is counted of them.
completed-IsTallied :
    (w : Work) (s : Keyed OutboxRecord) (completed : Bool) (n : ℕ)
    → (tally is_published s ≡ tally is_published w.outbox + bit completed)
      × (tally is_dead s ≡ tally is_dead w.outbox)
      × (tally is_held s + bit completed ≡ tally is_held w.outbox)
    → IsTallied w (record { outbox = s; result = count_published completed w.result; readings = n })
completed-IsTallied w s true n (p, d, l) = record {
  published = omega arith;
  dead = omega arith;
  held = omega arith;
}
completed-IsTallied w s false n (p, d, l) = record {
  published = omega arith;
  dead = omega arith;
  held = omega arith;
}

failed-IsTallied :
    (w : Work) (s : Keyed OutboxRecord) (failed dead : Bool) (n : ℕ)
    → (tally is_published s ≡ tally is_published w.outbox)
      × (tally is_dead s ≡ tally is_dead w.outbox + bit (dead && failed))
      × (tally is_held s + bit failed ≡ tally is_held w.outbox)
    → IsTallied w (record { outbox = s; result = count_failed failed dead w.result; readings = n })
failed-IsTallied w s failed dead n (p, d, l) = record {
  published = ground arith;
  dead = ground arith;
  held = ground arith;
}

catch-IsTallied :
    (o : WorkerOptions) (clock : ℕ → Option ℕ) (token : String) (r : OutboxRecord) (w : Work)
    → IsTallied w (catch_failure o clock token r w).0
unfolding catch_failure after_failure
catch-IsTallied o clock token r w = elim (Option-cases (checked_now (clock w.readings))) [
  | inl e ↦ rw (e, catch_failure) (record { published = refl; dead = refl; held = refl })
  | inr (at, e) ↦
      let later = at + retry_delay r.attempts o.retry_base_ms o.retry_max_ms in
      elim (Option-cases (iso_time later)) [
        | inl e' ↦
            rw (e, catch_failure) (rw e' (record { published = refl; dead = refl; held = refl }))
        | inr (retry, e') ↦
            let dead = leb o.max_attempts r.attempts in
            rw (e, catch_failure)
              (rw e' (
                failed-IsTallied w _ _ dead _
                  (fail-tally w.outbox at retry r.outbox_id token dead)))
      ]
]

complete-IsTallied :
    (o : WorkerOptions) (clock : ℕ → Option ℕ) (token : String) (r : OutboxRecord) (w : Work)
    → IsTallied w (try_complete o clock token r w).0
unfolding try_complete after_publish
complete-IsTallied o clock token r w = elim (Option-cases (checked_now (clock w.readings))) [
  | inl e ↦
      let t = catch-IsTallied o clock token r (read_clock w) in
      rw (e, try_complete) (record { published = t.published; dead = t.dead; held = t.held })
  | inr (at, e) ↦
      rw (e, try_complete)
        (completed-IsTallied w _ _ _ (complete-tally w.outbox at r.outbox_id token))
]

work_record-IsTallied :
    (publish : PublishedEvent → Bool) (others : Keyed OutboxRecord → Keyed OutboxRecord)
    (o : WorkerOptions) (clock : ℕ → Option ℕ) (r : OutboxRecord) (w : Work)
    → StandsBy others
    → IsTallied w (work_record publish others o clock r w).0
unfolding work_record
work_record-IsTallied publish others o clock r w idle =
    let w' : Work = record w { outbox = others w.outbox } in
    let waited : IsTallied w w' = record {
      published = omega (arith, idle.published w.outbox);
      dead = omega (arith, idle.dead w.outbox);
      held = omega (arith, idle.held w.outbox);
    } in
    elim (Option-cases (held_token r.lock_token)) [
      | inl e ↦ rw (e, work_record) (record { published = refl; dead = refl; held = refl })
      | inr (token, e) ↦ elim (Bool-cases (publish (public_event r))) [
        | inl p ↦
            rw (e, work_record)
              (rw p (IsTallied-trans waited (complete-IsTallied o clock token r w')))
        | inr p ↦
            rw (e, work_record) (rw p (IsTallied-trans waited (catch-IsTallied o clock token r w')))
      ]
    ]

work_all-IsTallied :
    (publish : PublishedEvent → Bool) (others : ℕ → Keyed OutboxRecord → Keyed OutboxRecord)
    (o : WorkerOptions) (clock : ℕ → Option ℕ) (n : ℕ) (rs : List OutboxRecord) (w : Work)
    → ((k : ℕ) → StandsBy (others k))
    → IsTallied w (work_all publish others o clock n rs w).0
unfolding work_all
work_all-IsTallied publish others o clock n [] w idle = same-IsTallied w
work_all-IsTallied publish others o clock n (r ∷ rs) w idle =
    let one = work_record-IsTallied publish (others n) o clock r w (idle n) in
    let next = work_record publish (others n) o clock r w in
    elim (Option-cases next.1) [
      | inl e ↦
          rw (e, work_all)
            (IsTallied-trans one (work_all-IsTallied publish others o clock (suc n) rs next.0 idle))
      | inr (x, e) ↦ rw (e, work_all) one
    ]

-- A round counts one record, unless an error leaves it.
IsCounted : ℕ → Work → Work → Type 0
IsCounted n w w' =
    (w'.result.claimed ≡ w.result.claimed) × (settled w'.result ≡ settled w.result + n)

catch-IsCounted :
    (o : WorkerOptions) (clock : ℕ → Option ℕ) (token : String) (r : OutboxRecord) (w : Work)
    → (catch_failure o clock token r w).1 ≡ none
    → IsCounted 1 w (catch_failure o clock token r w).0
unfolding catch_failure after_failure IsCounted
catch-IsCounted o clock token r w h = ground arith

work_record-IsCounted :
    (publish : PublishedEvent → Bool) (others : Keyed OutboxRecord → Keyed OutboxRecord)
    (o : WorkerOptions) (clock : ℕ → Option ℕ) (r : OutboxRecord) (w : Work)
    → (work_record publish others o clock r w).1 ≡ none
    → IsCounted 1 w (work_record publish others o clock r w).0
unfolding work_record try_complete after_publish catch_failure after_failure IsCounted
work_record-IsCounted publish others o clock r w h = ground arith

work_all-IsCounted :
    (publish : PublishedEvent → Bool) (others : ℕ → Keyed OutboxRecord → Keyed OutboxRecord)
    (o : WorkerOptions) (clock : ℕ → Option ℕ) (n : ℕ) (rs : List OutboxRecord) (w : Work)
    → (work_all publish others o clock n rs w).1 ≡ none
    → IsCounted (length rs) w (work_all publish others o clock n rs w).0
unfolding work_all IsCounted
work_all-IsCounted publish others o clock n [] w h = (refl, omega arith)
work_all-IsCounted publish others o clock n (r ∷ rs) w h =
    let next = work_record publish (others n) o clock r w in
    elim (Option-cases next.1) [
      | inl e ↦
          let (kept, one) = work_record-IsCounted publish (others n) o clock r w e in
          let (all_kept, rest) =
            work_all-IsCounted publish others o clock (suc n) rs next.0 (rw (e, work_all) at h) in
          rw (e, work_all) (all_kept ∙ kept, omega (arith, one, rest))
      | inr (x, e) ↦ absurd (cc (rw (e, work_all) at h))
    ]

answer-ok :
    (o : Work × Option WorkerError) (t : RunResult)
    → (answer o).1 ≡ ok t
    → (o.1 ≡ none) × (o.0.result ≡ t) × ((answer o).0 ≡ o.0.outbox)
answer-ok (w, none) t h = (refl, cc, refl)
answer-ok (w, some e) t h = absurd (cc h)

-- Take a run that returns, while other workers leave the numbers of published, dead and held records
-- as they are. It counts each record that it claims exactly once; it published and gave up as many
-- records as the outbox now has more; and it gave back as many leases, of those that stood after its
-- claim, as it counts records published, retried and given up.
pub run_once-tally :
    (follows : String → String → Bool) (publish : PublishedEvent → Bool)
    (others : ℕ → Keyed OutboxRecord → Keyed OutboxRecord) (o : WorkerOptions)
    (clock : ℕ → Option ℕ) (uuid : String) (s : Keyed OutboxRecord) (now : ℕ) (t : RunResult)
    → ((n : ℕ) → StandsBy (others n))
    → checked_now (clock 0) ≡ some now
    → (run_once follows publish others o clock uuid s).1 ≡ ok t
    → let s' = (run_once follows publish others o clock uuid s).0 in
      let claimed = claim follows s uuid now (claim_request o now) in
      (t.claimed ≡ length claimed.1)
      × (t.published + t.retried + t.dead_lettered + t.lease_lost ≡ t.claimed)
      × (tally is_published s' ≡ tally is_published s + t.published)
      × (tally is_dead s' ≡ tally is_dead s + t.dead_lettered)
      × (tally is_held s' + (t.published + t.retried + t.dead_lettered) ≡ tally is_held claimed.0)
unfolding run_once IsCounted
run_once-tally follows publish others o clock uuid s now t idle read done =
    let claimed = claim follows s uuid now (claim_request o now) in
    let w : Work = record {
      outbox = claimed.0;
      result = no_work (length claimed.1);
      readings = 1;
    } in
    let ran = work_all publish others o clock 0 claimed.1 w in
    let (whole, result, outbox) = answer-ok ran t (rw (read, run_once) at done) in
    let counts = work_all-IsTallied publish others o clock 0 claimed.1 w idle in
    let (kept, all) = work_all-IsCounted publish others o clock 0 claimed.1 w whole in
    let published =
      claim-tally follows is_published s uuid now (claim_request o now) (λ _ _ _. refl) in
    let dead = claim-tally follows is_dead s uuid now (claim_request o now) (λ _ _ _. refl) in
    rw (read, run_once)
      (rw (outbox, sym result)
        (
          kept,
          omega (arith, kept, all),
          omega (arith, counts.published, published),
          omega (arith, counts.dead, dead),
          omega (arith, counts.held),
        ))
