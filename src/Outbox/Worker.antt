-- ===== src/Outbox/Worker.antt =====
-- The worker of the billing outbox: apps/longhub-cloud-api/src/billing-outbox.ts. The publisher is
-- an argument: does it publish the event, or throw? So are the readings of the clock, in order, and
-- what other workers do to the outbox in each round, while the worker waits.
pub mod Delay
pub mod Returns
pub mod Tally
use longhub_platform.Common.{
  ℕ, suc, ◌+◌, ◌-◌, ◌*◌, ◌^◌, max, min, String, Bool, true, false, ◌||◌, Option, none, some, List,
  [], ◌∷◌, ltb, leb, ◌=s◌, if◌then◌else◌, length, or_else, Result, ok, err,
}
use longhub_platform.Common.Keyed.{Keyed}
use longhub_platform.Outbox.{
  EventType, Payload, OutboxRecord, ClaimParams, FailureParams, claim, complete, fail,
}

pub record PublishedEvent : Type 0 where
  pub outbox_id : String
  pub event_type : EventType
  pub aggregate_id : String
  pub settlement_id : String
  pub payload : Payload
  pub created_at : ℕ

pub record WorkerParams : Type 0 where
  pub batch_size : Option ℕ
  pub lease_ms : Option ℕ
  pub max_attempts : Option ℕ
  pub retry_base_ms : Option ℕ
  pub retry_max_ms : Option ℕ

pub record WorkerOptions : Type 0 where
  pub batch_size : ℕ
  pub lease_ms : ℕ
  pub max_attempts : ℕ
  pub retry_base_ms : ℕ
  pub retry_max_ms : ℕ

pub record RunResult : Type 0 where
  pub claimed : ℕ
  pub published : ℕ
  pub retried : ℕ
  pub dead_lettered : ℕ
  pub lease_lost : ℕ

-- The constructor; `none` is its TypeError.
unfoldable pub new_worker : WorkerParams → Option WorkerOptions
new_worker p =
    let o : WorkerOptions = record {
      batch_size = or_else p.batch_size 25;
      lease_ms = or_else p.lease_ms 30000;
      max_attempts = or_else p.max_attempts 8;
      retry_base_ms = or_else p.retry_base_ms 1000;
      retry_max_ms = or_else p.retry_max_ms 300000;
    } in
    if (ltb o.batch_size 1 || ltb 100 o.batch_size)
      || ((ltb o.lease_ms 1000 || ltb 300000 o.lease_ms)
          || ((ltb o.max_attempts 1 || ltb 100 o.max_attempts)
              || (ltb o.retry_base_ms 100
                  || (ltb o.retry_max_ms o.retry_base_ms || ltb 86400000 o.retry_max_ms))))
    then none
    else some o

abbrev pub public_event : OutboxRecord → PublishedEvent
public_event r = record {
  outbox_id = r.outbox_id;
  event_type = r.event_type;
  aggregate_id = r.aggregate_id;
  settlement_id = r.settlement_id;
  payload = r.payload;
  created_at = r.created_at;
}

unfoldable pub retry_delay : ℕ → ℕ → ℕ → ℕ
retry_delay attempts base maximum = min maximum (base * 2 ^ max 0 (min 30 (attempts - 1)))

-- The last time that a `Date` can hold.
abbrev pub max_time : ℕ
max_time = 8640000000000000

-- `checkedNow`: `none` is its TypeError. A reading that is no valid date is `none` as well.
abbrev pub checked_now : Option ℕ → Option ℕ
checked_now none = none
checked_now (some at) = if leb at max_time then some at else none

-- `toISOString` of a time that was worked out: `none` is its RangeError.
abbrev pub iso_time : ℕ → Option ℕ
iso_time at = if leb at max_time then some at else none

-- What escapes from `runOnce`.
pub data WorkerError : Type 0 where
  invalid_clock invalid_retry_time : WorkerError

-- The outbox, the counts, and how often the clock has been read.
pub record Work : Type 0 where
  pub outbox : Keyed OutboxRecord
  pub result : RunResult
  pub readings : ℕ

abbrev pub held_token : Option String → Option String
held_token none = none
held_token (some token) = if token =s "" then none else some token

abbrev pub lose_lease : RunResult → RunResult
lose_lease t = record t { lease_lost = suc t.lease_lost }

abbrev pub count_published : Bool → RunResult → RunResult
count_published true t = record t { published = suc t.published }
count_published false t = lose_lease t

abbrev pub count_failed : Bool → Bool → RunResult → RunResult
count_failed false dead t = lose_lease t
count_failed true true t = record t { dead_lettered = suc t.dead_lettered }
count_failed true false t = record t { retried = suc t.retried }

-- The rest of the `try`, once the event is published and the clock has been read.
unfoldable pub after_publish : ℕ → String → OutboxRecord → Work → Work
after_publish at token r w =
    let (s', completed) = complete w.outbox at r.outbox_id token (some (some at)) in
    record w { outbox = s'; result = count_published completed w.result }

-- What is reported of a failure.
abbrev pub failure_report : String → String → ℕ → ℕ → Bool → FailureParams
failure_report id token at retry dead = record {
  outbox_id = id;
  lock_token = token;
  failed_at = some (some at);
  retry_at = some retry;
  error_code = "PUBLISH_FAILED";
  dead_lettered_at = if dead then some (some at) else none;
}

-- The rest of the `catch`, once its times are known.
unfoldable pub after_failure : WorkerOptions → ℕ → ℕ → String → OutboxRecord → Work → Work
after_failure o at retry token r w =
    let dead = leb o.max_attempts r.attempts in
    let (s', failed) = fail w.outbox at (failure_report r.outbox_id token at retry dead) in
    record w { outbox = s'; result = count_failed failed dead w.result }

abbrev pub read_clock : Work → Work
read_clock w = record w { readings = suc w.readings }

-- The branch of `catch`, which reads the clock.
unfoldable pub catch_failure :
    WorkerOptions → (ℕ → Option ℕ) → String → OutboxRecord → Work → Work × Option WorkerError
catch_failure o clock token r w = elim (checked_now (clock w.readings)) [
  | none ↦ (read_clock w, some invalid_clock)
  | some at ↦ elim (iso_time (at + retry_delay r.attempts o.retry_base_ms o.retry_max_ms)) [
    | none ↦ (read_clock w, some invalid_retry_time)
    | some retry ↦ (after_failure o at retry token r (read_clock w), none)
  ]
]

-- The branch where the event was published. A reading that is no date is thrown inside the `try`,
-- so that the `catch` takes over.
unfoldable pub try_complete :
    WorkerOptions → (ℕ → Option ℕ) → String → OutboxRecord → Work → Work × Option WorkerError
unfolding catch_failure
try_complete o clock token r w = elim (checked_now (clock w.readings)) [
  | none ↦ catch_failure o clock token r (read_clock w)
  | some at ↦ (after_publish at token r (read_clock w), none)
]

-- One round of the loop. The other workers have their turn while the event is published.
unfoldable pub work_record :
    (PublishedEvent → Bool)
    → (Keyed OutboxRecord → Keyed OutboxRecord)
    → WorkerOptions
    → (ℕ → Option ℕ)
    → OutboxRecord
    → Work
    → Work × Option WorkerError
work_record publish others o clock r w = elim (held_token r.lock_token) [
  | none ↦ (record w { result = lose_lease w.result }, none)
  | some token ↦
      let w' = record w { outbox = others w.outbox } in
      if publish (public_event r)
      then try_complete o clock token r w'
      else catch_failure o clock token r w'
]

-- The loop, which an error leaves. The nth round has the nth turn of the other workers.
unfoldable pub work_all :
    (PublishedEvent → Bool)
    → (ℕ → Keyed OutboxRecord → Keyed OutboxRecord)
    → WorkerOptions
    → (ℕ → Option ℕ)
    → ℕ
    → List OutboxRecord
    → Work
    → Work × Option WorkerError
work_all publish others o clock n [] w = (w, none)
work_all publish others o clock n (r ∷ rs) w =
    let (w', e) = work_record publish (others n) o clock r w in
    let rest = work_all publish others o clock (suc n) rs w' in
    elim e [ some x ↦ (w', some x) | none ↦ rest ]

abbrev pub no_work : ℕ → RunResult
no_work n = record { claimed = n; published = 0; retried = 0; dead_lettered = 0; lease_lost = 0 }

abbrev pub claim_request : WorkerOptions → ℕ → ClaimParams
claim_request o now = record {
  limit = some (some o.batch_size);
  lease_ms = some (some o.lease_ms);
  now = some (some now);
}

-- What a run gives back; the outbox it leaves stands whether or not an error escapes.
abbrev pub answer : Work × Option WorkerError → Keyed OutboxRecord × Result WorkerError RunResult
answer (w, none) = (w.outbox, ok w.result)
answer (w, some e) = (w.outbox, err e)

unfoldable pub run_once :
    (String → String → Bool)
    → (PublishedEvent → Bool)
    → (ℕ → Keyed OutboxRecord → Keyed OutboxRecord)
    → WorkerOptions
    → (ℕ → Option ℕ)
    → String
    → Keyed OutboxRecord
    → Keyed OutboxRecord × Result WorkerError RunResult
run_once follows publish others o clock uuid s = elim (checked_now (clock 0)) [
  | none ↦ (s, err invalid_clock)
  | some now ↦
      let (s', records) = claim follows s uuid now (claim_request o now) in
      answer (
        work_all publish others o clock 0 records
          (record { outbox = s'; result = no_work (length records); readings = 1 }))
]
