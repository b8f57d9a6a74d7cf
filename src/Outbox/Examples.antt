-- ===== src/Outbox/Examples.antt =====
-- Two outbox records, two workers, and the theorems of the outbox at them.
use mathlib.Core.List.{Memᴰ}
use longhub_platform.Common.{
  ℕ, ◌+◌, ◌≤◌, String, Bool, true, none, some, List, [], ◌∷◌, ◌≡◌, refl, arith, ◌=s◌,
  String-discrete, insert_by, sort_by, Option, ok, length,
}
use longhub_platform.Orders.{OrderType, PayMethod}
use longhub_platform.Common.Keyed
use longhub_platform.Common.Keyed.{Keyed, Distinct}
use longhub_platform.Outbox.{
  payment_settled, OutboxRecord, ClaimParams, claim, complete, lock, is_lock_token, published_row,
  parse_outbox_time, lock_entries, fail, is_error_code,
}
use longhub_platform.Outbox.Steps.{Call, claims, completes, run, IsNamed}
use longhub_platform.Outbox.Leases.{claimer_completes}
use longhub_platform.Outbox.Settled.{completed_for_good}
use longhub_platform.Outbox.Worker.{
  PublishedEvent, WorkerParams, WorkerOptions, new_worker, retry_delay, run_once, RunResult,
  work_all, work_record, try_complete, catch_failure, after_publish, after_failure, claim_request,
}
use longhub_platform.Outbox.Worker.Delay.{retry_delay_bounds}
use longhub_platform.Outbox.Worker.Tally.{run_once-tally}
use longhub_platform.Outbox.Tallies.{is_published, is_dead, is_held, tally}

abbrev row : String → ℕ → OutboxRecord
row id at = record {
  outbox_id = id;
  event_type = payment_settled;
  aggregate_id = "o1";
  settlement_id = "s1";
  payload = record {
    order_id = "o1";
    user_id = "u1";
    order_type = OrderType.plan;
    method = some PayMethod.balance;
    amount_fen = 100;
    actor = none;
  };
  attempts = 0;
  available_at = at;
  locked_until = none;
  lock_token = none;
  published_at = none;
  dead_lettered_at = none;
  last_error = none;
  created_at = at;
}

abbrev box : Keyed OutboxRecord
box = ("e1", row "e1" 100) ∷ ("e2", row "e2" 50) ∷ []

abbrev uuid : String
uuid = "01234567-89ab-cdef-0123-456789abcdef"

abbrev token : String
token = "bol-01234567-89ab-cdef-0123-456789abcdef"

abbrev other_uuid : String
other_uuid = "11234567-89ab-cdef-0123-456789abcdef"

abbrev params : ClaimParams
params = record { limit = none; lease_ms = none; now = some (some 1000) }

abbrev follows : String → String → Bool
follows a b = true

box-Distinct : Distinct box
unfolding Keyed.get String-discrete
box-Distinct = (refl, (refl, tt))

box-IsNamed : IsNamed box
unfolding Keyed.get
box-IsNamed id r h = ground arith

token-good : is_lock_token token ≡ true
unfolding is_lock_token
token-good = refl

-- The older record comes first.
claimed_rows :
    (claim follows box uuid 0 params).1
    ≡ lock token 31000 (row "e2" 50) ∷ lock token 31000 (row "e1" 100) ∷ []
unfolding claim sort_by insert_by
claimed_rows = refl

-- Another worker claims, and tries to complete the record with a token of its own.
abbrev others : List Call
others =
    claims other_uuid 2000 (record { limit = none; lease_ms = none; now = none })
    ∷ completes 2500 "e1" "bol-other" none
    ∷ []

claimer_completes_example :
    (u : OutboxRecord) × (complete
        (run follows (claim follows box uuid 0 params).0 others)
        0
        "e1"
        token
        (some (some 5000))
      ≡ (
        Keyed.set "e1"
            (published_row 5000 u)
            (run follows (claim follows box uuid 0 params).0 others),
        true,
      ))
unfolding claim sort_by insert_by String-discrete
claimer_completes_example =
    claimer_completes follows box uuid 0 1000 30000 5000 params (lock token 31000 (row "e1" 100))
      others box-Distinct box-IsNamed token-good refl refl (Memᴰ.tail (Memᴰ.head refl))
      (refl, (refl, tt)) (omega arith)

abbrev locked_box : Keyed OutboxRecord
locked_box = ("e1", lock token 31000 (row "e1" 100)) ∷ []

abbrev published_box : Keyed OutboxRecord
published_box = ("e1", published_row 5000 (lock token 31000 (row "e1" 100))) ∷ []

completed : complete locked_box 0 "e1" token (some (some 5000)) ≡ (published_box, true)
unfolding complete Keyed.get Keyed.set String-discrete is_lock_token
completed = refl

completed_for_good_example :
    (r : OutboxRecord) × (t : ℕ) × (Keyed.get "e1" locked_box ≡ some r)
    × (parse_outbox_time 0 (some (some 5000)) ≡ some t)
    × (Keyed.get "e1" (run follows published_box others) ≡ some (published_row t r))
unfolding Keyed.get
completed_for_good_example =
    completed_for_good follows locked_box published_box 0 "e1" token (some (some 5000)) others
      (refl, tt) completed

abbrev defaults : WorkerParams
defaults = record {
  batch_size = none;
  lease_ms = none;
  max_attempts = none;
  retry_base_ms = none;
  retry_max_ms = none;
}

abbrev options : WorkerOptions
options = record {
  batch_size = 25;
  lease_ms = 30000;
  max_attempts = 8;
  retry_base_ms = 1000;
  retry_max_ms = 300000;
}

default_options : new_worker defaults ≡ some options
unfolding new_worker
default_options = refl

retry_delay_bounds_example :
    (1000 ≤ retry_delay 3 1000 300000)
    × (retry_delay 3 1000 300000 ≤ 300000)
    × (retry_delay 3 1000 300000 ≤ retry_delay 12 1000 300000)
retry_delay_bounds_example = retry_delay_bounds defaults options 3 12 default_options (omega arith)

-- One event is published, and the other one is refused.
abbrev publishes_second : PublishedEvent → Bool
publishes_second e = e.outbox_id =s "e2"

abbrev clock : ℕ → Option ℕ
clock n = some (1000 + n)

abbrev alone : ℕ → Keyed OutboxRecord → Keyed OutboxRecord
alone n s = s

abbrev counts : RunResult
counts = record { claimed = 2; published = 1; retried = 1; dead_lettered = 0; lease_lost = 0 }

ran : (run_once follows publishes_second alone options clock uuid box).1 ≡ ok counts
unfolding run_once claim sort_by insert_by lock_entries work_all work_record try_complete
    catch_failure after_publish after_failure complete fail Keyed.get Keyed.set String-discrete
    is_lock_token is_error_code retry_delay
ran = refl

run_once-tally_example :
    let s' = (run_once follows publishes_second alone options clock uuid box).0 in
    let claimed = claim follows box uuid 1000 (claim_request options 1000) in
    (2 ≡ length claimed.1)
    × (1 + 1 + 0 + 0 ≡ 2)
    × (tally is_published s' ≡ tally is_published box + 1)
    × (tally is_dead s' ≡ tally is_dead box + 0)
    × (tally is_held s' + (1 + 1 + 0) ≡ tally is_held claimed.0)
run_once-tally_example =
    run_once-tally follows publishes_second alone options clock uuid box 1000 counts
      (λ n. record { published = λ s. refl; dead = λ s. refl; held = λ s. refl }) refl ran

abbrev still : ℕ → Option ℕ
still n = some 1000
