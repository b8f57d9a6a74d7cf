-- ===== src/Outbox/Worker/Delay.antt =====
-- The wait before a retry: `retryDelay` of apps/longhub-cloud-api/src/billing-outbox.ts.
use native.Mathlib.Nat.{pow-le-pow_right, mul-le-mul}
use longhub_platform.Common.{ℕ, ◌-◌, ◌*◌, ◌^◌, ◌≤◌, max, min, some, ◌≡◌, arith}
use longhub_platform.Outbox.Worker.{WorkerParams, WorkerOptions, new_worker, retry_delay}

-- The wait grows with the power of two.
delay_grows : (base i j : ℕ) → i ≤ j → base * 2 ^ i ≤ base * 2 ^ j
delay_grows base i j h = mul-le-mul (omega arith) (pow-le-pow_right (omega arith) h)

options_facts :
    (p : WorkerParams) (o : WorkerOptions)
    → new_worker p ≡ some o
    → o.retry_base_ms ≤ o.retry_max_ms
unfolding new_worker
options_facts p o h = ground arith

-- A worker whose options the constructor takes waits at least the base and at most the maximum
-- before a retry, and never less after a later attempt.
pub retry_delay_bounds :
    (p : WorkerParams) (o : WorkerOptions) (i j : ℕ)
    → new_worker p ≡ some o
    → i ≤ j
    → (o.retry_base_ms ≤ retry_delay i o.retry_base_ms o.retry_max_ms)
      × (retry_delay i o.retry_base_ms o.retry_max_ms ≤ o.retry_max_ms)
      × (retry_delay i o.retry_base_ms o.retry_max_ms
          ≤ retry_delay j o.retry_base_ms o.retry_max_ms)
unfolding retry_delay
retry_delay_bounds p o i j h le =
    let le_max = options_facts p o h in
    let first = delay_grows o.retry_base_ms 0 (max 0 (min 30 (i - 1))) (omega arith) in
    let next =
      delay_grows o.retry_base_ms (max 0 (min 30 (i - 1))) (max 0 (min 30 (j - 1))) (omega arith) in
    (omega arith, omega arith, omega arith)
