-- ===== src/Outbox/Worker/Returns.antt =====
-- When a run of the worker returns: `runOnce` and `checkedNow` of
-- apps/longhub-cloud-api/src/billing-outbox.ts.
use longhub_platform.Common.{ℕ, ◌+◌, ◌≤◌, Option, some, ◌≡◌}
use longhub_platform.Common.Keyed.{Keyed}
use longhub_platform.Outbox.Worker.{WorkerOptions, max_time}

-- Every reading of the clock is a date, and leaves room for the longest wait before a retry.
abbrev pub IsSteady : WorkerOptions → (ℕ → Option ℕ) → Type 0
IsSteady o clock = (n : ℕ) → (at : ℕ) × (clock n ≡ some at) × (at + o.retry_max_ms ≤ max_time)
