-- ===== src/Lib.antt =====
-- LongHub platform: the control plane of the cloud Skills.
--
-- The program's cloud API keeps its state behind one storage interface. `MemoryStore` of
-- apps/longhub-cloud-api/src/memory-store.ts is the reference implementation, with its types in
-- apps/longhub-cloud-api/src/store.ts. A desktop client creates a task under an idempotency key; a
-- billable task holds a placeholder until the execution gate admits it against the plan of a
-- subscription; an executor claims the task, moves it to its end, and the client polls the events.
--
-- Which file models which part:
-- - Tasks, Tasks/Fingerprint: `createTask`, `discardPendingTask`, `admitPendingTaskInput`,
--   `claimPendingTask`, `transitionIfStatus`, `transition`, `eventsAfter`, `subscribe` with the
--   function that it returns, and `emit` of
--   memory-store.ts, as functions from the store to the new store and the result; the placeholder
--   and the request fingerprint of store.ts and apps/longhub-cloud-api/src/task-fingerprint.ts.
--   Tasks/Runs has the calls as data and a run of them; Cases, Invariant, Emissions prove what one
--   call does; Claims, Idempotency, Events, Polling prove what runs of calls do.
-- - Skills: `createCloudSkillSubscription`, `updateCloudSkillSubscriptionStatus`,
--   `grantCloudSkillEntitlement` and `revokeCloudSkillEntitlement`; Skills/Resolution is
--   `resolveCloudSkillAccess`. Skills/Plans: `createCloudSkillPlan` and `updateCloudSkillPlan`, with
--   Sales on what they keep. Access and Revocation prove when access is resolved.
-- - Executions: `reserveCloudSkillExecution`, `releaseCloudSkillExecution` and the expiry of leases,
--   over the store of Skills. Counts and Steps prove what one call does to the counters and the two
--   maps; Limits, Usage and Replay prove the admission, the usage and the retry.
-- - Outbox: `claimBillingOutbox`, `completeBillingOutbox` and `failBillingOutbox`; Outbox/Worker is
--   apps/longhub-cloud-api/src/billing-outbox.ts, with the publisher, the readings of the clock and
--   the other workers as arguments. Steps and Tallies prove what one call does; Leases and Settled
--   what runs of calls do; Worker/Tally, Worker/Returns and Worker/Delay are about the worker.
-- - Policy, Policy/Versions: `resolveFeaturePolicy`, `decideFeatureAccess` and `compareSemver` of
--   packages/longhub-feature-policy/src/resolution.ts, with the types of schema.ts beside it.
--   Merging has the lemmas on the merge of entries; Restriction and Granting prove what a policy
--   and a decision rest on.
-- - Devices: `registerDevice`, `createDevicePairingChallenge`, `consumeDevicePairingChallenge`,
--   `bindDevice` and the updates of a device; Steps proves what one call does, Pairing what runs
--   of calls keep.
-- - Bindings: `upsertCloudAgentSkillBinding`, `resolveCloudAgentSkillBinding`,
--   `revokeCloudAgentSkillBinding` and their list; Resolution is about what is found, Listing about the list.
-- - Orders: accounts, products, orders and the wallet: `createUser`, `setUserStatus`,
--   `createProduct`, `updateProduct`, `createOrder`, `updateOrder` and `addWalletTransaction`.
--   Orders/Wallet relates a balance to its transactions, Orders/Names an order to its key.
-- - Billing: `billingSettlementReplay`; Billing/Payment is `settleOrderPayment`, with its first checks
--   in Payment/Checks and its deliveries in Payment/Staging, and Billing/Refund is
--   `settleOrderRefund`, over the stores of Orders, Devices, Skills and Outbox. Cases has what a
--   settlement that was made has checked, Steps the step relation of the store, Recorded the rows
--   that a retry finds; Ledger, Once, Reversal and Fulfilment prove what settlements mean for the
--   books, for retries, for the balance and for access, with Grants and Delivery under the last.
-- - Workflow: the bounded workflow language and `parseBoundedWorkflow` of
--   packages/longhub-pack-schema/src/workflow-dsl.ts; Workflow/Engine is `BoundedWorkflowEngine` of
--   packages/longhub-core/src/workflow-engine.ts, with what it asks of others as arguments. Parsing
--   is about the parser; Walks is the induction over a run, Spending the cost of its
--   executions, and Budgets, Effects and Resuming what holds of runs.
-- - Activation: `createActivationCode`, `revokeActivationCode` and `redeemActivationCode`, and
--   `deviceActivationStatus` of apps/longhub-cloud-api/src/activation-code.ts. Uses counts the
--   devices under a code, Redeeming is about what a device gains.
-- - Common: tests, lists, sorting, numbers in decimal, lengths of texts, and Keyed, the insertion
--   ordered `Map` of JavaScript as a list of pairs.
--
-- Conventions. The methods are `async` but none waits between its first read and its last write, so
-- each call is one step, and interleavings of clients are sequences of calls. `new Date()` and
-- `randomUUID()` are arguments; that an identifier is fresh is a hypothesis where it matters. A
-- stored time is the number of milliseconds of its ISO text. The order of texts in a locale is an
-- argument. An exception is an error value. No function needs fuel, but for the decimal digits of a
-- number, whose fuel is the number itself.
--
-- Not modelled: sessions and administrators and the parser of policies, which are parts of the same
-- program; and the SQL store, the HTTP routes, the model gateway, cryptography, user interfaces, the
-- Manager and the bindings to the external Agent runtime, which are input and output or rest on code
-- outside the repository.
pub mod Common
pub mod Tasks
pub mod Skills
pub mod Executions
pub mod Outbox
pub mod Policy
pub mod Devices
pub mod Bindings
pub mod Orders
pub mod Billing
pub mod Workflow
pub mod Activation
