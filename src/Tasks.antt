-- ===== src/Tasks.antt =====
-- The task part of the in-memory control-plane store: `CloudTask` and its companions in
-- apps/longhub-cloud-api/src/store.ts, and the task methods of `MemoryStore` in
-- apps/longhub-cloud-api/src/memory-store.ts. A clock reading is an argument of each method. A
-- method returns the new store with its result; a method that throws returns its error.
pub mod Fingerprint
pub mod Cases
pub mod Runs
pub mod Invariant
pub mod Claims
pub mod Idempotency
pub mod Emissions
pub mod Events
pub mod Polling
mod Examples
use Prim.Native.String.{◌++◌ as ◌<>◌}
use longhub_platform.Common.{
  ℕ, suc, ◌+◌, String, Bool, true, false, ◌&&◌, not, Option, none, some, List, [], ◌∷◌, ◌++◌, map,
  ltb, ◌==◌, ◌=s◌, ◌||◌, if◌then◌else◌, any, select, Result, ok, err, or_else, prefer,
}
use longhub_platform.Common.Keyed
use longhub_platform.Common.Decimal.{show}
use longhub_platform.Common.Keyed.{Keyed}
use Fingerprint.{
  Input, Placeholder, is_placeholder, is_expected, as_input, normalize_fingerprint, legacy_unbound,
}

pub data Status : Type 0 where
  pending running succeeded failed cancelled timed_out : Status

pub Status-discrete : Discrete Status
Status-discrete = hlevel

abbrev pub same_status : Status → Status → Bool
same_status s t = elim (Status-discrete s t) [ yes _ ↦ true | no _ ↦ false ]

pub record TaskError : Type 0 where
  pub code : String
  pub message : String
  pub retryable : Bool

-- Times are milliseconds; what a Skill returns is an opaque text.
pub record Task : Type 0 where
  pub task_id : String
  pub tenant_id : String
  pub device_id : String
  pub agent_id : String
  pub kind : String
  pub status : Status
  pub input : Input
  pub output : Option String
  pub error : Option TaskError
  pub created_at : ℕ
  pub updated_at : ℕ

-- `event_id` is the sequence number that the source prints in decimal and reads back by `Number`.
pub record Event : Type 0 where
  pub event_id : ℕ
  pub task_id : String
  pub type : String
  pub ts : ℕ
  pub error : Option TaskError

pub record Owner : Type 0 where
  pub tenant_id : String
  pub device_id : String
  pub agent_id : String

pub record Binding : Type 0 where
  pub task : Task
  pub request_fingerprint : String

-- `Partial<CloudTask>`; `none` is a field that is not there. `status` and `updated_at` are left
-- out, since every caller of `assign` writes both right after it.
pub record Patch : Type 0 where
  pub task_id : Option String
  pub tenant_id : Option String
  pub device_id : Option String
  pub agent_id : Option String
  pub kind : Option String
  pub input : Option Input
  pub output : Option String
  pub error : Option TaskError
  pub created_at : Option ℕ

-- The fields of `MemoryStore` that the task methods touch. A listener is named by a number, and
-- `delivered` logs the calls of listeners in order.
pub record Store : Type 0 where
  pub tasks : Keyed Task
  pub events_by_task : Keyed (List Event)
  pub listeners : Keyed (List ℕ)
  pub idempotency : Keyed String
  pub fingerprints : Keyed String
  pub task_seq : ℕ
  pub event_seq : ℕ
  pub delivered : List (ℕ × Event)

pub data Error : Type 0 where
  idempotency_conflict unknown_task : Error

unfoldable pub empty : Store
empty = record {
  tasks = [];
  events_by_task = [];
  listeners = [];
  idempotency = [];
  fingerprints = [];
  task_seq = 0;
  event_seq = 0;
  delivered = [];
}

abbrev pub task_event_type : Status → String
task_event_type pending = "task.accepted"
task_event_type running = "task.started"
task_event_type succeeded = "task.succeeded"
task_event_type failed = "task.failed"
task_event_type cancelled = "task.cancelled"
task_event_type timed_out = "task.timed_out"

abbrev pub nul : String
nul = "\0"

unfoldable pub owner_key : Owner → String → String
owner_key o key = o.tenant_id <> (nul <> (o.device_id <> (nul <> (o.agent_id <> (nul <> key)))))

abbrev pub push_event :
    Event → Option (List Event) → String → Keyed (List Event) → Keyed (List Event)
push_event e none k m = m
push_event e (some es) k m = Keyed.set k (es ++ e ∷ []) m

unfoldable pub emit : Store → ℕ → String → String → Option TaskError → Store
emit s now task_id type error =
    let event : Event = record {
      event_id = suc s.event_seq;
      task_id = task_id;
      type = type;
      ts = now;
      error = error;
    } in
    record s {
      event_seq = suc s.event_seq;
      events_by_task =
          push_event event (Keyed.get task_id s.events_by_task) task_id s.events_by_task;
      delivered = s.delivered ++ map (λ l. (l, event)) (or_else (Keyed.get task_id s.listeners) []);
    }

abbrev pub must_get : Store → String → Result Error Task
must_get s task_id = elim (Keyed.get task_id s.tasks) [ none ↦ err unknown_task | some t ↦ ok t ]

-- `taskIdempotencyBinding`: nothing under the key, a binding, or the error of `mustGet`.
unfoldable pub task_idempotency_binding : Store → String → Owner → Result Error (Option Binding)
task_idempotency_binding s key o = elim (Keyed.get (owner_key o key) s.idempotency) [
  | none ↦ ok none
  | some task_id ↦ elim (must_get s task_id) [
    | err e ↦ err e
    | ok t ↦ ok (
        some (record {
          task = t;
          request_fingerprint = or_else (Keyed.get task_id s.fingerprints) legacy_unbound;
        }))
  ]
]

unfoldable pub find_task_by_idempotency : Store → String → Owner → Result Error (Option Binding)
unfolding task_idempotency_binding
find_task_by_idempotency s key o = task_idempotency_binding s key o

abbrev pub task_id_of : ℕ → String
task_id_of n = "ct-" <> show n

abbrev pub legacy_owner : Owner
legacy_owner = record {
  tenant_id = "__legacy__";
  device_id = "__legacy__";
  agent_id = "__legacy__";
}

abbrev pub new_task : Store → ℕ → String → Input → Owner → Task
new_task s now kind input o = record {
  task_id = task_id_of (suc s.task_seq);
  tenant_id = o.tenant_id;
  device_id = o.device_id;
  agent_id = o.agent_id;
  kind = kind;
  status = pending;
  input = input;
  output = none;
  error = none;
  created_at = now;
  updated_at = now;
}

-- The part of `createTask` after the check of an existing binding.
unfoldable pub add_task : Store → ℕ → String → String → Input → Owner → String → Store
unfolding emit
add_task s now key kind input o fingerprint =
    let t = new_task s now kind input o in
    emit
      (record s {
        task_seq = suc s.task_seq;
        tasks = Keyed.set t.task_id t s.tasks;
        events_by_task = Keyed.set t.task_id [] s.events_by_task;
        idempotency = Keyed.set (owner_key o key) t.task_id s.idempotency;
        fingerprints = Keyed.set t.task_id fingerprint s.fingerprints;
      })
      now t.task_id "task.accepted" none

-- The rest of `createTask` once the fingerprint is normalized and the binding is looked up.
unfoldable pub create_or_replay :
    Store
    → ℕ
    → String
    → String
    → Input
    → Owner
    → String
    → Result Error (Option Binding)
    → Store × Result Error (Task × Bool)
create_or_replay s now key kind input o normalized (err e) = (s, err e)
create_or_replay s now key kind input o normalized (ok none) =
    (add_task s now key kind input o normalized, ok (new_task s now kind input o, false))
create_or_replay s now key kind input o normalized (ok (some b)) =
    if (b.request_fingerprint =s legacy_unbound) || not (b.request_fingerprint =s normalized)
    then (s, err idempotency_conflict)
    else (s, ok (b.task, true))

-- `createTask`: the task, and whether it existed.
unfoldable pub create_task :
    Store
    → ℕ
    → String
    → String
    → Input
    → Option Owner
    → Option String
    → Store × Result Error (Task × Bool)
unfolding create_or_replay normalize_fingerprint
create_task s now key kind input owner fingerprint = elim (normalize_fingerprint fingerprint) [
  | none ↦ (s, err idempotency_conflict)
  | some normalized ↦
      let o = or_else owner legacy_owner in
      create_or_replay s now key kind input o normalized (task_idempotency_binding s key o)
]

unfoldable pub get_task : Store → String → Option Task
get_task s task_id = Keyed.get task_id s.tasks

-- The guard that `discardPendingTask` and `admitPendingTaskInput` share: the task, if it is
-- pending and still holds the placeholder that is named.
unfoldable pub guarded_task : Store → String → Placeholder → Option Task
unfolding is_placeholder is_expected
guarded_task s task_id p = elim (Keyed.get task_id s.tasks) [
  | none ↦ none
  | some t ↦
      if is_placeholder (as_input p) && (same_status t.status pending && is_expected t.input p)
      then some t
      else none
]

unfoldable pub discard_pending_task : Store → String → Placeholder → Store × Bool
discard_pending_task s task_id p = elim (guarded_task s task_id p) [
  | none ↦ (s, false)
  | some t ↦ (
    record s {
      tasks = Keyed.delete task_id s.tasks;
      events_by_task = Keyed.delete task_id s.events_by_task;
      fingerprints = Keyed.delete task_id s.fingerprints;
      listeners = Keyed.delete task_id s.listeners;
      idempotency = Keyed.delete_where (λ v. v =s task_id) s.idempotency;
    },
    true,
  )
]

unfoldable pub admit_pending_task_input :
    Store → ℕ → String → Placeholder → Input → Store × Option Task
admit_pending_task_input s now task_id p input = elim (guarded_task s task_id p) [
  | none ↦ (s, none)
  | some t ↦
      let t' = record t { input = input; updated_at = now } in
      (record s { tasks = Keyed.set task_id t' s.tasks }, some t')
]

unfoldable pub claim_pending_task : Store → ℕ → String → Store × Option Task
unfolding emit
claim_pending_task s now task_id = elim (Keyed.get task_id s.tasks) [
  | none ↦ (s, none)
  | some t ↦
      if same_status t.status pending
      then (let t' = record t { status = running; updated_at = now } in
          (
            emit (record s { tasks = Keyed.set task_id t' s.tasks }) now task_id
                (task_event_type running) none,
            some t',
          ))
      else (s, none)
]

-- `Object.assign(task, patch)`.
unfoldable pub assign : Task → Patch → Task
assign t p = record t {
  task_id = or_else p.task_id t.task_id;
  tenant_id = or_else p.tenant_id t.tenant_id;
  device_id = or_else p.device_id t.device_id;
  agent_id = or_else p.agent_id t.agent_id;
  kind = or_else p.kind t.kind;
  input = or_else p.input t.input;
  output = prefer p.output t.output;
  error = prefer p.error t.error;
  created_at = or_else p.created_at t.created_at;
}

-- The writes that `transitionIfStatus` and `transition` share.
unfoldable pub move_task : Store → ℕ → String → Task → Status → Patch → Store × Task
unfolding emit assign
move_task s now task_id t status p =
    let t' = record (assign t p) { status = status; updated_at = now } in
    (
      emit (record s { tasks = Keyed.set task_id t' s.tasks }) now task_id (task_event_type status)
          t'.error,
      t',
    )

unfoldable pub transition_if_status :
    Store → ℕ → String → List Status → Status → Patch → Store × Option Task
unfolding move_task
transition_if_status s now task_id expected status p = elim (Keyed.get task_id s.tasks) [
  | none ↦ (s, none)
  | some t ↦
      if any (same_status t.status) expected
      then (let (s', t') = move_task s now task_id t status p in (s', some t'))
      else (s, none)
]

unfoldable pub transition : Store → ℕ → String → Status → Patch → Store × Result Error Task
unfolding move_task
transition s now task_id status p = elim (must_get s task_id) [
  | err e ↦ (s, err e)
  | ok t ↦ let (s', t') = move_task s now task_id t status p in (s', ok t')
]

-- `after` is what `Number` makes of the text given; its `none` is NaN, above which nothing is.
unfoldable pub events_after : Store → String → Option (Option ℕ) → List Event
events_after s task_id after =
    let events = or_else (Keyed.get task_id s.events_by_task) [] in
    elim after [
      | none ↦ events
      | some none ↦ []
      | some (some n) ↦ select (λ e. ltb n e.event_id) events
    ]

abbrev pub add_listener : ℕ → List ℕ → List ℕ
add_listener l ls = if any (λ k. k == l) ls then ls else ls ++ l ∷ []

unfoldable pub subscribe : Store → String → ℕ → Store
subscribe s task_id l = record s {
  listeners =
      Keyed.set task_id (add_listener l (or_else (Keyed.get task_id s.listeners) [])) s.listeners;
}

-- The function that `subscribe` returns, called while the set that it was made for stands in the
-- store. After a discard of the task it acts on a set that the store no longer reads.
unfoldable pub unsubscribe : Store → String → ℕ → Store
unsubscribe s task_id l = elim (Keyed.get task_id s.listeners) [
  | none ↦ s
  | some ls ↦ record s { listeners = Keyed.set task_id (select (λ k. not (k == l)) ls) s.listeners }
]
