-- ===== src/Tasks/Examples.antt =====
-- Runs of the task store on concrete calls, with the theorems of the store at them.
use longhub_platform.Common.{
  String, true, false, arith, Option, none, some, List, [], ◌∷◌, ◌++◌, ◌≡◌, refl, ◌≢◌, ap, ◌=s◌,
  String-discrete, ok,
}
use longhub_platform.Common.Decimal.{show, show_fuel, digit}
use longhub_platform.Common.Keyed
use longhub_platform.Tasks.{
  Store, Task, Owner, Patch, Binding, running, succeeded, failed, pending, empty, emit, owner_key,
  create_task, create_or_replay, add_task, claim_pending_task, discard_pending_task, guarded_task,
  find_task_by_idempotency, task_idempotency_binding, events_after, Status-discrete,
}
use longhub_platform.Tasks.Fingerprint.{
  other, Placeholder, as_input, placeholder_schema, normalize_fingerprint, is_request_fingerprint,
  is_fingerprint_codes, is_digest, is_hex, is_placeholder, is_expected,
}
use longhub_platform.Tasks.Runs.{Call, create, claim, discard, move_if, move, listen, run, step}
use longhub_platform.Tasks.Invariant.{Inv, Issued, run-Inv, empty-Inv, binding_total}
use longhub_platform.Tasks.Claims.{claim_once}
use longhub_platform.Tasks.Idempotency.{
  NulFree, retry_result, owner_key_injective, retry_after_calls, discard_frees,
}
use longhub_platform.Tasks.Events.{LogsRise, logs_rise}
use longhub_platform.Tasks.Polling.{last_id, poll_complete}

abbrev digest : String
digest = "0123456789abcdef0123456789abcdef0123456789abcdef0123456789abcdef"

abbrev fingerprint : String
fingerprint = "v1:0123456789abcdef0123456789abcdef0123456789abcdef0123456789abcdef"

abbrev key : String
key = "key"

abbrev desk : Owner
desk = record { tenant_id = "acme"; device_id = "desk"; agent_id = "writer" }

abbrev placeholder : Placeholder
placeholder = record {
  schema_version = placeholder_schema;
  request_fingerprint = fingerprint;
  input_digest = digest;
}

abbrev no_patch : Patch
no_patch = record {
  task_id = none;
  tenant_id = none;
  device_id = none;
  agent_id = none;
  kind = none;
  input = none;
  output = none;
  error = none;
  created_at = none;
}

abbrev first_call : Call
first_call = create 10 "key" "skill" (as_input placeholder) (some desk) (some fingerprint)

-- A task that waits for its input, as the first call leaves it.
abbrev first_task : Task
first_task = record {
  task_id = "ct-1";
  tenant_id = "acme";
  device_id = "desk";
  agent_id = "writer";
  kind = "skill";
  status = pending;
  input = as_input placeholder;
  output = none;
  error = none;
  created_at = 10;
  updated_at = 10;
}

abbrev made : Store
made = run empty (first_call ∷ [])

made-Inv : Inv made
made-Inv = run-Inv empty (first_call ∷ []) empty-Inv

created :
    (create_task empty 10 "key" "skill" (as_input placeholder) (some desk) (some fingerprint)).1
    ≡ ok (first_task, false)
unfolding create_task create_or_replay add_task normalize_fingerprint is_request_fingerprint
    is_fingerprint_codes is_digest is_hex task_idempotency_binding empty Keyed.get String-discrete
    show show_fuel digit owner_key
created = refl

claimed :
    (claim_pending_task made 20 "ct-1").1
    ≡ some (record first_task { status = running; updated_at = 20 })
unfolding run step create_task create_or_replay add_task normalize_fingerprint
    is_request_fingerprint is_fingerprint_codes is_digest is_hex task_idempotency_binding empty
    Keyed.get Keyed.set String-discrete show show_fuel digit owner_key emit claim_pending_task
    Status-discrete
claimed = refl

-- The calls between two claims.
abbrev between : List Call
between =
    listen "ct-1" 7
    ∷ move_if 30 "ct-1" (running ∷ []) succeeded no_patch
    ∷ first_call
    ∷ move 40 "ct-1" failed no_patch
    ∷ []

claim_once_example :
    claim_pending_task (run (claim_pending_task made 20 "ct-1").0 between) 50 "ct-1"
    ≡ (run (claim_pending_task made 20 "ct-1").0 between, none)
unfolding Status-discrete
claim_once_example =
    claim_once made 20 50 "ct-1" (record first_task { status = running; updated_at = 20 }) between
      made-Inv claimed (refl, (refl, (refl, (refl, tt))))

normal : normalize_fingerprint (some fingerprint) ≡ some fingerprint
unfolding normalize_fingerprint is_request_fingerprint is_fingerprint_codes is_digest is_hex
    String-discrete
normal = refl

retry_after_calls_example :
    (u : Task) × (Keyed.get "ct-1" (run made between).tasks ≡ some u)
    × (create_task (run made between) 60 "key" "skill" (other "late") (some desk) (some fingerprint)
        ≡ (run made between, retry_result fingerprint (normalize_fingerprint (some fingerprint)) u))
unfolding run step String-discrete
retry_after_calls_example =
    retry_after_calls empty 10 60 "key" "skill" "skill" (as_input placeholder) (other "late")
      (some desk) (some fingerprint) (some fingerprint) fingerprint first_task between empty-Inv
      normal created (refl, (refl, (refl, (refl, tt))))

owner_key_injective_example : (desk ≡ desk) × (key ≡ key)
owner_key_injective_example =
    owner_key_injective desk desk key key free_tenant free_device free_agent free_tenant free_device
      free_agent refl
  where
    free_tenant : NulFree "acme"
    free_tenant = (λ e. cc, (λ e. cc, (λ e. cc, (λ e. cc, tt))))

    free_device : NulFree "desk"
    free_device = (λ e. cc, (λ e. cc, (λ e. cc, (λ e. cc, tt))))

    free_agent : NulFree "writer"
    free_agent = (λ e. cc, (λ e. cc, (λ e. cc, (λ e. cc, (λ e. cc, (λ e. cc, tt))))))

discarded : (discard_pending_task made "ct-1" placeholder).1 ≡ true
unfolding run step create_task create_or_replay add_task normalize_fingerprint
    is_request_fingerprint is_fingerprint_codes is_digest is_hex task_idempotency_binding empty
    Keyed.get Keyed.set String-discrete show show_fuel digit owner_key emit discard_pending_task
    guarded_task is_placeholder is_expected Status-discrete
discarded = refl

made_key : Keyed.get (owner_key desk "key") made.idempotency ≡ some "ct-1"
unfolding run step create_task create_or_replay add_task normalize_fingerprint
    is_request_fingerprint is_fingerprint_codes is_digest is_hex task_idempotency_binding empty
    Keyed.get Keyed.set String-discrete show show_fuel digit owner_key emit
made_key = refl

next_apart : ◌≢◌ {A = String} "ct-2" "ct-1"
unfolding String-discrete
next_apart e = let differ : false ≡ true = ap (λ (id : String). id =s "ct-1") e in cc differ

discard_frees_example :
    (Keyed.get "ct-1" (discard_pending_task made "ct-1" placeholder).0.tasks ≡ none)
    × (Keyed.get "ct-2" (discard_pending_task made "ct-1" placeholder).0.tasks
        ≡ Keyed.get "ct-2" made.tasks)
    × (find_task_by_idempotency (discard_pending_task made "ct-1" placeholder).0 "key" desk
        ≡ ok none)
unfolding String-discrete
discard_frees_example =
    discard_frees made "ct-1" "ct-2" "key" placeholder desk made-Inv discarded next_apart made_key

binding_total_example :
    (b : Option Binding) × (find_task_by_idempotency
        (run empty (first_call ∷ discard "ct-1" placeholder ∷ first_call ∷ []))
        "key"
        desk
      ≡ ok b)
binding_total_example =
    binding_total (first_call ∷ discard "ct-1" placeholder ∷ first_call ∷ []) "key" desk

logs_rise_example : LogsRise (run empty (first_call ∷ claim 20 "ct-1" ∷ between))
logs_rise_example = logs_rise (first_call ∷ claim 20 "ct-1" ∷ between)

given : Issued made.task_seq "ct-1"
unfolding run step create_task create_or_replay add_task normalize_fingerprint
    is_request_fingerprint is_fingerprint_codes is_digest is_hex task_idempotency_binding empty
    Keyed.get Keyed.set String-discrete show show_fuel digit owner_key emit
given = (1, refl, omega arith)

logged : Keyed.get "ct-1" made.events_by_task ≡ some (events_after made "ct-1" none)
unfolding run step create_task create_or_replay add_task normalize_fingerprint
    is_request_fingerprint is_fingerprint_codes is_digest is_hex task_idempotency_binding empty
    Keyed.get Keyed.set String-discrete show show_fuel digit owner_key emit events_after
logged = refl

poll_complete_example :
    events_after (run made (claim 20 "ct-1" ∷ between)) "ct-1" none
    ≡ events_after made "ct-1" none
      ++ events_after
          (run made (claim 20 "ct-1" ∷ between))
          "ct-1"
          (some (some (last_id (events_after made "ct-1" none))))
unfolding String-discrete
poll_complete_example =
    poll_complete made (claim 20 "ct-1" ∷ between) "ct-1" (events_after made "ct-1" none)
      (logs_rise (first_call ∷ [])) given logged (refl, (refl, (refl, (refl, (refl, tt)))))
