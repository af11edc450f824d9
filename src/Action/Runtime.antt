-- ===== src/Action/Runtime.antt =====
-- The use cases of governed actions (internal/usecase/agentosaction/runtime.go). A call on an action
-- reads its request and its status, makes the next status of them, and writes that in a second call
-- on the store.
use go_agent.Prelude.{
  String, Bool, string_key, List, [], ◌∷◌, none, some, Option, Result, ok, err, errorf,
  err_invalid_governed_action_scope, check, ◌>>=◌,
}
use go_agent.Control.{Time}
use go_agent.Action.Records.{ActionRef, ActionScope, GovernedActionSpec, GovernedActionStatus}
use go_agent.Action.Validate.{
  validate_governed_action_spec, validate_action_ref, validate_action_scope,
}
use go_agent.Action.Memory.{create_action, get_action, update_action_status}
use go_agent.Action.Listing.{list_actions}
use go_agent.Action.State.{MemoryStore}
use go_agent.Action.Lifecycle.{Call, Draft, next, initial_action_status}
use go_agent.Action.Listing.{list_actions}

abbrev pub found_action :
    ActionRef
    → Option (GovernedActionSpec × GovernedActionStatus)
    → Result (GovernedActionSpec × GovernedActionStatus)
found_action ref none =
    err (errorf err_invalid_governed_action_scope "action %q not found" (ref.action_id ∷ []))
found_action ref (some found) = ok found

unfoldable pub require_action :
    ActionRef → MemoryStore → Result (GovernedActionSpec × GovernedActionStatus)
unfolding validate_action_ref get_action
require_action ref s =
    check (validate_action_ref ref) (get_action ref s >>= λ found. found_action ref found)

-- The first half of a call: what it reads and makes of it.
unfoldable pub draft_action : Time → ActionRef → Call → MemoryStore → Result Draft
unfolding require_action next
draft_action now ref call s = require_action ref s >>= λ found. next now ref call found.0 found.1

-- `RecordActionDryRun`, `ResolveActionApproval`, `CompleteAction` and `CancelAction`.
unfoldable pub run_call :
    Time → ActionRef → Call → MemoryStore → Result GovernedActionStatus × MemoryStore
unfolding draft_action update_action_status
run_call now ref call s = elim (draft_action now ref call s) [
  | err e ↦ (err e, s)
  | ok d ↦ update_action_status d.status d.key s
]

unfoldable pub status_action : ActionRef → MemoryStore → Result GovernedActionStatus
unfolding get_action
status_action ref s = get_action ref s >>= λ found. found_action ref found >>= λ action. ok action.1

unfoldable pub list_action_statuses : ActionScope → MemoryStore → Result (List GovernedActionStatus)
unfolding validate_action_scope list_actions
list_action_statuses scope s = check (validate_action_scope scope) (list_actions scope s)

module _ (marshal : GovernedActionSpec → Result String) where
  status_only :
      Result (GovernedActionStatus × Bool) × MemoryStore → Result GovernedActionStatus × MemoryStore
  status_only (r, s) = (r >>= λ created. ok created.0, s)

  unfoldable pub request_action :
      Time → GovernedActionSpec → MemoryStore → Result GovernedActionStatus × MemoryStore
  unfolding validate_governed_action_spec initial_action_status create_action status_only
  request_action now spec s = elim (validate_governed_action_spec spec) [
    | some e ↦ (err e, s)
    | none ↦ status_only (create_action marshal spec (initial_action_status now spec) s)
  ]
