-- ===== src/Action/Listing.antt =====
-- The listing of governed actions (internal/usecase/agentosaction/memory_store.go, `ListActions`).
use go_agent.Prelude.{
  ℤ, pos, pos_part, ltb_ℤ, String, is_empty, Bool, false, not, ◌&&◌, ◌||◌, key_eq, string_key,
  str_leb, List, [], ◌∷◌, length, take, select, Result, ok, check, if◌then◌else◌,
}
use go_agent.Prelude.Dict.{Dict}
use go_agent.Prelude.Sort.{sort_by}
use go_agent.Ledger.Records.{resource_key}
use go_agent.Action.Records.{ActionScope, GovernedActionStatus, action_start_key, action_status_key}
use go_agent.Action.Validate.{validate_action_scope}
use go_agent.Action.State.{MemoryStore}

unfoldable pub action_status_matches_scope : ActionScope → GovernedActionStatus → Bool
action_status_matches_scope scope status =
    if not (key_eq status.account_id scope.account_id)
      || not (key_eq status.project_id scope.project_id)
    then false
    else if not (is_empty scope.process_id) && not (key_eq status.process_id scope.process_id)
    then false
    else if not (is_empty scope.kind) && not (key_eq status.kind scope.kind)
    then false
    else if not (is_empty scope.resource.kind) && not (key_eq status.resource scope.resource)
    then false
    else is_empty scope.lifecycle_state || key_eq status.lifecycle_state scope.lifecycle_state

abbrev pub status_leb : GovernedActionStatus → GovernedActionStatus → Bool
status_leb a b = str_leb a.action_id b.action_id

abbrev pub statuses_of : Dict String GovernedActionStatus → List GovernedActionStatus
statuses_of [] = []
statuses_of ((id, status) ∷ d) = status ∷ statuses_of d

abbrev pub limited_statuses : ℤ → List GovernedActionStatus → List GovernedActionStatus
limited_statuses limit statuses =
    if ltb_ℤ (pos 0) limit && ltb_ℤ limit (pos (length statuses))
    then take (pos_part limit) statuses
    else statuses

unfoldable pub list_actions : ActionScope → MemoryStore → Result (List GovernedActionStatus)
unfolding validate_action_scope action_status_matches_scope sort_by
list_actions scope s = check (validate_action_scope scope) (
    ok (
      limited_statuses scope.limit
        (sort_by status_leb (select (action_status_matches_scope scope) (statuses_of s.statuses)))))
