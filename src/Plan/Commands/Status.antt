-- ===== src/Plan/Commands/Status.antt =====
-- The lifecycle of a plan command and the query of the command reconciler
-- (internal/usecase/agentosplan/commands.go, `RecoverablePlanCommandStatuses` to
-- `ValidatePlanCommandRef`; contract.go, `PlanCommandStatus`; scope.go, `ValidatePlanRef`).
use go_agent.Prelude.{
  ℤ, pos, ltb_ℤ, String, is_empty, Key, key_eq, key_iff, string_key, Bool, true, false, ◌&&◌, ◌||◌,
  not, List, [], ◌∷◌, ◌++◌, Option, none, some, Error, Result, ok, err, errorf,
  err_invalid_run_plan, err_invalid_plan_scope, if◌then◌else◌, ◌≡◌, ◌↔◌, arith,
}
use go_agent.Prelude.Dict.{Dict, put, has}

-- `unset` is the empty string, and `other` any string that no constant names.
pub data PlanCommandStatus : Type 0 where
  unset pending delivered failed : PlanCommandStatus
  other : String → PlanCommandStatus

abbrev pub status_text : PlanCommandStatus → String
status_text PlanCommandStatus.unset = ""
status_text PlanCommandStatus.pending = "pending"
status_text PlanCommandStatus.delivered = "delivered"
status_text PlanCommandStatus.failed = "failed"
status_text (PlanCommandStatus.other name) = name

-- Go's `==` on two statuses.
abbrev pub same_status : PlanCommandStatus → PlanCommandStatus → Bool
same_status PlanCommandStatus.unset PlanCommandStatus.unset = true
same_status PlanCommandStatus.pending PlanCommandStatus.pending = true
same_status PlanCommandStatus.delivered PlanCommandStatus.delivered = true
same_status PlanCommandStatus.failed PlanCommandStatus.failed = true
same_status (PlanCommandStatus.other a) (PlanCommandStatus.other b) = key_eq a b
same_status _ _ = false

pub same_status_iff : (a b : PlanCommandStatus) → (same_status a b ≡ true) ↔ (a ≡ b)
same_status_iff a b = (
  λ same. ground (arith, key_iff (status_text a) (status_text b)),
  λ equal. ground (arith, key_iff (status_text a) (status_text b)),
)

instance abbrev pub status_key : Key PlanCommandStatus
status_key = record { beq = same_status; beq_iff = same_status_iff }

pub record PlanCommandScope : Type 0 where
  pub plan_id : String
  pub account_id : String
  pub project_id : String
  pub action : String
  pub statuses : List PlanCommandStatus
  pub limit : ℤ

abbrev pub is_recoverable : PlanCommandStatus → Bool
is_recoverable PlanCommandStatus.pending = true
is_recoverable PlanCommandStatus.failed = true
is_recoverable _ = false

-- The loop of `RecoverablePlanCommandStatuses`.
unfoldable pub recoverable_loop :
    List PlanCommandStatus
    → Dict {0, 0} PlanCommandStatus Unit
    → List PlanCommandStatus
    → Result (List PlanCommandStatus)
unfolding put has
recoverable_loop statuses seen [] = ok statuses
recoverable_loop statuses seen (status ∷ rest) =
    if is_recoverable status
    then if has status seen
      then recoverable_loop statuses seen rest
      else recoverable_loop (statuses ++ status ∷ []) (put status tt seen) rest
    else err (
        errorf err_invalid_run_plan "command status %q is not recoverable"
          (status_text status ∷ []))

unfoldable pub recoverable_plan_command_statuses :
    PlanCommandScope → Result (List PlanCommandStatus)
unfolding recoverable_loop
recoverable_plan_command_statuses scope =
    if ltb_ℤ scope.limit (pos 0)
    then err (errorf err_invalid_run_plan "command limit must be non-negative" [])
    else if (is_empty scope.account_id && not (is_empty scope.project_id))
        || (not (is_empty scope.account_id) && is_empty scope.project_id)
    then err (
        errorf err_invalid_plan_scope "command account_id and project_id must be provided together"
          [])
    else elim scope.statuses [
      | [] ↦ ok (PlanCommandStatus.pending ∷ PlanCommandStatus.failed ∷ [])
      | status ∷ rest ↦ recoverable_loop [] [] (status ∷ rest)
    ]

unfoldable pub normalize_new_plan_command_status : PlanCommandStatus → Result PlanCommandStatus
normalize_new_plan_command_status PlanCommandStatus.unset = ok PlanCommandStatus.pending
normalize_new_plan_command_status PlanCommandStatus.pending = ok PlanCommandStatus.pending
normalize_new_plan_command_status status = err (
    errorf err_invalid_run_plan "new command status must be %q, got %q"
      ("pending" ∷ status_text status ∷ []))

unfoldable pub validate_plan_command_status : PlanCommandStatus → Option Error
validate_plan_command_status PlanCommandStatus.pending = none
validate_plan_command_status PlanCommandStatus.delivered = none
validate_plan_command_status PlanCommandStatus.failed = none
validate_plan_command_status status =
    some (errorf err_invalid_run_plan "command status %q is invalid" (status_text status ∷ []))

unfoldable pub validate_plan_command_status_transition :
    PlanCommandStatus → PlanCommandStatus → Option Error
unfolding validate_plan_command_status
validate_plan_command_status_transition current next = elim (validate_plan_command_status current) [
  | some e ↦ some e
  | none ↦ elim (validate_plan_command_status next) [
    | some e ↦ some e
    | none ↦
        if same_status current next
        then none
        else if same_status current PlanCommandStatus.delivered
        then some (errorf err_invalid_run_plan "delivered command is terminal" [])
        else if same_status next PlanCommandStatus.pending
        then some
            (errorf err_invalid_run_plan "command status cannot move back to %q" ("pending" ∷ []))
        else none
  ]
]

pub record PlanRef : Type 0 where
  pub plan_id : String
  pub account_id : String
  pub project_id : String

unfoldable pub validate_plan_ref : PlanRef → Option Error
validate_plan_ref ref =
    if is_empty ref.plan_id
    then some (errorf err_invalid_plan_scope "plan id is required" [])
    else if is_empty ref.account_id
    then some (errorf err_invalid_plan_scope "account id is required" [])
    else if is_empty ref.project_id
    then some (errorf err_invalid_plan_scope "project id is required" [])
    else none

pub record PlanCommandRef : Type 0 where
  pub plan_id : String
  pub account_id : String
  pub project_id : String
  pub idempotency_key : String

unfoldable pub validate_plan_command_ref : PlanCommandRef → Option Error
unfolding validate_plan_ref
validate_plan_command_ref ref =
    elim (validate_plan_ref
      record { plan_id = ref.plan_id; account_id = ref.account_id; project_id = ref.project_id }) [
        | some e ↦ some e
        | none ↦
            if is_empty ref.idempotency_key
            then some (errorf err_invalid_run_plan "command idempotency key is required" [])
            else none
      ]
