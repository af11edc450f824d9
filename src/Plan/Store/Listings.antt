-- ===== src/Plan/Store/Listings.antt =====
-- The plans of a scope, and the checkpoints of metric exporters
-- (internal/usecase/agentosplan/plan_store_memory.go, `ListPlanRefs`, `GetPlanMetricCheckpoint`,
-- `SavePlanMetricCheckpoint`; metrics_exporter.go, `ValidatePlanMetricCheckpointRef`).
use go_agent.Prelude.{
  pos, ltb_ℤ, ◌==◌, ltb, String, is_empty, Bool, true, false, not, ◌&&◌, ◌||◌, key_eq, string_key,
  str_leb, List, [], ◌∷◌, Option, none, some, Error, Result, ok, err, errorf, err_invalid_run_plan,
  err_invalid_plan_scope, err_plan_route_not_found, first_error, check, ◌>>=◌, if◌then◌else◌,
}
use go_agent.Prelude.Dict.{Dict, get, get_or, put, has}
use go_agent.Prelude.Sort.{sort_by}
use go_agent.Control.{Time, RunPlanSpec, RunPlanStatus, PlanLifecycle}
use go_agent.Plan.Commands.Status.{PlanRef, validate_plan_ref}
use go_agent.Plan.Store.Records.{
  PlanRefScope, PlanMetricCheckpoint, PlanMetricCheckpointKey, checkpoint_key,
}
use go_agent.Plan.Store.Idempotency.{require, belongs}
use go_agent.Plan.Store.State.{MemoryPlanStore, Call, or_fail, zero_status}
use go_agent.Plan.Store.Audits.{at_most}

abbrev pub lifecycle_text : PlanLifecycle → String
lifecycle_text PlanLifecycle.pending = "pending"
lifecycle_text PlanLifecycle.running = "running"
lifecycle_text PlanLifecycle.blocked = "blocked"
lifecycle_text PlanLifecycle.succeeded = "succeeded"
lifecycle_text PlanLifecycle.failed = "failed"
lifecycle_text PlanLifecycle.canceled = "canceled"
lifecycle_text (PlanLifecycle.other name) = name

unfoldable pub plan_lifecycle_state_set :
    Dict {0, 0} String Unit → List String → Result (Dict {0, 0} String Unit)
unfolding put
plan_lifecycle_state_set states [] = ok states
plan_lifecycle_state_set states (state ∷ rest) =
    let further = plan_lifecycle_state_set (put state tt states) rest in
    if is_empty state
    then err (errorf err_invalid_plan_scope "lifecycle state is required" [])
    else further

abbrev pub in_states : Dict {0, 0} String Unit → RunPlanStatus → Bool
in_states [] status = true
in_states (entry ∷ states) status = has (lifecycle_text status.lifecycle_state) (entry ∷ states)

unfoldable pub memory_plan_ref_matches_scope :
    PlanRefScope → Dict {0, 0} String Unit → RunPlanSpec → RunPlanStatus → Bool
unfolding has
memory_plan_ref_matches_scope scope states spec status =
    if not (is_empty scope.account_id) && not (key_eq spec.account_id scope.account_id)
    then false
    else if not (is_empty scope.project_id) && not (key_eq spec.project_id scope.project_id)
    then false
    else if not (in_states states status)
    then false
    else scope.updated_after == 0 || ltb scope.updated_after status.updated_at

-- The references of the plans that match, in the order of the map.
unfoldable pub matching_refs :
    PlanRefScope
    → Dict {0, 0} String Unit
    → Dict String RunPlanStatus
    → Dict String RunPlanSpec
    → List PlanRef
unfolding get_or memory_plan_ref_matches_scope
matching_refs scope states statuses [] = []
matching_refs scope states statuses ((plan_id, spec) ∷ specs) =
    let rest = matching_refs scope states statuses specs in
    if memory_plan_ref_matches_scope scope states spec (get_or zero_status plan_id statuses)
    then record {
      plan_id = spec.plan_id;
      account_id = spec.account_id;
      project_id = spec.project_id;
    }
      ∷ rest
    else rest

unfoldable pub plan_ref_leb : Dict String RunPlanStatus → PlanRef → PlanRef → Bool
unfolding get_or
plan_ref_leb statuses a b =
    let left = (get_or zero_status a.plan_id statuses).updated_at in
    let right = (get_or zero_status b.plan_id statuses).updated_at in
    if not (left == right) then ltb left right else str_leb a.plan_id b.plan_id

unfoldable pub list_plan_refs : PlanRefScope → MemoryPlanStore → Result (List PlanRef)
unfolding plan_lifecycle_state_set matching_refs plan_ref_leb sort_by
list_plan_refs scope s =
    if ltb_ℤ scope.limit (pos 0)
    then err (errorf err_invalid_plan_scope "plan ref limit must be non-negative" [])
    else do
      states ← plan_lifecycle_state_set [] scope.lifecycle_states
      ok (
          at_most scope.limit
            (sort_by (plan_ref_leb s.statuses) (matching_refs scope states s.statuses s.specs)))

abbrev pub checkpoint_key_from_ref : String → PlanRef → PlanMetricCheckpointKey
checkpoint_key_from_ref exporter_id ref = record {
  exporter_id = exporter_id;
  plan_id = ref.plan_id;
  account_id = ref.account_id;
  project_id = ref.project_id;
}

abbrev pub checkpoint_ref : PlanMetricCheckpoint → PlanRef
checkpoint_ref c = record {
  plan_id = c.plan_id;
  account_id = c.account_id;
  project_id = c.project_id;
}

unfoldable pub validate_plan_metric_checkpoint_ref :
    PlanMetricCheckpoint → String → PlanRef → Option Error
unfolding validate_plan_ref
validate_plan_metric_checkpoint_ref c exporter_id ref =
    first_error
      (require (not (is_empty exporter_id))
        (errorf err_invalid_run_plan "metrics exporter id is required" []))
      (first_error (validate_plan_ref ref) (
        first_error (belongs "metrics checkpoint belongs to exporter %q" c.exporter_id exporter_id)
          (first_error (belongs "metrics checkpoint belongs to plan %q" c.plan_id ref.plan_id) (
            first_error
              (belongs "metrics checkpoint belongs to account %q" c.account_id ref.account_id)
              (first_error
                (belongs "metrics checkpoint belongs to project %q" c.project_id ref.project_id)
                (require (not (ltb_ℤ c.sequence (pos 0))) (
                  errorf err_invalid_run_plan "metrics checkpoint sequence must be non-negative"
                    [])))))))

unfoldable pub get_plan_metric_checkpoint :
    String → PlanRef → MemoryPlanStore → Result (Option PlanMetricCheckpoint)
unfolding validate_plan_ref get
get_plan_metric_checkpoint exporter_id ref s =
    check
      (require (not (is_empty exporter_id))
        (errorf err_invalid_run_plan "metrics exporter id is required" []))
      (check (validate_plan_ref ref) (ok (get (checkpoint_key_from_ref exporter_id ref) s.metrics)))

-- The sequence does not move below that of the checkpoint that is stored.
abbrev pub no_backward : Option PlanMetricCheckpoint → PlanMetricCheckpoint → Option Error
no_backward none c = none
no_backward (some existing) c =
    require (not (ltb_ℤ c.sequence existing.sequence))
      (errorf err_invalid_run_plan "metrics checkpoint sequence moved backward from %d to %d" [])

unfoldable pub owned_checkpoint : PlanMetricCheckpoint → MemoryPlanStore → Option Error
unfolding get
owned_checkpoint c s = elim (get c.plan_id s.specs) [
  | none ↦ some (errorf err_plan_route_not_found "%s" (c.plan_id ∷ []))
  | some spec ↦
      require (key_eq spec.account_id c.account_id && key_eq spec.project_id c.project_id)
        (errorf err_plan_route_not_found "%s" (c.plan_id ∷ []))
]

abbrev pub checkpoint_key_of : PlanMetricCheckpoint → PlanMetricCheckpointKey
checkpoint_key_of c = checkpoint_key_from_ref c.exporter_id (checkpoint_ref c)

abbrev pub stamped : Time → PlanMetricCheckpoint → PlanMetricCheckpoint
stamped now c = record c { updated_at = if c.updated_at == 0 then now else c.updated_at }

abbrev pub write_checkpoint_at : Time → PlanMetricCheckpoint → Call Unit
write_checkpoint_at now c s =
    (ok tt, record s { metrics = put (checkpoint_key_of c) (stamped now c) s.metrics })

abbrev pub advance_checkpoint : Time → PlanMetricCheckpoint → Call Unit
advance_checkpoint now c s =
    or_fail (no_backward (get (checkpoint_key_of c) s.metrics) c) (write_checkpoint_at now c) s

abbrev pub save_checkpoint_locked : Time → PlanMetricCheckpoint → Call Unit
save_checkpoint_locked now c s = or_fail (owned_checkpoint c s) (advance_checkpoint now c) s

unfoldable pub save_plan_metric_checkpoint : Time → PlanMetricCheckpoint → Call Unit
unfolding validate_plan_metric_checkpoint_ref get put owned_checkpoint
save_plan_metric_checkpoint now c =
    or_fail (validate_plan_metric_checkpoint_ref c c.exporter_id (checkpoint_ref c))
      (save_checkpoint_locked now c)
