-- ===== src/Plan/Store/Requests.antt =====
-- What a transition asks for, apart from what is stored
-- (internal/usecase/agentosplan/plan_store_memory.go, `PersistPlanTransition`).
use go_agent.Prelude.{String, Result, ok, check, ◌>>=◌}
use go_agent.Control.{Time}
use go_agent.Plan.Store.Records.{PlanEvent, PlanStateSnapshot}
use go_agent.Plan.Store.Codec.{Codec, new_plan_transition_snapshot_identity}
use go_agent.Plan.Store.Scope.{scope_plan_event_to_spec}
use go_agent.Plan.Store.Idempotency.{normalize_plan_event_append_request}
use go_agent.Plan.Store.Memory.{normalize_memory_plan_state_snapshot}
use go_agent.Plan.Store.Events.{validate_memory_plan_transition_input}

-- The normalized snapshot, the digest, and the event with the scope of the plan, or the first error
-- of the checks.
unfoldable pub transition_request :
    Codec
    → Time
    → PlanStateSnapshot
    → PlanEvent
    → String
    → Result (PlanStateSnapshot × (String × PlanEvent))
transition_request codec now snapshot event key =
    normalize_memory_plan_state_snapshot now snapshot >>= λ normalized.
    check (validate_memory_plan_transition_input normalized event key) (
      new_plan_transition_snapshot_identity codec normalized key >>= λ digest.
      scope_plan_event_to_spec (normalize_plan_event_append_request event) normalized.spec
      >>= λ scoped. ok (normalized, (digest, scoped)))
