-- ===== src/Plan/Scheduler/Trigger.antt =====
-- Edge triggers, terminal states and condition expressions
-- (internal/usecase/agentosplan/scheduler.go, `evaluate` to `nodeTerminal`; trace.go,
-- `ConditionEvaluationTrace`; the interfaces of contract.go).
use go_agent.Prelude.{
  String, is_empty, Bool, true, false, Option, none, some, Result, ok, err, errorf, ◌>>=◌,
  err_invalid_expression, if◌then◌else◌, [],
}
use go_agent.Prelude.Dict.{Dict}
use go_agent.Control.{Value, EdgeTrigger, PlanJoinStrategy, NodeLifecycle}

abbrev pub Vars : Type 0
Vars = Dict String Value

-- The interfaces `ExpressionCompiler` and `Expression`, whose implementation evaluates CEL: `none`
-- is a nil interface, and a compiled expression is its evaluation.
abbrev pub ExpressionCompiler : Type 0
ExpressionCompiler = Option (String → Result (Vars → Result Bool))

pub record ConditionEvaluationTrace : Type 0 where
  pub scope : String
  pub node_id : String
  pub edge_id : String
  pub from : String
  pub to : String
  pub expression : String
  pub result : Bool
  pub on : EdgeTrigger
  pub parent_state : NodeLifecycle

unfoldable pub evaluate : ExpressionCompiler → String → Vars → Result Bool
evaluate compiler expression vars = if is_empty expression then ok true else elim compiler [
  | none ↦ err (errorf err_invalid_expression "expression compiler is required" [])
  | some compile ↦ compile expression >>= λ run. run vars
]

unfoldable pub edge_trigger : EdgeTrigger → EdgeTrigger
edge_trigger EdgeTrigger.unset = EdgeTrigger.on_success
edge_trigger trigger = trigger

unfoldable pub edge_on_complete_satisfied : NodeLifecycle → Bool
edge_on_complete_satisfied NodeLifecycle.succeeded = true
edge_on_complete_satisfied NodeLifecycle.failed = true
edge_on_complete_satisfied NodeLifecycle.skipped = true
edge_on_complete_satisfied NodeLifecycle.canceled = true
edge_on_complete_satisfied _ = false

unfoldable pub edge_on_always_satisfied : NodeLifecycle → Bool
edge_on_always_satisfied NodeLifecycle.pending = false
edge_on_always_satisfied NodeLifecycle.ready = false
edge_on_always_satisfied NodeLifecycle.running = false
edge_on_always_satisfied _ = true

abbrev pub is_succeeded : NodeLifecycle → Bool
is_succeeded NodeLifecycle.succeeded = true
is_succeeded _ = false

abbrev pub is_failed : NodeLifecycle → Bool
is_failed NodeLifecycle.failed = true
is_failed _ = false

unfoldable pub edge_satisfied : EdgeTrigger → NodeLifecycle → Bool
unfolding edge_on_complete_satisfied edge_on_always_satisfied
edge_satisfied EdgeTrigger.on_success lifecycle = is_succeeded lifecycle
edge_satisfied EdgeTrigger.on_error lifecycle = is_failed lifecycle
edge_satisfied EdgeTrigger.on_complete lifecycle = edge_on_complete_satisfied lifecycle
edge_satisfied EdgeTrigger.on_always lifecycle = edge_on_always_satisfied lifecycle
edge_satisfied _ lifecycle = false

unfoldable pub normalize_join : PlanJoinStrategy → PlanJoinStrategy
normalize_join PlanJoinStrategy.unset = PlanJoinStrategy.join_all
normalize_join join = join

unfoldable pub node_terminal : NodeLifecycle → Bool
node_terminal NodeLifecycle.succeeded = true
node_terminal NodeLifecycle.failed = true
node_terminal NodeLifecycle.skipped = true
node_terminal NodeLifecycle.canceled = true
node_terminal _ = false
