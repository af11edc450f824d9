-- ===== src/Plan/Store/Run.antt =====
-- The calls that write, as one type, and what a sequence of them leaves behind.
use go_agent.Prelude.{String, List, [], ◌∷◌, Option}
use go_agent.Control.{Time, RunPlanSpec, RunPlanStatus}
use go_agent.Plan.Commands.Status.{PlanCommandStatus, PlanCommandRef}
use go_agent.Plan.Store.Records.{
  PlanEvent, PlanStateSnapshot, PlanCommandRecord, AuditRecord, PlanMetricCheckpoint,
}
use go_agent.Plan.Store.Codec.{Codec}
use go_agent.Plan.Store.Memory.{save_plan_state, create_plan}
use go_agent.Plan.Store.State.{MemoryPlanStore}
use go_agent.Plan.Store.Events.{append_plan_event, persist_plan_transition}
use go_agent.Plan.Store.Audits.{record_audit}
use go_agent.Plan.Store.Outbox.{
  record_plan_command, mark_plan_command_delivered, mark_plan_command_failed,
}
use go_agent.Plan.Store.Listings.{save_plan_metric_checkpoint}
use go_agent.Plan.Store.Writes.{Write}
use go_agent.Plan.Store.Calls.{append_plan_event-Write, save_plan_state-Write, create_plan-Write}
use go_agent.Plan.Store.Operations.{persist_plan_transition-Write, record_audit-Write}
use go_agent.Plan.Store.Outgoing.{
  record_plan_command-Write, update_plan_command_status-Write, save_plan_metric_checkpoint-Write,
}

-- A call that writes, with the reading of the clock.
pub data Op : Type 0 where
  create : Time → RunPlanSpec → Option RunPlanStatus → Op
  save : Time → PlanStateSnapshot → Op
  persist : Time → PlanStateSnapshot → PlanEvent → String → Op
  append : Time → PlanEvent → String → Op
  audit : Time → AuditRecord → Op
  enqueue : Time → PlanCommandRecord → Op
  deliver : Time → PlanCommandRef → Op
  mark_failed : Time → PlanCommandRef → String → Op
  checkpoint : Time → PlanMetricCheckpoint → Op

-- The store that a call leaves behind.
unfoldable pub step : Codec → Op → MemoryPlanStore → MemoryPlanStore
unfolding mark_plan_command_delivered mark_plan_command_failed
step codec (Op.create now spec status) s = (create_plan codec now spec status s).1
step codec (Op.save now snapshot) s = (save_plan_state codec now snapshot s).1
step codec (Op.persist now snapshot event key) s =
    (persist_plan_transition codec now snapshot event key s).1
step codec (Op.append now event key) s = (append_plan_event codec now event key s).1
step codec (Op.audit now entry) s = (record_audit codec now entry s).1
step codec (Op.enqueue now command) s = (record_plan_command codec now command s).1
step codec (Op.deliver now ref) s = (mark_plan_command_delivered codec now ref s).1
step codec (Op.mark_failed now ref reason) s = (mark_plan_command_failed codec now ref reason s).1
step codec (Op.checkpoint now c) s = (save_plan_metric_checkpoint now c s).1

-- Calls are serialised by the lock of the store.
unfoldable pub run : Codec → List Op → MemoryPlanStore → MemoryPlanStore
unfolding step
run codec [] s = s
run codec (op ∷ ops) s = run codec ops (step codec op s)

module _ (codec : Codec) where
  step-Write : (op : Op) (s : MemoryPlanStore) → Write codec s (step codec op s)
  unfolding step mark_plan_command_delivered mark_plan_command_failed
  step-Write (Op.create now spec status) s = create_plan-Write codec now spec status s
  step-Write (Op.save now snapshot) s = save_plan_state-Write codec now snapshot s
  step-Write (Op.persist now snapshot event key) s =
      persist_plan_transition-Write codec now snapshot event key s
  step-Write (Op.append now event key) s = append_plan_event-Write codec now event key s
  step-Write (Op.audit now entry) s = record_audit-Write codec now entry s
  step-Write (Op.enqueue now command) s = record_plan_command-Write codec now command s
  step-Write (Op.deliver now ref) s =
      update_plan_command_status-Write codec now ref PlanCommandStatus.delivered "" s
  step-Write (Op.mark_failed now ref reason) s =
      update_plan_command_status-Write codec now ref PlanCommandStatus.failed reason s
  step-Write (Op.checkpoint now c) s = save_plan_metric_checkpoint-Write codec now c s

  pub run-Write : (ops : List Op) (s : MemoryPlanStore) → Write codec s (run codec ops s)
  unfolding run
  run-Write [] s = Write.stay s
  run-Write (op ∷ ops) s =
      Write.chain s (step codec op s) (run codec ops (step codec op s)) (step-Write op s)
        (run-Write ops (step codec op s))
