-- ===== src/Plan/Recovery.antt =====
-- A workflow that loads the snapshot it saved goes on where it stood
-- (internal/usecase/agentosplan/plan_store_memory.go and agentos/plan/state.go).
use go_agent.Prelude.{
  ◌==◌, String, false, some, ok, is_empty, key_refl, string_key, ◌≡◌, ◌∙◌, ap, arith,
}
use go_agent.Prelude.Dict.{get}
use go_agent.Control.{Time, RunPlanSpec}
use go_agent.Plan.Reducer.State.{State}
use go_agent.Plan.Reducer.Restore.{new_state_from_status}
use go_agent.Plan.Reducer.Reach.{Reach, Reach-restored, Reach-IsSound}
use go_agent.Plan.Reducer.RoundTrip.{Lists}
use go_agent.Plan.Store.Records.{PlanStateSnapshot}
use go_agent.Plan.Store.Idempotency.{normalize_durable_timestamp}
use go_agent.Plan.Store.Codec.{Codec}
use go_agent.Plan.Store.State.{MemoryPlanStore}
use go_agent.Plan.Store.Memory.{
  normalize_memory_plan_state_snapshot, save_plan_state, load_plan_state,
}
use go_agent.Plan.Store.RoundTrip.{load-save}

-- A snapshot with a plan id and a time in its status is stored with the status as it is.
rounded : PlanStateSnapshot → PlanStateSnapshot
rounded snapshot = record snapshot {
  spec = record snapshot.spec {
    requested_at = normalize_durable_timestamp snapshot.spec.requested_at;
  };
}

normalize_lem :
    (now : Time) (snapshot : PlanStateSnapshot) {normalized : PlanStateSnapshot}
    → is_empty snapshot.status.plan_id ≡ false
    → (snapshot.status.updated_at == 0) ≡ false
    → normalize_memory_plan_state_snapshot now snapshot ≡ ok normalized
    → normalized ≡ rounded snapshot
unfolding normalize_memory_plan_state_snapshot rounded
normalize_lem now snapshot named stamped h = ground arith

module _ (codec : Codec) where
  -- When the snapshot of a state that the plan reached is saved without an error, loading the plan
  -- returns a snapshot from which a state with the same status and the same nodes is restored,
  -- where the snapshot lists the nodes, its plan id is that of the plan and is set, and the status
  -- has a time.
  pub save-restored :
      {spec : RunPlanSpec} {s : State} (now : Time) (listed : RunPlanSpec) (store : MemoryPlanStore)
      {left : MemoryPlanStore}
      → Reach spec s
      → is_empty spec.plan_id ≡ false
      → listed.plan_id ≡ spec.plan_id
      → Lists listed s.nodes
      → (s.status.updated_at == 0) ≡ false
      → save_plan_state codec now (record { spec = listed; status = s.status }) store
        ≡ (ok tt, left)
      → (loaded : PlanStateSnapshot) × (load_plan_state spec.plan_id left ≡ some loaded)
        × (t : State) × (new_state_from_status loaded.spec loaded.status ≡ ok t)
        × (t.status ≡ s.status)
        × ((k : String) → get k t.nodes ≡ get k s.nodes)
  unfolding rounded
  save-restored {spec} {s} now listed store {left} r named same lists stamped saved =
      let snapshot : PlanStateSnapshot = record { spec = listed; status = s.status } in
      let (normalized, valid, loads) = load-save codec now snapshot store saved in
      let stored =
        normalize_lem now snapshot (ap is_empty (Reach-IsSound r).named ∙ named) stamped valid in
      let own = ap (λ (p : PlanStateSnapshot). p.spec.plan_id) stored ∙ same in
      let (t, restored, status, nodes) =
        Reach-restored (rounded snapshot).spec r named same
          (record { named = lists.named; distinct = lists.distinct; same = lists.same }) in
      let loaded = loads spec.plan_id ∙ rw own (rw (key_refl spec.plan_id) (ap some stored)) in
      (rounded snapshot, loaded, t, restored, status, nodes)
