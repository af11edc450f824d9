-- ===== src/Plan/Store/Transitions.antt =====
-- A transition is written as a whole, with its event and its digest, or not at all.
use go_agent.Prelude.{
  String, false, none, some, Error, Result, ok, err, first_error, check, Option, string_key, ◌≡◌,
}
use go_agent.Prelude.Dict.{get, get_or}
use go_agent.Control.{Time}
use go_agent.Plan.Store.Records.{PlanEvent, PlanStateSnapshot, event_key}
use go_agent.Plan.Store.Codec.{Codec}
use go_agent.Plan.Store.Memory.{may_save, may_claim, write_plan_state}
use go_agent.Plan.Store.State.{MemoryPlanStore}
use go_agent.Plan.Store.Events.{
  log_of, event_key_of, stored_event, write_plan_event, validate_memory_plan_transition_replay,
}
use go_agent.Plan.Store.Requests.{transition_request}
use go_agent.Plan.Store.Writes.{write_digest}

-- The state, the event and the digest.
abbrev pub persisted :
    Time → PlanStateSnapshot → PlanEvent → String → String → MemoryPlanStore → MemoryPlanStore
persisted now snapshot scoped key digest s =
    let k = event_key_of scoped.plan_id key in
    write_digest k digest (
      write_plan_event k (stored_event now scoped (log_of scoped.plan_id s))
        (write_plan_state snapshot s))

module _ (codec : Codec) where
  -- The first error of the checks that the plan's state may be written.
  abbrev pub may_write : PlanStateSnapshot → MemoryPlanStore → Option Error
  may_write snapshot s = first_error (may_save codec snapshot false s) (may_claim snapshot s)

  -- What a transition under a key gives on `s`, once its request is known.
  pub data IsSettled (now : Time) (snapshot : PlanStateSnapshot) (scoped : PlanEvent)
      (key digest : String) (s : MemoryPlanStore) (x : Result PlanEvent × MemoryPlanStore)
      : Type 0 where
    -- The key is claimed.
    answered :
        (existing : PlanEvent)
        → get (event_key_of scoped.plan_id key) s.event_keys ≡ some existing
        → x ≡ (
          check
              (validate_memory_plan_transition_replay codec existing scoped
                (get_or "" (event_key_of scoped.plan_id key) s.transition_snapshots)
                digest)
              (ok existing),
          s,
        )
        → IsSettled now snapshot scoped key digest s x
    -- The key is free, and the plan's state may not be written.
    unwritable :
        (e : Error)
        → get (event_key_of scoped.plan_id key) s.event_keys ≡ none
        → may_write snapshot s ≡ some e
        → x ≡ (err e, s)
        → IsSettled now snapshot scoped key digest s x
    written :
        get (event_key_of scoped.plan_id key) s.event_keys ≡ none
        → may_write snapshot s ≡ none
        → x ≡ (
          ok (stored_event now scoped (log_of scoped.plan_id s)),
          persisted now snapshot scoped key digest s,
        )
        → IsSettled now snapshot scoped key digest s x

  -- `x` is what a transition gives on `s`: its checks refuse it and nothing is written, or it is
  -- settled as it was requested.
  pub data IsAtomic (now : Time) (snapshot : PlanStateSnapshot) (event : PlanEvent) (key : String)
      (s : MemoryPlanStore) (x : Result PlanEvent × MemoryPlanStore) : Type 0 where
    refused :
        (e : Error)
        → transition_request codec now snapshot event key ≡ err e
        → x ≡ (err e, s)
        → IsAtomic now snapshot event key s x
    settled :
        (normalized : PlanStateSnapshot) (digest : String) (scoped : PlanEvent)
        → transition_request codec now snapshot event key ≡ ok (normalized, (digest, scoped))
        → IsSettled now normalized scoped key digest s x
        → IsAtomic now snapshot event key s x
