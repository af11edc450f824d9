-- ===== src/Plan/Reducer/Errors.antt =====
-- What a refused event leaves of the state.
use go_agent.Prelude.{pos, false, none, some, Error, ◌≡◌, arith, add_int}
use go_agent.Control.{Time}
use go_agent.Plan.Reducer.Events.{StateEvent}
use go_agent.Plan.Reducer.State.{State, half_int32}
use go_agent.Plan.Reducer.Apply.{apply, is_expansion}

-- An event other than an expansion that the reducer refuses leaves the state as it was.
pub apply-error_unchanged :
    (now : Time) (s : State) (event : StateEvent) {e : Error}
    → is_expansion event.kind ≡ false
    → (apply now s event).1 ≡ some e
    → (apply now s event).0 ≡ s
unfolding apply
apply-error_unchanged now s event k h = ground arith

-- Every event that the reducer accepts counts as one transition of the int32 counter, and an event
-- that it refuses counts as none.
pub apply-transitions :
    (now : Time) (s : State) (event : StateEvent)
    → (apply now s event).0.transitions ≡ (elim (apply now s event).1 [
      | none ↦ add_int half_int32 s.transitions (pos 1)
      | some e ↦ s.transitions
    ])
unfolding apply
apply-transitions now s event = ground arith
