-- ===== src/Action/Reading.antt =====
-- What the first half of a call on a governed action reads.
use go_agent.Prelude.{
  string_key, none, some, Option, ok, check_ok, bind_ok, ◌≡◌, ap, ◌∙◌, inl, inr, Option-cases,
  ok_injective, some_injective,
}
use go_agent.Prelude.Dict.{get, get_or}
use go_agent.Control.{Time}
use go_agent.Action.Records.{
  ActionRef, GovernedActionSpec, GovernedActionStatus, action_start_key, action_status_key,
}
use go_agent.Action.Validate.{validate_action_ref}
use go_agent.Action.Memory.{get_action, validate_action_tenant_access}
use go_agent.Action.State.{MemoryStore, zero_status}
use go_agent.Action.Runtime.{found_action, draft_action, require_action}
use go_agent.Action.Lifecycle.{Call, Draft, next}

-- A read finds a stored action, and makes its draft of what is stored.
get_found :
    (ref : ActionRef) (s : MemoryStore) {found : GovernedActionSpec × GovernedActionStatus}
    → get_action ref s ≡ ok (some found)
    → (get ref.action_id s.specs ≡ some found.0)
      × (get_or zero_status ref.action_id s.statuses ≡ found.1)
unfolding get_action
get_found ref s {found} h =
    let inner = check_ok (validate_action_ref ref) _ h in
    elim (Option-cases (get ref.action_id s.specs)) [
      | inl missing ↦ cc (rw missing at inner.1)
      | inr (spec, there) ↦
          let status = get_or zero_status ref.action_id s.statuses in
          let same =
            some_injective (spec, status) found
              (ok_injective (some (spec, status)) (some found)
                (check_ok (validate_action_tenant_access ref spec) (ok (some (spec, status)))
                  (rw there at inner.1)).1) in
          (there ∙ ap (λ p. some p.0) same, ap (λ p. p.1) same)
    ]

found_some :
    (ref : ActionRef) (o : Option (GovernedActionSpec × GovernedActionStatus))
    {found : GovernedActionSpec × GovernedActionStatus}
    → found_action ref o ≡ ok found
    → o ≡ some found
found_some ref none h = cc
found_some ref (some p) {found} h = ap some (ok_injective p found h)

pub draft_action-read :
    (now : Time) (ref : ActionRef) (call : Call) (s : MemoryStore) {d : Draft}
    → draft_action now ref call s ≡ ok d
    → (spec : GovernedActionSpec) × (get ref.action_id s.specs ≡ some spec)
      × (next now ref call spec (get_or zero_status ref.action_id s.statuses) ≡ ok d)
unfolding draft_action require_action
draft_action-read now ref call s {d} h =
    let (found, required, made) =
      bind_ok (require_action ref s) (λ found. next now ref call found.0 found.1) h in
    let (o, got, some_found) =
      bind_ok (get_action ref s) (λ found. found_action ref found)
        (check_ok (validate_action_ref ref) _ required).1 in
    let (there, status) = get_found ref s (got ∙ ap ok (found_some ref o some_found)) in
    (found.0, there, ap (λ x. next now ref call found.0 x) status ∙ made)
