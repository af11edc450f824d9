-- ===== src/Action/Replay.antt =====
-- A status key keeps what was first written under it.
use go_agent.Prelude.{
  String, key_eq, key_iff, string_key, some, Error, Result, ok, err, check, ◌≡◌, refl, sym, ap, ◌∙◌,
  subst, inl, inr, Option-cases, Bool-cases, ok_injective,
}
use go_agent.Prelude.Dict.{get, get-put_self, get-put_other}
use go_agent.Control.{Time}
use go_agent.Action.Records.{
  GovernedActionSpec, GovernedActionStatus, ActionStatusKey, action_status_key,
}
use go_agent.Action.Memory.{
  normalize_action_status, status_key_of, update_action_status, update_action_status_locked,
  validate_action_status_scope, validate_update_action_status_input,
}
use go_agent.Action.State.{MemoryStore}
use go_agent.Action.Lifecycle.{Draft}
use go_agent.Action.System.{
  System, Step, Steps, Creates, request_action-Creates, Overwrites, update_action_status-Overwrites,
}

abbrev Kept : ActionStatusKey → GovernedActionStatus → MemoryStore → Type 0
Kept key p s = get key s.status_keys ≡ some p

failed_ok :
    (e : Error) (s t : MemoryStore) {p : GovernedActionStatus}
    → ◌≡◌ {A = Result GovernedActionStatus × MemoryStore} (err e, s) (ok p, t)
    → ⊥
failed_ok e s t h = cc (ap (λ r. r.0) h)

locked-Kept :
    (status : GovernedActionStatus) (key : String) (s t : MemoryStore) {p : GovernedActionStatus}
    → update_action_status_locked status key s ≡ (ok p, t)
    → Kept (status_key_of status key) p t
unfolding update_action_status_locked
locked-Kept status key s t {p} h =
    elim (Option-cases (get (status_key_of status key) s.status_keys)) [
      | inr (existing, found) ↦
          let done = rw (found, update_action_status_locked) at h in
          subst (Kept (status_key_of status key) p) (ap (λ r. r.1) done)
            (found ∙ ap some (ok_injective existing p (ap (λ r. r.0) done)))
      | inl free ↦ elim (Option-cases (get status.action_id s.specs)) [
        | inl missing ↦
            absurd (failed_ok _ _ t (rw (free, missing, update_action_status_locked) at h))
        | inr (spec, found) ↦ elim (Option-cases (validate_action_status_scope status spec)) [
          | inr (e, bad) ↦
              absurd (failed_ok _ _ t (rw (free, found, bad, update_action_status_locked) at h))
          | inl fits ↦
              let done = rw (free, found, fits, update_action_status_locked) at h in
              let prepared = normalize_action_status spec status in
              subst (Kept (status_key_of status key) p) (ap (λ r. r.1) done) (
                get-put_self (status_key_of status key) prepared s.status_keys
                ∙ ap some (ok_injective prepared p (ap (λ r. r.0) done)))
        ]
      ]
    ]

update-Kept :
    (status : GovernedActionStatus) (key : String) (s t : MemoryStore) {p : GovernedActionStatus}
    → update_action_status status key s ≡ (ok p, t)
    → Kept (status_key_of status key) p t
unfolding update_action_status
update-Kept status key s t h =
    elim (Option-cases (validate_update_action_status_input status key)) [
      | inr (e, bad) ↦ absurd (failed_ok _ _ t (rw (bad, update_action_status) at h))
      | inl valid ↦ locked-Kept status key s t (rw (valid, update_action_status) at h)
    ]

Creates-Kept :
    (now : Time) (spec : GovernedActionSpec) {s t : MemoryStore} (key : ActionStatusKey)
    (p : GovernedActionStatus)
    → Creates now spec s t
    → Kept key p s
    → Kept key p t
Creates-Kept now spec key p (inl same) h = subst (Kept key p) (sym same) h
Creates-Kept now spec key p (inr (new, written)) h = subst (Kept key p) (sym written) h

Overwrites-Kept :
    (d : Draft) {s t : MemoryStore} (key : ActionStatusKey) (p : GovernedActionStatus)
    → Overwrites d.status d.key s t
    → Kept key p s
    → Kept key p t
Overwrites-Kept d key p (inl same) h = subst (Kept key p) (sym same) h
Overwrites-Kept d {s} key p (inr (spec, found, free, written)) h =
    let own = status_key_of d.status d.key in
    subst (Kept key p) (sym written) (elim (Bool-cases (key_eq own key)) [
      | inl same ↦ cc (h, free, (key_iff own key).0 same)
      | inr other ↦
          get-put_other own key (normalize_action_status spec d.status) s.status_keys other ∙ h
    ])

Step-Kept :
    {marshal : GovernedActionSpec → Result String} {s t : System} (key : ActionStatusKey)
    (p : GovernedActionStatus)
    → Step marshal s t
    → Kept key p s.store
    → Kept key p t.store
Step-Kept {marshal} key p (Step.request now spec sys) h =
    Creates-Kept now spec key p (request_action-Creates marshal now spec sys.store) h
Step-Kept key p (Step.read now ref call d sys made) h = h
Step-Kept key p (Step.write before after d sys stands) h =
    Overwrites-Kept d key p (update_action_status-Overwrites d.status d.key sys.store) h

Steps-Kept :
    {marshal : GovernedActionSpec → Result String} {s t : System} (key : ActionStatusKey)
    (p : GovernedActionStatus)
    → Steps marshal s t
    → Kept key p s.store
    → Kept key p t.store
Steps-Kept key p Steps.here h = h
Steps-Kept key p (Steps.next_step r st) h = Step-Kept key p st (Steps-Kept key p r h)

-- Once a status was written under a key, a later write to the same action under that key changes
-- nothing, whatever status it brings and whatever calls came between: it returns the written status
-- where its input is valid, and the error of that check where it is not.
pub update-update :
    {marshal : GovernedActionSpec → Result String} {left later : System}
    (status again : GovernedActionStatus) (key : String) (s : MemoryStore)
    {written : GovernedActionStatus}
    → update_action_status status key s ≡ (ok written, left.store)
    → Steps marshal left later
    → again.action_id ≡ status.action_id
    → update_action_status again key later.store
      ≡ (check (validate_update_action_status_input again key) (ok written), later.store)
unfolding update_action_status update_action_status_locked
update-update {left} {later} status again key s {written} h steps same =
    let kept =
      Steps-Kept (status_key_of status key) written steps (update-Kept status key s left.store h) in
    let own : get (status_key_of again key) later.store.status_keys ≡ some written =
      ap (λ id. get (record { action_id = id; idempotency_key = key }) later.store.status_keys) same
      ∙ kept in
    elim (Option-cases (validate_update_action_status_input again key)) [
      | inr (e, bad) ↦ rw (bad, update_action_status) refl
      | inl valid ↦ rw (valid, own, update_action_status, update_action_status_locked) refl
    ]
