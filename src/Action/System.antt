-- ===== src/Action/System.antt =====
-- Calls on governed actions at the same time: each of the two calls on the store that a use case
-- makes is one step, and other steps may come between.
use go_agent.Prelude.{
  String, string_key, List, [], ◌∷◌, ◌++◌, none, some, Option, Result, ok, check_ok, ◌≡◌, refl, sym,
  ap, ◌∙◌, subst, ◌⊎◌, inl, inr, Option-cases, Result-cases,
}
use go_agent.Prelude.Dict.{get, get_or}
use go_agent.Control.{Time}
use go_agent.Action.Records.{
  ActionRef, GovernedActionSpec, GovernedActionStatus, action_start_key, action_status_key,
}
use go_agent.Action.Validate.{validate_governed_action_spec}
use go_agent.Action.Memory.{
  normalize_action_status, write_action, write_status, status_key_of, update_action_status,
  update_action_status_locked, create_action, create_action_locked,
  lookup_existing_action_start_locked, lookup_existing_action_id_locked,
  validate_action_status_scope, validate_update_action_status_input,
}
use go_agent.Action.State.{MemoryStore, new_memory_store, zero_status, action_start_key_from_spec}
use go_agent.Action.Runtime.{draft_action, request_action}
use go_agent.Action.Lifecycle.{Call, Draft, initial_action_status}

some_ne_none : {A : Type 0} (a : A) → ◌≡◌ {A = Result (Option A)} (ok (some a)) (ok none) → ⊥
some_ne_none a h = cc

-- The store, and the statuses that calls have made and not written yet.
pub record System : Type 0 where
  pub store : MemoryStore
  pub drafts : List Draft

abbrev pub new_system : System
new_system = record { store = new_memory_store; drafts = [] }

pub data Step (marshal : GovernedActionSpec → Result String) : System → System → Type 0 where
  request :
      (now : Time) (spec : GovernedActionSpec) (sys : System)
      → Step marshal sys (record sys { store = (request_action marshal now spec sys.store).1 })
  read :
      (now : Time) (ref : ActionRef) (call : Call) (d : Draft) (sys : System)
      → draft_action now ref call sys.store ≡ ok d
      → Step marshal sys (record sys { drafts = d ∷ sys.drafts })
  write :
      (before after : List Draft) (d : Draft) (sys : System)
      → sys.drafts ≡ before ++ d ∷ after
      → Step marshal sys (record {
        store = (update_action_status d.status d.key sys.store).1;
        drafts = before ++ after;
      })

pub data Steps (marshal : GovernedActionSpec → Result String) (s : System) : System → Type 0 where
  here : Steps marshal s s
  next_step : {t u : System} → Steps marshal s t → Step marshal t u → Steps marshal s u

abbrev pub Reach : (GovernedActionSpec → Result String) → System → Type 0
Reach marshal = Steps marshal new_system

-- What a request does to the store.
abbrev pub first_status : Time → GovernedActionSpec → GovernedActionStatus
first_status now spec = normalize_action_status spec (initial_action_status now spec)

abbrev pub Creates : Time → GovernedActionSpec → MemoryStore → MemoryStore → Type 0
Creates now spec s t =
    (t ≡ s)
    ⊎ ((get spec.action_id s.specs ≡ none) × (t ≡ write_action spec (first_status now spec) s))

module _ (marshal : GovernedActionSpec → Result String) where
  lookup_free :
      (spec : GovernedActionSpec) (s : MemoryStore)
      → lookup_existing_action_id_locked marshal spec s ≡ ok none
      → get spec.action_id s.specs ≡ none
  unfolding lookup_existing_action_id_locked
  lookup_free spec s h = elim (Option-cases (get spec.action_id s.specs)) [
    | inl new ↦ new
    | inr (existing, found) ↦
        let found_some =
          check_ok _ (ok (some (get_or zero_status spec.action_id s.statuses)))
            (rw (found, lookup_existing_action_id_locked) at h) in
        absurd (some_ne_none _ (found_some.1))
  ]

  create_action_locked-Creates :
      (now : Time) (spec : GovernedActionSpec) (s : MemoryStore)
      → Creates now spec s (create_action_locked marshal spec (initial_action_status now spec) s).1
  unfolding create_action_locked
  create_action_locked-Creates now spec s =
      let key = action_start_key_from_spec spec in
      elim (Result-cases (lookup_existing_action_start_locked marshal key spec s)) [
        | inr (e, bad) ↦ rw (bad, create_action_locked) (inl refl)
        | inl (o, looked) ↦ elim (Option-cases o) [
          | inr (status, there) ↦ rw (looked ∙ ap ok there, create_action_locked) (inl refl)
          | inl free ↦ elim (Result-cases (lookup_existing_action_id_locked marshal spec s)) [
            | inr (e, bad) ↦ rw (looked ∙ ap ok free, bad, create_action_locked) (inl refl)
            | inl (p, again) ↦ elim (Option-cases p) [
              | inr (status, there) ↦
                  rw (looked ∙ ap ok free, again ∙ ap ok there, create_action_locked) (inl refl)
              | inl new ↦
                  rw (looked ∙ ap ok free, again ∙ ap ok new, create_action_locked)
                    (inr (lookup_free spec s (again ∙ ap ok new), refl))
            ]
          ]
        ]
      ]

  create_valid :
      (spec : GovernedActionSpec) (status : GovernedActionStatus) (s : MemoryStore)
      → validate_governed_action_spec spec ≡ none
      → create_action marshal spec status s ≡ create_action_locked marshal spec status s
  unfolding create_action
  create_valid spec status s valid = rw (valid, create_action) refl

  pub request_action-Creates :
      (now : Time) (spec : GovernedActionSpec) (s : MemoryStore)
      → Creates now spec s (request_action marshal now spec s).1
  unfolding request_action
  request_action-Creates now spec s = elim (Option-cases (validate_governed_action_spec spec)) [
    | inr (e, bad) ↦ rw (bad, request_action) (inl refl)
    | inl valid ↦
        rw (valid, request_action)
          (subst (λ r. Creates now spec s r.1)
            (sym (create_valid spec (initial_action_status now spec) s valid))
            (create_action_locked-Creates now spec s))
  ]

-- What a write of a status does to the store.
abbrev pub Overwrites : GovernedActionStatus → String → MemoryStore → MemoryStore → Type 0
Overwrites status key s t =
    (t ≡ s)
    ⊎ ((spec : GovernedActionSpec) × (get status.action_id s.specs ≡ some spec)
        × (get (status_key_of status key) s.status_keys ≡ none)
        × (t ≡ write_status (status_key_of status key) (normalize_action_status spec status) s))

update_action_status_locked-Overwrites :
    (status : GovernedActionStatus) (key : String) (s : MemoryStore)
    → Overwrites status key s (update_action_status_locked status key s).1
unfolding update_action_status_locked
update_action_status_locked-Overwrites status key s =
    elim (Option-cases (get (status_key_of status key) s.status_keys)) [
      | inr (existing, found) ↦ rw (found, update_action_status_locked) (inl refl)
      | inl free ↦ elim (Option-cases (get status.action_id s.specs)) [
        | inl missing ↦ rw (free, missing, update_action_status_locked) (inl refl)
        | inr (spec, found) ↦ elim (Option-cases (validate_action_status_scope status spec)) [
          | inr (e, bad) ↦ rw (free, found, bad, update_action_status_locked) (inl refl)
          | inl fits ↦
              rw (free, found, fits, update_action_status_locked) (inr (spec, refl, refl, refl))
        ]
      ]
    ]

pub update_action_status-Overwrites :
    (status : GovernedActionStatus) (key : String) (s : MemoryStore)
    → Overwrites status key s (update_action_status status key s).1
unfolding update_action_status
update_action_status-Overwrites status key s =
    elim (Option-cases (validate_update_action_status_input status key)) [
      | inr (e, bad) ↦ rw (bad, update_action_status) (inl refl)
      | inl valid ↦
          rw (valid, update_action_status) (update_action_status_locked-Overwrites status key s)
    ]
