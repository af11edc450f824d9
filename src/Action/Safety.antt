-- ===== src/Action/Safety.antt =====
-- Whatever calls run at the same time, no action is cleared before its gates are passed.
use go_agent.Prelude.{
  String, key_eq, key_iff, string_key, List, [], ◌∷◌, ◌++◌, All, All-map, none, some, Result, ok,
  ◌≡◌, refl, sym, ap, ◌∙◌, subst, inl, inr, Bool-cases, some_injective,
}
use go_agent.Prelude.Dict.{get, get_or, get_or-put, get-put_other, get-put_same}
use go_agent.Control.{Time}
use go_agent.Action.Records.{
  ActionRef, GovernedActionSpec, GovernedActionStatus, action_start_key, action_status_key,
}
use go_agent.Action.Memory.{
  normalize_action_status, write_action, write_status, status_key_of, update_action_status,
}
use go_agent.Action.State.{MemoryStore, zero_status}
use go_agent.Action.Runtime.{draft_action, request_action}
use go_agent.Action.Lifecycle.{Call, Draft}
use go_agent.Action.Reading.{draft_action-read}
use go_agent.Action.Gates.{IsGated, initial-IsGated, next-IsGated}
use go_agent.Action.System.{
  System, Step, Steps, Reach, new_system, first_status, Creates, request_action-Creates, Overwrites,
  update_action_status-Overwrites,
}

-- The status is one of the stored action that it names.
abbrev IsDrafted : MemoryStore → Draft → Type 0
IsDrafted s d =
    (spec : GovernedActionSpec) × (get d.status.action_id s.specs ≡ some spec)
    × IsGated spec d.status

abbrev IsStored : MemoryStore → Type 0
IsStored s =
    (id : String) (spec : GovernedActionSpec)
    → get id s.specs ≡ some spec
    → (spec.action_id ≡ id) × IsGated spec (get_or zero_status id s.statuses)

record IsSafe (sys : System) : Type 0 where
  stored : IsStored sys.store
  drafted : All (IsDrafted sys.store) sys.drafts

draft_action-IsDrafted :
    (now : Time) (ref : ActionRef) (call : Call) (s : MemoryStore) {d : Draft}
    → IsStored s
    → draft_action now ref call s ≡ ok d
    → IsDrafted s d
draft_action-IsDrafted now ref call s {d} stored h =
    let (spec, there, made) = draft_action-read now ref call s h in
    let (named, gated) = stored ref.action_id spec there in
    let status = get_or zero_status ref.action_id s.statuses in
    let after = next-IsGated now spec status gated ref call made in
    (spec, ap (λ id. get id s.specs) (after.own ∙ named) ∙ there, after)

-- A draft among drafts.
middle :
    (P : Draft → Type 0) (before after : List Draft) (d : Draft)
    → All P (before ++ d ∷ after)
    → P d × All P (before ++ after)
middle P [] after d h = (h.0, h.1)
middle P (x ∷ before) after d h = let rest = middle P before after d h.1 in (rest.0, (h.0, rest.1))

-- A new action.
module _ (spec : GovernedActionSpec) (status : GovernedActionStatus) (s : MemoryStore)
    (new : get spec.action_id s.specs ≡ none) where
  write_action-IsStored : IsGated spec status → IsStored s → IsStored (write_action spec status s)
  write_action-IsStored gated stored id found there = elim (Bool-cases (key_eq spec.action_id id)) [
    | inl same ↦
        let named = (key_iff spec.action_id id).0 same in
        let it =
          some_injective spec found
            (sym (get-put_same spec.action_id id spec s.specs same) ∙ there) in
        let shown = get_or-put zero_status spec.action_id id status s.statuses ∙ rw same refl in
        (
          sym (ap (λ x. x.action_id) it) ∙ named,
          subst (λ x. IsGated x (get_or zero_status id (write_action spec status s).statuses)) it
              (subst (IsGated spec) (sym shown) gated),
        )
    | inr other ↦
        let old =
          stored id found (sym (get-put_other spec.action_id id spec s.specs other) ∙ there) in
        let shown = get_or-put zero_status spec.action_id id status s.statuses ∙ rw other refl in
        (old.0, subst (IsGated found) (sym shown) old.1)
  ]

  write_action-IsDrafted : (d : Draft) → IsDrafted s d → IsDrafted (write_action spec status s) d
  write_action-IsDrafted d (own, there, gated) =
      elim (Bool-cases (key_eq spec.action_id d.status.action_id)) [
        | inl same ↦ cc (new, there, (key_iff spec.action_id d.status.action_id).0 same)
        | inr other ↦
            (own, get-put_other spec.action_id d.status.action_id spec s.specs other ∙ there, gated)
      ]

-- A status that is written for its action.
write_status-IsStored :
    (status : GovernedActionStatus) (key : String) (spec : GovernedActionSpec) (s : MemoryStore)
    → get status.action_id s.specs ≡ some spec
    → IsGated spec (normalize_action_status spec status)
    → IsStored s
    → IsStored (write_status (status_key_of status key) (normalize_action_status spec status) s)
write_status-IsStored status key spec s there gated stored id found here =
    let old = stored id found here in
    let prepared = normalize_action_status spec status in
    let shown = get_or-put zero_status status.action_id id prepared s.statuses in
    elim (Bool-cases (key_eq status.action_id id)) [
      | inl same ↦
          let it =
            some_injective spec found
              (sym there ∙ ap (λ x. get x s.specs) ((key_iff status.action_id id).0 same) ∙ here) in
          (
            old.0,
            subst
                (λ x. IsGated x (
                  get_or zero_status id
                    (write_status (status_key_of status key) prepared s).statuses))
                it (subst (IsGated spec) (sym (shown ∙ rw same refl)) gated),
          )
      | inr other ↦ (old.0, subst (IsGated found) (sym (shown ∙ rw other refl)) old.1)
    ]

normalize-IsGated :
    (spec : GovernedActionSpec) (status : GovernedActionStatus)
    → IsGated spec status
    → IsGated spec (normalize_action_status spec status)
unfolding normalize_action_status
normalize-IsGated spec status g = record {
  own = refl;
  dry_run = g.dry_run;
  approval = g.approval;
  rehearsed = g.rehearsed;
  approved = g.approved;
}

update-IsSafe :
    (d : Draft) (rest : List Draft) (s t : MemoryStore)
    → IsDrafted s d
    → All (IsDrafted s) rest
    → IsStored s
    → Overwrites d.status d.key s t
    → IsSafe (record { store = t; drafts = rest })
update-IsSafe d rest s t own others stored (inl same) =
    subst (λ x. IsSafe (record { store = x; drafts = rest })) (sym same)
      (record { stored = stored; drafted = others })
update-IsSafe d rest s t (spec, there, gated) others stored (inr (found, here, free, written)) =
    let it = some_injective spec found (sym there ∙ here) in
    let mine = normalize-IsGated found d.status (subst (λ x. IsGated x d.status) it gated) in
    subst (λ x. IsSafe (record { store = x; drafts = rest })) (sym written)
      (record {
        stored = write_status-IsStored d.status d.key found s here mine stored;
        drafted = others;
      })

request-IsSafe :
    (now : Time) (spec : GovernedActionSpec) (drafts : List Draft) (s t : MemoryStore)
    → All (IsDrafted s) drafts
    → IsStored s
    → Creates now spec s t
    → IsSafe (record { store = t; drafts = drafts })
request-IsSafe now spec drafts s t drafted stored (inl same) =
    subst (λ x. IsSafe (record { store = x; drafts = drafts })) (sym same)
      (record { stored = stored; drafted = drafted })
request-IsSafe now spec drafts s t drafted stored (inr (new, written)) =
    let status = first_status now spec in
    subst (λ x. IsSafe (record { store = x; drafts = drafts })) (sym written)
      (record {
        stored = write_action-IsStored spec status s new (initial-IsGated now spec) stored;
        drafted = All-map _ _ drafts (write_action-IsDrafted spec status s new) drafted;
      })

new_system-IsSafe : IsSafe new_system
unfolding get
new_system-IsSafe = record { stored = λ id spec h. cc; drafted = tt }

module _ {marshal : GovernedActionSpec → Result String} where
  Step-IsSafe : {s t : System} → Step marshal s t → IsSafe s → IsSafe t
  Step-IsSafe (Step.request now spec sys) h =
      request-IsSafe now spec sys.drafts sys.store (request_action marshal now spec sys.store).1
        h.drafted h.stored (request_action-Creates marshal now spec sys.store)
  Step-IsSafe (Step.read now ref call d sys made) h = record {
    stored = h.stored;
    drafted = (draft_action-IsDrafted now ref call sys.store h.stored made, h.drafted);
  }
  Step-IsSafe (Step.write before after d sys here) h =
      let (own, others) =
        middle (IsDrafted sys.store) before after d
          (subst (All (IsDrafted sys.store)) here h.drafted) in
      update-IsSafe d (before ++ after) sys.store (update_action_status d.status d.key sys.store).1
        own others h.stored (update_action_status-Overwrites d.status d.key sys.store)

  Steps-IsSafe : {s t : System} → Steps marshal s t → IsSafe s → IsSafe t
  Steps-IsSafe Steps.here h = h
  Steps-IsSafe (Steps.next_step r st) h = Step-IsSafe st (Steps-IsSafe r h)

  -- Whatever requests, dry runs, approvals, completions and cancellations run at the same time, each
  -- stored action stands under its id and its status is its own and has a gate exactly where the
  -- request asks for one; and where the action is ready or executed, the dry run that the request
  -- asks for has succeeded and the approval that it asks for was given.
  pub Reach-IsGated :
      {s : System} (id : String) (spec : GovernedActionSpec)
      → Reach marshal s
      → get id s.store.specs ≡ some spec
      → (spec.action_id ≡ id) × IsGated spec (get_or zero_status id s.store.statuses)
  Reach-IsGated id spec r h = (Steps-IsSafe r new_system-IsSafe).stored id spec h
