-- ===== src/Plan/Store/Ownership.antt =====
-- The start keys of the tenants, against the plans that are stored.
use go_agent.Prelude.{
  String, Bool, List, none, some, key_eq, key_iff, key_refl, string_key, some_injective, subst, ◌≡◌,
  sym, ◌∙◌, ap, inl, inr, arith, Bool-cases,
}
use go_agent.Prelude.Dict.{get, put, get-put_same, get-put_other}
use go_agent.Control.{RunPlanSpec}
use go_agent.Plan.Validator.Validate.{validate_run_plan_scope}
use go_agent.Plan.Store.Records.{PlanStateSnapshot, PlanStartKey, start_key}
use go_agent.Plan.Store.Codec.{Codec}
use go_agent.Plan.Store.Memory.{may_save, may_claim, write_plan_state}
use go_agent.Plan.Store.State.{MemoryPlanStore, new_memory_plan_store, start_key_of}
use go_agent.Plan.Store.Events.{write_plan_event}
use go_agent.Plan.Store.Writes.{Write}
use go_agent.Plan.Store.Run.{Op, run, run-Write}
use go_agent.Plan.Store.Identity.{TellsTenants, SameIdentity, Remains-some, save-Remains}

-- The plan that holds a key.
abbrev pub Holds : MemoryPlanStore → PlanStartKey → String → Type 0
Holds s key id = (spec : RunPlanSpec) × (get id s.specs ≡ some spec) × (start_key_of spec ≡ key)

-- Each plan stands under its own identifier and within a tenant, and the start keys are those of
-- the stored plans.
pub record IsSound (s : MemoryPlanStore) : Type 0 where
  pub named :
      (id : String) (spec : RunPlanSpec)
      → get id s.specs ≡ some spec
      → (spec.plan_id ≡ id) × (validate_run_plan_scope spec ≡ none)
  pub held : (key : PlanStartKey) (id : String) → get key s.plan_keys ≡ some id → Holds s key id
  pub keyed :
      (id : String) (spec : RunPlanSpec)
      → get id s.specs ≡ some spec
      → get (start_key_of spec) s.plan_keys ≡ some id

same_start : (a b : RunPlanSpec) → SameIdentity a b → start_key_of b ≡ start_key_of a
same_start a b h = ground (arith, h)

module _ (codec : Codec) (tells : TellsTenants codec) where
  save-named :
      (snapshot : PlanStateSnapshot) (s : MemoryPlanStore)
      → validate_run_plan_scope snapshot.spec ≡ none
      → IsSound s
      → (id : String) (spec : RunPlanSpec) → get id (write_plan_state snapshot s).specs ≡ some spec
      → (spec.plan_id ≡ id) × (validate_run_plan_scope spec ≡ none)
  unfolding write_plan_state
  save-named snapshot s valid sound id spec h =
      let own = snapshot.spec.plan_id in
      elim (Bool-cases (key_eq own id)) [
        | inl same ↦
            let written : snapshot.spec ≡ spec =
              some_injective snapshot.spec spec
                (sym (get-put_same own id snapshot.spec s.specs same) ∙ h) in
            (
              ap (λ (x : RunPlanSpec). x.plan_id) (sym written) ∙ (key_iff own id).0 same,
              subst (λ x. validate_run_plan_scope x ≡ none) written valid,
            )
        | inr other ↦
            sound.named id spec (sym (get-put_other own id snapshot.spec s.specs other) ∙ h)
      ]

  save-held :
      (snapshot : PlanStateSnapshot) (allow_create : Bool) (s : MemoryPlanStore)
      → may_save codec snapshot allow_create s ≡ none
      → IsSound s
      → (key : PlanStartKey) (id : String)
      → get key (write_plan_state snapshot s).plan_keys ≡ some id
      → Holds (write_plan_state snapshot s) key id
  unfolding write_plan_state
  save-held snapshot allow_create s may sound key id h =
      let own = start_key_of snapshot.spec in
      let plan = snapshot.spec.plan_id in
      elim (Bool-cases (key_eq own key)) [
        | inl same ↦
            let written : plan ≡ id =
              some_injective plan id (sym (get-put_same own key plan s.plan_keys same) ∙ h) in
            (
              snapshot.spec,
              get-put_same plan id snapshot.spec s.specs ((key_iff plan id).1 written),
              (key_iff own key).0 same,
            )
        | inr other ↦
            let (a, found, at) =
              sound.held key id (sym (get-put_other own key plan s.plan_keys other) ∙ h) in
            let (b, later, kept) =
              Remains-some codec tells a (get id (put plan snapshot.spec s.specs))
                (save-Remains codec tells id a snapshot allow_create s may found) in
            (b, later, same_start a b kept ∙ at)
      ]

  save-keyed :
      (snapshot : PlanStateSnapshot) (s : MemoryPlanStore)
      → may_claim snapshot s ≡ none
      → IsSound s
      → (id : String) (spec : RunPlanSpec) → get id (write_plan_state snapshot s).specs ≡ some spec
      → get (start_key_of spec) (write_plan_state snapshot s).plan_keys ≡ some id
  unfolding write_plan_state may_claim
  save-keyed snapshot s free sound id spec h =
      let own = start_key_of snapshot.spec in
      let plan = snapshot.spec.plan_id in
      elim (Bool-cases (key_eq plan id)) [
        | inl same ↦
            let written : snapshot.spec ≡ spec =
              some_injective snapshot.spec spec
                (sym (get-put_same plan id snapshot.spec s.specs same) ∙ h) in
            ap (λ x. get (start_key_of x) (put own plan s.plan_keys)) (sym written)
            ∙ get-put_same own own plan s.plan_keys (key_refl own)
            ∙ ap some ((key_iff plan id).0 same)
        | inr other ↦
            let before : get (start_key_of spec) s.plan_keys ≡ some id =
              sound.keyed id spec (sym (get-put_other plan id snapshot.spec s.specs other) ∙ h) in
            elim (Bool-cases (key_eq own (start_key_of spec))) [
              | inl clash ↦
                  let claimed : get own s.plan_keys ≡ some id =
                    ap (λ k. get k s.plan_keys) ((key_iff own (start_key_of spec)).0 clash)
                    ∙ before in
                  ground (arith, rw (claimed, may_claim) at free, key_iff id plan, key_iff plan id)
              | inr apart ↦ get-put_other own (start_key_of spec) plan s.plan_keys apart ∙ before
            ]
      ]

  pub Write-IsSound : {s t : MemoryPlanStore} → Write codec s t → IsSound s → IsSound t
  unfolding write_plan_event
  Write-IsSound (Write.stay s) h = h
  Write-IsSound (Write.save snapshot allow_create s valid may free) h = record {
    named = save-named snapshot s valid h;
    held = save-held snapshot allow_create s may h;
    keyed = save-keyed snapshot s free h;
  }
  Write-IsSound (Write.append now scoped key spec s found account project free) h = record {
    named = h.named;
    held = h.held;
    keyed = h.keyed;
  }
  Write-IsSound (Write.claim key digest s) h = record {
    named = h.named;
    held = h.held;
    keyed = h.keyed;
  }
  Write-IsSound (Write.audit entry spec s found account project free) h = record {
    named = h.named;
    held = h.held;
    keyed = h.keyed;
  }
  Write-IsSound (Write.command new s pending free) h = record {
    named = h.named;
    held = h.held;
    keyed = h.keyed;
  }
  Write-IsSound (Write.move now ref status reason current s found moves passed) h = record {
    named = h.named;
    held = h.held;
    keyed = h.keyed;
  }
  Write-IsSound (Write.checkpoint c s forward) h = record {
    named = h.named;
    held = h.held;
    keyed = h.keyed;
  }
  Write-IsSound (Write.chain s t u first second) h = Write-IsSound second (Write-IsSound first h)

  -- Whatever calls are made on a new store: each plan stands under its own identifier and within a
  -- tenant, and a start key of a tenant belongs to one plan at most, the plan that carries it.
  pub run-IsSound : (ops : List Op) → IsSound (run codec ops new_memory_plan_store)
  unfolding get
  run-IsSound ops =
      Write-IsSound (run-Write codec ops new_memory_plan_store)
        (record { named = λ id spec h. cc; held = λ key id h. cc; keyed = λ id spec h. cc })
