-- ===== src/Plan/Store/Identity.antt =====
-- The identity of a stored plan: what saves and transitions cannot change of it.
use go_agent.Prelude.{
  String, Bool, List, Option, none, some, ok, first_error, first_error-none, key_eq, key_iff,
  string_key, subst, ◌≡◌, refl, sym, ◌∙◌, ap, inl, inr, arith, Bool-cases,
}
use go_agent.Prelude.Dict.{get, get-put_same, get-put_other}
use go_agent.Control.{RunPlanSpec}
use go_agent.Plan.Store.Records.{PlanStateSnapshot, start_key}
use go_agent.Plan.Store.Codec.{Codec, PlanStateIdentityFields, plan_state_identity}
use go_agent.Plan.Store.Idempotency.{
  same_immutable, same_json_ok, validate_plan_state_identity, validate_topology_expansion,
}
use go_agent.Plan.Store.Memory.{may_save, write_plan_state}
use go_agent.Plan.Store.State.{MemoryPlanStore}
use go_agent.Plan.Store.Events.{write_plan_event}
use go_agent.Plan.Store.Writes.{Write}
use go_agent.Plan.Store.Run.{Op, run, run-Write}

-- `json.Marshal` writes the account and the project of a plan as members of an object, so that
-- equal documents have equal ones.
abbrev pub TellsTenants : Codec → Type 0
TellsTenants codec =
    (a b : PlanStateIdentityFields) (json : String)
    → codec.marshal_state_identity a ≡ ok json
    → codec.marshal_state_identity b ≡ ok json
    → (a.account_id ≡ b.account_id) × (a.project_id ≡ b.project_id)

abbrev pub SameIdentity : RunPlanSpec → RunPlanSpec → Type 0
SameIdentity a b =
    (a.plan_id ≡ b.plan_id)
    × (a.idempotency_key ≡ b.idempotency_key)
    × (a.account_id ≡ b.account_id)
    × (a.project_id ≡ b.project_id)

-- The plan that is stored later.
abbrev pub Remains : RunPlanSpec → Option RunPlanSpec → Type 0
Remains a none = ⊥
Remains a (some b) = SameIdentity a b

module _ (codec : Codec) (tells : TellsTenants codec) where
  pub state_identity_ok :
      (a b : RunPlanSpec) → validate_plan_state_identity codec a b ≡ none → SameIdentity a b
  unfolding validate_plan_state_identity same_immutable
  state_identity_ok a b h =
      let rest : first_error (same_immutable codec a b) (validate_topology_expansion codec a b)
          ≡ none =
        ground (arith, h) in
      let immutable =
        (first_error-none (same_immutable codec a b) (validate_topology_expansion codec a b)
          rest).0 in
      let document =
        same_json_ok _ _ _ (codec.marshal_state_identity (plan_state_identity a))
          (codec.marshal_state_identity (plan_state_identity b)) immutable in
      let tenant =
        tells (plan_state_identity a) (plan_state_identity b) document.0 document.1 document.2 in
      (
        ground (arith, h, key_iff a.plan_id b.plan_id),
        ground (arith, h, key_iff a.idempotency_key b.idempotency_key),
        tenant.0,
        tenant.1,
      )

  pub save-Remains :
      (id : String) (a : RunPlanSpec) (snapshot : PlanStateSnapshot) (allow_create : Bool)
      (s : MemoryPlanStore)
      → may_save codec snapshot allow_create s ≡ none
      → get id s.specs ≡ some a
      → Remains a (get id (write_plan_state snapshot s).specs)
  unfolding write_plan_state may_save
  save-Remains id a snapshot allow_create s may stored =
      let own = snapshot.spec.plan_id in
      elim (Bool-cases (key_eq own id)) [
        | inl same ↦
            let here : get own s.specs ≡ some a =
              ap (λ i. get i s.specs) ((key_iff own id).0 same) ∙ stored in
            subst (Remains a) (sym (get-put_same own id snapshot.spec s.specs same))
              (state_identity_ok a snapshot.spec (rw (here, may_save) at may))
        | inr other ↦
            subst (Remains a) (sym (get-put_other own id snapshot.spec s.specs other ∙ stored))
              (refl, refl, refl, refl)
      ]

  Remains-trans :
      (a b : RunPlanSpec) (c : Option RunPlanSpec) → SameIdentity a b → Remains b c → Remains a c
  Remains-trans a b none p q = absurd q
  Remains-trans a b (some c) p q = (p.0 ∙ q.0, p.1 ∙ q.1, p.2 ∙ q.2, p.3 ∙ q.3)

  pub Remains-some :
      (a : RunPlanSpec) (o : Option RunPlanSpec)
      → Remains a o
      → (b : RunPlanSpec) × (o ≡ some b) × SameIdentity a b
  Remains-some a none h = absurd h
  Remains-some a (some b) h = (b, refl, h)

  same-Remains : (a : RunPlanSpec) (o : Option RunPlanSpec) → o ≡ some a → Remains a o
  same-Remains a o h = subst (Remains a) (sym h) (refl, refl, refl, refl)

  pub Write-Remains :
      (id : String) (a : RunPlanSpec) {s t : MemoryPlanStore}
      → Write codec s t
      → get id s.specs ≡ some a
      → Remains a (get id t.specs)
  unfolding write_plan_event
  Write-Remains id a (Write.stay s) h = same-Remains a (get id s.specs) h
  Write-Remains id a (Write.save snapshot allow_create s valid may free) h =
      save-Remains id a snapshot allow_create s may h
  Write-Remains id a (Write.append now scoped key spec s found account project free) h =
      same-Remains a (get id s.specs) h
  Write-Remains id a (Write.claim key digest s) h = same-Remains a (get id s.specs) h
  Write-Remains id a (Write.audit entry spec s found account project free) h =
      same-Remains a (get id s.specs) h
  Write-Remains id a (Write.command new s pending free) h = same-Remains a (get id s.specs) h
  Write-Remains id a (Write.move now ref status reason current s found moves passed) h =
      same-Remains a (get id s.specs) h
  Write-Remains id a (Write.checkpoint c s forward) h = same-Remains a (get id s.specs) h
  Write-Remains id a (Write.chain s t u first second) h =
      let (b, found, kept) = Remains-some a (get id t.specs) (Write-Remains id a first h) in
      Remains-trans a b (get id u.specs) kept (Write-Remains id b second found)

  -- Whatever calls follow, a stored plan stays stored, with its identifier, its idempotency key, its
  -- account and its project.
  pub run-Remains :
      (ops : List Op) (s : MemoryPlanStore) (id : String) (a : RunPlanSpec)
      → get id s.specs ≡ some a
      → Remains a (get id (run codec ops s).specs)
  run-Remains ops s id a h = Write-Remains id a (run-Write codec ops s) h
