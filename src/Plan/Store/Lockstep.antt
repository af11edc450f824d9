-- ===== src/Plan/Store/Lockstep.antt =====
-- Commands and their audit trail: a delivered command has the audit record that proves it.
use go_agent.Prelude.{
  List, Option, none, some, key_eq, key_iff, string_key, ◌≡◌, refl, sym, ◌∙◌, ap, subst,
  some_injective, inl, inr, arith, Bool-cases, Option-cases,
}
use go_agent.Prelude.Dict.{get, put, get-put, get-put_same, get-put_other}
use go_agent.Plan.Commands.Status.{PlanCommandStatus, PlanCommandRef}
use go_agent.Plan.Commands.Lifecycle.{Reach}
use go_agent.Plan.Store.Records.{
  PlanCommandRecord, AuditRecord, audit_ref_key, command_ref_key, audit_ref_from_record,
  plan_command_ref_from_record,
}
use go_agent.Plan.Store.Codec.{Codec}
use go_agent.Plan.Store.Memory.{write_plan_state}
use go_agent.Plan.Store.State.{MemoryPlanStore, new_memory_plan_store}
use go_agent.Plan.Store.Events.{write_plan_event}
use go_agent.Plan.Store.Outbox.{
  audit_record_from_plan_command, check_delivered, validate_plan_command_delivered_audit,
}
use go_agent.Plan.Store.Writes.{Write, moved}
use go_agent.Plan.Store.Run.{Op, run, run-Write}

-- The stored audit record that agrees with the command.
abbrev pub Audited : Codec → PlanCommandRecord → MemoryPlanStore → Type 0
Audited codec c s =
    (a : AuditRecord) × (get (audit_ref_from_record (audit_record_from_plan_command c)) s.audit_keys
      ≡ some a)
    × (validate_plan_command_delivered_audit codec c a ≡ none)

-- Every delivered command is audited.
abbrev pub InLockstep : Codec → MemoryPlanStore → Type 0
InLockstep codec s =
    (ref : PlanCommandRef) (c : PlanCommandRecord)
    → get ref s.commands ≡ some c
    → c.status ≡ PlanCommandStatus.delivered
    → Audited codec c s

module _ (codec : Codec) where
  -- The audit of a command is kept when a record is stored under a reference that is free.
  audit-kept :
      (c : PlanCommandRecord) (entry : AuditRecord) (s : MemoryPlanStore)
      → get (audit_ref_from_record entry) s.audit_keys ≡ none
      → Audited codec c s
      → Audited codec c
          (record s { audit_keys = put (audit_ref_from_record entry) entry s.audit_keys })
  audit-kept c entry s free (a, found, agrees) =
      let ref = audit_ref_from_record (audit_record_from_plan_command c) in
      (
        a,
        get-put (audit_ref_from_record entry) ref entry s.audit_keys
            ∙ ground (arith, key_iff (audit_ref_from_record entry) ref),
        agrees,
      )

  -- What `check_delivered` has seen of a command that it lets through.
  check_delivered-Audited :
      (ref : PlanCommandRef) (status : PlanCommandStatus) (c : PlanCommandRecord)
      (s : MemoryPlanStore)
      → check_delivered codec ref status c s ≡ none
      → status ≡ PlanCommandStatus.delivered
      → Audited codec c s
  unfolding check_delivered
  check_delivered-Audited ref status c s passed delivered =
      elim (Option-cases
        (get (audit_ref_from_record (audit_record_from_plan_command c)) s.audit_keys)) [
          | inl missing ↦ ground arith
          | inr (a, found) ↦ (a, found, ground arith)
        ]

  -- A command is written under `ref`: the others are as before.
  put-InLockstep :
      (ref : PlanCommandRef) (c : PlanCommandRecord) (s : MemoryPlanStore)
      → (c.status ≡ PlanCommandStatus.delivered → Audited codec c s)
      → InLockstep codec s
      → InLockstep codec (record s { commands = put ref c s.commands })
  put-InLockstep ref c s own h k d found delivered = elim (Bool-cases (key_eq ref k)) [
    | inl same ↦
        let written : c ≡ d =
          some_injective c d (sym (get-put_same ref k c s.commands same) ∙ found) in
        subst (λ x. Audited codec x s) written
          (own (ap (λ (x : PlanCommandRecord). x.status) written ∙ delivered))
    | inr other ↦ h k d (sym (get-put_other ref k c s.commands other) ∙ found) delivered
  ]

  pub Write-InLockstep :
      {s t : MemoryPlanStore} → Write codec s t → InLockstep codec s → InLockstep codec t
  unfolding write_plan_state write_plan_event validate_plan_command_delivered_audit
  Write-InLockstep (Write.stay s) h = h
  Write-InLockstep (Write.save snapshot allow_create s valid may free) h = h
  Write-InLockstep (Write.append now scoped key spec s found account project free) h = h
  Write-InLockstep (Write.claim key digest s) h = h
  Write-InLockstep (Write.audit entry spec s found account project free) h =
      λ ref c stored delivered. audit-kept c entry s free (h ref c stored delivered)
  Write-InLockstep (Write.command new s pending free) h =
      put-InLockstep (plan_command_ref_from_record new) new s (λ delivered. cc) h
  Write-InLockstep (Write.move now ref status reason current s found moves passed) h =
      put-InLockstep ref (moved now status reason current) s
        (check_delivered-Audited ref status current s passed) h
  Write-InLockstep (Write.checkpoint c s forward) h = h
  Write-InLockstep (Write.chain s t u first second) h =
      Write-InLockstep second (Write-InLockstep first h)

  -- Whatever calls are made on a new store: a command that is delivered has a stored audit record
  -- of its plan, tenant, actor, action and key, with the same payload.
  pub run-InLockstep : (ops : List Op) → InLockstep codec (run codec ops new_memory_plan_store)
  unfolding get
  run-InLockstep ops =
      Write-InLockstep (run-Write codec ops new_memory_plan_store) (λ ref c found delivered. cc)

-- The command that is stored later: the same but for its status, to which accepted transitions
-- lead, its reason and its time.
abbrev pub Later : PlanCommandRecord → Option PlanCommandRecord → Type 0
Later c none = ⊥
Later c (some d) =
    Reach c.status d.status
    × (audit_record_from_plan_command d ≡ audit_record_from_plan_command c)
    × (d.command_id ≡ c.command_id)

Later-step :
    (codec : Codec) {s t : MemoryPlanStore} (ref : PlanCommandRef) (c : PlanCommandRecord)
    → Write codec s t
    → Later c (get ref s.commands)
    → Later c (get ref t.commands)
unfolding write_plan_state write_plan_event
Later-step codec ref c (Write.stay s) h = h
Later-step codec ref c (Write.save snapshot allow_create s valid may free) h = h
Later-step codec ref c (Write.append now scoped key spec s found account project free) h = h
Later-step codec ref c (Write.claim key digest s) h = h
Later-step codec ref c (Write.audit entry spec s found account project free) h = h
Later-step codec ref c (Write.command new s pending free) h =
    let own = plan_command_ref_from_record new in
    elim (Bool-cases (key_eq own ref)) [
      | inl same ↦
          absurd
            (subst (Later c) (ap (λ k. get k s.commands) (sym ((key_iff own ref).0 same)) ∙ free) h)
      | inr other ↦ subst (Later c) (sym (get-put_other own ref new s.commands other)) h
    ]
Later-step codec ref c (Write.move now k status reason current s found moves passed) h =
    let next = moved now status reason current in
    elim (Bool-cases (key_eq k ref)) [
      | inl same ↦
          let before : Later c (some current) =
            subst (Later c) (ap (λ x. get x s.commands) (sym ((key_iff k ref).0 same)) ∙ found) h in
          subst (Later c) (sym (get-put_same k ref next s.commands same))
            (Reach.move c.status current.status status before.0 moves, before.1, before.2)
      | inr other ↦ subst (Later c) (sym (get-put_other k ref next s.commands other)) h
    ]
Later-step codec ref c (Write.checkpoint k s forward) h = h
Later-step codec ref c (Write.chain s t u first second) h =
    Later-step codec ref c second (Later-step codec ref c first h)

-- Whatever calls follow, a stored command is kept: accepted transitions lead from its status to
-- the later one, and its envelope stays.
pub run-Later :
    (codec : Codec) (ops : List Op) (s : MemoryPlanStore) (ref : PlanCommandRef)
    (c : PlanCommandRecord)
    → get ref s.commands ≡ some c
    → Later c (get ref (run codec ops s).commands)
run-Later codec ops s ref c found =
    Later-step codec ref c (run-Write codec ops s)
      (subst (Later c) (sym found) (Reach.start c.status, refl, refl))
