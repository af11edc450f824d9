-- ===== src/Plan/Store/Timeline.antt =====
-- The event log of a plan is numbered from 1.
use go_agent.Prelude.{
  ℕ, suc, ◌+◌, ◌≤◌, pos, String, true, List, [], ◌∷◌, ◌++◌, key_eq, key_iff, string_key, length,
  All, subst, ◌≡◌, refl, sym, ◌∙◌, ap, inl, inr, arith, Bool-cases,
}
use go_agent.Prelude.Dict.{get_or, get_or-put}
use go_agent.Prelude.Sort.{IsSortedBy}
use go_agent.Prelude.Decimal.{decimal, ◌+++◌}
use go_agent.Plan.Store.Records.{PlanEvent, PlanEventIdempotencyKey, event_key}
use go_agent.Plan.Store.Codec.{Codec}
use go_agent.Plan.Store.Memory.{write_plan_state}
use go_agent.Plan.Store.State.{MemoryPlanStore, new_memory_plan_store}
use go_agent.Plan.Store.Events.{log_of, event_key_of, stored_event, write_plan_event, sequence_leb}
use go_agent.Plan.Store.Writes.{Write}
use go_agent.Plan.Store.Run.{Op, run, run-Write}

-- The events after the first `n` of the plan.
abbrev pub Numbered : String → ℕ → List PlanEvent → Type 0
Numbered id n [] = Unit
Numbered id n (e ∷ es) =
    ((e.sequence ≡ pos (suc n)) × (e.event_id ≡ id +++ ":" +++ decimal (suc n)) × (e.plan_id ≡ id))
    × Numbered id (suc n) es

Numbered-snoc :
    (id : String) (n m : ℕ) (log : List PlanEvent) (e : PlanEvent)
    → Numbered id n log
    → m ≡ suc (n + length log)
    → e.sequence ≡ pos m
    → e.event_id ≡ id +++ ":" +++ decimal m
    → e.plan_id ≡ id
    → Numbered id n (log ++ e ∷ [])
Numbered-snoc id n m [] e h at sequence event_id plan_id =
    let here : m ≡ suc n = omega (arith, at) in
    ((sequence ∙ ap pos here, event_id ∙ ap (λ k. id +++ ":" +++ decimal k) here, plan_id), tt)
Numbered-snoc id n m (x ∷ log) e h at sequence event_id plan_id =
    (h.0, Numbered-snoc id (suc n) m log e h.1 (omega (arith, at)) sequence event_id plan_id)

-- All events of the store are numbered.
abbrev pub IsNumbered : MemoryPlanStore → Type 0
IsNumbered s = (id : String) → Numbered id 0 (log_of id s)

write-IsNumbered :
    (key : PlanEventIdempotencyKey) (stored : PlanEvent) (s : MemoryPlanStore)
    → stored.sequence ≡ pos (suc (length (log_of stored.plan_id s)))
    → stored.event_id ≡ stored.plan_id +++ ":" +++ decimal (suc (length (log_of stored.plan_id s)))
    → IsNumbered s
    → IsNumbered (write_plan_event key stored s)
unfolding write_plan_event
write-IsNumbered key stored s sequence event_id h id =
    let own = stored.plan_id in
    let log = log_of own s ++ stored ∷ [] in
    let written = get_or-put [] own id log s.events in
    elim (Bool-cases (key_eq own id)) [
      | inl same ↦
          let here : log_of id (write_plan_event key stored s) ≡ log = written ∙ rw same refl in
          subst (Numbered id 0) (sym here) (
            subst (λ i. Numbered i 0 log) ((key_iff own id).0 same)
              (Numbered-snoc own 0 (suc (length (log_of own s))) (log_of own s) stored (h own)
                (omega arith) sequence event_id refl))
      | inr other ↦ subst (Numbered id 0) (sym (written ∙ rw other refl)) (h id)
    ]

pub Write-IsNumbered :
    {codec : Codec} {s t : MemoryPlanStore} → Write codec s t → IsNumbered s → IsNumbered t
unfolding write_plan_state stored_event
Write-IsNumbered (Write.stay s) h = h
Write-IsNumbered (Write.save snapshot allow_create s valid may free) h = h
Write-IsNumbered (Write.append now scoped key spec s found account project free) h =
    write-IsNumbered (event_key_of scoped.plan_id key)
      (stored_event now scoped (log_of scoped.plan_id s)) s refl refl h
Write-IsNumbered (Write.claim key digest s) h = h
Write-IsNumbered (Write.audit entry spec s found account project free) h = h
Write-IsNumbered (Write.command new s pending free) h = h
Write-IsNumbered (Write.move now ref status reason current s found moves passed) h = h
Write-IsNumbered (Write.checkpoint c s forward) h = h
Write-IsNumbered (Write.chain s t u first second) h =
    Write-IsNumbered second (Write-IsNumbered first h)

-- Whatever calls are made on a new store, the events of each plan are numbered 1, 2, 3, …
pub run-IsNumbered :
    (codec : Codec) (ops : List Op) → IsNumbered (run codec ops new_memory_plan_store)
unfolding get_or
run-IsNumbered codec ops = Write-IsNumbered (run-Write codec ops new_memory_plan_store) (λ id. tt)

-- Numbered events are in the order of their numbers.
Numbered-later :
    (id : String) (n : ℕ) (e : PlanEvent) (log : List PlanEvent) (m : ℕ)
    → e.sequence ≡ pos m
    → m ≤ n
    → Numbered id n log
    → All (λ x. sequence_leb e x ≡ true) log
Numbered-later id n e [] m at below h = tt
Numbered-later id n e (x ∷ log) m at below h =
    (ground (arith, h.0.0), Numbered-later id (suc n) e log m at (omega (arith, below)) h.1)

pub Numbered-IsSortedBy :
    (id : String) (n : ℕ) (log : List PlanEvent) → Numbered id n log → IsSortedBy sequence_leb log
Numbered-IsSortedBy id n [] h = tt
Numbered-IsSortedBy id n (e ∷ log) h = (
  Numbered-later id (suc n) e log (suc n) h.0.0 (omega arith) h.1,
  Numbered-IsSortedBy id (suc n) log h.1,
)
