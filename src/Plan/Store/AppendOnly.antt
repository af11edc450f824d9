-- ===== src/Plan/Store/AppendOnly.antt =====
-- What no call takes back: events, the claims of their keys, and the cursors of exporters.
use go_agent.Prelude.{
  ◌≤ℤ◌, String, List, [], ◌∷◌, ◌++◌, Option, none, some, key_eq, key_iff, string_key, ◌≡◌, refl,
  sym, ◌∙◌, ap, inl, inr, arith, Bool-cases,
}
use go_agent.Prelude.Dict.{get, put, get-put, get_or-put}
use go_agent.Plan.Store.Records.{
  PlanEvent, PlanEventIdempotencyKey, PlanMetricCheckpoint, PlanMetricCheckpointKey, event_key,
  checkpoint_key,
}
use go_agent.Plan.Store.Codec.{Codec}
use go_agent.Plan.Store.Memory.{write_plan_state}
use go_agent.Plan.Store.State.{MemoryPlanStore}
use go_agent.Plan.Store.Events.{log_of, event_key_of, stored_event, write_plan_event}
use go_agent.Plan.Store.Listings.{checkpoint_key_of, no_backward}
use go_agent.Plan.Store.Writes.{Write}
use go_agent.Plan.Store.Run.{Op, run, run-Write}

append_assoc : {A : Type 0} (xs ys zs : List A) → (xs ++ ys) ++ zs ≡ xs ++ (ys ++ zs)
append_assoc [] ys zs = refl
append_assoc (x ∷ xs) ys zs = ap (λ l. x ∷ l) (append_assoc xs ys zs)

append_nil : {A : Type 0} (xs : List A) → xs ++ [] ≡ xs
append_nil [] = refl
append_nil (x ∷ xs) = ap (λ l. x ∷ l) (append_nil xs)

-- `xs` is what `ys` starts with.
pub Extends : List PlanEvent → List PlanEvent → Type 0
Extends xs ys = (rest : List PlanEvent) × (ys ≡ xs ++ rest)

-- The earlier checkpoint does not lie ahead of the later one.
abbrev pub Follows : Option PlanMetricCheckpoint → Option PlanMetricCheckpoint → Type 0
Follows none later = Unit
Follows (some c) none = ⊥
Follows (some c) (some d) = c.sequence ≤ℤ d.sequence

Follows-refl : (c : Option PlanMetricCheckpoint) → Follows c c
Follows-refl none = tt
Follows-refl (some c) = omega arith

Follows-trans : (a b c : Option PlanMetricCheckpoint) → Follows a b → Follows b c → Follows a c
Follows-trans none b c p q = tt
Follows-trans (some a) none c p q = absurd p
Follows-trans (some a) (some b) none p q = absurd q
Follows-trans (some a) (some b) (some c) p q = omega arith

-- A checkpoint that is not refused follows the one that is stored.
no_backward-Follows :
    (existing : Option PlanMetricCheckpoint) (c : PlanMetricCheckpoint)
    → no_backward existing c ≡ none
    → Follows existing (some c)
no_backward-Follows none c h = tt
no_backward-Follows (some existing) c h = ground arith

log-write :
    (id : String) (key : PlanEventIdempotencyKey) (stored : PlanEvent) (s : MemoryPlanStore)
    → Extends (log_of id s) (log_of id (write_plan_event key stored s))
unfolding Extends write_plan_event
log-write id key stored s =
    let written =
      get_or-put [] stored.plan_id id (log_of stored.plan_id s ++ stored ∷ []) s.events in
    elim (Bool-cases (key_eq stored.plan_id id)) [
      | inl same ↦
          let here : stored.plan_id ≡ id = (key_iff stored.plan_id id).0 same in
          (stored ∷ [], written ∙ rw same (ap (λ i. log_of i s ++ stored ∷ []) here))
      | inr other ↦ ([], written ∙ rw other (sym (append_nil (log_of id s))))
    ]

keys-write :
    (k key : PlanEventIdempotencyKey) (stored e : PlanEvent) (s : MemoryPlanStore)
    → get key s.event_keys ≡ none
    → get k s.event_keys ≡ some e
    → get k (write_plan_event key stored s).event_keys ≡ some e
unfolding write_plan_event
keys-write k key stored e s free claimed =
    get-put key k stored s.event_keys ∙ ground (arith, key_iff key k)

checkpoint-write :
    (key : PlanMetricCheckpointKey) (c : PlanMetricCheckpoint) (s : MemoryPlanStore)
    → no_backward (get (checkpoint_key_of c) s.metrics) c ≡ none
    → Follows (get key s.metrics) (get key (put (checkpoint_key_of c) c s.metrics))
checkpoint-write key c s forward =
    let own = checkpoint_key_of c in
    let old = get key s.metrics in
    rw (get-put (checkpoint_key_of c) key c s.metrics) (elim (Bool-cases (key_eq own key)) [
      | inl same ↦
          let here : own ≡ key = (key_iff own key).0 same in
          rw same (
            no_backward-Follows old c
              (ap (λ k. no_backward (get k s.metrics) c) (sym here) ∙ forward))
      | inr other ↦ rw other (Follows-refl old)
    ])

-- Every event log and every claimed key is kept, and no cursor moves back.
abbrev pub Keeps : MemoryPlanStore → MemoryPlanStore → Type 0
Keeps s t =
    ((id : String) → Extends (log_of id s) (log_of id t))
    × ((k : PlanEventIdempotencyKey) (e : PlanEvent)
        → get k s.event_keys ≡ some e
        → get k t.event_keys ≡ some e)
    × ((k : PlanMetricCheckpointKey) → Follows (get k s.metrics) (get k t.metrics))

Extends-refl : (xs : List PlanEvent) → Extends xs xs
unfolding Extends
Extends-refl xs = ([], sym (append_nil xs))

Extends-trans : (xs ys zs : List PlanEvent) → Extends xs ys → Extends ys zs → Extends xs zs
unfolding Extends
Extends-trans xs ys zs p q = (p.0 ++ q.0, q.1 ∙ ap (λ l. l ++ q.0) p.1 ∙ append_assoc xs p.0 q.0)

Keeps-refl : (s : MemoryPlanStore) → Keeps s s
Keeps-refl s = (λ id. Extends-refl (log_of id s), λ k e h. h, λ k. Follows-refl (get k s.metrics))

pub Write-Keeps : {codec : Codec} {s t : MemoryPlanStore} → Write codec s t → Keeps s t
unfolding write_plan_state write_plan_event stored_event
Write-Keeps (Write.stay s) = Keeps-refl s
Write-Keeps (Write.save snapshot allow_create s valid may free) = Keeps-refl s
Write-Keeps (Write.append now scoped key spec s found account project free) =
    let stored = stored_event now scoped (log_of scoped.plan_id s) in
    let own = event_key_of scoped.plan_id key in
    (
      λ id. log-write id own stored s,
      λ k e h. keys-write k own stored e s free h,
      λ k. Follows-refl (get k s.metrics),
    )
Write-Keeps (Write.claim key digest s) = Keeps-refl s
Write-Keeps (Write.audit entry spec s found account project free) = Keeps-refl s
Write-Keeps (Write.command new s pending free) = Keeps-refl s
Write-Keeps (Write.move now ref status reason current s found moves delivered) = Keeps-refl s
Write-Keeps (Write.checkpoint c s forward) =
    (λ id. Extends-refl (log_of id s), λ k e h. h, λ k. checkpoint-write k c s forward)
Write-Keeps (Write.chain s t u first second) =
    let a = Write-Keeps first in
    let b = Write-Keeps second in
    (
      λ id. Extends-trans (log_of id s) (log_of id t) (log_of id u) (a.0 id) (b.0 id),
      λ k e h. b.1 k e (a.1 k e h),
      λ k. Follows-trans (get k s.metrics) (get k t.metrics) (get k u.metrics) (a.2 k) (b.2 k),
    )

-- Whatever calls follow: the log of a plan only grows at its end, an idempotency key keeps the
-- event that claimed it, and the sequence of a checkpoint never decreases.
pub run-Keeps : (codec : Codec) (ops : List Op) (s : MemoryPlanStore) → Keeps s (run codec ops s)
run-Keeps codec ops s = Write-Keeps (run-Write codec ops s)
