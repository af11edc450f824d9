-- ===== src/Plan/Commands/Lifecycle.antt =====
-- What the accepted transitions of a command add up to, and what the reconciler is asked for.
use go_agent.Prelude.{
  key_eq, key_iff, true, false, ◌||◌, List, [], ◌∷◌, ◌++◌, none, ok, ok_injective, All, All-append,
  subst, ◌≡◌, refl, sym, ◌∙◌, ap, arith, Bool-cases, inl, inr,
}
use go_agent.Prelude.Dict.{Dict, keys, put, has}
use go_agent.Prelude.Members.{contains, Distinct, has-contains, contains_snoc, Distinct-snoc}
use go_agent.Plan.Commands.Status.{
  PlanCommandStatus, PlanCommandScope, status_key, is_recoverable, recoverable_loop,
  recoverable_plan_command_statuses, validate_plan_command_status,
  validate_plan_command_status_transition,
}

-- The statuses that a sequence of accepted transitions reaches.
pub data Reach : PlanCommandStatus → PlanCommandStatus → Type 0 where
  start : (s : PlanCommandStatus) → Reach s s
  move :
      (a b c : PlanCommandStatus)
      → Reach a b
      → validate_plan_command_status_transition b c ≡ none
      → Reach a c

move-delivered :
    (b c : PlanCommandStatus)
    → validate_plan_command_status_transition b c ≡ none
    → b ≡ PlanCommandStatus.delivered
    → c ≡ PlanCommandStatus.delivered
unfolding validate_plan_command_status_transition validate_plan_command_status
move-delivered b c h delivered = ground arith

move-pending :
    (b c : PlanCommandStatus)
    → validate_plan_command_status_transition b c ≡ none
    → c ≡ PlanCommandStatus.pending
    → b ≡ PlanCommandStatus.pending
unfolding validate_plan_command_status_transition validate_plan_command_status
move-pending b c h pending = ground arith

-- No sequence of accepted transitions leads a delivered command to another status, and none leads
-- a command of another status to pending.
pub Reach-final :
    {a b : PlanCommandStatus}
    → Reach a b
    → (a ≡ PlanCommandStatus.delivered → b ≡ PlanCommandStatus.delivered)
      × (b ≡ PlanCommandStatus.pending → a ≡ PlanCommandStatus.pending)
Reach-final (Reach.start s) = (λ h. h, λ h. h)
Reach-final (Reach.move a b c r h) =
    let earlier = Reach-final r in
    (
      λ delivered. move-delivered b c h (earlier.0 delivered),
      λ pending. earlier.1 (move-pending b c h pending),
    )

keys_snoc :
    (k : PlanCommandStatus) (seen : Dict {0, 0} PlanCommandStatus Unit)
    → has k seen ≡ false
    → keys (put k tt seen) ≡ keys seen ++ k ∷ []
unfolding put has
keys_snoc k [] new = refl
keys_snoc k ((j, v) ∷ seen) new = elim (Bool-cases (key_eq j k)) [
  | inl same ↦ cc (rw same at new)
  | inr other ↦ rw other (ap (λ l. j ∷ l) (keys_snoc k seen (rw other at new)))
]

-- What the loop has kept after the rest of the statuses.
Kept : List PlanCommandStatus → List PlanCommandStatus → List PlanCommandStatus → Type 0
Kept kept rest found =
    Distinct found
    × All (λ status. is_recoverable status ≡ true) found
    × ((k : PlanCommandStatus) → contains k found ≡ (contains k kept || contains k rest))

recoverable_loop-Kept :
    (kept : List PlanCommandStatus) (seen : Dict {0, 0} PlanCommandStatus Unit)
    (rest : List PlanCommandStatus) {found : List PlanCommandStatus}
    → keys seen ≡ kept
    → Distinct kept
    → All (λ status. is_recoverable status ≡ true) kept
    → recoverable_loop kept seen rest ≡ ok found
    → Kept kept rest found
unfolding recoverable_loop Kept contains
recoverable_loop-Kept kept seen [] {found = found} same distinct good h =
    let reached = ok_injective kept found h in
    (
      subst Distinct reached distinct,
      subst (All (λ status. is_recoverable status ≡ true)) reached good,
      λ k. sym (ap (contains k) reached) ∙ ground arith,
    )
recoverable_loop-Kept kept seen (status ∷ rest) same distinct good h =
    let recoverable : is_recoverable status ≡ true = ground arith in
    let known : has status seen ≡ contains status kept =
      has-contains status seen ∙ ap (contains status) same in
    elim (Bool-cases (has status seen)) [
      | inl before ↦
          let later =
            recoverable_loop-Kept kept seen rest same distinct good
              (rw (recoverable, before) at h) in
          (later.0, later.1, λ k. ground (arith, later.2 k, key_iff status k, known))
      | inr new ↦
          let absent = sym known ∙ new in
          let later =
            recoverable_loop-Kept (kept ++ status ∷ []) (put status tt seen) rest
              (keys_snoc status seen new ∙ ap (λ l. l ++ status ∷ []) same)
              (Distinct-snoc status kept absent distinct)
              (All-append (λ s. is_recoverable s ≡ true) kept (status ∷ []) good (recoverable, tt))
              (rw (recoverable, new) at h) in
          (later.0, later.1, λ k. later.2 k ∙ ground (arith, contains_snoc k status kept))
    ]

-- The statuses that the reconciler is asked for, where a query names some: those that the query
-- names, each once, and only pending and failed ones.
pub recoverable_lem :
    (scope : PlanCommandScope) (status : PlanCommandStatus) (rest : List PlanCommandStatus)
    {found : List PlanCommandStatus}
    → scope.statuses ≡ status ∷ rest
    → recoverable_plan_command_statuses scope ≡ ok found
    → Distinct found
      × All (λ status. is_recoverable status ≡ true) found
      × ((k : PlanCommandStatus) → contains k found ≡ contains k scope.statuses)
unfolding recoverable_plan_command_statuses Kept contains
recoverable_lem scope status rest {found = found} named h =
    let looped : recoverable_loop [] [] (status ∷ rest) ≡ ok found = ground arith in
    let facts = recoverable_loop-Kept [] [] (status ∷ rest) refl tt tt looped in
    (facts.0, facts.1, λ k. facts.2 k ∙ sym (ap (contains k) named))
