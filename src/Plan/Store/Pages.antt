-- ===== src/Plan/Store/Pages.antt =====
-- The listing of a plan's events, against its log.
use go_agent.Prelude.{
  ℕ, zero, suc, ◌≤◌, ℤ, pos, pos_part, ltb_ℤ, leb_ℤ, true, ◌&&◌, List, [], ◌∷◌, ◌++◌, none, some,
  ok, key_iff, string_key, check_ok, ok_injective, length, length-append, take, select, ◌≡◌, refl,
  sym, ◌∙◌, ap, inl, inr, arith, Bool-cases, Option-cases,
}
use go_agent.Prelude.Dict.{get}
use go_agent.Prelude.Page.{page, take_all}
use go_agent.Prelude.Sort.{sort_by-sorted}
use go_agent.Control.{RunPlanSpec}
use go_agent.Plan.Commands.Status.{PlanRef, validate_plan_ref}
use go_agent.Plan.Store.Records.{PlanEvent, PlanStreamScope, event_key}
use go_agent.Plan.Store.Scope.{stream_ref, validate_plan_stream_scope, validate_plan_tenant_access}
use go_agent.Plan.Store.State.{MemoryPlanStore}
use go_agent.Plan.Store.Events.{
  log_of, memory_plan_event_matches_scope, filter_loop, filter_memory_plan_events, sequence_leb,
  list_plan_events,
}
use go_agent.Plan.Store.Timeline.{IsNumbered, Numbered-IsSortedBy}

take_prefix : {A : Type 0} (n : ℕ) (xs ys : List A) → length xs ≡ n → take n (xs ++ ys) ≡ xs
take_prefix zero [] ys h = refl
take_prefix (suc n) [] ys h = ground (arith, h)
take_prefix zero (x ∷ xs) ys h = ground (arith, h)
take_prefix (suc n) (x ∷ xs) ys h = ap (λ l. x ∷ l) (take_prefix n xs ys (omega (arith, h)))

snoc_append : {A : Type 0} (xs ys : List A) (x : A) → (xs ++ x ∷ []) ++ ys ≡ xs ++ x ∷ ys
snoc_append [] ys x = refl
snoc_append (y ∷ xs) ys x = ap (λ l. y ∷ l) (snoc_append xs ys x)

append_none : {A : Type 0} (xs : List A) → xs ++ [] ≡ xs
append_none [] = refl
append_none (x ∷ xs) = ap (λ l. x ∷ l) (append_none xs)

-- A limited loop has room for another event.
abbrev pub HasRoom : ℤ → List PlanEvent → Type 0
HasRoom limit kept = ltb_ℤ (pos 0) limit ≡ true → suc (length kept) ≤ pos_part limit

filter_loop-page :
    (scope : PlanStreamScope) (limit : ℤ) (kept events : List PlanEvent)
    → HasRoom limit kept
    → filter_loop scope limit kept events
      ≡ page limit (kept ++ select (memory_plan_event_matches_scope scope) events)
unfolding filter_loop
filter_loop-page scope limit kept [] room = elim (Bool-cases (ltb_ℤ (pos 0) limit)) [
  | inl limited ↦
      rw (limited, append_none kept)
        (sym (take_all (pos_part limit) kept (omega (arith, room limited))))
  | inr open_ ↦ rw (open_, append_none kept) refl
]
filter_loop-page scope limit kept (e ∷ events) room =
    let matches = memory_plan_event_matches_scope scope in
    let next = kept ++ e ∷ [] in
    let rest = select matches events in
    let longer : length next ≡ suc (length kept) = omega (arith, length-append kept (e ∷ [])) in
    elim (Bool-cases (matches e)) [
      | inr skipped ↦ rw (skipped, filter_loop) (filter_loop-page scope limit kept events room)
      | inl matched ↦ elim (Bool-cases (ltb_ℤ (pos 0) limit && leb_ℤ limit (pos (length next)))) [
        | inl full ↦
            let limited : ltb_ℤ (pos 0) limit ≡ true = ground (arith, full) in
            let exact : length next ≡ pos_part limit = ground (arith, full, longer, room limited) in
            rw (matched, full, filter_loop, limited)
              (sym (take_prefix (pos_part limit) next rest exact)
                ∙ ap (take (pos_part limit)) (snoc_append kept rest e))
        | inr more ↦
            rw (matched, more, filter_loop)
              (filter_loop-page scope limit next events
                  (λ limited. ground (arith, more, limited, longer))
                ∙ ap (page limit) (snoc_append kept rest e))
      ]
    ]

tenant_access_ok :
    (ref : PlanRef) (spec : RunPlanSpec)
    → validate_plan_tenant_access ref spec ≡ none
    → (spec.account_id ≡ ref.account_id) × (spec.project_id ≡ ref.project_id)
unfolding validate_plan_tenant_access validate_plan_ref
tenant_access_ok ref spec h = (
  ground (arith, key_iff spec.account_id ref.account_id),
  ground (arith, key_iff spec.project_id ref.project_id),
)

-- A listing of the events of a plan is a page of the plan's log: the events after the sequence of
-- the scope, and of its node and run where it names them, in the order of their numbers. It is
-- given only for the plan's own account and project.
pub list_plan_events_lem :
    (scope : PlanStreamScope) (limit : ℤ) (s : MemoryPlanStore) {events : List PlanEvent}
    → IsNumbered s
    → list_plan_events scope limit s ≡ ok events
    → (events
        ≡ page limit (select (memory_plan_event_matches_scope scope) (log_of scope.plan_id s)))
      × ((spec : RunPlanSpec) × (get scope.plan_id s.specs ≡ some spec)
          × (spec.account_id ≡ scope.account_id)
          × (spec.project_id ≡ scope.project_id))
unfolding list_plan_events filter_memory_plan_events
list_plan_events_lem scope limit s {events = events} numbered h =
    let valid = check_ok (validate_plan_stream_scope scope) _ h in
    elim (Option-cases (get scope.plan_id s.specs)) [
      | inl missing ↦ cc (rw missing at valid.1)
      | inr (spec, found) ↦
          let listed =
            check_ok (validate_plan_tenant_access (stream_ref scope) spec) _
              (rw found at valid.1) in
          let sorted = sort_by-sorted sequence_leb (log_of scope.plan_id s) (
            Numbered-IsSortedBy scope.plan_id 0 (log_of scope.plan_id s)
              (numbered scope.plan_id)) in
          (
            sym (ok_injective _ events listed.1)
                ∙ ap (filter_loop scope limit []) sorted
                ∙ filter_loop-page scope limit [] (log_of scope.plan_id s)
                    (λ limited. ground (arith, limited)),
            (
              spec,
              found,
              (tenant_access_ok (stream_ref scope) spec listed.0).0,
              (tenant_access_ok (stream_ref scope) spec listed.0).1,
            ),
          )
    ]
