-- ===== src/Plan/Scheduler/Join.antt =====
-- What the counters of `evaluateEdges` and the two joins decide
-- (internal/usecase/agentosplan/scheduler.go).
use go_agent.Prelude.{
  ltb, String, is_ok, bind_ok, is_ok-bind, Bool, true, false, ◌&&◌, ◌||◌, not, List, [], ◌∷◌,
  Option, none, some, ok, err, if◌then◌else◌, string_key, ◌≡◌, refl, ap, ◌∙◌, arith,
}
use go_agent.Prelude.Dict.{Dict, get}
use go_agent.Control.{PlanNodeSpec, PlanEdgeSpec, PlanNodeStatus, PlanJoinStrategy}
use go_agent.Plan.Scheduler.Trigger.{
  ExpressionCompiler, Vars, evaluate, edge_trigger, edge_satisfied, node_terminal, normalize_join,
}
use go_agent.Plan.Scheduler.Dependencies.{
  DependencyEvaluation, EdgeCounts, no_counts, count_edge, evaluate_edge, evaluate_edges,
  join_counts, evaluate_all_join, evaluate_any_join, evaluate_dependencies,
}

-- What one edge says of the node it leads to.
pub data Outcome : Type 0 where
  waiting inactive satisfied impossible : Outcome

abbrev pub is_wait : Outcome → Bool
is_wait Outcome.waiting = true
is_wait _ = false

abbrev pub is_satisfied : Outcome → Bool
is_satisfied Outcome.satisfied = true
is_satisfied _ = false

abbrev pub is_impossible : Outcome → Bool
is_impossible Outcome.impossible = true
is_impossible _ = false

abbrev pub any : (Outcome → Bool) → List Outcome → Bool
any p [] = false
any p (o ∷ os) = p o || any p os

abbrev pub both : Option Outcome → Option (List Outcome) → Option (List Outcome)
both (some o) (some os) = some (o ∷ os)
both _ _ = none

both-some :
    (a : Option Outcome) (b : Option (List Outcome)) {os : List Outcome}
    → both a b ≡ some os
    → (o : Outcome) × (rest : List Outcome) × (a ≡ some o) × (b ≡ some rest) × (o ∷ rest ≡ os)
both-some (some o) (some rest) h = (o, rest, refl, refl, ground arith)
both-some (some o) none h = cc
both-some none b h = cc

module _ (compiler : ExpressionCompiler) (nodes : Dict String PlanNodeStatus) (vars : Vars) where
  -- `none` where the parent is unknown or the condition of an edge from a terminal parent fails.
  unfoldable pub outcome : PlanEdgeSpec → Option Outcome
  outcome edge = elim (get edge.from nodes) [
    | none ↦ none
    | some parent ↦
        if node_terminal parent.lifecycle_state
        then elim (evaluate compiler edge.condition vars) [
          | err e ↦ none
          | ok false ↦ some Outcome.inactive
          | ok true ↦
              if edge_satisfied (edge_trigger edge.on) parent.lifecycle_state
              then some Outcome.satisfied
              else some Outcome.impossible
        ]
        else some Outcome.waiting
  ]

  unfoldable pub outcomes : List PlanEdgeSpec → Option (List Outcome)
  unfolding outcome
  outcomes [] = some []
  outcomes (edge ∷ edges) = both (outcome edge) (outcomes edges)

-- A node that joins all its edges runs when no edge waits, none is impossible and one is satisfied;
-- any other join needs one satisfied edge.
abbrev pub joins : PlanJoinStrategy → List Outcome → Bool
joins PlanJoinStrategy.join_all os =
    any is_satisfied os && not (any is_wait os || any is_impossible os)
joins _ os = any is_satisfied os

-- A node that joins all its edges can run no more when an edge is impossible, or when no edge waits
-- and none is satisfied; any other join, when no edge waits and none is satisfied.
abbrev pub is_lost : PlanJoinStrategy → List Outcome → Bool
is_lost PlanJoinStrategy.join_all os =
    any is_impossible os || not (any is_satisfied os || any is_wait os)
is_lost _ os = not (any is_satisfied os || any is_wait os)

abbrev pub is_join : PlanJoinStrategy → Bool
is_join (PlanJoinStrategy.other name) = false
is_join _ = true

-- The counters after an edge of one outcome, without the traces.
Counts : Outcome → EdgeCounts → EdgeCounts → Type 0
Counts o before after =
    ((ltb 0 after.waiting ≡ (is_wait o || ltb 0 before.waiting))
      × (ltb 0 after.satisfied ≡ (is_satisfied o || ltb 0 before.satisfied)))
    × (ltb 0 after.impossible ≡ (is_impossible o || ltb 0 before.impossible))

abbrev is_some : {A : Type 0} → Option A → Bool
is_some none = false
is_some (some a) = true

module _ (compiler : ExpressionCompiler) (nodes : Dict String PlanNodeStatus) (vars : Vars)
    (node : PlanNodeSpec) where
  evaluate_edge-Counts :
      (edge : PlanEdgeSpec) (before : EdgeCounts) {after : EdgeCounts} {o : Outcome}
      → outcome compiler nodes vars edge ≡ some o
      → evaluate_edge compiler nodes vars node edge before ≡ ok after
      → Counts o before after
  unfolding outcome evaluate_edge count_edge Counts
  evaluate_edge-Counts edge before h run = ((ground arith, ground arith), ground arith)

  evaluate_edge-ok :
      (edge : PlanEdgeSpec) (before : EdgeCounts)
      → is_ok (evaluate_edge compiler nodes vars node edge before)
        ≡ is_some (outcome compiler nodes vars edge)
  unfolding outcome evaluate_edge count_edge
  evaluate_edge-ok edge before = ground arith

  evaluate_edges-counts :
      (edges : List PlanEdgeSpec) (before : EdgeCounts) {after : EdgeCounts} {os : List Outcome}
      → outcomes compiler nodes vars edges ≡ some os
      → evaluate_edges compiler nodes vars node edges before ≡ ok after
      → ((ltb 0 after.waiting ≡ (any is_wait os || ltb 0 before.waiting))
          × (ltb 0 after.satisfied ≡ (any is_satisfied os || ltb 0 before.satisfied)))
        × (ltb 0 after.impossible ≡ (any is_impossible os || ltb 0 before.impossible))
  unfolding outcomes evaluate_edges Counts
  evaluate_edges-counts [] before h run = ground arith
  evaluate_edges-counts (edge ∷ edges) before {os = os} h run =
      let (step, ran, later) =
        bind_ok (evaluate_edge compiler nodes vars node edge before)
          (evaluate_edges compiler nodes vars node edges) run in
      let (o, rest, here, there, split) =
        both-some (outcome compiler nodes vars edge) (outcomes compiler nodes vars edges) h in
      ground (
        arith,
        evaluate_edges-counts edges step there later,
        evaluate_edge-Counts edge before here ran,
      )

  evaluate_edges-ok :
      (edges : List PlanEdgeSpec) (before : EdgeCounts) {os : List Outcome}
      → outcomes compiler nodes vars edges ≡ some os
      → is_ok (evaluate_edges compiler nodes vars node edges before) ≡ true
  unfolding outcomes evaluate_edges
  evaluate_edges-ok [] before h = refl
  evaluate_edges-ok (edge ∷ edges) before h =
      let (o, rest, here, there, split) =
        both-some (outcome compiler nodes vars edge) (outcomes compiler nodes vars edges) h in
      is_ok-bind (evaluate_edge compiler nodes vars node edge before)
        (evaluate_edges compiler nodes vars node edges)
        (evaluate_edge-ok edge before ∙ ap is_some here)
        (λ next. evaluate_edges-ok edges next there)

  -- Where every parent is known, every condition that is needed evaluates and the join strategy is a
  -- known one, the evaluation of the incoming edges of a node returns no error.
  pub evaluate_dependencies-ok :
      (edges : List PlanEdgeSpec) {os : List Outcome}
      → is_join node.policy.join ≡ true
      → outcomes compiler nodes vars edges ≡ some os
      → is_ok (evaluate_dependencies compiler node edges nodes vars) ≡ true
  unfolding evaluate_dependencies join_counts normalize_join
  evaluate_dependencies-ok [] join h = refl
  evaluate_dependencies-ok (edge ∷ edges) join h =
      is_ok-bind (evaluate_edges compiler nodes vars node (edge ∷ edges) no_counts)
        (join_counts node.policy.join) (evaluate_edges-ok (edge ∷ edges) no_counts h)
        (λ counts. ground arith)

  -- The evaluation of the incoming edges of a node, which are not empty, lets the node run exactly
  -- when its join strategy holds of the outcomes of the edges, and gives it up exactly when the
  -- strategy can hold no more.
  pub evaluate_dependencies_lem :
      (edge : PlanEdgeSpec) (edges : List PlanEdgeSpec) {d : DependencyEvaluation}
      {os : List Outcome}
      → outcomes compiler nodes vars (edge ∷ edges) ≡ some os
      → evaluate_dependencies compiler node (edge ∷ edges) nodes vars ≡ ok d
      → (d.ready ≡ joins (normalize_join node.policy.join) os)
        × (d.impossible ≡ is_lost (normalize_join node.policy.join) os)
  unfolding evaluate_dependencies join_counts normalize_join evaluate_all_join evaluate_any_join
  evaluate_dependencies_lem edge edges {os = os} h run =
      let (counts, counted, joined) =
        bind_ok (evaluate_edges compiler nodes vars node (edge ∷ edges) no_counts)
          (join_counts node.policy.join) run in
      let facts = evaluate_edges-counts (edge ∷ edges) no_counts h counted in
      (ground (arith, facts), ground (arith, facts))

  -- Once the parents of all its edges are terminal, a node either runs or is given up: the
  -- evaluation of its edges never leaves it waiting, and never says both.
  pub evaluate_dependencies-decides :
      (edge : PlanEdgeSpec) (edges : List PlanEdgeSpec) {d : DependencyEvaluation}
      {os : List Outcome}
      → outcomes compiler nodes vars (edge ∷ edges) ≡ some os
      → any is_wait os ≡ false
      → evaluate_dependencies compiler node (edge ∷ edges) nodes vars ≡ ok d
      → d.impossible ≡ not d.ready
  evaluate_dependencies-decides edge edges {os = os} h settled run =
      ground (arith, evaluate_dependencies_lem edge edges h run)

  join_counts-exclusive :
      (join : PlanJoinStrategy) (counts : EdgeCounts) {d : DependencyEvaluation}
      → join_counts join counts ≡ ok d
      → d.ready ≡ true
      → d.impossible ≡ false
  unfolding join_counts normalize_join evaluate_all_join evaluate_any_join
  join_counts-exclusive join counts h ready = ground arith

  pub evaluate_dependencies-exclusive :
      (edges : List PlanEdgeSpec) (d : DependencyEvaluation)
      → evaluate_dependencies compiler node edges nodes vars ≡ ok d
      → d.ready ≡ true
      → d.impossible ≡ false
  unfolding evaluate_dependencies
  evaluate_dependencies-exclusive [] d h ready = ground arith
  evaluate_dependencies-exclusive (edge ∷ edges) d h ready =
      let (counts, counted, joined) =
        bind_ok (evaluate_edges compiler nodes vars node (edge ∷ edges) no_counts)
          (join_counts node.policy.join) h in
      join_counts-exclusive node.policy.join counts joined ready
