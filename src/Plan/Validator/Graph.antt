-- ===== src/Plan/Validator/Graph.antt =====
-- What the maps of edges hold that `validateEdges` builds, and the ends of the edges it accepts.
use mathlib.Core.List.{append_assoc, append-nil}
use go_agent.Prelude.{
  String, true, List, [], ◌∷◌, ◌++◌, ok, bind_ok, string_key, key_eq, key_iff, ◌≡◌, refl, sym, ap,
  ◌∙◌, subst, arith, select, All, All-select, Bool-cases, inl, inr,
}
use go_agent.Prelude.Dict.{Dict, keys, get_or, put, has, get_or-put}
use go_agent.Prelude.Sort.{sort_by, sort_by-All}
use go_agent.Prelude.Members.{contains, has-contains}
use go_agent.Control.{PlanNodeSpec, PlanEdgeSpec}
use go_agent.Plan.Scheduler.Progress.{IsTopological}
use go_agent.Plan.Validator.Contracts.{Validator}
use go_agent.Plan.Validator.Edges.{
  IdSet, validate_edge_identity, validate_edge, check_edges, edges_by, edge_leb, sort_edges,
}
use go_agent.Plan.Validator.Topological.{IsForward}
use go_agent.Plan.Validator.Fuel.{LeadsTo}

edges_by-get_or :
    (end : PlanEdgeSpec → String) (k : String) (groups : Dict String (List PlanEdgeSpec))
    (edges : List PlanEdgeSpec)
    → get_or [] k (edges_by end groups edges)
      ≡ get_or [] k groups ++ select (λ edge. key_eq (end edge) k) edges
unfolding edges_by
edges_by-get_or end k groups [] = sym (append-nil (get_or [] k groups))
edges_by-get_or end k groups (edge ∷ edges) =
    let more = get_or [] (end edge) groups ++ edge ∷ [] in
    edges_by-get_or end k (put (end edge) more groups) edges
    ∙ elim (Bool-cases (key_eq (end edge) k)) [
      | inl same ↦
          rw (get_or-put [] (end edge) k more groups, same)
            (append_assoc (get_or [] (end edge) groups) (edge ∷ [])
                (select (λ e. key_eq (end e) k) edges)
              ∙ ap (λ j. get_or [] j groups ++ edge ∷ select (λ e. key_eq (end e) k) edges)
                  ((key_iff (end edge) k).0 same))
      | inr other ↦ rw (get_or-put [] (end edge) k more groups, other) refl
    ]

sort_edges-get_or :
    (k : String) (groups : Dict String (List PlanEdgeSpec))
    → get_or [] k (sort_edges groups) ≡ sort_by edge_leb (get_or [] k groups)
unfolding sort_edges get_or sort_by
sort_edges-get_or k [] = refl
sort_edges-get_or k ((id, edges) ∷ rest) = elim (Bool-cases (key_eq id k)) [
  | inl same ↦ rw same refl
  | inr other ↦ rw other (sort_edges-get_or k rest)
]

-- The edges that the map by target gives for an id are the edges into it.
pub edges_to_All :
    (P : PlanEdgeSpec → Type 0) (k : String) (edges : List PlanEdgeSpec)
    → All (λ (edge : PlanEdgeSpec). key_eq edge.to k ≡ true → P edge) edges
    → All P (get_or [] k (sort_edges (edges_by (λ edge. edge.to) [] edges)))
unfolding get_or
edges_to_All P k edges h =
    subst (All P)
      (sym (
        sort_edges-get_or k (edges_by (λ edge. edge.to) [] edges)
        ∙ ap (sort_by edge_leb) (edges_by-get_or (λ edge. edge.to) k [] edges)))
      (sort_by-All P edge_leb (select (λ edge. key_eq edge.to k) edges)
        (All-select P (λ edge. key_eq edge.to k) edges h))

pub IsForward-IsTopological :
    (edges : List PlanEdgeSpec) (seen order : List String)
    → IsForward edges seen order
    → IsTopological (sort_edges (edges_by (λ edge. edge.to) [] edges)) seen order
unfolding IsForward IsTopological
IsForward-IsTopological edges seen [] h = tt
IsForward-IsTopological edges seen (id ∷ order) h = (
  edges_to_All (λ edge. contains edge.from seen ≡ true) id edges h.0,
  IsForward-IsTopological edges (seen ++ id ∷ []) order h.1,
)

validate_edge-has :
    (validator : Validator) (edge : PlanEdgeSpec) (node_by_id : Dict String PlanNodeSpec)
    (edge_ids : IdSet) {next : IdSet}
    → validate_edge validator edge node_by_id edge_ids ≡ ok next
    → has edge.to node_by_id ≡ true
unfolding validate_edge validate_edge_identity
validate_edge-has validator edge node_by_id edge_ids h = ground arith

pub check_edges-LeadsTo :
    (validator : Validator) (node_by_id : Dict String PlanNodeSpec) (edge_ids : IdSet)
    (edges : List PlanEdgeSpec) {last : IdSet}
    → check_edges validator node_by_id edge_ids edges ≡ ok last
    → LeadsTo (keys node_by_id) edges
unfolding check_edges
check_edges-LeadsTo validator node_by_id edge_ids [] h = tt
check_edges-LeadsTo validator node_by_id edge_ids (edge ∷ edges) h =
    let (next, here, there) =
      bind_ok (validate_edge validator edge node_by_id edge_ids)
        (λ next. check_edges validator node_by_id next edges) h in
    (
      sym (has-contains edge.to node_by_id)
          ∙ validate_edge-has validator edge node_by_id edge_ids here,
      check_edges-LeadsTo validator node_by_id next edges there,
    )
