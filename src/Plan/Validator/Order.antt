-- ===== src/Plan/Validator/Order.antt =====
-- The order of the nodes (internal/usecase/agentosplan/validator.go, `topoSort`, `maxDepth`).
use go_agent.Prelude.{
  ℕ, zero, suc, ◌+◌, ◌-◌, ltb, ◌==◌, String, str_leb, List, [], ◌∷◌, ◌++◌, Result, ok, err, errorf,
  err_invalid_run_plan, if◌then◌else◌, string_key, length,
}
use go_agent.Prelude.Dict.{Dict, keys, get_or, put}
use go_agent.Prelude.Sort.{sort_by}
use go_agent.Control.{PlanNodeSpec, PlanEdgeSpec}

-- `incoming[id] = 0` for each node. Counts are natural numbers: `release` takes one off for each
-- edge that was counted.
unfoldable pub zero_counts : Dict String ℕ → List String → Dict String ℕ
unfolding put
zero_counts incoming [] = incoming
zero_counts incoming (id ∷ ids) = zero_counts (put id 0 incoming) ids

-- The loop over the edges, once for each of the two maps that it fills.
unfoldable pub count_incoming : Dict String ℕ → List PlanEdgeSpec → Dict String ℕ
unfolding put get_or
count_incoming incoming [] = incoming
count_incoming incoming (edge ∷ edges) =
    count_incoming (put edge.to (get_or 0 edge.to incoming + 1) incoming) edges

unfoldable pub list_children :
    Dict String (List String) → List PlanEdgeSpec → Dict String (List String)
unfolding put get_or
list_children children [] = children
list_children children (edge ∷ edges) =
    list_children (put edge.from (get_or [] edge.from children ++ edge.to ∷ []) children) edges

unfoldable pub sort_children : Dict String (List String) → Dict String (List String)
unfolding sort_by
sort_children [] = []
sort_children ((id, children) ∷ rest) = (id, sort_by str_leb children) ∷ sort_children rest

-- The ids without incoming edges.
unfoldable pub roots : Dict String ℕ → List String
roots [] = []
roots ((id, count) ∷ rest) = if count == 0 then id ∷ roots rest else roots rest

-- The loop over the children of the current node.
unfoldable pub release : List String → Dict String ℕ → List String → Dict String ℕ × List String
unfolding put get_or sort_by
release [] incoming queue = (incoming, queue)
release (child ∷ rest) incoming queue =
    let count = get_or 0 child incoming - 1 in
    release rest (put child count incoming)
      (if count == 0 then sort_by str_leb (queue ++ child ∷ []) else queue)

-- The loop over the queue. Each turn takes one id off the queue.
unfoldable pub drain :
    ℕ → Dict String (List String) → Dict String ℕ → List String → List String → List String
unfolding release get_or
drain zero children incoming queue order = order
drain (suc fuel) children incoming [] order = order
drain (suc fuel) children incoming (current ∷ queue) order =
    let (released, grown) = release (get_or [] current children) incoming queue in
    drain fuel children released grown (order ++ current ∷ [])

unfoldable pub topo_order : Dict String PlanNodeSpec → List PlanEdgeSpec → List String
unfolding drain zero_counts count_incoming list_children sort_children roots sort_by
topo_order node_by_id edges =
    let incoming = count_incoming (zero_counts [] (keys node_by_id)) edges in
    drain (length node_by_id) (sort_children (list_children [] edges)) incoming
      (sort_by str_leb (roots incoming)) []

unfoldable pub topo_sort : Dict String PlanNodeSpec → List PlanEdgeSpec → Result (List String)
unfolding topo_order
topo_sort node_by_id edges =
    let order = topo_order node_by_id edges in
    if length order == length node_by_id
    then ok order
    else err (errorf err_invalid_run_plan "plan contains a cycle" [])

-- The inner loop of `maxDepth`: `depth[edge.To]` is raised to the depth behind the current node.
unfoldable pub deepen : ℕ → Dict String ℕ → List PlanEdgeSpec → Dict String ℕ
unfolding put get_or
deepen current depth [] = depth
deepen current depth (edge ∷ edges) =
    deepen current
      (if ltb (get_or 0 edge.to depth) (current + 1)
        then put edge.to (current + 1) depth
        else depth)
      edges

unfoldable pub depth_loop : Dict String (List PlanEdgeSpec) → Dict String ℕ → ℕ → List String → ℕ
unfolding deepen get_or
depth_loop edges_by_from depth max_value [] = max_value
depth_loop edges_by_from depth max_value (node_id ∷ rest) =
    let current = get_or 0 node_id depth in
    depth_loop edges_by_from (deepen current depth (get_or [] node_id edges_by_from))
      (if ltb max_value current then current else max_value) rest

unfoldable pub max_depth : List String → Dict String (List PlanEdgeSpec) → ℕ
unfolding depth_loop
max_depth order edges_by_from = depth_loop edges_by_from [] 0 order + 1
