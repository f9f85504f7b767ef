-- ===== src/Depgraph/Services.antt =====
-- The graph of the services (buildServiceGraph and buildDeploymentOrder of pkg/deployment_order.go).
use faasd.Prelude.{
  ℕ, zero, suc, ◌==ℕ◌, String, Option, none, some, List, [], ◌∷◌, ◌++◌, Map, lookup, insert,
  if◌then◌else◌,
}
use faasd.Depgraph.{Heap, Graph, resolve_graph}

-- pkg.Service, as far as the order of deployment looks at it.
pub record Service : Type 0 where
  pub service_name : String
  pub depends_on : List String

-- The first loop: a node for each service, at the next pointer, and the map from names to nodes,
-- in which the last service of a name stays.
unfoldable pub new_nodes : List Service → Heap
new_nodes [] p = record { node_name = ""; edges = [] }
new_nodes (s ∷ svcs) zero = record { node_name = s.service_name; edges = [] }
new_nodes (s ∷ svcs) (suc p) = new_nodes svcs p

unfoldable pub node_map : ℕ → List Service → Map ℕ → Map ℕ
node_map p [] nodes = nodes
node_map p (s ∷ svcs) nodes = node_map (suc p) svcs (insert s.service_name p nodes)

abbrev pub all_nodes : ℕ → List Service → Graph
all_nodes p [] = []
all_nodes p (s ∷ svcs) = p ∷ all_nodes (suc p) svcs

-- nodeMap[s.Name].Edges = append(nodeMap[s.Name].Edges, nodeMap[d])
unfoldable pub add_edge : ℕ → Option ℕ → Heap → Heap
add_edge source edge h p =
    if p ==ℕ source
    then record { node_name = (h p).node_name; edges = (h p).edges ++ edge ∷ [] }
    else h p

unfoldable pub add_edges : ℕ → Map ℕ → List String → Heap → Heap
unfolding add_edge
add_edges source nodes [] h = h
add_edges source nodes (d ∷ depends_on) h =
    add_edges source nodes depends_on (add_edge source (lookup d nodes) h)

-- The second loop. Every service has a node by now.
unfoldable pub connect : Map ℕ → List Service → Heap → Heap
unfolding add_edges
connect nodes [] h = h
connect nodes (s ∷ svcs) h = elim (lookup s.service_name nodes) [
  | none ↦ connect nodes svcs h
  | some source ↦ connect nodes svcs (add_edges source nodes s.depends_on h)
]

unfoldable pub build_service_graph : List Service → Heap
unfolding new_nodes node_map connect
build_service_graph svcs = connect (node_map 0 svcs []) svcs (new_nodes svcs)

unfoldable pub build_deployment_order : ℕ → List Service → Option (List String)
unfolding build_service_graph
build_deployment_order fuel svcs = resolve_graph fuel (build_service_graph svcs) (all_nodes 0 svcs)
