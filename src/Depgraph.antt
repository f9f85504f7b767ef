-- ===== src/Depgraph.antt =====
-- pkg/depgraph/depgraph.go: the order in which services that depend on each other are started.
pub mod Graphs
pub mod Order
pub mod Services
pub mod Startup
pub mod Deployment
use faasd.Prelude.{
  ℕ, zero, suc, ◌==ℕ◌, String, ◌==◌, Bool, true, false, not, ◌&&◌, ◌||◌, Option, none, some, List,
  [], ◌∷◌, ◌++◌, map, if◌then◌else◌,
}

-- A pointer to a node is a number; nil is none.
pub record GraphNode : Type 0 where
  pub node_name : String
  pub edges : List (Option ℕ)

-- What each pointer points to.
abbrev pub Heap : Type 0
Heap = ℕ → GraphNode

abbrev pub Graph : Type 0
Graph = List ℕ

-- Contains, for a target of that name.
unfoldable pub contains : Heap → String → Graph → Bool
contains h name [] = false
contains h name (p ∷ nodes) =
    let rest = contains h name nodes in if (h p).node_name == name then true else rest

-- Remove, by the pointer.
unfoldable pub remove : ℕ → Graph → Graph
remove target [] = []
remove target (p ∷ nodes) =
    let rest = remove target nodes in if p ==ℕ target then nodes else p ∷ rest

-- The resolved and the unresolved graph after a run; `circular` is the explicit panic, `nil_edge`
-- the panic of Contains on a nil edge: the unresolved graph is never empty then.
pub data Resolution : Type 0 where
  done : Graph → Graph → Resolution
  circular nil_edge out_of_fuel : Resolution

-- The loop over the edges; `visit` is the recursive call.
unfoldable pub visit_edges :
    (ℕ → Graph → Graph → Resolution) → Heap → List (Option ℕ) → Graph → Graph → Resolution
visit_edges visit h [] resolved unresolved = done resolved unresolved
visit_edges visit h (none ∷ edges) resolved unresolved = nil_edge
visit_edges visit h (some edge ∷ edges) resolved unresolved =
    let rest = visit_edges visit h edges in
    if not (contains h (h edge).node_name resolved) && contains h (h edge).node_name unresolved
    then circular
    else (elim (visit edge resolved unresolved) [
      | done r u ↦ rest r u
      | circular ↦ circular
      | nil_edge ↦ nil_edge
      | out_of_fuel ↦ out_of_fuel
    ])

-- The end of resolve, once the edges are visited.
unfoldable pub settle : Heap → ℕ → Resolution → Resolution
settle h p (done resolved unresolved) =
    if contains h (h p).node_name resolved
    then done resolved unresolved
    else done (resolved ++ p ∷ []) (remove p unresolved)
settle h p circular = circular
settle h p nil_edge = nil_edge
settle h p out_of_fuel = out_of_fuel

unfoldable pub resolve : ℕ → Heap → ℕ → Graph → Graph → Resolution
unfolding visit_edges settle
resolve zero h p resolved unresolved = out_of_fuel
resolve (suc fuel) h p resolved unresolved =
    let visit = resolve fuel h in
    settle h p (visit_edges visit h (h p).edges resolved (unresolved ++ p ∷ []))

-- The loop of Resolve over the nodes of the graph.
unfoldable pub resolve_nodes : ℕ → Heap → Graph → Graph → Graph → Resolution
unfolding resolve
resolve_nodes fuel h [] resolved unresolved = done resolved unresolved
resolve_nodes fuel h (p ∷ nodes) resolved unresolved =
    let rest = resolve_nodes fuel h nodes in
    elim (resolve fuel h p resolved unresolved) [
      | done r u ↦ rest r u
      | circular ↦ circular
      | nil_edge ↦ nil_edge
      | out_of_fuel ↦ out_of_fuel
    ]

abbrev pub names_of : Heap → Graph → List String
names_of h [] = []
names_of h (p ∷ nodes) = (h p).node_name ∷ names_of h nodes

-- Resolve; none stands for a panic, or for too little fuel.
unfoldable pub resolve_graph : ℕ → Heap → Graph → Option (List String)
unfolding resolve_nodes
resolve_graph fuel h nodes = elim (resolve_nodes fuel h nodes [] []) [
  | done r u ↦ some (names_of h r)
  | _ ↦ none
]
