-- ===== src/Tests/Graphs.antt =====
-- The theorem on the dependency graph (pkg/depgraph) at two services, one of which needs the other.
use faasd.Prelude.{
  ℕ, List, In, zero, suc, String, ◌==◌, ◌≡◌, refl, some, [], ◌∷◌, inl, inr, arith, All,
  if◌then◌else◌,
}
use faasd.Depgraph.{Heap, Graph, resolve_graph, names_of}
use faasd.Depgraph.Graphs.{Has, Ordered, Acyclic}
use faasd.Depgraph.Order.{resolve_graph-Ordered}
use faasd.Depgraph.Services.{Service, build_service_graph, build_deployment_order}
use faasd.Depgraph.Deployment.{build_deployment_order-Ordered}

-- The gateway, at 0, depends on nats, at 1.
abbrev services : Heap
services zero = record { node_name = "gateway"; edges = some 1 ∷ [] }
services (suc p) = record { node_name = "nats"; edges = [] }

abbrev height : String → ℕ
height n = if n == "gateway" then 1 else 0

services-Acyclic : Acyclic services height
services-Acyclic zero edge (inl e) = (1, rw e refl, omega arith)
services-Acyclic zero edge (inr h) = elim h [ ]
services-Acyclic (suc p) edge h = elim h [ ]

resolve_graph-Ordered_example :
    (order : Graph) × (resolve_graph 2 services (0 ∷ 1 ∷ []) ≡ some (names_of services order))
    × Ordered services order
    × All (λ p. Has services order (services p).node_name) (0 ∷ 1 ∷ [])
resolve_graph-Ordered_example =
    resolve_graph-Ordered services height 2 (0 ∷ 1 ∷ []) services-Acyclic
      (omega arith, (omega arith, tt))

abbrev compose : List Service
compose =
    record { service_name = "gateway"; depends_on = "nats" ∷ [] }
    ∷ record { service_name = "nats"; depends_on = [] }
    ∷ []

build_deployment_order-Ordered_example :
    let h = build_service_graph compose in
    (order : Graph) × (build_deployment_order 2 compose ≡ some (names_of h order))
    × Ordered h order
    × All (λ s. In s.service_name (names_of h order)) compose
    × ((s : Service) (d : String)
        → In s compose
        → In d s.depends_on
        → (q : ℕ) × (e : ℕ) × ((h q).node_name ≡ s.service_name)
          × ((h e).node_name ≡ d)
          × In (some e) (h q).edges)
build_deployment_order-Ordered_example =
    build_deployment_order-Ordered height 2 compose
      ((omega arith, ((inr (inl refl), omega arith), tt)), ((omega arith, tt), tt))
