-- ===== src/Depgraph/Deployment.antt =====
-- The order of deployment (buildDeploymentOrder of pkg/deployment_order.go): every service is in it,
-- after the services that it depends on.
use faasd.Prelude.{
  ℕ, suc, ◌<◌, ◌==ℕ◌, String, ◌==◌, ◌≡◌, refl, ap, ◌∙◌, subst, true, Option, some, List, [], ◌∷◌,
  Map, lookup, lookup-nil, inl, inr, arith, All, In, In-append_left, In-append_right, eq_iff,
  Bool-cases, Option-cases,
}
use faasd.Depgraph.{Heap, Graph, contains, names_of}
use faasd.Depgraph.Graphs.{Has, Ordered, Acyclic}
use faasd.Depgraph.Order.{resolve_graph-Ordered}
use faasd.Depgraph.Services.{
  Service, new_nodes, node_map, all_nodes, add_edge, add_edges, connect, build_service_graph,
  build_deployment_order,
}
use faasd.Depgraph.Startup.{
  service_names, MapNames, Placed, Lower, connect-Acyclic, new_nodes-Acyclic, new_nodes-Placed,
  node_map-MapNames, node_map-known, connect-name,
}

add_edge-keeps :
    (q : ℕ) (edge listed : Option ℕ) (h : Heap) (p : ℕ)
    → In listed (h p).edges
    → In listed (add_edge q edge h p).edges
unfolding add_edge
add_edge-keeps q edge listed h p there = elim (Bool-cases (p ==ℕ q)) [
  | inl same ↦ rw (same, add_edge) (In-append_left listed (h p).edges (edge ∷ []) there)
  | inr other ↦ rw (other, add_edge) there
]

add_edge-new : (q : ℕ) (edge : Option ℕ) (h : Heap) → In edge (add_edge q edge h q).edges
unfolding add_edge
add_edge-new q edge h =
    let test : (q ==ℕ q) ≡ true = ground arith in
    rw (test, add_edge) (In-append_right edge (h q).edges (edge ∷ []) (inl refl))

module _ (nodes : Map ℕ) where
  add_edges-keeps :
      (q : ℕ) (ds : List String) (listed : Option ℕ) (h : Heap) (p : ℕ)
      → In listed (h p).edges
      → In listed (add_edges q nodes ds h p).edges
  unfolding add_edges
  add_edges-keeps q [] listed h p there = there
  add_edges-keeps q (d ∷ ds) listed h p there =
      add_edges-keeps q ds listed (add_edge q (lookup d nodes) h) p
        (add_edge-keeps q (lookup d nodes) listed h p there)

  add_edges-new :
      (q : ℕ) (ds : List String) (d : String) (h : Heap)
      → In d ds
      → In (lookup d nodes) (add_edges q nodes ds h q).edges
  unfolding add_edges
  add_edges-new q [] d h listed = elim listed [ ]
  add_edges-new q (d' ∷ ds) d h (inl same) = rw (← same) (
      add_edges-keeps q ds (lookup d' nodes) (add_edge q (lookup d' nodes) h) q
        (add_edge-new q (lookup d' nodes) h))
  add_edges-new q (d' ∷ ds) d h (inr later) =
      add_edges-new q ds d (add_edge q (lookup d' nodes) h) later

  connect-keeps :
      (svcs : List Service) (listed : Option ℕ) (h : Heap) (p : ℕ)
      → In listed (h p).edges
      → In listed (connect nodes svcs h p).edges
  unfolding connect
  connect-keeps [] listed h p there = there
  connect-keeps (s ∷ svcs) listed h p there = elim (Option-cases (lookup s.service_name nodes)) [
    | inl absent ↦ rw (absent, connect) (connect-keeps svcs listed h p there)
    | inr (q, found) ↦
        rw (found, connect)
          (connect-keeps svcs listed (add_edges q nodes s.depends_on h) p
            (add_edges-keeps q s.depends_on listed h p there))
  ]

  connect-new :
      (svcs : List Service) (s : Service) (d : String) (q : ℕ) (h : Heap)
      → In s svcs
      → In d s.depends_on
      → lookup s.service_name nodes ≡ some q
      → In (lookup d nodes) (connect nodes svcs h q).edges
  unfolding connect
  connect-new [] s d q h listed needs found = elim listed [ ]
  connect-new (t ∷ svcs) s d q h (inl same) needs found =
      let found' : lookup t.service_name nodes ≡ some q = rw same found in
      rw (found', connect)
        (connect-keeps svcs (lookup d nodes) (add_edges q nodes t.depends_on h) q
          (add_edges-new q t.depends_on d h (rw same needs)))
  connect-new (t ∷ svcs) s d q h (inr later) needs found =
      elim (Option-cases (lookup t.service_name nodes)) [
        | inl absent ↦ rw (absent, connect) (connect-new svcs s d q h later needs found)
        | inr (q', found') ↦
            rw (found', connect)
              (connect-new svcs s d q (add_edges q' nodes t.depends_on h) later needs found)
      ]

-- The dependencies of each service are services of lower rank, and every rank is below `fuel`.
abbrev pub Layered : (String → ℕ) → ℕ → List String → List Service → Type 0
Layered rank fuel names = All (λ s.
    (rank s.service_name < fuel)
    × All (λ d. In d names × (rank d < rank s.service_name)) s.depends_on)

module _ (rank : String → ℕ) (fuel : ℕ) (all : List Service) where
  deps_below :
      (name : String) (ds : List String)
      → All (λ d. In d (service_names all) × (rank d < rank name)) ds
      → Lower rank (node_map 0 all []) name ds
  deps_below name [] layered = tt
  deps_below name (d ∷ ds) ((listed, lt), layered) =
      let (e, found) = node_map-known 0 all [] d listed in
      ((e, found, lt), deps_below name ds layered)

  services_below :
      (svcs : List Service)
      → Layered rank fuel (service_names all) svcs
      → All (λ s. Lower rank (node_map 0 all []) s.service_name s.depends_on) svcs
  services_below [] layered = tt
  services_below (s ∷ svcs) ((below, deps), layered) =
      (deps_below s.service_name s.depends_on deps, services_below svcs layered)

  all_nodes-below :
      (p : ℕ) (svcs : List Service) (h : Heap)
      → Placed p svcs h
      → Layered rank fuel (service_names all) svcs
      → All (λ p. rank (h p).node_name < fuel) (all_nodes p svcs)
  all_nodes-below p [] h placed layered = tt
  all_nodes-below p (s ∷ svcs) h (here, placed) ((below, deps), layered) =
      (rw here below, all_nodes-below (suc p) svcs h placed layered)

In-names_of : (h : Heap) (n : String) (g : Graph) → Has h g n → In n (names_of h g)
unfolding contains
In-names_of h n [] has = ground arith
In-names_of h n (p ∷ g) has = elim (Bool-cases ((h p).node_name == n)) [
  | inl same ↦ inl ((eq_iff (h p).node_name n).0 same)
  | inr other ↦ inr (In-names_of h n g (rw (other, contains) at has))
]

names_listed :
    (p : ℕ) (svcs : List Service) (h : Heap) (g : Graph)
    → Placed p svcs h
    → All (λ p. Has h g (h p).node_name) (all_nodes p svcs)
    → All (λ s. In s.service_name (names_of h g)) svcs
names_listed p [] h g placed has = tt
names_listed p (s ∷ svcs) h g (here, placed) (first, later) = (
  In-names_of h s.service_name g (subst (Has h g) here first),
  names_listed (suc p) svcs h g placed later,
)

Placed-same :
    (p : ℕ) (svcs : List Service) (h h' : Heap)
    → ((q : ℕ) → (h' q).node_name ≡ (h q).node_name)
    → Placed p svcs h
    → Placed p svcs h'
Placed-same p [] h h' same placed = tt
Placed-same p (s ∷ svcs) h h' same (here, placed) =
    (same p ∙ here, Placed-same (suc p) svcs h h' same placed)

All-In : {A : Type 0} (P : A → Type 0) (xs : List A) (x : A) → All P xs → In x xs → P x
All-In P [] x all listed = elim listed [ ]
All-In P (y ∷ xs) x (here, all) (inl same) = subst P same here
All-In P (y ∷ xs) x (here, all) (inr later) = All-In P xs x all later

service_names-In :
    (s : Service) (svcs : List Service) → In s svcs → In s.service_name (service_names svcs)
service_names-In s [] listed = listed
service_names-In s (t ∷ svcs) (inl same) = inl (ap (λ u. u.service_name) same)
service_names-In s (t ∷ svcs) (inr later) = inr (service_names-In s svcs later)

-- Services that depend only on services of lower rank, with all ranks below the fuel, have an
-- order of deployment: it holds every service, and it is the order of a graph that has an edge
-- for every dependency.
pub build_deployment_order-Ordered :
    (rank : String → ℕ) (fuel : ℕ) (svcs : List Service)
    → Layered rank fuel (service_names svcs) svcs
    → let h = build_service_graph svcs in
      (order : Graph) × (build_deployment_order fuel svcs ≡ some (names_of h order))
      × Ordered h order
      × All (λ s. In s.service_name (names_of h order)) svcs
      × ((s : Service) (d : String)
          → In s svcs
          → In d s.depends_on
          → (q : ℕ) × (e : ℕ) × ((h q).node_name ≡ s.service_name)
            × ((h e).node_name ≡ d)
            × In (some e) (h q).edges)
unfolding build_deployment_order build_service_graph
build_deployment_order-Ordered rank fuel svcs layered =
    let nodes = node_map 0 svcs [] in
    let h₀ = new_nodes svcs in
    let h = connect nodes svcs h₀ in
    let placed : Placed 0 svcs h =
      Placed-same 0 svcs h₀ h (connect-name nodes svcs h₀) (new_nodes-Placed svcs) in
    let named : MapNames nodes h₀ =
      node_map-MapNames 0 svcs [] h₀ (new_nodes-Placed svcs)
        (λ d e found. cc (lookup-nil {V = ℕ} d)) in
    let acyclic : Acyclic h rank =
      connect-Acyclic rank nodes svcs h₀ (new_nodes-Acyclic rank svcs) named
        (services_below rank fuel svcs svcs layered) in
    let (order, resolves, ordered, has) =
      resolve_graph-Ordered h rank fuel (all_nodes 0 svcs) acyclic
        (all_nodes-below rank fuel svcs 0 svcs h placed layered) in
    (
      order,
      resolves,
      ordered,
      names_listed 0 svcs h order placed has,
      λ s d listed needs.
          let (q, at_s) =
            node_map-known 0 svcs [] s.service_name (service_names-In s svcs listed) in
          let (in_names, lt) =
            All-In _ s.depends_on d
              ((All-In
                (λ s.
                  (rank s.service_name < fuel)
                  × All (λ d. In d (service_names svcs) × (rank d < rank s.service_name))
                      s.depends_on)
                svcs s layered listed).1)
              needs in
          let (e, at_d) = node_map-known 0 svcs [] d in_names in
          (
            q,
            e,
            connect-name nodes svcs h₀ q ∙ named s.service_name q at_s,
            connect-name nodes svcs h₀ e ∙ named d e at_d,
            rw at_d at (connect-new nodes svcs s d q h₀ listed needs at_s),
          ),
    )
