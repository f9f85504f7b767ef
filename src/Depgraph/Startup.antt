-- ===== src/Depgraph/Startup.antt =====
-- Services whose dependencies have no cycle have an order of deployment (pkg/deployment_order.go).
use faasd.Prelude.{
  ℕ, zero, suc, ◌<◌, ◌==ℕ◌, String, ◌==◌, ◌≡◌, ◌⊎◌, refl, sym, ◌∙◌, Option, some, List, [], ◌∷◌,
  Map, lookup, insert, lookup-insert, lookup-insert_inv, lookup-insert_self, inl, inr, arith, All,
  In, In-append, Bool-cases, Option-cases,
}
use faasd.Depgraph.{Heap}
use faasd.Depgraph.Graphs.{Acyclic}
use faasd.Depgraph.Services.{Service, new_nodes, node_map, add_edge, add_edges, connect}

abbrev pub service_names : List Service → List String
service_names [] = []
service_names (s ∷ svcs) = s.service_name ∷ service_names svcs

add_edge-name :
    (q : ℕ) (edge : Option ℕ) (h : Heap) (p : ℕ) → (add_edge q edge h p).node_name ≡ (h p).node_name
unfolding add_edge
add_edge-name q edge h p = elim (Bool-cases (p ==ℕ q)) [
  | inl same ↦ rw (same, add_edge) refl
  | inr other ↦ rw (other, add_edge) refl
]

add_edge-edges :
    (q : ℕ) (edge listed : Option ℕ) (h : Heap) (p : ℕ)
    → In listed (add_edge q edge h p).edges
    → In listed (h p).edges ⊎ (p ≡ q) × (edge ≡ listed)
unfolding add_edge
add_edge-edges q edge listed h p there = elim (Bool-cases (p ==ℕ q)) [
  | inr other ↦ inl (rw (other, add_edge) at there)
  | inl same ↦ elim (In-append listed (h p).edges (edge ∷ []) (rw (same, add_edge) at there)) [
    | inl old ↦ inl old
    | inr (inl e) ↦ inr (ground arith, e)
    | inr (inr h) ↦ elim h [ ]
  ]
]

-- The map leads from each name to a node of that name.
abbrev pub MapNames : Map ℕ → Heap → Type 0
MapNames nodes h = (d : String) (e : ℕ) → lookup d nodes ≡ some e → (h e).node_name ≡ d

module _ (rank : String → ℕ) where
  add_edge-Acyclic :
      (q e : ℕ) (h : Heap)
      → Acyclic h rank
      → rank (h e).node_name < rank (h q).node_name
      → Acyclic (add_edge q (some e) h) rank
  add_edge-Acyclic q e h acyclic low p edge listed =
      elim (add_edge-edges q (some e) edge h p listed) [
        | inl old ↦
            let (e', is_edge, lt) = acyclic p edge old in
            (e', is_edge, rw (add_edge-name q (some e) h e', add_edge-name q (some e) h p) lt)
        | inr (same, is_edge) ↦ (
          e,
          sym is_edge,
          rw (add_edge-name q (some e) h e, add_edge-name q (some e) h p, same) low,
        )
      ]

  -- Every dependency is the name of a node, and of lower rank than the service.
  abbrev pub Lower : Map ℕ → String → List String → Type 0
  Lower nodes name = All (λ d. (e : ℕ) × (lookup d nodes ≡ some e) × rank d < rank name)

  add_edges-Acyclic :
      (q : ℕ) (nodes : Map ℕ) (ds : List String) (h : Heap)
      → Acyclic h rank
      → MapNames nodes h
      → Lower nodes (h q).node_name ds
      → Acyclic (add_edges q nodes ds h) rank × MapNames nodes (add_edges q nodes ds h)
  unfolding add_edges
  add_edges-Acyclic q nodes [] h acyclic named lower = (acyclic, named)
  add_edges-Acyclic q nodes (d ∷ ds) h acyclic named ((e, found, lt), lower) =
      rw (found, add_edges)
        (add_edges-Acyclic q nodes ds (add_edge q (some e) h)
          (add_edge-Acyclic q e h acyclic (rw (named d e found) lt))
          (λ d' e' there. add_edge-name q (some e) h e' ∙ named d' e' there)
          (rw (add_edge-name q (some e) h q) lower))

  pub connect-Acyclic :
      (nodes : Map ℕ) (svcs : List Service) (h : Heap)
      → Acyclic h rank
      → MapNames nodes h
      → All (λ s. Lower nodes s.service_name s.depends_on) svcs
      → Acyclic (connect nodes svcs h) rank
  unfolding connect
  connect-Acyclic nodes [] h acyclic named lower = acyclic
  connect-Acyclic nodes (s ∷ svcs) h acyclic named (low, lower) =
      elim (Option-cases (lookup s.service_name nodes)) [
        | inl absent ↦ rw (absent, connect) (connect-Acyclic nodes svcs h acyclic named lower)
        | inr (q, found) ↦
            let (acyclic', named') =
              add_edges-Acyclic q nodes s.depends_on h acyclic named
                (rw (named s.service_name q found) low) in
            rw (found, connect)
              (connect-Acyclic nodes svcs (add_edges q nodes s.depends_on h) acyclic' named' lower)
      ]

  pub new_nodes-Acyclic : (svcs : List Service) → Acyclic (new_nodes svcs) rank
  unfolding new_nodes
  new_nodes-Acyclic [] p edge listed = elim listed [ ]
  new_nodes-Acyclic (s ∷ svcs) zero edge listed = elim listed [ ]
  new_nodes-Acyclic (s ∷ svcs) (suc p) edge listed = absurd (bare svcs p edge listed)
    where
      bare : (svcs : List Service) (p : ℕ) (edge : Option ℕ) → In edge (new_nodes svcs p).edges → ⊥
      bare [] p edge listed = listed
      bare (s ∷ svcs) zero edge listed = listed
      bare (s ∷ svcs) (suc p) edge listed = bare svcs p edge listed

-- The services stand in the heap from `p` on.
abbrev pub Placed : ℕ → List Service → Heap → Type 0
Placed p [] h = Unit
Placed p (s ∷ svcs) h = ((h p).node_name ≡ s.service_name) × Placed (suc p) svcs h

Placed-new_nodes :
    (s : Service) (all svcs : List Service) (p : ℕ)
    → Placed p svcs (new_nodes all)
    → Placed (suc p) svcs (new_nodes (s ∷ all))
unfolding new_nodes
Placed-new_nodes s all [] p placed = tt
Placed-new_nodes s all (t ∷ svcs) p (here, placed) =
    (here, Placed-new_nodes s all svcs (suc p) placed)

pub new_nodes-Placed : (svcs : List Service) → Placed 0 svcs (new_nodes svcs)
unfolding new_nodes
new_nodes-Placed [] = tt
new_nodes-Placed (s ∷ svcs) = (refl, Placed-new_nodes s svcs svcs 0 (new_nodes-Placed svcs))

pub node_map-MapNames :
    (p : ℕ) (svcs : List Service) (nodes : Map ℕ) (h : Heap)
    → Placed p svcs h
    → MapNames nodes h
    → MapNames (node_map p svcs nodes) h
unfolding node_map
node_map-MapNames p [] nodes h placed named = named
node_map-MapNames p (s ∷ svcs) nodes h (here, placed) named =
    node_map-MapNames (suc p) svcs (insert s.service_name p nodes) h placed (λ d e found.
      elim (lookup-insert_inv _ _ _ _ _ found) [
        | inl (same, is_p) ↦ rw (← is_p) (here ∙ same)
        | inr (other, old) ↦ named d e old
      ])

-- A name once in the map stays there, and every service gets there.
node_map-kept :
    (p : ℕ) (svcs : List Service) (nodes : Map ℕ) (d : String) (e : ℕ)
    → lookup d nodes ≡ some e
    → (e' : ℕ) × (lookup d (node_map p svcs nodes) ≡ some e')
unfolding node_map
node_map-kept p [] nodes d e found = (e, found)
node_map-kept p (s ∷ svcs) nodes d e found = elim (Bool-cases (s.service_name == d)) [
  | inl same ↦
      node_map-kept (suc p) svcs (insert s.service_name p nodes) d p
        (rw (lookup-insert s.service_name d p nodes, same) refl)
  | inr other ↦
      node_map-kept (suc p) svcs (insert s.service_name p nodes) d e
        (rw (lookup-insert s.service_name d p nodes, other) found)
]

pub node_map-known :
    (p : ℕ) (svcs : List Service) (nodes : Map ℕ) (d : String)
    → In d (service_names svcs)
    → (e : ℕ) × (lookup d (node_map p svcs nodes) ≡ some e)
unfolding node_map
node_map-known p [] nodes d listed = elim listed [ ]
node_map-known p (s ∷ svcs) nodes d (inl same) =
    node_map-kept (suc p) svcs (insert s.service_name p nodes) d p
      (rw same (lookup-insert_self d p nodes))
node_map-known p (s ∷ svcs) nodes d (inr later) =
    node_map-known (suc p) svcs (insert s.service_name p nodes) d later

add_edges-name :
    (q : ℕ) (nodes : Map ℕ) (ds : List String) (h : Heap) (p : ℕ)
    → (add_edges q nodes ds h p).node_name ≡ (h p).node_name
unfolding add_edges
add_edges-name q nodes [] h p = refl
add_edges-name q nodes (d ∷ ds) h p =
    add_edges-name q nodes ds (add_edge q (lookup d nodes) h) p
    ∙ add_edge-name q (lookup d nodes) h p

pub connect-name :
    (nodes : Map ℕ) (svcs : List Service) (h : Heap) (p : ℕ)
    → (connect nodes svcs h p).node_name ≡ (h p).node_name
unfolding connect
connect-name nodes [] h p = refl
connect-name nodes (s ∷ svcs) h p = elim (Option-cases (lookup s.service_name nodes)) [
  | inl absent ↦ rw (absent, connect) (connect-name nodes svcs h p)
  | inr (q, found) ↦
      rw (found, connect)
        (connect-name nodes svcs (add_edges q nodes s.depends_on h) p
          ∙ add_edges-name q nodes s.depends_on h p)
]
