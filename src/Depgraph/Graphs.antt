-- ===== src/Depgraph/Graphs.antt =====
-- Names in a graph (depgraph.go), and what it is to be in order.
use faasd.Prelude.{
  ℕ, String, ◌==◌, ◌≡◌, true, false, ◌||◌, Option, some, [], ◌∷◌, ◌++◌, arith, In, ◌<◌,
}
use faasd.Depgraph.{Heap, Graph, contains, remove}

module _ (h : Heap) where
  abbrev pub Has : Graph → String → Type 0
  Has g name = contains h name g ≡ true

  pub contains-append_one :
      (name : String) (p : ℕ) (g : Graph)
      → contains h name (g ++ p ∷ []) ≡ (contains h name g || (h p).node_name == name)
  unfolding contains
  contains-append_one name p [] = ground arith
  contains-append_one name p (q ∷ g) = ground (arith, contains-append_one name p g)

  pub contains-remove : (name : String) (p : ℕ) (g : Graph) → Has (remove p g) name → Has g name
  unfolding contains remove
  contains-remove name p [] has = has
  contains-remove name p (q ∷ g) has =
      ground (arith, λ (has' : Has (remove p g) name). contains-remove name p g has')

  -- Every node stands after the nodes it depends on, and no name stands twice.
  pub data Ordered : Graph → Type 0 where
    empty : Ordered []
    last :
        (g : Graph) (p : ℕ)
        → Ordered g
        → ((edge : Option ℕ)
            → In edge (h p).edges
            → (e : ℕ) × (edge ≡ some e) × Has g (h e).node_name)
        → contains h (h p).node_name g ≡ false
        → Ordered (g ++ p ∷ [])

  -- No edge is nil, and each leads to a name of lower rank: the graph has no cycle.
  abbrev pub Acyclic : (String → ℕ) → Type 0
  Acyclic rank =
      (p : ℕ) (edge : Option ℕ)
      → In edge (h p).edges
      → (e : ℕ) × (edge ≡ some e) × rank (h e).node_name < rank (h p).node_name
