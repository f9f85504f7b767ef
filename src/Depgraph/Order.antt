-- ===== src/Depgraph/Order.antt =====
-- A graph without a cycle is resolved: with enough fuel every node comes after those it depends on.
use faasd.Prelude.{
  ℕ, zero, suc, ◌≤◌, ◌<◌, String, ◌≡◌, ◌⊎◌, refl, sym, subst, false, not, ◌&&◌, Option, none, some,
  List, [], ◌∷◌, ◌++◌, inl, inr, arith, All, In, eq_iff, eq_refl, Bool-cases,
}
use faasd.Depgraph.{
  Heap, Graph, contains, remove, Resolution, done, visit_edges, settle, resolve, resolve_nodes,
  resolve_graph, names_of,
}
use faasd.Depgraph.Graphs.{Has, contains-append_one, contains-remove, Ordered, empty, last, Acyclic}

module _ (h : Heap) (rank : String → ℕ) where
  -- A run from `r` and `u` that goes through: it ends in order, with nothing lost, and what is
  -- unresolved is resolved or was unresolved before.
  pub record Runs (r u : Graph) (result : Resolution) : Type 0 where
    pub r' : Graph
    pub u' : Graph
    pub is_done : result ≡ done r' u'
    pub ordered : Ordered h r'
    pub extends : (n : String) → Has h r n → Has h r' n
    pub pending : (n : String) → Has h u' n → Has h r' n ⊎ Has h u n

  -- What is unresolved and not resolved has rank `k` at least.
  abbrev Above : ℕ → Graph → Graph → Type 0
  Above k r u = (n : String) → Has h u n → Has h r n ⊎ k ≤ rank n

  head_lower :
      (e : ℕ) (edges : List (Option ℕ)) (k : ℕ)
      → ((edge : Option ℕ)
          → In edge (some e ∷ edges)
          → (e' : ℕ) × (edge ≡ some e') × rank (h e').node_name < k)
      → rank (h e).node_name < k
  head_lower e edges k lower =
      let (e', same, low) = lower (some e) (inl refl) in let eq : e ≡ e' = ground arith in rw eq low

  -- A node of low rank is not taken for a circular dependency.
  uncut :
      (e k : ℕ) (r u : Graph)
      → rank (h e).node_name < k
      → Above k r u
      → (not (contains h (h e).node_name r) && contains h (h e).node_name u) ≡ false
  uncut e k r u low above = elim (Bool-cases (contains h (h e).node_name u)) [
    | inr absent ↦ rw absent (ground arith)
    | inl there ↦ elim (above (h e).node_name there) [
      | inl settled ↦ rw settled refl
      | inr ge ↦ absurd (omega arith)
    ]
  ]

  -- The loop over the edges goes through where each visit does.
  visit_edges-Runs :
      (visit : ℕ → Graph → Graph → Resolution) (k : ℕ)
      → ((e : ℕ) (r u : Graph)
          → rank (h e).node_name < k
          → Ordered h r
          → Above k r u
          → (run : Runs r u (visit e r u)) × Has h run.r' (h e).node_name)
      → (edges : List (Option ℕ)) (r u : Graph)
      → ((edge : Option ℕ) → In edge edges → (e : ℕ) × (edge ≡ some e) × rank (h e).node_name < k)
      → Ordered h r
      → Above k r u
      → (run : Runs r u (visit_edges visit h edges r u)) × ((edge : Option ℕ)
          → In edge edges
          → (e : ℕ) × (edge ≡ some e) × Has h run.r' (h e).node_name)
  unfolding visit_edges
  visit_edges-Runs visit k each [] r u lower ord above = (
    record {
      r' = r;
      u' = u;
      is_done = refl;
      ordered = ord;
      extends = λ n has. has;
      pending = λ n has. inr has;
    },
    λ edge listed. elim listed [ ],
  )
  visit_edges-Runs visit k each (none ∷ edges) r u lower ord above =
      let (e, is_some, low) = lower none (inl refl) in absurd (ground arith)
  visit_edges-Runs visit k each (some e ∷ edges) r u lower ord above =
      let low : rank (h e).node_name < k = head_lower e edges k lower in
      let (first, resolved) = each e r u low ord above in
      let (rest, visited) =
        visit_edges-Runs visit k each edges first.r' first.u'
          (λ edge listed. lower edge (inr listed)) first.ordered
          (λ n has. elim (first.pending n has) [
            | inl settled ↦ inl settled
            | inr was ↦ elim (above n was) [
              | inl settled ↦ inl (first.extends n settled)
              | inr ge ↦ inr ge
            ]
          ]) in
      (
        record {
          r' = rest.r';
          u' = rest.u';
          is_done = rw (uncut e k r u low above, first.is_done, visit_edges) rest.is_done;
          ordered = rest.ordered;
          extends = λ n has. rest.extends n (first.extends n has);
          pending = λ n has. elim (rest.pending n has) [
            | inl settled ↦ inl settled
            | inr was ↦ elim (first.pending n was) [
              | inl settled ↦ inl (rest.extends n settled)
              | inr before ↦ inr before
            ]
          ];
        },
        λ edge listed. elim listed [
          | inl same ↦ (e, sym same, rest.extends (h e).node_name resolved)
          | inr later ↦ visited edge later
        ],
      )

  Has-append_one : (p : ℕ) (g : Graph) (n : String) → Has h g n → Has h (g ++ p ∷ []) n
  Has-append_one p g n has = ground (arith, contains-append_one h n p g)

  Has-last : (p : ℕ) (g : Graph) → Has h (g ++ p ∷ []) (h p).node_name
  Has-last p g = ground (arith, contains-append_one h (h p).node_name p g, eq_refl (h p).node_name)

  was_or_same :
      (p : ℕ) (u : Graph) (n : String) → Has h (u ++ p ∷ []) n → Has h u n ⊎ ((h p).node_name ≡ n)
  was_or_same p u n has = ground (arith, contains-append_one h n p u, eq_iff (h p).node_name n)

  pending_at :
      (p : ℕ) (u : Graph) (n : String) (r r₂ : Graph)
      → ((m : String) → Has h r m → Has h r₂ m)
      → Has h r₂ (h p).node_name
      → Has h r n ⊎ Has h (u ++ p ∷ []) n
      → Has h r₂ n ⊎ Has h u n
  pending_at p u n r r₂ grows self (inl settled) = inl (grows n settled)
  pending_at p u n r r₂ grows self (inr at) = elim (was_or_same p u n at) [
    | inl was ↦ inr was
    | inr same ↦ inl (subst (Has h r₂) same self)
  ]

  settle-Runs :
      (p : ℕ) (r u : Graph) (edges : Resolution)
      → (loop : Runs r (u ++ p ∷ []) edges)
      → ((edge : Option ℕ)
          → In edge (h p).edges
          → (e : ℕ) × (edge ≡ some e) × Has h loop.r' (h e).node_name)
      → (run : Runs r u (settle h p edges)) × Has h run.r' (h p).node_name
  unfolding settle
  settle-Runs p r u edges loop visited = elim (Bool-cases (contains h (h p).node_name loop.r')) [
    | inl known ↦ (
      record {
        r' = loop.r';
        u' = loop.u';
        is_done = rw (loop.is_done, known, settle) refl;
        ordered = loop.ordered;
        extends = loop.extends;
        pending =
            λ n has. pending_at p u n loop.r' loop.r' (λ m kept. kept) known (loop.pending n has);
      },
      known,
    )
    | inr fresh ↦ (
      record {
        r' = loop.r' ++ p ∷ [];
        u' = remove p loop.u';
        is_done = rw (loop.is_done, fresh, settle) refl;
        ordered = last loop.r' p loop.ordered visited fresh;
        extends = λ n has. Has-append_one p loop.r' n (loop.extends n has);
        pending = λ n has.
            pending_at p u n loop.r' (loop.r' ++ p ∷ []) (Has-append_one p loop.r')
              (Has-last p loop.r') (loop.pending n (contains-remove h n p loop.u' has));
      },
      Has-last p loop.r',
    )
  ]

  -- A node is resolved where the fuel exceeds its rank.
  resolve-Runs :
      (acyclic : Acyclic h rank) (fuel p : ℕ) (r u : Graph)
      → rank (h p).node_name < fuel
      → Ordered h r
      → Above (suc (rank (h p).node_name)) r u
      → (run : Runs r u (resolve fuel h p r u)) × Has h run.r' (h p).node_name
  unfolding resolve
  resolve-Runs acyclic zero p r u enough ord above = absurd (omega arith)
  resolve-Runs acyclic (suc fuel) p r u enough ord above =
      let (loop, visited) =
        visit_edges-Runs (resolve fuel h) (rank (h p).node_name)
          (λ e r₂ u₂ low ord₂ above₂. resolve-Runs acyclic fuel e r₂ u₂ (omega arith) ord₂ (λ n has.
            elim (above₂ n has) [ inl settled ↦ inl settled | inr ge ↦ inr (omega arith) ]))
          (h p).edges r (u ++ p ∷ []) (acyclic p) ord
          (λ n has. elim (was_or_same p u n has) [
            | inl was ↦ elim (above n was) [
              | inl settled ↦ inl settled
              | inr ge ↦ inr (omega arith)
            ]
            | inr same ↦ inr (rw same (omega arith))
          ]) in
      settle-Runs p r u _ loop visited

  resolve_nodes-runs :
      (acyclic : Acyclic h rank) (fuel : ℕ) (nodes r u : Graph)
      → All (λ p. rank (h p).node_name < fuel) nodes
      → Ordered h r
      → ((n : String) → Has h u n → Has h r n)
      → (r' : Graph) × (u' : Graph) × (resolve_nodes fuel h nodes r u ≡ done r' u')
        × Ordered h r'
        × ((n : String) → Has h r n → Has h r' n)
        × All (λ p. Has h r' (h p).node_name) nodes
  unfolding resolve_nodes
  resolve_nodes-runs acyclic fuel [] r u enough ord settled = (r, u, refl, ord, λ n has. has, tt)
  resolve_nodes-runs acyclic fuel (p ∷ nodes) r u (first, later) ord settled =
      let (run, here) = resolve-Runs acyclic fuel p r u first ord (λ n has. inl (settled n has)) in
      let (r', u', runs, ord', grows, all) =
        resolve_nodes-runs acyclic fuel nodes run.r' run.u' later run.ordered (λ n has.
          elim (run.pending n has) [
            | inl known ↦ known
            | inr was ↦ run.extends n (settled n was)
          ]) in
      (
        r',
        u',
        rw (run.is_done, resolve_nodes) runs,
        ord',
        λ n has. grows n (run.extends n has),
        (grows (h p).node_name here, all),
      )

-- A graph without a nil edge and without a cycle, as a rank below the fuel that falls along every
-- edge shows, is resolved to an order that has every name of the graph, no name twice, and each
-- node after all that it depends on.
pub resolve_graph-Ordered :
    (h : Heap) (rank : String → ℕ) (fuel : ℕ) (nodes : Graph)
    → Acyclic h rank
    → All (λ p. rank (h p).node_name < fuel) nodes
    → (order : Graph) × (resolve_graph fuel h nodes ≡ some (names_of h order))
      × Ordered h order
      × All (λ p. Has h order (h p).node_name) nodes
unfolding resolve_graph contains
resolve_graph-Ordered h rank fuel nodes acyclic enough =
    let (order, u, runs, ord, grows, all) =
      resolve_nodes-runs h rank acyclic fuel nodes [] [] enough empty (λ n has. has) in
    (order, rw (runs, resolve_graph) refl, ord, all)
