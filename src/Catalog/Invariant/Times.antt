-- ===== src/Catalog/Invariant/Times.antt =====
-- Writes of execution times (trigger.go, through the pointers of the catalog) keep the invariant.
use faasd.Prelude.{
  ℕ, String, ◌==◌, ◌≡◌, refl, sym, ◌∙◌, ap, Option, some, inl, inr, lookup, insert, subst,
  lookup-insert, lookup-insert_inv, Option-cases, Bool-cases,
}
use faasd.Catalog.Types.{Node, Catalog}
use faasd.Catalog.Local.{update_node}
use faasd.Catalog.Invariant.{IsConsistent}
use faasd.Catalog.Totals.{sum_replicas-insert}

-- The replicas are the same, and no execution time is lost.
pub record OnlyTimes (node node' : Node) : Type 0 where
  pub same_replicas : node'.available_functions_replicas ≡ node.available_functions_replicas
  pub keeps_time :
      (f : String) (t : ℕ)
      → lookup f node.function_execution_time ≡ some t
      → (t' : ℕ) × (lookup f node'.function_execution_time ≡ some t')

pub OnlyTimes-IsConsistent :
    (c : Catalog) (key : String) (node node' : Node)
    → lookup key c.node_catalog ≡ some node
    → OnlyTimes node node'
    → IsConsistent c
    → IsConsistent (record c { node_catalog = insert key node' c.node_catalog })
OnlyTimes-IsConsistent c key node node' found only inv = record {
  catalogued = λ self f r is_self held. elim (lookup-insert_inv _ _ _ _ _ is_self) [
    | inl (e, new) ↦ inv.catalogued node f r (rw e at found) (replicas f new ∙ held)
    | inr (e, old) ↦ inv.catalogued self f r old held
  ];
  totals = λ f s h.
      inv.totals f s h
      ∙ sym (
          sum_replicas-insert f key node node' c.node_catalog 0 found
            (ap (lookup f) only.same_replicas));
  named = inv.named;
  timed = λ p n f r is_p held pos. elim (lookup-insert_inv _ _ _ _ _ is_p) [
    | inl (e, new) ↦
        let (t, h) = inv.timed key node f r found (replicas f new ∙ held) pos in
        let (t', h') = only.keeps_time f t h in (t', times f new ∙ h')
    | inr (e, old) ↦ inv.timed p n f r old held pos
  ];
}
  where
    replicas :
        (f : String) {n : Node}
        → node' ≡ n
        → lookup f node.available_functions_replicas ≡ lookup f n.available_functions_replicas
    replicas f new =
        ap (lookup f) (sym only.same_replicas)
        ∙ ap (λ n. lookup f n.available_functions_replicas) new

    times :
        (f : String) {n : Node}
        → node' ≡ n
        → lookup f n.function_execution_time ≡ lookup f node'.function_execution_time
    times f new = ap (λ n. lookup f n.function_execution_time) (sym new)

-- A write of the time of one function.
pub write-OnlyTimes :
    (f : String) (t : ℕ) (node : Node)
    → OnlyTimes node (record node {
      info = record node.info { function_execution_time = insert f t node.function_execution_time };
    })
write-OnlyTimes f t node = record {
  same_replicas = refl;
  keeps_time = λ g t₀ h. elim (Bool-cases (f == g)) [
    | inl same ↦ (t, rw (lookup-insert f g t node.function_execution_time, same) refl)
    | inr other ↦ (t₀, rw (lookup-insert f g t node.function_execution_time, other) h)
  ];
}

pub written-OnlyTimes :
    (f : String) (t : ℕ) (node node' : Node)
    → some (record node {
      info = record node.info { function_execution_time = insert f t node.function_execution_time };
    })
      ≡ some node'
    → OnlyTimes node node'
written-OnlyTimes f t node node' h =
    let same : record node {
      info = record node.info { function_execution_time = insert f t node.function_execution_time };
    }
        ≡ node' =
      cc in
    subst (OnlyTimes node) same (write-OnlyTimes f t node)

-- An update that writes times only keeps the invariant, also where it panics.
pub update_node-IsConsistent :
    (key : String) (write : Node → Option Node) (c : Catalog)
    → ((node node' : Node) → write node ≡ some node' → OnlyTimes node node')
    → IsConsistent c
    → IsConsistent (update_node key write c).1
unfolding update_node
update_node-IsConsistent key write c only inv = elim (Option-cases (lookup key c.node_catalog)) [
  | inl missing ↦ rw (missing, update_node) inv
  | inr (node, found) ↦ elim (Option-cases (write node)) [
    | inl nil ↦ rw (found, nil, update_node) inv
    | inr (node', writes) ↦
        rw (found, writes, update_node)
          (OnlyTimes-IsConsistent c key node node' found (only node node' writes) inv)
  ]
]
