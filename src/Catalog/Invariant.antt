-- ===== src/Catalog/Invariant.antt =====
-- The invariant of the catalog, and the two ways in which an operation on the node itself keeps it.
pub mod Steps
pub mod Times
use faasd.Prelude.{
  ℕ, ◌<◌, String, ◌==◌, ◌≡◌, refl, sym, ◌∙◌, ap, true, false, Option, none, some, inl, inr, arith,
  eq_iff, Map, lookup, insert, lookup-insert, lookup-insert_inv, String-cases, if◌then◌else◌,
}
use faasd.Catalog.Types.{FunctionStatus, Node, Catalog, self_catalog_key}
use faasd.Catalog.Cluster.{total_replicas}
use faasd.Catalog.Totals.{sum_replicas-insert}

pub record IsConsistent (c : Catalog) : Type 0 where
  -- What the node itself runs is in the function catalog.
  pub catalogued :
      (self : Node) (f : String) (r : ℕ)
      → lookup self_catalog_key c.node_catalog ≡ some self
      → lookup f self.available_functions_replicas ≡ some r
      → (s : FunctionStatus) × (lookup f c.function_catalog ≡ some s)
  -- The replicas of a function are those of all nodes together.
  pub totals :
      (f : String) (s : FunctionStatus)
      → lookup f c.function_catalog ≡ some s
      → s.replicas ≡ total_replicas f c.node_catalog
  pub named : (f : String) (s : FunctionStatus) → lookup f c.function_catalog ≡ some s → s.name ≡ f
  -- A node with a replica of a function has an execution time for it.
  pub timed :
      (p : String) (node : Node) (f : String) (r : ℕ)
      → lookup p c.node_catalog ≡ some node
      → lookup f node.available_functions_replicas ≡ some r
      → 0 < r
      → (t : ℕ) × (lookup f node.function_execution_time ≡ some t)

-- `node'` replaces the entry of the node itself, and only the function `name` is touched.
pub record LocalChange (c c' : Catalog) (name : String) (node node' : Node) : Type 0 where
  pub found : lookup self_catalog_key c.node_catalog ≡ some node
  pub replaced : c'.node_catalog ≡ insert self_catalog_key node' c.node_catalog
  pub same_replicas :
      (f : String)
      → (name == f) ≡ false
      → lookup f node'.available_functions_replicas ≡ lookup f node.available_functions_replicas
  pub same_functions :
      (f : String)
      → (name == f) ≡ false
      → lookup f c'.function_catalog ≡ lookup f c.function_catalog
  pub here_catalogued :
      (r : ℕ)
      → lookup name node'.available_functions_replicas ≡ some r
      → (s : FunctionStatus) × (lookup name c'.function_catalog ≡ some s)
  pub here_total :
      (s : FunctionStatus)
      → lookup name c'.function_catalog ≡ some s
      → (s.replicas ≡ total_replicas name c'.node_catalog) × (s.name ≡ name)
  pub here_timed :
      (f : String) (r : ℕ)
      → lookup f node'.available_functions_replicas ≡ some r
      → 0 < r
      → (t : ℕ) × (lookup f node'.function_execution_time ≡ some t)

module _ {c c' : Catalog} {name : String} {node node' : Node}
    (change : LocalChange c c' name node node') where
  self_after : lookup self_catalog_key c'.node_catalog ≡ some node'
  self_after =
      ap (lookup self_catalog_key) change.replaced
      ∙ lookup-insert self_catalog_key self_catalog_key node' c.node_catalog

  other_after :
      (p : String)
      → (self_catalog_key == p) ≡ false
      → lookup p c'.node_catalog ≡ lookup p c.node_catalog
  other_after p other =
      ap (lookup p) change.replaced
      ∙ rw (lookup-insert self_catalog_key p node' c.node_catalog, other)

  other_total :
      (f : String)
      → (name == f) ≡ false
      → total_replicas f c'.node_catalog ≡ total_replicas f c.node_catalog
  other_total f other =
      ap (total_replicas f) change.replaced
      ∙ sum_replicas-insert f self_catalog_key node node' c.node_catalog 0 change.found
          (change.same_replicas f other)

  pub LocalChange-IsConsistent : IsConsistent c → IsConsistent c'
  LocalChange-IsConsistent inv = record {
    catalogued = λ self f r is_self held.
        let same : some node' ≡ some self = sym self_after ∙ is_self in
        let held' : lookup f node'.available_functions_replicas ≡ some r = cc in
        elim (String-cases name f) [
          | inl (e, test) ↦ rw e at (change.here_catalogued r (rw (← e) at held'))
          | inr (e, test) ↦
              let (s, p) =
                inv.catalogued node f r change.found (sym (change.same_replicas f test) ∙ held') in
              (s, change.same_functions f test ∙ p)
        ];
    totals = λ f s h. elim (String-cases name f) [
      | inl (e, test) ↦ rw e at ((change.here_total s (rw (← e) at h)).0)
      | inr (e, test) ↦
          inv.totals f s (sym (change.same_functions f test) ∙ h) ∙ sym (other_total f test)
    ];
    named = λ f s h. elim (String-cases name f) [
      | inl (e, test) ↦ (change.here_total s (rw (← e) at h)).1 ∙ e
      | inr (e, test) ↦ inv.named f s (sym (change.same_functions f test) ∙ h)
    ];
    timed = λ p n f r is_p held pos. elim (String-cases self_catalog_key p) [
      | inl (e, test) ↦
          let same : some node' ≡ some n = sym self_after ∙ (rw (← e) at is_p) in
          let held' : lookup f node'.available_functions_replicas ≡ some r = cc in
          let (t, h) = change.here_timed f r held' pos in (t, cc)
      | inr (e, test) ↦ inv.timed p n f r (sym (other_after p test) ∙ is_p) held pos
    ];
  }

-- A new entry for a node that holds the same information keeps the invariant.
pub same_info-IsConsistent :
    (c : Catalog) (key : String) (node node' : Node)
    → lookup key c.node_catalog ≡ some node
    → node'.info ≡ node.info
    → IsConsistent c
    → IsConsistent (record c { node_catalog = insert key node' c.node_catalog })
same_info-IsConsistent c key node node' found same inv = record {
  catalogued = λ self f r is_self held. elim (lookup-insert_inv _ _ _ _ _ is_self) [
    | inl (e, new) ↦ inv.catalogued node f r (rw e at found) (replicas f new ∙ held)
    | inr (e, old) ↦ inv.catalogued self f r old held
  ];
  totals = λ f s h.
      inv.totals f s h
      ∙ sym (sum_replicas-insert f key node node' c.node_catalog 0 found (rw same));
  named = inv.named;
  timed = λ p n f r is_p held pos. elim (lookup-insert_inv _ _ _ _ _ is_p) [
    | inl (e, new) ↦
        let (t, h) = inv.timed key node f r found (replicas f new ∙ held) pos in
        (t, times f new ∙ h)
    | inr (e, old) ↦ inv.timed p n f r old held pos
  ];
}
  where
    replicas :
        (f : String) {n : Node}
        → node' ≡ n
        → lookup f node.available_functions_replicas ≡ lookup f n.available_functions_replicas
    replicas f new = cc

    times :
        (f : String) {n : Node}
        → node' ≡ n
        → lookup f n.function_execution_time ≡ lookup f node.function_execution_time
    times f new = cc
