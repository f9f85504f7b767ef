-- ===== src/Catalog/Operations.antt =====
-- Adding, updating and deleting a function of the node itself: the invariant, and what each does.
use faasd.Prelude.{
  ℕ, ◌<◌, String, ◌==◌, ◌≡◌, refl, ◌∙◌, false, Option, none, some, inl, inr, arith, lookup,
  lookup-insert_self, lookup-insert_other, lookup-insert_inv, Option-cases,
}
use faasd.Catalog.Types.{FunctionStatus, Node, Catalog, self_catalog_key}
use faasd.Catalog.Local.{add_to_node, update_in_node, publish_info}
use faasd.Catalog.Cluster.{
  total_replicas, add_function, add_available_functions, update_available_functions,
}
use faasd.Catalog.Invariant.{IsConsistent, LocalChange, LocalChange-IsConsistent}
use faasd.Catalog.Invariant.Steps.{
  with_node, with_total, update_node-found, update_node-missing, updatet-found,
  publish_info-IsConsistent,
}

-- The entry that `add_function` leaves for the function.
abbrev added : FunctionStatus → Option FunctionStatus → FunctionStatus
added status none = status
added status (some fn) = fn

add_function-lookup :
    (status : FunctionStatus) (c : Catalog)
    → lookup status.name (add_function status c).function_catalog
      ≡ some (added status (lookup status.name c.function_catalog))
unfolding add_function
add_function-lookup status c =
    ground (arith, lookup-insert_self status.name status c.function_catalog)

add_function-other :
    (status : FunctionStatus) (c : Catalog) (f : String)
    → (status.name == f) ≡ false
    → lookup f (add_function status c).function_catalog ≡ lookup f c.function_catalog
unfolding add_function
add_function-other status c f other =
    ground (arith, lookup-insert_other status.name f status c.function_catalog)

add_function-nodes :
    (status : FunctionStatus) (c : Catalog) → (add_function status c).node_catalog ≡ c.node_catalog
unfolding add_function
add_function-nodes status c = ground arith

pub total_here :
    (name : String) (fn : FunctionStatus) (c : Catalog) (s : FunctionStatus)
    → fn.name ≡ name
    → lookup name (with_total name fn c).function_catalog ≡ some s
    → (s.replicas ≡ total_replicas name c.node_catalog) × (s.name ≡ name)
total_here name fn c s same h = ground (
  arith,
  lookup-insert_self name (record fn { replicas = total_replicas name c.node_catalog })
      c.function_catalog,
)

module _ (status : FunctionStatus) (c : Catalog) (node : Node)
    (found : lookup self_catalog_key c.node_catalog ≡ some node) where
  abbrev added_fn : FunctionStatus
  added_fn = added status (lookup status.name c.function_catalog)

  added-name : IsConsistent c → added_fn.name ≡ status.name
  added-name inv = elim (Option-cases (lookup status.name c.function_catalog)) [
    | inl absent ↦ rw absent refl
    | inr (fn, present) ↦ rw present (inv.named status.name fn present)
  ]

  -- The catalog that `add_available_functions` publishes.
  after_add : Catalog
  after_add =
      with_total status.name added_fn
        (add_function status (with_node self_catalog_key (add_to_node status node) c))

  add-runs : add_available_functions status c ≡ publish_info after_add
  unfolding add_available_functions after_add
  add-runs =
      rw
        (update_node-found self_catalog_key (λ n. some (add_to_node status n)) c node
          (add_to_node status node) found refl)
        (rw
          (updatet-found status.name
            (add_function status (with_node self_catalog_key (add_to_node status node) c)) added_fn
            (add_function-lookup status (with_node self_catalog_key (add_to_node status node) c)))
          refl)

  after_add-LocalChange :
      IsConsistent c → LocalChange c after_add status.name node (add_to_node status node)
  unfolding after_add add_to_node
  after_add-LocalChange inv = record {
    found = found;
    replaced = add_function-nodes status _;
    same_replicas = λ f other. lookup-insert_other status.name f _ _ other;
    same_functions = λ f other.
        lookup-insert_other status.name f _ _ other ∙ add_function-other status _ f other;
    here_catalogued = λ r held. (_, lookup-insert_self status.name _ _);
    here_total = λ s h.
        total_here status.name added_fn
          (add_function status (with_node self_catalog_key (add_to_node status node) c)) s
          (added-name inv) h;
    here_timed = λ f r held pos. elim (lookup-insert_inv _ _ _ _ _ held) [
      | inl (e, new) ↦ (1, rw (← e) (lookup-insert_self status.name _ _))
      | inr (other, old) ↦
          let (t, h) = inv.timed self_catalog_key node f r found old pos in
          (t, lookup-insert_other status.name f _ _ other ∙ h)
    ];
  }

-- Adding a function keeps the invariant, also where it panics or blocks.
pub add-IsConsistent :
    (status : FunctionStatus) (c : Catalog)
    → IsConsistent c
    → IsConsistent (add_available_functions status c).1
add-IsConsistent status c inv = elim (Option-cases (lookup self_catalog_key c.node_catalog)) [
  | inl missing ↦
      unfold add_available_functions in rw (update_node-missing self_catalog_key _ c missing) inv
  | inr (node, found) ↦ rw (add-runs status c node found) (
      publish_info-IsConsistent _
        (LocalChange-IsConsistent (after_add-LocalChange status c node found inv) inv))
]

module _ (status : FunctionStatus) (c : Catalog) (node : Node) (fn : FunctionStatus)
    (found : lookup self_catalog_key c.node_catalog ≡ some node)
    (present : lookup status.name c.function_catalog ≡ some fn) where
  after_update : Catalog
  after_update =
      with_total status.name fn (with_node self_catalog_key (update_in_node status node) c)

  update-runs : update_available_functions status c ≡ publish_info after_update
  unfolding update_available_functions after_update
  update-runs =
      rw
        (update_node-found self_catalog_key (λ n. some (update_in_node status n)) c node
          (update_in_node status node) found refl)
        (rw
          (updatet-found status.name (with_node self_catalog_key (update_in_node status node) c) fn
            present)
          refl)

  after_update-LocalChange :
      IsConsistent c
      → (0 < status.available_replicas
          → (t : ℕ) × (lookup status.name node.function_execution_time ≡ some t))
      → LocalChange c after_update status.name node (update_in_node status node)
  unfolding after_update update_in_node
  after_update-LocalChange inv timed = record {
    found = found;
    replaced = refl;
    same_replicas = λ f other. lookup-insert_other status.name f _ _ other;
    same_functions = λ f other. lookup-insert_other status.name f _ _ other;
    here_catalogued = λ r held. (_, lookup-insert_self status.name _ _);
    here_total = λ s h.
        total_here status.name fn (with_node self_catalog_key (update_in_node status node) c) s
          (inv.named status.name fn present) h;
    here_timed = λ f r held pos. elim (lookup-insert_inv _ _ _ _ _ held) [
      | inl (e, new) ↦ rw e at (timed (omega arith))
      | inr (other, old) ↦ inv.timed self_catalog_key node f r found old pos
    ];
  }

-- Updating keeps the invariant where the function is catalogued, and where the node has an
-- execution time for it if it is to have replicas.
pub update-IsConsistent :
    (status : FunctionStatus) (c : Catalog) (fn : FunctionStatus)
    → IsConsistent c
    → lookup status.name c.function_catalog ≡ some fn
    → ((node : Node)
        → lookup self_catalog_key c.node_catalog ≡ some node
        → 0 < status.available_replicas
        → (t : ℕ) × (lookup status.name node.function_execution_time ≡ some t))
    → IsConsistent (update_available_functions status c).1
update-IsConsistent status c fn inv present timed =
    elim (Option-cases (lookup self_catalog_key c.node_catalog)) [
      | inl missing ↦
          unfold update_available_functions in
          rw (update_node-missing self_catalog_key _ c missing) inv
      | inr (node, found) ↦ rw (update-runs status c node fn found present) (
          publish_info-IsConsistent _ (
            LocalChange-IsConsistent
              (after_update-LocalChange status c node fn found present inv (timed node found)) inv))
    ]
