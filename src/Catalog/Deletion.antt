-- ===== src/Catalog/Deletion.antt =====
-- DeleteAvailableFunctions: the invariant, and when the function leaves the catalog.
use faasd.Prelude.{
  suc, String, ◌==◌, ◌==ℕ◌, ◌∙◌, ◌≡◌, refl, ap, false, none, some, inl, inr, arith, lookup, insert,
  delete, lookup-insert_self, lookup-insert_other, lookup-delete, Option-cases, String-cases,
  if◌then◌else◌, eq_refl,
}
use faasd.Effects.{Outcome, return, panic, blocked}
use faasd.Catalog.Types.{FunctionStatus, Node, Catalog, self_catalog_key}
use faasd.Catalog.Local.{delete_from_node, publish_info}
use faasd.Catalog.Cluster.{total_replicas, drop_function, delete_available_functions}
use faasd.Catalog.Invariant.{IsConsistent, LocalChange, LocalChange-IsConsistent}
use faasd.Catalog.Invariant.Steps.{
  with_node, with_total, update_node-found, update_node-missing, updatet-found, updatet-missing,
  publish_info-IsConsistent, publish_info-functions,
}

module _ (name : String) (c : Catalog) (node : Node)
    (found : lookup self_catalog_key c.node_catalog ≡ some node) where
  -- The catalog without the function in the entry of the node itself.
  without : Catalog
  without = with_node self_catalog_key (delete_from_node name node) c

  delete-gone : lookup name (delete name node.available_functions_replicas) ≡ none
  delete-gone = rw (lookup-delete name name node.available_functions_replicas, eq_refl name)

  without-panics :
      lookup name c.function_catalog ≡ none → delete_available_functions name c ≡ (panic, without)
  unfolding delete_available_functions without
  without-panics absent =
      rw
        (update_node-found self_catalog_key (λ n. some (delete_from_node name n)) c node
          (delete_from_node name node) found refl)
        (rw
          (updatet-missing name (with_node self_catalog_key (delete_from_node name node) c) absent)
          refl)

  without-LocalChange :
      lookup name c.function_catalog ≡ none
      → IsConsistent c
      → LocalChange c without name node (delete_from_node name node)
  unfolding without delete_from_node
  without-LocalChange absent inv = record {
    found = found;
    replaced = refl;
    same_replicas = λ f other. rw (lookup-delete name f node.available_functions_replicas, other);
    same_functions = λ f other. refl;
    here_catalogued = λ r held. cc delete-gone;
    here_total = λ s h. cc;
    here_timed = λ f r held pos. elim (String-cases name f) [
      | inl (e, test) ↦
          cc (delete-gone, ap (λ k. lookup k (delete name node.available_functions_replicas)) e)
      | inr (e, test) ↦
          inv.timed self_catalog_key node f r found
            (rw (lookup-delete name f node.available_functions_replicas, test) at held) pos
    ];
  }

  module _ (fn : FunctionStatus) (present : lookup name c.function_catalog ≡ some fn) where
    after_delete : Catalog
    unfolding without
    after_delete =
        if total_replicas name without.node_catalog ==ℕ 0
        then record without {
          function_catalog = delete name (with_total name fn without).function_catalog;
        }
        else with_total name fn without

    drop-runs : drop_function name (with_total name fn without) ≡ (return tt, after_delete)
    unfolding drop_function after_delete
    drop-runs = ground (
      arith,
      lookup-insert_self name (record fn { replicas = total_replicas name without.node_catalog })
          c.function_catalog,
    )

    delete-runs : delete_available_functions name c ≡ publish_info after_delete
    unfolding delete_available_functions without
    delete-runs =
        rw
          (update_node-found self_catalog_key (λ n. some (delete_from_node name n)) c node
            (delete_from_node name node) found refl)
          (rw
            (updatet-found name (with_node self_catalog_key (delete_from_node name node) c) fn
              present)
            (rw drop-runs refl))

    after_delete-function : lookup name after_delete.function_catalog ≡ (
        if total_replicas name without.node_catalog ==ℕ 0
        then none
        else some (record fn { replicas = total_replicas name without.node_catalog }))
    unfolding after_delete
    after_delete-function =
        let fns = (with_total name fn without).function_catalog in
        ground (
          arith,
          lookup-delete name name fns,
          eq_refl name,
          lookup-insert_self name
              (record fn { replicas = total_replicas name without.node_catalog })
              c.function_catalog,
        )

    after_delete-other :
        (f : String)
        → (name == f) ≡ false
        → lookup f after_delete.function_catalog ≡ lookup f c.function_catalog
    unfolding after_delete without
    after_delete-other f other =
        let fns = (with_total name fn without).function_catalog in
        ground (
          arith,
          lookup-delete name f fns,
          lookup-insert_other name f
              (record fn { replicas = total_replicas name without.node_catalog })
              c.function_catalog,
        )

    after_delete-nodes : after_delete.node_catalog ≡ without.node_catalog
    unfolding after_delete
    after_delete-nodes = ground arith

    after_delete-total :
        (s : FunctionStatus)
        → fn.name ≡ name
        → lookup name after_delete.function_catalog ≡ some s
        → (s.replicas ≡ total_replicas name after_delete.node_catalog) × (s.name ≡ name)
    after_delete-total s same h = rw after_delete-nodes (ground (arith, after_delete-function))

    after_delete-LocalChange :
        IsConsistent c → LocalChange c after_delete name node (delete_from_node name node)
    unfolding delete_from_node
    after_delete-LocalChange inv = record {
      found = found;
      replaced = unfold without in after_delete-nodes;
      same_replicas = λ f other. rw (lookup-delete name f node.available_functions_replicas, other);
      same_functions = after_delete-other;
      here_catalogued = λ r held. cc delete-gone;
      here_total = λ s h. after_delete-total s (inv.named name fn present) h;
      here_timed = λ f r held pos. elim (String-cases name f) [
        | inl (e, test) ↦
            cc (delete-gone, ap (λ k. lookup k (delete name node.available_functions_replicas)) e)
        | inr (e, test) ↦
            inv.timed self_catalog_key node f r found
              (rw (lookup-delete name f node.available_functions_replicas, test) at held) pos
      ];
    }

-- Deleting a function keeps the invariant, also where it panics or blocks.
pub delete-IsConsistent :
    (name : String) (c : Catalog)
    → IsConsistent c
    → IsConsistent (delete_available_functions name c).1
delete-IsConsistent name c inv = elim (Option-cases (lookup self_catalog_key c.node_catalog)) [
  | inl missing ↦
      unfold delete_available_functions in rw (update_node-missing self_catalog_key _ c missing) inv
  | inr (node, found) ↦ elim (Option-cases (lookup name c.function_catalog)) [
    | inl absent ↦
        rw (without-panics name c node found absent)
          (LocalChange-IsConsistent (without-LocalChange name c node found absent inv) inv)
    | inr (fn, present) ↦ rw (delete-runs name c node found fn present) (
        publish_info-IsConsistent _ (
          LocalChange-IsConsistent (after_delete-LocalChange name c node found fn present inv) inv))
  ]
]

-- What is left of a function in the catalog `d` after its deletion from `c`: no count of the node
-- itself, and the entry of the function has the total over the nodes without that count, in
-- uint64, or is gone where this total is 0.
abbrev pub Forgotten : String → FunctionStatus → Node → Catalog → Catalog → Type 0
Forgotten name fn node c d =
    let left =
      total_replicas name (insert self_catalog_key (delete_from_node name node) c.node_catalog) in
    (lookup name d.function_catalog
      ≡ (if left ==ℕ 0 then none else some (record fn { replicas = left })))
    × ((own : Node) × (lookup self_catalog_key d.node_catalog ≡ some own)
        × (lookup name own.available_functions_replicas ≡ none))

publish_info-replicas :
    (c : Catalog) (node : Node)
    → lookup self_catalog_key c.node_catalog ≡ some node
    → (own : Node) × (lookup self_catalog_key (publish_info c).1.node_catalog ≡ some own)
      × (own.available_functions_replicas ≡ node.available_functions_replicas)
unfolding publish_info
publish_info-replicas c node found = elim (Option-cases node.info_chan) [
  | inl no_chan ↦
      let stuck : publish_info c ≡ (blocked, c) = ground (arith, found, no_chan) in
      (
        node,
        ap (λ (r : Outcome (Unit {0}) × Catalog). lookup self_catalog_key r.1.node_catalog) stuck
            ∙ found,
        refl,
      )
  | inr (sent, chan) ↦ (
    record node { info_chan = some (suc sent) },
    rw (found, chan, publish_info)
        (lookup-insert_self self_catalog_key (record node { info_chan = some (suc sent) })
          c.node_catalog),
    refl,
  )
]

-- After the deletion of a catalogued function on a node that has an entry of its own, this entry has
-- no count for it.
-- With the total over the nodes then, a sum in uint64, the entry of the function is dropped where
-- this sum is 0, which other nodes with replicas can wrap to, and has the sum otherwise.
pub delete-function :
    (name : String) (c : Catalog) (node : Node) (fn : FunctionStatus)
    → lookup self_catalog_key c.node_catalog ≡ some node
    → lookup name c.function_catalog ≡ some fn
    → Forgotten name fn node c (delete_available_functions name c).1
unfolding without
delete-function name c node fn found present = (
  rw
      (
        delete-runs name c node found fn present,
        publish_info-functions (after_delete name c node found fn present),
      )
      (after_delete-function name c node found fn present),
  let (own, there, same) =
        publish_info-replicas (after_delete name c node found fn present)
          (delete_from_node name node)
          (rw (after_delete-nodes name c node found fn present)
            (lookup-insert_self self_catalog_key (delete_from_node name node) c.node_catalog)) in
      (own, rw (delete-runs name c node found fn present) there, ap (lookup name) same ∙ gone),
)
  where
    gone : lookup name (delete_from_node name node).available_functions_replicas ≡ none
    gone = unfold delete_from_node in delete-gone name c node found

-- Deleting a function that is not catalogued panics.
pub delete-panics :
    (name : String) (c : Catalog)
    → lookup name c.function_catalog ≡ none
    → (delete_available_functions name c).0 ≡ panic
delete-panics name c absent = elim (Option-cases (lookup self_catalog_key c.node_catalog)) [
  | inl missing ↦
      unfold delete_available_functions in
      rw (update_node-missing self_catalog_key _ c missing) refl
  | inr (node, found) ↦ rw (without-panics name c node found absent) refl
]
