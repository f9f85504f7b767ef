-- ===== src/Catalog/Invariant/Steps.antt =====
-- The steps that the operations on the node itself have in common.
use faasd.Prelude.{
  ℕ, suc, String, ◌≡◌, refl, Option, none, some, inl, inr, arith, lookup, insert, Option-cases,
}
use faasd.Effects.{return, panic}
use faasd.Catalog.Types.{FunctionStatus, Node, Catalog, self_catalog_key}
use faasd.Catalog.Local.{update_node, publish_info}
use faasd.Catalog.Cluster.{total_replicas, updatet_replicas_with_function_name}
use faasd.Catalog.Invariant.{IsConsistent, same_info-IsConsistent}

abbrev pub with_node : String → Node → Catalog → Catalog
with_node key node c = record c { node_catalog = insert key node c.node_catalog }

pub update_node-found :
    (key : String) (f : Node → Option Node) (c : Catalog) (node node' : Node)
    → lookup key c.node_catalog ≡ some node
    → f node ≡ some node'
    → update_node key f c ≡ (return tt, with_node key node' c)
unfolding update_node
update_node-found key f c node node' found result = ground arith

pub update_node-missing :
    (key : String) (f : Node → Option Node) (c : Catalog)
    → lookup key c.node_catalog ≡ none
    → update_node key f c ≡ (panic, c)
unfolding update_node
update_node-missing key f c missing = ground arith

abbrev pub with_total : String → FunctionStatus → Catalog → Catalog
with_total name fn c = record c {
  function_catalog =
      insert name (record fn { replicas = total_replicas name c.node_catalog }) c.function_catalog;
}

pub updatet-found :
    (name : String) (c : Catalog) (fn : FunctionStatus)
    → lookup name c.function_catalog ≡ some fn
    → updatet_replicas_with_function_name name c ≡ (return tt, with_total name fn c)
unfolding updatet_replicas_with_function_name
updatet-found name c fn found = ground arith

pub updatet-missing :
    (name : String) (c : Catalog)
    → lookup name c.function_catalog ≡ none
    → updatet_replicas_with_function_name name c ≡ (panic, c)
unfolding updatet_replicas_with_function_name
updatet-missing name c missing = ground arith

-- Publishing keeps the invariant, whether it proceeds or not.
pub publish_info-IsConsistent : (c : Catalog) → IsConsistent c → IsConsistent (publish_info c).1
unfolding publish_info
publish_info-IsConsistent c inv = elim (Option-cases (lookup self_catalog_key c.node_catalog)) [
  | inl missing ↦ rw (missing, publish_info) inv
  | inr (node, found) ↦ elim (Option-cases node.info_chan) [
    | inl no_chan ↦ rw (found, no_chan, publish_info) inv
    | inr (sent, chan) ↦
        rw (found, chan, publish_info)
          (same_info-IsConsistent c self_catalog_key node
            (record node { info_chan = some (suc sent) }) found refl inv)
  ]
]

pub publish_info-functions :
    (c : Catalog) → (publish_info c).1.function_catalog ≡ c.function_catalog
unfolding publish_info
publish_info-functions c = ground arith

pub publish_info-returns :
    (c : Catalog) (node : Node) (sent : ℕ)
    → lookup self_catalog_key c.node_catalog ≡ some node
    → node.info_chan ≡ some sent
    → publish_info c
      ≡ (return tt, with_node self_catalog_key (record node { info_chan = some (suc sent) }) c)
unfolding publish_info
publish_info-returns c node sent found chan = ground arith
