-- ===== src/Catalog/Local.antt =====
-- pkg/provider/catalog/catalog_local_level.go: what a node records of its own functions.
use faasd.Prelude.{suc, String, Option, none, some, lookup, insert, delete}
use faasd.Effects.{return, panic, blocked, Action}
use faasd.Catalog.Types.{FunctionStatus, Node, Catalog, self_catalog_key}

-- A pointer into the node catalog: the update is written through it. `none` as the result of the
-- update is a nil dereference.
unfoldable pub update_node : String → (Node → Option Node) → Action Catalog (Unit {0})
update_node key f c = elim (lookup key c.node_catalog) [
  | none ↦ (panic, c)
  | some node ↦ elim (f node) [
    | none ↦ (panic, c)
    | some node' ↦ (return tt, record c { node_catalog = insert key node' c.node_catalog })
  ]
]

unfoldable pub add_to_node : FunctionStatus → Node → Node
add_to_node status node = record node {
  info = record node.info {
    function_execution_time = insert status.name 1 node.function_execution_time;
    available_functions_replicas =
        insert status.name status.available_replicas node.available_functions_replicas;
  };
}

unfoldable pub update_in_node : FunctionStatus → Node → Node
update_in_node status node = record node {
  info = record node.info {
    available_functions_replicas =
        insert status.name status.available_replicas node.available_functions_replicas;
  };
}

unfoldable pub delete_from_node : String → Node → Node
delete_from_node function_name node = record node {
  info = record node.info {
    available_functions_replicas = delete function_name node.available_functions_replicas;
  };
}

-- node.infoChan <- &node.NodeInfo
unfoldable pub publish_info : Action Catalog (Unit {0})
publish_info c = elim (lookup self_catalog_key c.node_catalog) [
  | none ↦ (panic, c)
  | some node ↦ elim node.info_chan [
    | none ↦ (blocked, c)
    | some sent ↦ (
      return tt,
      record c {
        node_catalog =
            insert self_catalog_key (record node { info_chan = some (suc sent) }) c.node_catalog;
      },
    )
  ]
]
