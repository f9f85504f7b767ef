-- ===== src/Catalog/Cluster.antt =====
-- pkg/provider/catalog/catalog_cluster_level.go: the functions of the cluster and their replicas.
use faasd.Prelude.{
  ℕ, ◌+◌, ◌%◌, String, Option, none, some, List, [], ◌∷◌, Map, lookup, insert, delete, get_or,
  if◌then◌else◌, ◌==ℕ◌,
}
use faasd.Effects.{Outcome, return, panic, Action, modify, ◌>>◌, Result, ok, err, failed}
use faasd.Catalog.Types.{
  word, FunctionStatus, Node, Catalog, InfoLevel, local_level, cluster_level, self_catalog_key,
}
use faasd.Catalog.Local.{update_node, add_to_node, update_in_node, delete_from_node, publish_info}

-- replicas += cnt, where the node has the function; in uint64
abbrev pub count_replicas : ℕ → Option ℕ → ℕ
count_replicas replicas none = replicas
count_replicas replicas (some cnt) = (replicas + cnt) % word

-- The loop over the nodes that adds up the replicas.
unfoldable pub sum_replicas : String → Map Node → ℕ → ℕ
sum_replicas function_name [] replicas = replicas
sum_replicas function_name ((key, node) ∷ nodes) replicas =
    sum_replicas function_name nodes
      (count_replicas replicas (lookup function_name node.available_functions_replicas))

abbrev pub total_replicas : String → Map Node → ℕ
total_replicas function_name nodes = sum_replicas function_name nodes 0

unfoldable pub updatet_replicas_with_function_name : String → Action Catalog (Unit {0})
updatet_replicas_with_function_name function_name c =
    elim (lookup function_name c.function_catalog) [
      | none ↦ (panic, c)
      | some fn ↦ (
        return tt,
        record c {
          function_catalog =
              insert function_name
                (record fn { replicas = total_replicas function_name c.node_catalog })
                c.function_catalog;
        },
      )
    ]

-- The loop of updatetReplicas, over the entries of the function catalog.
unfoldable pub with_totals : Map Node → Map FunctionStatus → Map FunctionStatus
with_totals nodes [] = []
with_totals nodes ((function_name, fn) ∷ fns) =
    (function_name, record fn { replicas = total_replicas function_name nodes })
    ∷ with_totals nodes fns

unfoldable pub updatet_replicas : Action Catalog (Unit {0})
updatet_replicas =
    modify (λ c. record c { function_catalog = with_totals c.node_catalog c.function_catalog })

-- Add to the function catalog if not there yet.
unfoldable pub add_function : FunctionStatus → Catalog → Catalog
add_function status c = elim (lookup status.name c.function_catalog) [
  | none ↦ record c { function_catalog = insert status.name status c.function_catalog }
  | some _ ↦ c
]

unfoldable pub add_available_functions : FunctionStatus → Action Catalog (Unit {0})
add_available_functions status = do
  update_node self_catalog_key (λ node. some (add_to_node status node))
  modify (add_function status)
  updatet_replicas_with_function_name status.name
  publish_info

unfoldable pub update_available_functions : FunctionStatus → Action Catalog (Unit {0})
update_available_functions status = do
  update_node self_catalog_key (λ node. some (update_in_node status node))
  updatet_replicas_with_function_name status.name
  publish_info

-- An explicit deletion drops the function where no replica is left in the cluster.
unfoldable pub drop_function : String → Action Catalog (Unit {0})
drop_function function_name c = elim (lookup function_name c.function_catalog) [
  | none ↦ (panic, c)
  | some fn ↦ (
    return tt,
    if fn.replicas ==ℕ 0
        then record c { function_catalog = delete function_name c.function_catalog }
        else c,
  )
]

unfoldable pub delete_available_functions : String → Action Catalog (Unit {0})
delete_available_functions function_name = do
  update_node self_catalog_key (λ node. some (delete_from_node function_name node))
  updatet_replicas_with_function_name function_name
  drop_function function_name
  publish_info

-- The status with the replicas of the node itself, 0 where it has none.
abbrev pub with_local_replicas : String → Node → FunctionStatus → FunctionStatus
with_local_replicas function_name self fn = record fn {
  available_replicas = get_or 0 (lookup function_name self.available_functions_replicas);
}

unfoldable pub get_available_function : String → Action Catalog (Result FunctionStatus)
get_available_function function_name c = elim (lookup function_name c.function_catalog) [
  | none ↦ (return (err failed), c)
  | some fn ↦ elim (lookup self_catalog_key c.node_catalog) [
    | none ↦ (panic, c)
    | some self ↦ (return (ok (with_local_replicas function_name self fn)), c)
  ]
]

-- The statuses of the functions that a node holds; a name that is not catalogued is a nil
-- dereference. Both ListAvailableFunctions and packNodeInfoMsg have this loop.
unfoldable pub held_functions : Map FunctionStatus → Map ℕ → Outcome (List FunctionStatus)
held_functions catalog [] = return []
held_functions catalog ((fname, replica) ∷ held) = elim (lookup fname catalog) [
  | none ↦ panic
  | some fn ↦ elim (held_functions catalog held) [
    | return fns ↦ return (record fn { available_replicas = replica } ∷ fns)
    | stopped ↦ stopped
  ]
]

unfoldable pub cluster_functions : Node → Map FunctionStatus → List FunctionStatus
cluster_functions self [] = []
cluster_functions self ((fname, fn) ∷ fns) =
    with_local_replicas fname self fn ∷ cluster_functions self fns

-- The cluster level reads the node itself only inside the loop.
unfoldable pub list_available_functions : InfoLevel → Action Catalog (List FunctionStatus)
list_available_functions local_level c = elim (lookup self_catalog_key c.node_catalog) [
  | none ↦ (panic, c)
  | some self ↦ (held_functions c.function_catalog self.available_functions_replicas, c)
]
list_available_functions cluster_level c = elim (lookup self_catalog_key c.node_catalog) [
  | none ↦ (elim c.function_catalog [ [] ↦ return [] | _ ∷ _ ↦ panic ], c)
  | some self ↦ (return (cluster_functions self c.function_catalog), c)
]
