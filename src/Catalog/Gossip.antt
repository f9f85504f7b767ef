-- ===== src/Catalog/Gossip.antt =====
-- pkg/provider/catalog/info_room.go: the messages by which nodes tell each other what they run.
-- The bytes on the wire are JSON; a message that does not parse is `none`.
pub mod Visit
pub mod Loop
pub mod Unpack
pub mod Consistency
pub mod RoundTrip
use faasd.Prelude.{
  ℕ, suc, ltb, String, Bool, not, ◌&&◌, ◌||◌, Option, none, some, List, [], ◌∷◌, ◌++◌, Map, lookup,
  insert, is_some, if◌then◌else◌,
}
use faasd.Effects.{Outcome, return, panic, blocked, Action, modify, pure, ◌>>=◌, ◌>>◌}
use faasd.Catalog.Types.{FunctionStatus, NodeInfo, NodeInfoMsg, Node, Catalog, self_catalog_key}
use faasd.Catalog.Local.{update_node}
use faasd.Catalog.Cluster.{held_functions, add_function, updatet_replicas}

unfoldable pub pack_node_info_msg : Map FunctionStatus → NodeInfo → Outcome NodeInfoMsg
unfolding held_functions
pack_node_info_msg catalog info = elim (held_functions catalog info.available_functions_replicas) [
  | return fns ↦ return (record { available_functions = fns; msg_overload = info.overload })
  | panic ↦ panic
  | blocked ↦ blocked
]

-- A first replica of a function gets an execution time.
unfoldable pub ensure_execution_time : FunctionStatus → Node → Node
ensure_execution_time fn node =
    if not (is_some (lookup fn.name node.function_execution_time)) && ltb 0 fn.available_replicas
    then record node {
      info = record node.info {
        function_execution_time = insert fn.name 1 node.function_execution_time;
      };
    }
    else node

-- The node has more replicas of the function than the message before this one said.
unfoldable pub has_new_replicas : FunctionStatus → Node → Bool
has_new_replicas fn node = elim (lookup fn.name node.available_functions_replicas) [
  | none ↦ ltb 0 fn.available_replicas
  | some replica ↦ ltb replica fn.available_replicas
]

-- New replicas get a new chance; storing through an entry that is not there is a nil dereference.
unfoldable pub reset_execution_time : FunctionStatus → Node → Option Node
unfolding has_new_replicas
reset_execution_time fn node =
    if has_new_replicas fn node
    then (elim (lookup fn.name node.function_execution_time) [
      | none ↦ none
      | some _ ↦ some (record node {
        info = record node.info {
          function_execution_time = insert fn.name 1 node.function_execution_time;
        };
      })
    ])
    else some node

-- The loop over the functions of a message; the result is `updateReplicas`.
unfoldable pub unpack_functions : String → Map ℕ → List FunctionStatus → Action Catalog (Map ℕ)
unpack_functions room update_replicas [] = pure update_replicas
unpack_functions room update_replicas (fn ∷ fns) = do
  update_node room (λ node. some (ensure_execution_time fn node))
  update_node room (reset_execution_time fn)
  modify (add_function fn)
  unpack_functions room (insert fn.name fn.available_replicas update_replicas) fns

unfoldable pub set_overload : Bool → Node → Node
set_overload overload node = record node { info = record node.info { overload = overload } }

unfoldable pub set_replicas : Map ℕ → Node → Node
set_replicas replicas node = record node {
  info = record node.info { available_functions_replicas = replicas };
}

unfoldable pub unpack_node_info_msg : NodeInfoMsg → String → Action Catalog (Unit {0})
unpack_node_info_msg msg room = do
  update_node room (λ node. some (set_overload msg.msg_overload node))
  replicas ← unpack_functions room [] msg.available_functions
  update_node room (λ node. some (set_replicas replicas node))
  updatet_replicas

-- One round of publishLoop: a value is received from the channel and its message published. A
-- panic here is in a goroutine of its own, and ends the program. Errors of the topic are logged.
unfoldable pub publish_round : Action Catalog (Option NodeInfoMsg)
publish_round c = elim (lookup self_catalog_key c.node_catalog) [
  | none ↦ (blocked, c)
  | some node ↦ elim node.info_chan [
    | some (suc sent) ↦ elim (pack_node_info_msg c.function_catalog node.info) [
      | return msg ↦ (
        return (some msg),
        record c {
          node_catalog =
              insert self_catalog_key (record node { info_chan = some sent }) c.node_catalog;
        },
      )
      | panic ↦ (panic, c)
      | blocked ↦ (blocked, c)
    ]
    | _ ↦ (blocked, c)
  ]
]

-- subscribeLoop, for the messages that arrive in a room.
unfoldable pub subscribe_loop : String → List (Option NodeInfoMsg) → Action Catalog (Unit {0})
subscribe_loop room [] = pure tt
subscribe_loop room (none ∷ msgs) = subscribe_loop room msgs
subscribe_loop room (some msg ∷ msgs) = do unpack_node_info_msg msg room; subscribe_loop room msgs
