-- ===== src/Catalog/Stream.antt =====
-- The first message of a peer that connects (streamAvailableFunctions of
-- pkg/provider/catalog/catalog_cluster_level.go). The bytes of the stream are a parameter: a message,
-- or none where they are no JSON; a stream that cannot be read ends the program.
use faasd.Prelude.{
  ℕ, String, ◌≡◌, ◌∙◌, ap, Option, none, some, [], inl, inr, arith, lookup, Option-cases,
  lookup-insert_self,
}
use faasd.Effects.{Outcome, return, panic, blocked, Action, and_then, pure, ◌>>◌}
use faasd.Catalog.Types.{NodeInfoMsg, Node, Catalog}
use faasd.Catalog.Gossip.{unpack_node_info_msg}
use faasd.Catalog.Gossip.Loop.{message_replicas}
use faasd.Catalog.Gossip.Unpack
use faasd.Catalog.Gossip.Consistency.{unpack-IsConsistent}
use faasd.Catalog.Rank.{FaasConfig, new_node_with_ip, rank_node_by_rtt, new_node_catalog_entry}
use faasd.Catalog.Startup.Entry.{new_entry-IsConsistent}
use faasd.Catalog.Invariant.{IsConsistent}

-- After the entry is there.
unfoldable pub receive : String → Option NodeInfoMsg → Action Catalog (Unit {0})
receive peer_id none = pure tt
receive peer_id (some msg) = unpack_node_info_msg msg peer_id

unfoldable pub stream_available_functions :
    (String → Option FaasConfig)
    → (String → Option ℕ)
    → String
    → String
    → Option NodeInfoMsg
    → Action Catalog (Unit {0})
unfolding receive
stream_available_functions read_config ping peer_id ip msg =
    new_node_catalog_entry read_config ping peer_id ip >> receive peer_id msg

receive-IsConsistent :
    (peer_id : String) (msg : Option NodeInfoMsg) (c : Catalog)
    → IsConsistent c
    → IsConsistent (receive peer_id msg c).1
unfolding receive
receive-IsConsistent peer_id none c inv = inv
receive-IsConsistent peer_id (some msg) c inv = unpack-IsConsistent peer_id msg c inv

pub stream-IsConsistent :
    (read_config : String → Option FaasConfig) (ping : String → Option ℕ) (peer_id ip : String)
    (msg : Option NodeInfoMsg) (c : Catalog)
    → IsConsistent c
    → IsConsistent (stream_available_functions read_config ping peer_id ip msg c).1
unfolding stream_available_functions
stream-IsConsistent read_config ping peer_id ip msg c inv =
    go (new_node_catalog_entry read_config ping peer_id ip c).0 _
      (new_entry-IsConsistent read_config ping peer_id ip c inv)
  where
    go :
        (r : Outcome (Unit {0})) (d : Catalog)
        → IsConsistent d
        → IsConsistent (and_then r (λ _. receive peer_id msg) d).1
    go (return a) d i = receive-IsConsistent peer_id msg d i
    go panic d i = i
    go blocked d i = i

rank-nodes :
    (ping : String → Option ℕ) (c : Catalog)
    → (rank_node_by_rtt ping c).1.node_catalog ≡ c.node_catalog
unfolding rank_node_by_rtt
rank-nodes ping c = ground arith

-- The peer has an entry afterwards, be it ranked or not.
entry-there :
    (read_config : String → Option FaasConfig) (ping : String → Option ℕ) (peer_id ip : String)
    (c : Catalog)
    → (node : Node) × (lookup peer_id
          (new_node_catalog_entry read_config ping peer_id ip c).1.node_catalog
        ≡ some node)
unfolding new_node_catalog_entry
entry-there read_config ping peer_id ip c = elim (Option-cases (lookup peer_id c.node_catalog)) [
  | inr (node, known) ↦ (node, rw (known, new_node_catalog_entry) known)
  | inl absent ↦ (
    new_node_with_ip read_config ip peer_id,
    rw (absent, new_node_catalog_entry)
        (ap (lookup peer_id) (rank-nodes ping _) ∙ lookup-insert_self peer_id _ c.node_catalog),
  )
]

-- Where the entry of a peer goes through, its first message is taken over: the peer is in the
-- catalog with the replicas and the overload of the message.
pub stream-node :
    (read_config : String → Option FaasConfig) (ping : String → Option ℕ) (peer_id ip : String)
    (msg : NodeInfoMsg) (c : Catalog)
    → (new_node_catalog_entry read_config ping peer_id ip c).0 ≡ return tt
    → let end = stream_available_functions read_config ping peer_id ip (some msg) c in
      (node : Node) × (end.0 ≡ return tt)
      × (lookup peer_id end.1.node_catalog ≡ some node)
      × (node.available_functions_replicas ≡ message_replicas [] msg.available_functions)
      × (node.overload ≡ msg.msg_overload)
unfolding stream_available_functions receive
stream-node read_config ping peer_id ip msg c enters =
    let d = (new_node_catalog_entry read_config ping peer_id ip c).1 in
    let (entry, there) = entry-there read_config ping peer_id ip c in
    let (node, found, replicas, overload, chan) = Unpack.unpack-node peer_id msg d entry there in
    (
      node,
      rw enters (Unpack.unpack-returns peer_id msg d entry there),
      rw enters found,
      replicas,
      overload,
    )
