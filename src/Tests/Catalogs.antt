-- ===== src/Tests/Catalogs.antt =====
-- The theorems on the catalog (pkg/provider/catalog) at the runs of Tests.Runs.
use faasd.Prelude.{
  ℕ, String, ◌≡◌, ◌≢◌, refl, Option, some, List, [], ◌∷◌, In, inl, inr, arith, keys, lookup, insert,
  contains_key, eq_iff, ◌%◌, ◌+◌, ◌-◌,
}
use mathlib.Core.List.{Perm}
use faasd.Effects.{return, panic, ok}
use faasd.Catalog.Types.{FunctionStatus, NodeInfoMsg, Node, Catalog, new_catalog, word}
use faasd.Catalog.Cluster.{
  add_available_functions, update_available_functions, delete_available_functions, sum_replicas,
}
use faasd.Catalog.Gossip.{pack_node_info_msg, unpack_node_info_msg, publish_round}
use faasd.Catalog.Gossip.Unpack
use faasd.Catalog.Gossip.Loop.{message_replicas}
use faasd.Catalog.Gossip.Consistency.{unpack-IsConsistent}
use faasd.Catalog.Gossip.RoundTrip.{gossip_delivers}
use faasd.Catalog.Invariant.{IsConsistent}
use faasd.Catalog.Operations.{add-IsConsistent, update-IsConsistent}
use faasd.Catalog.Deletion.{Forgotten, delete-IsConsistent, delete-function, delete-panics}
use faasd.Catalog.Totals.{plain_sum, sum_replicas-mod}
use faasd.Catalog.Stream.{stream_available_functions, stream-node}
use faasd.Catalog.Rank.{
  new_node_with_ip, new_faas_client_with_ip, measure, round_trip, rank_node_by_rtt, rtts,
  new_node_catalog_entry,
}
use faasd.Catalog.Rank.Sorting.{IsSorted}
use faasd.Catalog.Rank.Ranking.{ids, rank-order, rank-tie}
use faasd.Catalog.Startup.{init_self_catalog}
use faasd.Catalog.Startup.Initial.{init_self_catalog-IsConsistent}
use faasd.Catalog.Startup.Entry.{new_entry-IsConsistent}
use faasd.Catalog.Reach.{Reach, next, add, Reach-IsConsistent, publish_round-ne-panic}
use faasd.Tests.Runs.{
  echo, no_config, ping, peer, peer_msg, started, started-IsConsistent, met, started-met,
  met-IsConsistent, self_node, peer_node, known, met_is, met_self, met_peer, met_echo, met_env,
}

-- One more function on the node, which has its information to send then.
abbrev env : FunctionStatus
env = record (echo 1) { name = "env" }

abbrev busy : Catalog
busy = (add_available_functions env met).1

started-busy : Reach started busy
started-busy = next started-met (add met env)

publish_round-ne-panic_example : (publish_round busy).0 ≢ panic
publish_round-ne-panic_example =
    publish_round-ne-panic started busy started-IsConsistent started-busy

Reach-IsConsistent_example : IsConsistent busy
Reach-IsConsistent_example = Reach-IsConsistent started-IsConsistent started-busy

-- The peer's catalog, in which this node is the room "0" of its own.
gossip_delivers_example :
    (msg : NodeInfoMsg) × (entry' : Node) × (pack_node_info_msg met.function_catalog self_node.info
      ≡ return msg)
    × (lookup peer (unpack_node_info_msg msg peer met).1.node_catalog ≡ some entry')
    × ((f : String)
        → lookup f entry'.available_functions_replicas
          ≡ lookup f self_node.available_functions_replicas)
    × (entry'.overload ≡ self_node.overload)
gossip_delivers_example =
    gossip_delivers met met self_node peer_node peer met-IsConsistent met_self
      (unfold contains_key lookup in refl, tt) met_peer

unpack-IsConsistent_example : IsConsistent (unpack_node_info_msg peer_msg peer met).1
unpack-IsConsistent_example = unpack-IsConsistent peer peer_msg met met-IsConsistent

unpack-returns_example : (unpack_node_info_msg peer_msg peer met).0 ≡ return tt
unpack-returns_example = Unpack.unpack-returns peer peer_msg met peer_node met_peer

unpack-node_example :
    (node' : Node) × (lookup peer (unpack_node_info_msg peer_msg peer met).1.node_catalog
      ≡ some node')
    × (node'.available_functions_replicas ≡ message_replicas [] peer_msg.available_functions)
    × (node'.overload ≡ peer_msg.msg_overload)
    × (node'.info_chan ≡ peer_node.info_chan)
unpack-node_example = Unpack.unpack-node peer peer_msg met peer_node met_peer

add-IsConsistent_example : IsConsistent (add_available_functions env met).1
add-IsConsistent_example = add-IsConsistent env met met-IsConsistent

update-IsConsistent_example : IsConsistent (update_available_functions (echo 0) met).1
update-IsConsistent_example =
    update-IsConsistent (echo 0) met known met-IsConsistent met_echo
      (λ node found pos. absurd (omega arith))

delete-IsConsistent_example : IsConsistent (delete_available_functions "echo" met).1
delete-IsConsistent_example = delete-IsConsistent "echo" met met-IsConsistent

delete-function_example :
    Forgotten "echo" known self_node met (delete_available_functions "echo" met).1
delete-function_example = delete-function "echo" met self_node known met_self met_echo

delete-panics_example : (delete_available_functions "env" met).0 ≡ panic
delete-panics_example = delete-panics "env" met met_env

met_measured : measure ping met.node_catalog ≡ return ((0, "0") ∷ (7, "peer") ∷ [])
unfolding measure round_trip
met_measured = rw met_is refl

rank-order_example :
    (order : List (ℕ × String)) × Perm order ((0, "0") ∷ (7, "peer") ∷ [])
    × ids ((0, "0") ∷ (7, "peer") ∷ []) ≡ keys met.node_catalog
    × IsSorted (rtts order)
    × (rank_node_by_rtt ping met).0 ≡ return tt
    × (rank_node_by_rtt ping met).1.sorted_p2p_id ≡ ids order
rank-order_example =
    rank-order ping met ((0, "0") ∷ (7, "peer") ∷ []) met_measured (rw met_is (omega arith))
      ((λ e. absurd (omega arith), tt), (tt, tt))

abbrev near : String → Option ℕ
near host = some 0

met_tied : measure near met.node_catalog ≡ return ((0, "0") ∷ (0, "peer") ∷ [])
unfolding measure round_trip
met_tied = rw met_is refl

rank-tie_example : ¬ In "0" (rank_node_by_rtt near met).1.sorted_p2p_id
rank-tie_example =
    rank-tie near met 0 "0" ((0, "peer") ∷ []) met_tied (rw met_is (omega arith)) (inl refl)
      (λ listed. elim listed [ inl e ↦ ground (arith, eq_iff "peer" "0") | inr h ↦ h ])

init_self_catalog-IsConsistent_example :
    let end = init_self_catalog no_config ping (ok (echo 1 ∷ [])) (new_catalog 4) in
    (end.0 ≡ return tt) × IsConsistent end.1
init_self_catalog-IsConsistent_example =
    init_self_catalog-IsConsistent no_config ping 4 (echo 1 ∷ []) (omega arith)
      ((refl, omega arith), tt)

new_entry-IsConsistent_example :
    IsConsistent (new_node_catalog_entry no_config ping "other" "10.0.0.2" met).1
new_entry-IsConsistent_example =
    new_entry-IsConsistent no_config ping "other" "10.0.0.2" met met-IsConsistent

sum_replicas-mod_example :
    sum_replicas "echo" met.node_catalog (word - 1)
    ≡ (word - 1 + plain_sum "echo" met.node_catalog) % word
sum_replicas-mod_example = sum_replicas-mod "echo" met.node_catalog (word - 1) (omega arith)

third_enters : (new_node_catalog_entry no_config ping "third" "10.0.0.2" met).0 ≡ return tt
unfolding new_node_catalog_entry rank_node_by_rtt measure round_trip new_node_with_ip
    new_faas_client_with_ip lookup insert
third_enters = rw met_is refl

stream-node_example :
    let end = stream_available_functions no_config ping "third" "10.0.0.2" (some peer_msg) met in
    (node : Node) × (end.0 ≡ return tt)
    × (lookup "third" end.1.node_catalog ≡ some node)
    × (node.available_functions_replicas ≡ message_replicas [] peer_msg.available_functions)
    × (node.overload ≡ peer_msg.msg_overload)
stream-node_example = stream-node no_config ping "third" "10.0.0.2" peer_msg met third_enters
