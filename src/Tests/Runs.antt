-- ===== src/Tests/Runs.antt =====
-- The catalog of a node that runs `echo` once, beside a peer that runs it twice.
use faasd.Prelude.{
  ℕ, String, ◌==◌, ◌≡◌, refl, true, false, Option, none, some, [], ◌∷◌, lookup, insert, arith,
  if◌then◌else◌,
}
use faasd.Effects.{ok}
use faasd.Catalog.Types.{
  FunctionStatus, NodeInfoMsg, Node, Catalog, no_status, self_catalog_key, new_catalog,
}
use faasd.Catalog.Rank.{
  FaasConfig, new_node_catalog_entry, rank_node_by_rtt, new_node_with_ip, new_faas_client_with_ip,
  sort, insert_sorted, measure, round_trip, node_at_rtt,
}
use faasd.Catalog.Startup.{init_self_catalog, init_functions, init_info_network, set_up_self}
use faasd.Catalog.Startup.Initial.{init_self_catalog-IsConsistent}
use faasd.Catalog.Local.{update_node, add_to_node}
use faasd.Catalog.Gossip.{
  unpack_node_info_msg, unpack_functions, ensure_execution_time, has_new_replicas,
  reset_execution_time, set_overload, set_replicas,
}
use faasd.Catalog.Cluster.{add_function, updatet_replicas, with_totals, sum_replicas}
use faasd.Catalog.Invariant.{IsConsistent}
use faasd.Catalog.Reach.{Reach, here, next, set_up, join, receive, Reach-IsConsistent}

abbrev pub echo : ℕ → FunctionStatus
echo n = record no_status { name = "echo"; image = "echo:1"; replicas = n; available_replicas = n }

abbrev pub no_config : String → Option FaasConfig
no_config ip =
    if ip == "10.0.0.2"
    then some (record {
      config_ip = ip;
      port = "8080";
      path = "";
      config_user = "u";
      config_password = "p";
    })
    else none

abbrev pub ping : String → Option ℕ
ping host = some 7

abbrev pub peer : String
peer = "peer"

abbrev pub peer_msg : NodeInfoMsg
peer_msg = record { available_functions = echo 2 ∷ []; msg_overload = true }

-- The start of the node.
abbrev pub started : Catalog
started = (init_self_catalog no_config ping (ok (echo 1 ∷ [])) (new_catalog 4)).1

pub started-IsConsistent : IsConsistent started
started-IsConsistent =
    (init_self_catalog-IsConsistent no_config ping 4 (echo 1 ∷ []) (omega arith)
      ((refl, omega arith), tt)).1

abbrev pub ready : Catalog
ready = (init_info_network (ok "10.0.0.1") started).1

abbrev pub joined : Catalog
joined = (new_node_catalog_entry no_config ping peer "10.0.0.2" ready).1

abbrev pub met : Catalog
met = (unpack_node_info_msg peer_msg peer joined).1

pub started-met : Reach started met
started-met =
    next (next (next here (set_up started "10.0.0.1")) (join ready no_config ping peer "10.0.0.2"))
      (receive joined peer peer_msg)

pub met-IsConsistent : IsConsistent met
met-IsConsistent = Reach-IsConsistent started-IsConsistent started-met

-- The node of the peer, and the node itself, in `met`.
abbrev pub self_node : Node
self_node = record {
  info = record {
    function_execution_time = ("echo", 1) ∷ [];
    available_functions_replicas = ("echo", 1) ∷ [];
    overload = false;
  };
  metadata = record { ip = "10.0.0.1"; hostname = "" };
  faas_client = record { client = none; p2p_id = "0" };
  info_chan = some 0;
}

abbrev pub peer_node : Node
peer_node = record {
  info = record {
    function_execution_time = ("echo", 1) ∷ [];
    available_functions_replicas = ("echo", 2) ∷ [];
    overload = true;
  };
  metadata = record { ip = "10.0.0.2"; hostname = "" };
  faas_client = record {
    client = some (record { gateway_host = "10.0.0.2:8080"; user = "u"; password = "p" });
    p2p_id = "peer";
  };
  info_chan = none;
}

abbrev pub known : FunctionStatus
known = record (echo 1) { replicas = 3 }

pub met_is : met ≡ record {
  node_catalog = ("0", self_node) ∷ ("peer", peer_node) ∷ [];
  function_catalog = ("echo", known) ∷ [];
  sorted_p2p_id = "0" ∷ "peer" ∷ [];
  sorted_capacity = 4;
}
unfolding unpack_node_info_msg unpack_functions ensure_execution_time has_new_replicas
    reset_execution_time set_overload set_replicas add_function updatet_replicas with_totals
    sum_replicas update_node add_to_node init_self_catalog init_functions init_info_network
    set_up_self new_node_catalog_entry rank_node_by_rtt new_node_with_ip new_faas_client_with_ip
    sort insert_sorted measure round_trip node_at_rtt lookup insert new_catalog
met_is = refl

pub met_self : lookup self_catalog_key met.node_catalog ≡ some self_node
unfolding lookup
met_self = rw met_is refl

pub met_peer : lookup peer met.node_catalog ≡ some peer_node
unfolding lookup
met_peer = rw met_is refl

pub met_echo : lookup "echo" met.function_catalog ≡ some known
unfolding lookup
met_echo = rw met_is refl

pub met_env : lookup "env" met.function_catalog ≡ none
unfolding lookup
met_env = rw met_is refl
