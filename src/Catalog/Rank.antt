-- ===== src/Catalog/Rank.antt =====
-- RankNodeByRTT of pkg/provider/catalog/faas_client.go, and the entry of a new node into the
-- catalog (catalog.go). What the outside answers is a parameter: the configuration file of a
-- peer, and the average round trip that a pinger measures for the host of a gateway.
pub mod Sorting
pub mod Ranking
use faasd.Prelude.{
  ℕ, leb, ltb, ◌==ℕ◌, String, ◌++◌, ◌==◌, false, Option, none, some, List, [], ◌∷◌, map, length,
  Map, lookup, insert, get_or, if◌then◌else◌,
}
use Prim.Native.String.{◌++◌ as append}
use faasd.Effects.{Outcome, return, panic, blocked, Action}
use faasd.Catalog.Types.{SdkClient, FaasClient, Node, Catalog, self_catalog_key, faas_p2p_ip}

-- The JSON of a file under /opt/faasd/secrets/faasclient/.
pub record FaasConfig : Type 0 where
  pub config_ip : String
  pub port : String
  pub path : String
  pub config_user : String
  pub config_password : String

-- `none`: the file cannot be read, or is no JSON.
unfoldable pub new_faas_client_with_ip : (String → Option FaasConfig) → String → String → FaasClient
new_faas_client_with_ip read_config ip p2p_id =
    if ip == faas_p2p_ip
    then record { client = none; p2p_id = self_catalog_key }
    else (elim (read_config ip) [
      | none ↦ record { client = none; p2p_id = "" }
      | some config ↦ record {
        client = some (record {
          gateway_host = append config.config_ip (append ":" config.port);
          user = config.config_user;
          password = config.config_password;
        });
        p2p_id = p2p_id;
      }
    ])

unfoldable pub new_node_with_ip : (String → Option FaasConfig) → String → String → Node
new_node_with_ip read_config ip p2p_id = record {
  info = record {
    function_execution_time = [];
    available_functions_replicas = [];
    overload = false;
  };
  metadata = record { ip = ip; hostname = "" };
  faas_client = new_faas_client_with_ip read_config ip p2p_id;
  info_chan = none;
}

-- The round trip of one node, 0 for the node itself.
unfoldable pub round_trip : (String → Option ℕ) → String → Node → Outcome ℕ
round_trip ping p2p_id node =
    if p2p_id == self_catalog_key then return 0 else (elim node.faas_client.client [
      | none ↦ panic
      | some client ↦ elim (ping client.gateway_host) [ none ↦ panic | some rtt ↦ return rtt ]
    ])

-- The first loop: each node with its round trip, in the order of the loop.
unfoldable pub measure : (String → Option ℕ) → Map Node → Outcome (List (ℕ × String))
measure ping [] = return []
measure ping ((p2p_id, node) ∷ nodes) = elim (round_trip ping p2p_id node) [
  | panic ↦ panic
  | blocked ↦ blocked
  | return rtt ↦ elim (measure ping nodes) [
    | return rest ↦ return ((rtt, p2p_id) ∷ rest)
    | panic ↦ panic
    | blocked ↦ blocked
  ]
]

-- RTTtoP2PID after the loop: of the nodes with one round trip the last one stays.
unfoldable pub node_at_rtt : ℕ → String → List (ℕ × String) → String
node_at_rtt rtt found [] = found
node_at_rtt rtt found ((r, p2p_id) ∷ rest) =
    node_at_rtt rtt (if r ==ℕ rtt then p2p_id else found) rest

-- slices.Sort
unfoldable pub insert_sorted : ℕ → List ℕ → List ℕ
insert_sorted x [] = x ∷ []
insert_sorted x (y ∷ ys) = if leb x y then x ∷ y ∷ ys else y ∷ insert_sorted x ys

unfoldable pub sort : List ℕ → List ℕ
unfolding insert_sorted
sort [] = []
sort (x ∷ xs) = insert_sorted x (sort xs)

abbrev pub rtts : List (ℕ × String) → List ℕ
rtts [] = []
rtts ((rtt, p2p_id) ∷ rest) = rtt ∷ rtts rest

unfoldable pub rank_node_by_rtt : (String → Option ℕ) → Action Catalog (Unit {0})
unfolding sort node_at_rtt
rank_node_by_rtt ping c = elim (measure ping c.node_catalog) [
  | return measured ↦ if ltb c.sorted_capacity (length (rtts measured)) then (panic, c) else (
    return tt,
    record c { sorted_p2p_id = map (λ rtt. node_at_rtt rtt "" measured) (sort (rtts measured)) },
  )
  | panic ↦ (panic, c)
  | blocked ↦ (blocked, c)
]

unfoldable pub new_node_catalog_entry :
    (String → Option FaasConfig) → (String → Option ℕ) → String → String → Action Catalog (Unit {0})
unfolding rank_node_by_rtt
new_node_catalog_entry read_config ping peer_id ip c = elim (lookup peer_id c.node_catalog) [
  | some _ ↦ (return tt, c)
  | none ↦ rank_node_by_rtt ping (record c {
    node_catalog = insert peer_id (new_node_with_ip read_config ip peer_id) c.node_catalog;
  })
]
