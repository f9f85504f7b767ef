-- ===== src/Catalog/Discovery.antt =====
-- The discovery of peers: pkg/provider/catalog/discovery.go in its static mode, and the subscription
-- of info_room.go. The libp2p host, the topics and the files of keys are parameters.
use faasd.Prelude.{
  ℕ, zero, suc, String, ◌==◌, Bool, false, ◌||◌, Option, none, some, List, [], ◌∷◌, ◌++◌, Map,
  lookup, insert, get_or, if◌then◌else◌,
}
use faasd.Effects.{return, panic, Action, pure, deref, ◌>>=◌, ◌>>◌, Result, ok, err}
use faasd.Effects.Calls.{Call}
use faasd.Catalog.Types.{Catalog, NodeInfoMsg, self_catalog_key}
use faasd.Catalog.Gossip.{pack_node_info_msg}
use faasd.Catalog.Rank.{FaasConfig, new_node_catalog_entry}

-- `read_id` is none where the file of a key cannot be read, which panics; `parse_address` fails for
-- a name that is no IP address.
pub record Peers (W : Type 0) : Type 0 where
  pub self_id : String
  pub key_files : W → List String × W
  pub read_id : String → W → Option String × W
  pub parse_address : String → Result (Unit {0})
  pub connect : String → Call W (Unit {0})
  pub topics : W → List String × W
  pub join : String → Call W (Unit {0})
  pub subscribe : String → Call W (Unit {0})
  pub read_config : String → Option FaasConfig
  pub ping : String → Option ℕ

-- `searched` holds the peers for which a goroutine was started, `rooms` the subscribed rooms, with
-- whether the node publishes in it.
pub record Notifiee (W : Type 0) : Type 0 where
  pub world : W
  pub candidate : Map String
  pub catalog : Catalog
  pub searched : List String
  pub rooms : List (String × Bool)

module _ {W : Type 0} (peers : Peers W) where
  abbrev Discovering : Type 0 → Type 0
  Discovering A = Action (Notifiee W) A

  abbrev pub calling : {A : Type 0} → (W → A × W) → Discovering A
  calling m n = (return (m n.world).0, record n { world = (m n.world).1 })

  abbrev pub enter_room : String → Result (Unit {0}) → Discovering (Result (Unit {0}))
  enter_room room (err e) n = (return (err e), n)
  enter_room room (ok a) n =
      (return (ok tt), record n { rooms = n.rooms ++ (room, room == peers.self_id) ∷ [] })

  abbrev pub on_joined : String → Result (Unit {0}) → Discovering (Result (Unit {0}))
  on_joined room (err e) = pure (err e)
  on_joined room (ok a) = calling (peers.subscribe room) >>= enter_room room

  -- The loop that publishes, or that receives, is started.
  unfoldable pub subscribe_info_room : String → Discovering (Result (Unit {0}))
  subscribe_info_room room = calling (peers.join room) >>= on_joined room

  unfoldable pub has_subscribed : String → List String → Bool
  has_subscribed room [] = false
  has_subscribed room (topic ∷ topics) = topic == room || has_subscribed room topics

  -- log.Fatal ends the program.
  abbrev pub or_fatal : Result (Unit {0}) → Discovering (Unit {0})
  or_fatal (ok a) n = (return tt, n)
  or_fatal (err e) n = (panic, n)

  abbrev pub unless_subscribed : String → List String → Discovering (Unit {0})
  unless_subscribed room topics =
      if has_subscribed room topics then pure tt else (subscribe_info_room room >>= or_fatal)

  abbrev pub on_connect :
      String → Discovering (Unit {0}) → Result (Unit {0}) → Discovering (Unit {0})
  on_connect id retry (ok a) = calling peers.topics >>= unless_subscribed id
  on_connect id retry (err e) = retry

  -- The number of attempts that are left; the sleep between them is left out.
  unfoldable pub connect_retrying : ℕ → String → Discovering (Unit {0})
  unfolding subscribe_info_room has_subscribed
  connect_retrying zero id = pure tt
  connect_retrying (suc left) id =
      calling (peers.connect id) >>= on_connect id (connect_retrying left id)

  -- HandlePeerFound, with maxRetriesConnection
  unfoldable pub handle_peer_found : String → Discovering (Unit {0})
  unfolding connect_retrying
  handle_peer_found id = connect_retrying 10 id

  abbrev pub spawn_unless_known : String → Discovering (Unit {0})
  spawn_unless_known id n = elim (lookup id n.catalog.node_catalog) [
    | some node ↦ (return tt, n)
    | none ↦ (return tt, record n { searched = n.searched ++ id ∷ [] })
  ]

  abbrev pub set_candidate : String → String → Discovering (Unit {0})
  set_candidate id ip n = (return tt, record n { candidate = insert id ip n.candidate })

  -- An address that does not parse ends the loop.
  abbrev pub on_address :
      String → Discovering (Result (Unit {0})) → Result (Unit {0}) → Discovering (Result (Unit {0}))
  on_address id rest (err e) = pure (err e)
  on_address id rest (ok a) = spawn_unless_known id >> rest

  abbrev pub on_peer :
      String → Discovering (Result (Unit {0})) → String → Discovering (Result (Unit {0}))
  on_peer ip rest id =
      if id == peers.self_id
      then rest
      else (set_candidate id ip >> on_address id rest (peers.parse_address ip))

  unfoldable pub add_peers : List String → Discovering (Result (Unit {0}))
  unfolding insert lookup
  add_peers [] = pure (ok tt)
  add_peers (ip ∷ ips) = calling (peers.read_id ip) >>= deref >>= on_peer ip (add_peers ips)

  unfoldable pub static_discovery : Discovering (Result (Unit {0}))
  unfolding add_peers
  static_discovery = calling peers.key_files >>= add_peers

  -- Connected: the entry of the peer, and the message of the goroutine that is started, which the
  -- peer receives on the stream. An unknown peer has the empty address.
  unfoldable pub connected : String → Discovering (Unit {0})
  unfolding new_node_catalog_entry
  connected peer_id n =
      let (r, c) =
        new_node_catalog_entry peers.read_config peers.ping peer_id
          (get_or "" (lookup peer_id n.candidate)) n.catalog in
      (r, record n { catalog = c })

  unfoldable pub initial_message : Discovering NodeInfoMsg
  unfolding pack_node_info_msg
  initial_message n = elim (lookup self_catalog_key n.catalog.node_catalog) [
    | none ↦ (panic, n)
    | some node ↦ (pack_node_info_msg n.catalog.function_catalog node.info, n)
  ]
