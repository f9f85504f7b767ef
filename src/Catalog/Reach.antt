-- ===== src/Catalog/Reach.antt =====
-- Every interleaving of the operations, each one run to its end: what the handlers, the gossip and
-- the discovery may do to the catalog, in any order, as the source calls them.
use faasd.Prelude.{
  zero, ℕ, suc, String, ◌≡◌, ◌≢◌, refl, Option, none, some, inl, inr, arith, lookup, Option-cases,
  subst, sym,
}
use faasd.Effects.{panic, ok}
use faasd.Catalog.Types.{FunctionStatus, NodeInfoMsg, Node, Catalog, self_catalog_key}
use faasd.Catalog.Cluster.{
  add_available_functions, update_available_functions, delete_available_functions,
}
use faasd.Catalog.Gossip.{unpack_node_info_msg, publish_round}
use faasd.Catalog.Gossip.Consistency.{unpack-IsConsistent}
use faasd.Catalog.Gossip.RoundTrip.{pack-returns}
use faasd.Catalog.Rank.{FaasConfig, new_node_catalog_entry}
use faasd.Catalog.Startup.{set_up_self, init_info_network}
use faasd.Catalog.Startup.Entry.{new_entry-IsConsistent}
use faasd.Catalog.Invariant.{IsConsistent, same_info-IsConsistent}
use faasd.Catalog.Operations.{add-IsConsistent, update-IsConsistent}
use faasd.Catalog.Deletion.{delete-IsConsistent}

-- scaleDown is the one that calls UpdateAvailableFunctions: of a function that it read from the
-- catalog, with both counts set to 0 (`drop`).
pub data Step : Catalog → Catalog → Type 0 where
  add : (c : Catalog) (status : FunctionStatus) → Step c (add_available_functions status c).1
  drop :
      (c : Catalog) (name : String) (fn : FunctionStatus)
      → lookup name c.function_catalog ≡ some fn
      → Step c (update_available_functions (record fn { available_replicas = 0; replicas = 0 }) c).1
  remove : (c : Catalog) (name : String) → Step c (delete_available_functions name c).1
  receive :
      (c : Catalog) (room : String) (msg : NodeInfoMsg) → Step c (unpack_node_info_msg msg room c).1
  join :
      (c : Catalog) (read_config : String → Option FaasConfig) (ping : String → Option ℕ)
      (peer_id ip : String)
      → Step c (new_node_catalog_entry read_config ping peer_id ip c).1
  set_up : (c : Catalog) (ip : String) → Step c (init_info_network (ok ip) c).1
  publish : (c : Catalog) → Step c (publish_round c).1

pub data Reach (c : Catalog) : Catalog → Type 0 where
  here : Reach c c
  next : {d e : Catalog} → Reach c d → Step d e → Reach c e

publish_round-IsConsistent : (c : Catalog) → IsConsistent c → IsConsistent (publish_round c).1
unfolding publish_round
publish_round-IsConsistent c inv = elim (Option-cases (lookup self_catalog_key c.node_catalog)) [
  | inl missing ↦ rw (missing, publish_round) inv
  | inr (node, found) ↦ go node found node.info_chan refl
]
  where
    go :
        (node : Node)
        → lookup self_catalog_key c.node_catalog ≡ some node
        → (chan : Option ℕ) → node.info_chan ≡ chan
        → IsConsistent (publish_round c).1
    go node found none e = rw (found, e, publish_round) inv
    go node found (some zero) e = rw (found, e, publish_round) inv
    go node found (some (suc sent)) e =
        let (msg, packs, held, load) = pack-returns c node inv found in
        rw (found, e, packs, publish_round)
          (same_info-IsConsistent c self_catalog_key node (record node { info_chan = some sent })
            found refl inv)

set_up-IsConsistent :
    (c : Catalog) (ip : String) → IsConsistent c → IsConsistent (init_info_network (ok ip) c).1
unfolding init_info_network
set_up-IsConsistent c ip inv = elim (Option-cases (lookup self_catalog_key c.node_catalog)) [
  | inl missing ↦ rw (missing, init_info_network) inv
  | inr (node, found) ↦
      rw (found, init_info_network)
        (same_info-IsConsistent c self_catalog_key node (set_up_self ip node) found
          (unfold set_up_self in refl) inv)
]

pub Step-IsConsistent : {c d : Catalog} → Step c d → IsConsistent c → IsConsistent d
Step-IsConsistent (add c status) inv = add-IsConsistent status c inv
Step-IsConsistent (drop c name fn present) inv =
    update-IsConsistent (record fn { available_replicas = 0; replicas = 0 }) c fn inv
      (subst (λ k. lookup k c.function_catalog ≡ some fn) (sym (inv.named name fn present)) present)
      (λ node found pos. absurd (omega arith))
Step-IsConsistent (remove c name) inv = delete-IsConsistent name c inv
Step-IsConsistent (receive c room msg) inv = unpack-IsConsistent room msg c inv
Step-IsConsistent (join c read_config ping peer_id ip) inv =
    new_entry-IsConsistent read_config ping peer_id ip c inv
Step-IsConsistent (set_up c ip) inv = set_up-IsConsistent c ip inv
Step-IsConsistent (publish c) inv = publish_round-IsConsistent c inv

-- A consistent catalog stays consistent under any sequence of the changes that the source makes:
-- AddAvailableFunctions of any status, DeleteAvailableFunctions of any name, a message of a peer,
-- the entry of a peer, the set-up of the node, a publication, and UpdateAvailableFunctions of a
-- function read from the catalog with both counts set to 0, as scaleDown calls it. An update of a
-- function that is not catalogued, which the source never makes, is not among them.
pub Reach-IsConsistent : {c d : Catalog} → IsConsistent c → Reach c d → IsConsistent d
Reach-IsConsistent inv here = inv
Reach-IsConsistent inv (next r step) = Step-IsConsistent step (Reach-IsConsistent inv r)

-- From a consistent catalog, after any sequence of the changes that the source makes (additions,
-- deletions, messages, entries of peers, set-ups, publications, and updates of a function read
-- from the catalog to no replicas, as scaleDown makes them), the goroutine that publishes does not
-- panic: what the node runs is catalogued when its message is packed.
pub publish_round-ne-panic :
    (c d : Catalog) → IsConsistent c → Reach c d → (publish_round d).0 ≢ panic
publish_round-ne-panic c d start reach bad =
    let inv = Reach-IsConsistent start reach in
    elim (Option-cases (lookup self_catalog_key d.node_catalog)) [
      | inl missing ↦ unfold publish_round in cc (rw (missing, publish_round) at bad)
      | inr (node, found) ↦
          let (msg, packs, held, load) = pack-returns d node inv found in
          unfold publish_round in ground arith
    ]
