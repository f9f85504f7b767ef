-- ===== src/Catalog/Startup.antt =====
-- How the catalog begins: initSelfCatagory of cmd/provider.go, and what InitInfoNetwork of
-- pkg/provider/catalog/p2p.go writes into the catalog. The host and its rooms are a parameter:
-- the address of the host, or an error where a room or the discovery could not be set up.
pub mod Entry
pub mod Initial
use faasd.Prelude.{ℕ, String, Option, none, some, List, [], ◌∷◌, Map, lookup, insert}
use faasd.Effects.{
  Outcome, return, panic, Action, modify, pure, ◌>>=◌, ◌>>◌, Result, ok, err, failed,
}
use faasd.Catalog.Types.{FunctionStatus, Node, Catalog, self_catalog_key, faas_p2p_ip}
use faasd.Catalog.Local.{update_node, add_to_node}
use faasd.Catalog.Rank.{FaasConfig, new_node_catalog_entry}

-- The loop over the functions that run already.
unfoldable pub init_functions : List FunctionStatus → Action Catalog (Unit {0})
init_functions [] = pure tt
init_functions (fn ∷ fns) = do
  modify (λ c. record c { function_catalog = insert fn.name fn c.function_catalog })
  update_node self_catalog_key (λ node. some (add_to_node fn node))
  init_functions fns

-- `err` for the functions is a panic.
unfoldable pub init_self_catalog :
    (String → Option FaasConfig)
    → (String → Option ℕ)
    → Result (List FunctionStatus)
    → Action Catalog (Unit {0})
init_self_catalog read_config ping (err e) c = (panic, c)
init_self_catalog read_config ping (ok fns) c =
    (do new_node_catalog_entry read_config ping self_catalog_key faas_p2p_ip; init_functions fns) c

unfoldable pub set_up_self : String → Node → Node
set_up_self ip node = record node {
  metadata = record { ip = ip; hostname = "" };
  info_chan = some 0;
}

unfoldable pub init_info_network : Result String → Action Catalog (Result (Unit {0}))
init_info_network (err e) c = (return (err e), c)
init_info_network (ok ip) c = elim (lookup self_catalog_key c.node_catalog) [
  | none ↦ (return (err failed), c)
  | some node ↦ (
    return (ok tt),
    record c { node_catalog = insert self_catalog_key (set_up_self ip node) c.node_catalog },
  )
]
