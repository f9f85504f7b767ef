-- ===== src/Handlers/Sessions.antt =====
-- A provider at work: requests to its handlers (scale.go, trigger.go, deploy.go, update.go, delete.go), the goroutines that they
-- start, and the messages of its peers (info_room.go), one after the other in any order.
use faasd.Prelude.{ℕ, String, Bool, Option, List, [], ◌∷◌, Map, ◌≢◌, none}
use faasd.Effects.{panic}
use faasd.Catalog.Types.{NodeInfoMsg}
use faasd.Catalog.Gossip.{unpack_node_info_msg, publish_round}
use faasd.Catalog.Gossip.Consistency.{unpack-IsConsistent}
use faasd.Catalog.Invariant.{IsConsistent}
use faasd.Catalog.Reach.{here, publish, Step-IsConsistent, publish_round-ne-panic}
use faasd.Handlers.Server.{Server, in_catalog}
use faasd.Handlers.Scale.{Cluster, ScaleServiceRequest, replica_update}
use faasd.Handlers.Scale.Keeping.{replica_update-IsConsistent}
use faasd.Catalog.Rank.{FaasConfig}
use faasd.Catalog.Stream.{stream_available_functions, stream-IsConsistent}
use faasd.Handlers.Lifecycle.{
  FunctionDeployment, DeleteFunctionRequest, Containers, deploy_handler, update_handler,
  delete_handler,
}
use faasd.Handlers.Lifecycle.Keeping.{
  Keeps-deploy_handler, Keeps-update_handler, Keeps-delete_handler,
}
use faasd.Handlers.Trigger.{Float64}
use faasd.Handlers.Trigger.Proxy.{Network, TriggerRequest}
use faasd.Handlers.Trigger.Handler.{trigger, run_report, run_explore}
use faasd.Handlers.Trigger.Keeping.{trigger-keeps, run_report-keeps, run_explore-keeps}

pub data Event : Type 0 where
  scale_request : Option ScaleServiceRequest → Bool → Event
  function_request : TriggerRequest → Event
  deploy_request : Bool → Option FunctionDeployment → Event
  update_request : Bool → Option FunctionDeployment → Event
  delete_request : Option DeleteFunctionRequest → Event
  report_goroutine : String → Event
  explore_goroutine : String → String → Event
  message : String → NodeInfoMsg → Event
  connection : String → String → Option NodeInfoMsg → Event
  publication : Event

module _ {W F : Type 0} (float : Float64 F) (choose : Map ℕ → W → Option String × W)
    (cluster : Cluster W) (network : Network W) (containers : Containers W)
    (read_config : String → Option FaasConfig) (ping : String → Option ℕ) where
  -- The state that an event leaves, be it by a panic. The reply is that of a new request.
  unfoldable pub handle : Event → Server W → Server W
  handle (scale_request body offloaded) s =
      (replica_update cluster body offloaded (record s { status = none })).1
  handle (function_request r) s =
      (trigger float choose cluster network r (record s { status = none })).1
  handle (deploy_request pull body) s =
      (deploy_handler containers pull body (record s { status = none })).1
  handle (update_request pull body) s =
      (update_handler containers pull body (record s { status = none })).1
  handle (delete_request body) s = (delete_handler containers body (record s { status = none })).1
  handle (connection peer_id ip msg) s =
      (in_catalog (stream_available_functions read_config ping peer_id ip msg) s).1
  handle (report_goroutine f) s = (run_report float choose cluster network f s).1
  handle (explore_goroutine p f) s = (run_explore float choose cluster network p f s).1
  handle (message room msg) s = (in_catalog (unpack_node_info_msg msg room) s).1
  handle publication s = (in_catalog publish_round s).1

  unfoldable pub serve : List Event → Server W → Server W
  unfolding handle
  serve [] s = s
  serve (event ∷ events) s = serve events (handle event s)

  handle-keeps :
      (event : Event) (s : Server W)
      → IsConsistent s.catalog
      → IsConsistent (handle event s).catalog
  unfolding handle
  handle-keeps (scale_request body offloaded) s inv =
      replica_update-IsConsistent cluster body offloaded (record s { status = none }) inv
  handle-keeps (function_request r) s inv =
      trigger-keeps float choose cluster network r (record s { status = none }) inv
  handle-keeps (deploy_request pull body) s inv =
      Keeps-deploy_handler containers pull body (record s { status = none }) inv
  handle-keeps (update_request pull body) s inv =
      Keeps-update_handler containers pull body (record s { status = none }) inv
  handle-keeps (delete_request body) s inv =
      Keeps-delete_handler containers body (record s { status = none }) inv
  handle-keeps (connection peer_id ip msg) s inv =
      stream-IsConsistent read_config ping peer_id ip msg s.catalog inv
  handle-keeps (report_goroutine f) s inv = run_report-keeps float choose cluster network f s inv
  handle-keeps (explore_goroutine p f) s inv =
      run_explore-keeps float choose cluster network p f s inv
  handle-keeps (message room msg) s inv = unpack-IsConsistent room msg s.catalog inv
  handle-keeps publication s inv = Step-IsConsistent (publish s.catalog) inv

  serve-keeps :
      (events : List Event) (s : Server W)
      → IsConsistent s.catalog
      → IsConsistent (serve events s).catalog
  unfolding serve
  serve-keeps [] s inv = inv
  serve-keeps (event ∷ events) s inv =
      serve-keeps events (handle event s) (handle-keeps event s inv)

-- Whatever requests, goroutines and messages a provider with a consistent catalog handles, in
-- whatever order and with whatever panics on the way, its catalog is consistent afterwards, and the
-- goroutine that publishes what it runs does not panic.
pub serve-IsConsistent :
    {W F : Type 0} (float : Float64 F) (choose : Map ℕ → W → Option String × W)
    (cluster : Cluster W) (network : Network W) (containers : Containers W)
    (read_config : String → Option FaasConfig) (ping : String → Option ℕ) (events : List Event)
    (s : Server W)
    → IsConsistent s.catalog
    → let end = serve float choose cluster network containers read_config ping events s in
      IsConsistent end.catalog × (publish_round end.catalog).0 ≢ panic
serve-IsConsistent float choose cluster network containers read_config ping events s inv =
    let kept = serve-keeps float choose cluster network containers read_config ping events s inv in
    (kept, publish_round-ne-panic _ _ kept here)
