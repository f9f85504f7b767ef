-- ===== src/Handlers/Trigger/Handler.antt =====
-- MakeTriggerHandler of trigger.go, and the goroutines that it and scale.go start.
use faasd.Prelude.{
  ℕ, String, ◌==◌, Bool, true, false, Option, none, some, Map, lookup, if◌then◌else◌,
}
use faasd.Effects.{
  Outcome, return, panic, blocked, Action, pure, ◌>>=◌, ◌>>◌, deferred, Result, ok, err,
}
use faasd.Catalog.Types.{FunctionStatus, self_catalog_key}
use faasd.Catalog.Cluster.{add_available_functions}
use faasd.Handlers.Server.{
  Server, in_world, in_catalog, http_error, spawn_explore, status_internal_error,
}
use faasd.Handlers.Scale.{Cluster, deploy_function_by_p2p_id}
use faasd.Handlers.Trigger.{Float64, find_suitable_node, explore_potential_node}
use faasd.Handlers.Trigger.Proxy.{Network, TriggerRequest, offload_request}

module _ {W F : Type 0} (float : Float64 F) (choose : Map ℕ → W → Option String × W)
    (cluster : Cluster W) (network : Network W) where
  abbrev Handling : Type 0
  Handling = Action (Server W) (Unit {0})

  abbrev Found : Type 0
  Found = Result FunctionStatus

  -- The end of a goroutine that waits for a function of this node.
  unfoldable pub on_ready : Found → Handling
  on_ready (err e) s = (return tt, s)
  on_ready (ok fn) s = in_catalog (add_available_functions fn) s

  -- waitDeployReadyAndReport for the client of a node.
  abbrev pub wait_ready_at : String → String → Action (Server W) Found
  wait_ready_at p2p_id f s = elim (lookup p2p_id s.catalog.node_catalog) [
    | none ↦ (panic, s)
    | some node ↦ in_world (network.wait_ready node.faas_client f) s
  ]

  -- The goroutine of scaleUp.
  unfoldable pub run_report : String → Handling
  unfolding on_ready
  run_report f = do fn ← wait_ready_at self_catalog_key f; on_ready fn

  -- The goroutine that tries a first instance at a node.
  unfoldable pub run_explore : String → String → Handling
  unfolding on_ready
  run_explore p2p_id f = do
    ignored ← deploy_function_by_p2p_id cluster f p2p_id
    if p2p_id == self_catalog_key
        then (do fn ← wait_ready_at self_catalog_key f; on_ready fn)
        else pure tt

  unfoldable pub on_explored : String → Outcome (Option String) → Handling
  on_explored f panic s = (panic, s)
  on_explored f blocked s = (blocked, s)
  on_explored f (return none) s = (return tt, s)
  on_explored f (return (some p2p_id)) s = spawn_explore p2p_id f s

  -- The deferred function of the handler.
  unfoldable pub explore : String → String → Handling
  unfolding on_explored
  explore target f s = on_explored f (explore_potential_node target f s.catalog) s

  -- The call of the function at its target.
  unfoldable pub invoke : String → TriggerRequest → Handling
  invoke target r s = elim (lookup target s.catalog.node_catalog) [
    | none ↦ (panic, s)
    | some node ↦ offload_request network target r s
  ]

  -- From the registration of the deferred function on.
  unfoldable pub explore_and_invoke : String → TriggerRequest → Handling
  unfolding explore invoke
  explore_and_invoke target r = deferred (explore target r.function_name) (invoke target r)

  unfoldable pub add_at : String → FunctionStatus → Handling
  add_at target fn =
      if target == self_catalog_key then in_catalog (add_available_functions fn) else pure tt

  -- The function was not there and has been deployed: it is added if it runs on this node.
  unfoldable pub on_deployed : String → TriggerRequest → Found → Handling
  unfolding explore_and_invoke add_at
  on_deployed target r (err e) = http_error status_internal_error
  on_deployed target r (ok fn) = do add_at target fn; explore_and_invoke target r

  unfoldable pub on_target : TriggerRequest → String × Bool → Handling
  unfolding on_deployed
  on_target r (target, false) = explore_and_invoke target r
  on_target r (target, true) = do
    ignored ← deploy_function_by_p2p_id cluster r.function_name target
    fn ← wait_ready_at target r.function_name
    on_deployed target r fn

  unfoldable pub on_known : TriggerRequest → Handling
  unfolding on_target
  on_known r =
      if r.offloaded
      then invoke self_catalog_key r
      else (do target ← find_suitable_node float choose r.function_name; on_target r target)

  -- MakeTriggerHandler
  unfoldable pub trigger : TriggerRequest → Handling
  unfolding on_known
  trigger r s = elim (lookup r.function_name s.catalog.function_catalog) [
    | none ↦ http_error status_internal_error s
    | some fn ↦ on_known r s
  ]
