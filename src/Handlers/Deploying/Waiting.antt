-- ===== src/Handlers/Deploying/Waiting.antt =====
-- waitDeployReadyAndReport of deploy.go: the polling for a function that was deployed.
use faasd.Prelude.{ℕ, zero, suc, ltb, String, ◌<>◌, ◌==◌, Option, none, some, if◌then◌else◌}
use faasd.Effects.{Result, ok, err, failed}
use faasd.Effects.Calls.{Call, succeed, fail, ◌>>=◌, attempt}
use faasd.Catalog.Types.{FunctionStatus, self_catalog_key}
use faasd.Handlers.Namespaces.{default_function_namespace}
use faasd.Handlers.Functions.{Engine, Function, get_function, get_function_status}

-- The request to the health URL of a function, and to the gateway of another node.
pub record Probes (W : Type 0) : Type 0 where
  pub health : String → Call W (Unit {0})
  pub remote_function : String → String → Call W FunctionStatus

module _ {W : Type 0} (engine : Engine W) (probes : Probes W) where
  abbrev Tick : Type 0
  Tick = Call W (Option FunctionStatus)

  abbrev pub on_health : FunctionStatus → Result (Unit {0}) → Tick
  on_health status (ok a) = succeed (some status)
  on_health status (err e) = succeed none

  abbrev pub on_found : FunctionStatus → Result Function → Tick
  on_found status (err e) = succeed none
  on_found status (ok fn) =
      attempt (probes.health ("http://" <> (fn.ip <> ":8080/_/health"))) (on_health status)

  abbrev pub on_status : String → Result FunctionStatus → Tick
  on_status name (err e) = succeed none
  on_status name (ok status) =
      if ltb 0 status.available_replicas
      then attempt (get_function engine name default_function_namespace) (on_found status)
      else succeed none

  abbrev pub on_remote : Result FunctionStatus → Tick
  on_remote (ok status) = succeed (some status)
  on_remote (err e) = succeed none

  -- A function of the node itself must run and be healthy, one of another node be found there.
  unfoldable pub tick : String → String → Tick
  unfolding get_function_status get_function
  tick p2p_id name =
      if p2p_id == self_catalog_key
      then attempt (get_function_status engine name default_function_namespace) (on_status name)
      else attempt (probes.remote_function p2p_id name) on_remote

  abbrev pub on_tick : Call W FunctionStatus → Option FunctionStatus → Call W FunctionStatus
  on_tick later (some status) = succeed status
  on_tick later none = later

  -- The ticks that are left before the time is over.
  unfoldable pub wait_ticks : ℕ → String → String → Call W FunctionStatus
  unfolding tick
  wait_ticks zero p2p_id name = fail failed
  wait_ticks (suc left) p2p_id name = tick p2p_id name >>= on_tick (wait_ticks left p2p_id name)

  -- A tick every five seconds, of which eleven fall before the sixty seconds are over.
  unfoldable pub wait_deploy_ready_and_report : String → String → Call W FunctionStatus
  unfolding wait_ticks
  wait_deploy_ready_and_report p2p_id name = wait_ticks 11 p2p_id name
