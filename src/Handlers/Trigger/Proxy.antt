-- ===== src/Handlers/Trigger/Proxy.antt =====
-- The request of the trigger handler to the function (offloadRequest and proxyRequest of
-- trigger.go), and the handler itself. What goes over the network is a parameter.
use faasd.Prelude.{
  ℕ, ◌==ℕ◌, String, ◌==◌, Bool, ◌||◌, Option, none, some, lookup, insert, if◌then◌else◌,
}
use faasd.Effects.{Action, deref, pure, ◌>>=◌, ◌>>◌, Result, ok, err}
use faasd.Catalog.Types.{FunctionStatus, FaasClient, Node, self_catalog_key}
use faasd.Catalog.Local.{update_node}
use faasd.Handlers.Server.{
  Server, in_world, in_catalog, write_header, http_error, status_bad_request,
  status_method_not_allowed, status_internal_error, status_service_unavailable,
}
use faasd.Handlers.Trigger.{averaged}

-- What the handler does outside: `wait_ready` is waitDeployReadyAndReport, `resolve` the resolver
-- of this node, `build` is buildProxyRequest, `serve` the reverse proxy for event streams, and
-- `send` gives the status of the response with the milliseconds that it took.
pub record Network (W : Type 0) : Type 0 where
  pub wait_ready : FaasClient → String → W → Result FunctionStatus × W
  pub resolve : String → W → Result (Unit {0}) × W
  pub build : String → W → Result (Unit {0}) × W
  pub serve : String → W → Unit {0} × W
  pub send : String → W → Result (ℕ × ℕ) × W

-- `path_name` is the name in the path, `function_name` the same without the suffix of the
-- namespace; `may_proxy` says whether the method is GET or POST, `event_stream` whether the
-- request accepts one, and `offloaded` is isOffloadRequest.
pub record TriggerRequest : Type 0 where
  pub path_name : String
  pub function_name : String
  pub may_proxy : Bool
  pub event_stream : Bool
  pub offloaded : Bool

-- The moving average; an entry that is not there is a nil dereference.
unfoldable pub store_time : String → ℕ → Node → Option Node
store_time f milliseconds node = elim (lookup f node.function_execution_time) [
  | none ↦ none
  | some before ↦ some (record node {
    info = record node.info {
      function_execution_time =
          insert f (averaged before milliseconds) node.function_execution_time;
    };
  })
]

module _ {W : Type 0} (network : Network W) where
  abbrev Handling : Type 0
  Handling = Action (Server W) (Unit {0})

  -- The end of proxyRequest: a bad request or a failure says nothing of the time of the function.
  unfoldable pub on_response : String → TriggerRequest → Result (ℕ × ℕ) → Handling
  on_response target r (err e) = http_error status_internal_error
  on_response target r (ok (code, milliseconds)) = do
    write_header code
    if code ==ℕ status_bad_request || code ==ℕ status_internal_error
        then pure tt
        else in_catalog (update_node target (store_time r.function_name milliseconds))

  unfoldable pub on_built : String → TriggerRequest → Result (Unit {0}) → Handling
  unfolding on_response
  on_built target r (err e) = http_error status_internal_error
  on_built target r (ok _) =
      if r.event_stream
      then in_world (network.serve r.path_name)
      else (do response ← in_world (network.send r.path_name); on_response target r response)

  unfoldable pub on_resolved : String → TriggerRequest → Result (Unit {0}) → Handling
  unfolding on_built
  on_resolved target r (err e) = http_error status_service_unavailable
  on_resolved target r (ok _) = do
    built ← in_world (network.build r.path_name)
    on_built target r built

  -- resolver.Resolve: the one of this node, or FaasClient.Resolve, which dereferences the client.
  unfoldable pub resolve_at : String → String → Action (Server W) (Result (Unit {0}))
  resolve_at target name s =
      if target == self_catalog_key
      then in_world (network.resolve name) s
      else (do
        node ← deref (lookup target s.catalog.node_catalog)
        client ← deref node.faas_client.client
        pure (ok tt))
          s

  unfoldable pub proxy_request : String → TriggerRequest → Handling
  unfolding on_resolved resolve_at
  proxy_request target r =
      if r.path_name == ""
      then http_error status_bad_request
      else (do resolved ← resolve_at target r.path_name; on_resolved target r resolved)

  unfoldable pub offload_request : String → TriggerRequest → Handling
  unfolding proxy_request
  offload_request target r =
      if r.may_proxy then proxy_request target r else write_header status_method_not_allowed
