-- ===== src/Tests/Requests.antt =====
-- The theorems on the handlers (pkg/provider/handlers) at a server with the catalog of Tests.Runs.
use faasd.Prelude.{
  ◌≢◌, true, List, ℕ, ltb, String, ◌≡◌, ◌⊎◌, refl, false, not, Option, none, some, [], ◌∷◌, inl,
  arith, Map, lookup,
}
use faasd.Effects.{panic, return, ok, err, failed}
use faasd.Catalog.Types.{self_catalog_key}
use faasd.Catalog.Invariant.{IsConsistent}
use faasd.Handlers.Server.{Server, status_no_content}
use faasd.Handlers.Namespaces.{NamespaceService}
use faasd.Handlers.Scale.{Cluster, ScaleServiceRequest, scale_up_loop, replica_update}
use faasd.Handlers.Scale.Keeping.{replica_update-IsConsistent}
use faasd.Handlers.Scale.Nodes.{without_overloaded, scale_up_loop-without_overloaded}
use faasd.Handlers.Scale.Refusals.{replica_update-refuses}
use faasd.Handlers.Trigger.{
  Float64, load_time, explore_potential_node, scan_nodes, weigh, pick, pick_weighted, schedule,
  weight_exec_time_scheduler, find_suitable_node,
}
use faasd.Handlers.Trigger.Explore.{nearest, is_faster, is_untried, or_else, explore-nearest}
use faasd.Handlers.Trigger.Loops.{Holder}
use faasd.Handlers.Trigger.Schedule.{
  PicksAmong, idle_answer, scheduler-picks, find_suitable_node-nearest,
}
use faasd.Catalog.Gossip.{publish_round}
use faasd.Handlers.Trigger.Proxy.{Network, TriggerRequest}
use faasd.Handlers.Sessions.{
  Event, deploy_request, connection, delete_request, function_request, scale_request,
  report_goroutine, publication, serve, serve-IsConsistent,
}
use faasd.Handlers.Lifecycle.{FunctionDeployment, Containers, update_handler}
use faasd.Handlers.Lifecycle.Replacing.{SameWork, lenient, update-ignores_secrets}
use faasd.Tests.Runs.{
  no_config, ping, peer_msg, echo, met, met-IsConsistent, self_node, peer_node, met_is, met_echo,
}

abbrev pub service : NamespaceService (Unit {0})
service = record {
  list = λ w. (ok ("openfaas-fn" ∷ []), w);
  labels = λ name w. (ok [], w);
  set_label = λ name key value w. (ok tt, w);
  create = λ name labels w. (ok tt, w);
  delete = λ name w. (ok tt, w);
}

-- Deployments on this node fail, and all else goes through.
abbrev cluster : Cluster (Unit {0})
cluster = record {
  namespaces = service;
  validate_secrets = λ secrets w. (ok tt, w);
  deploy_local = λ fn w. (err failed, w);
  delete_local = λ name w. (ok tt, w);
  deploy_at = λ client fn w. (ok tt, w);
  scale_at = λ client name n w. (ok tt, w);
  delete_at = λ client name w. (ok tt, w);
}

abbrev pub server : Server (Unit {0})
server = record { world = tt; catalog = met; status = none; reported = []; explored = [] }

abbrev scale_to : ℕ → ScaleServiceRequest
scale_to n = record { service_name = "echo"; replicas = n }

replica_update-IsConsistent_example :
    IsConsistent (replica_update cluster (some (scale_to 1)) false server).1.catalog
replica_update-IsConsistent_example =
    replica_update-IsConsistent cluster (some (scale_to 1)) false server met-IsConsistent

without_overloaded_example :
    scale_up_loop cluster "echo" 5 ("0" ∷ "peer" ∷ []) 2 server
    ≡ scale_up_loop cluster "echo" 5
        (without_overloaded met.node_catalog ("0" ∷ "peer" ∷ []))
        2
        server
without_overloaded_example =
    scale_up_loop-without_overloaded cluster "echo" 5 ("0" ∷ "peer" ∷ []) 2 met.node_catalog server
      refl

-- `echo` has three replicas already.
replica_update-refuses_example :
    replica_update cluster (some (scale_to 3)) false server
    ≡ (return tt, record server { status = some status_no_content })
replica_update-refuses_example =
    replica_update-refuses cluster (scale_to 3) false status_no_content server refl
      (rw met_echo refl)

met_time : load_time self_catalog_key "echo" met ≡ return 1
unfolding load_time lookup
met_time = rw met_is refl

explore-nearest_example :
    explore_potential_node self_catalog_key "echo" met
    ≡ return (
        or_else
          (nearest (is_faster "echo" 1) met.node_catalog met.sorted_p2p_id)
          (nearest (is_untried "echo") met.node_catalog met.sorted_p2p_id))
explore-nearest_example =
    explore-nearest self_catalog_key "echo" 1 met met_time
      (unfold lookup in rw met_is ((refl, (self_node, refl)), ((refl, (peer_node, refl)), tt)))

-- Numbers in place of floating point, which is enough to run the scheduler.
abbrev numbers : Float64 ℕ
numbers = record {
  of_int = λ n. n;
  max = 1000000;
  is_one = λ n. false;
  less = ltb;
  mul = λ a b. a;
  div = λ a b. a;
  to_uint64 = λ n. n;
}

abbrev first_choice : Map ℕ → Unit {0} → Option String × Unit {0}
first_choice [] w = (none, w)
first_choice ((p, n) ∷ choices) w = (some p, w)

first_choice-PicksAmong : PicksAmong first_choice
first_choice-PicksAmong [] w p h = cc
first_choice-PicksAmong ((q, n) ∷ choices) w p h = inl (ground arith)

met_picks : (weight_exec_time_scheduler numbers first_choice "echo" server).0 ≡ return (ok "0")
unfolding weight_exec_time_scheduler scan_nodes weigh pick pick_weighted schedule lookup
met_picks = rw met_is refl

scheduler-picks_example : Holder "echo" met.node_catalog "0" ⊎ ("0" ≡ self_catalog_key)
scheduler-picks_example =
    scheduler-picks numbers first_choice "echo" server "0" first_choice-PicksAmong met_picks

find_suitable_node-nearest_example : find_suitable_node numbers first_choice "env" server ≡ (
  return (idle_answer (nearest (λ node. not node.overload) met.node_catalog met.sorted_p2p_id)),
  server,
)
find_suitable_node-nearest_example =
    find_suitable_node-nearest numbers first_choice "env" server
      (unfold lookup in rw met_is (refl, (refl, tt)))
      (unfold lookup in rw met_is ((refl, (self_node, refl)), ((refl, (peer_node, refl)), tt)))

abbrev network : Network (Unit {0})
network = record {
  wait_ready = λ client f w. (ok (echo 1), w);
  resolve = λ f w. (ok tt, w);
  build = λ f w. (ok tt, w);
  serve = λ f w. (tt, w);
  send = λ f w. (ok (200, 40), w);
}

abbrev call : TriggerRequest
call = record {
  path_name = "echo";
  function_name = "echo";
  may_proxy = true;
  event_stream = false;
  offloaded = false;
}

abbrev echo_deployment : FunctionDeployment
echo_deployment = record {
  service = "echo";
  image = "echo:2";
  namespace = "";
  env_process = "";
  env_vars = [];
  constraints = [];
  secrets = "token" ∷ [];
  labels = none;
  annotations = none;
  limits = none;
  requests = none;
  read_only_root_filesystem = false;
}

-- No secret is there.
abbrev containers : Containers (Unit {0})
containers = record {
  namespaces = service;
  validate_secrets = λ namespace secrets w. (err failed, w);
  deploy = λ namespace req pull w. (ok tt, w);
  get_function = λ namespace name w. (ok 1, w);
  prepull = λ namespace req pull w. (ok tt, w);
  delete_network = λ namespace name w. (ok tt, w);
  remove = λ namespace name w. (ok tt, w);
  delete_function = λ namespace name w. (ok tt, w);
}

-- The secrets of the update are refused.
update-ignores_secrets_example :
    SameWork
      (update_handler containers true (some echo_deployment) server)
      (update_handler (lenient containers) true (some echo_deployment) server)
update-ignores_secrets_example =
    update-ignores_secrets containers true (some echo_deployment) server

abbrev day : List Event
day =
    function_request call
    ∷ scale_request (some (scale_to 5)) false
    ∷ deploy_request false (some echo_deployment)
    ∷ report_goroutine "echo"
    ∷ connection "third" "10.0.0.2" (some peer_msg)
    ∷ delete_request (some (record { function_name = "echo"; delete_namespace = "" }))
    ∷ scale_request (some (scale_to 1)) false
    ∷ publication
    ∷ []

serve-IsConsistent_example :
    let end = serve numbers first_choice cluster network containers no_config ping day server in
    IsConsistent end.catalog × (publish_round end.catalog).0 ≢ panic
serve-IsConsistent_example =
    serve-IsConsistent numbers first_choice cluster network containers no_config ping day server
      met-IsConsistent
