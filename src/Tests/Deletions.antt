-- ===== src/Tests/Deletions.antt =====
-- The delete handler (delete.go) at a node with one function.
use faasd.Prelude.{
  String, ◌≡◌, ◌≢◌, refl, true, Option, none, some, [], ◌∷◌, lookup, insert, delete, decimal,
}
use faasd.Effects.{return, ok, err, not_found, failed}
use faasd.Catalog.Types.{Catalog}
use faasd.Catalog.Local.{update_node, publish_info, delete_from_node}
use faasd.Catalog.Cluster.{
  delete_available_functions, updatet_replicas_with_function_name, drop_function, sum_replicas,
}
use faasd.Runtime.{TaskStatus, running}
use faasd.Runtime.Network.{delete_cni_network, get_ip_address}
use faasd.Handlers.Server.{Server}
use faasd.Handlers.Namespaces.{NamespaceService, valid_namespace}
use faasd.Handlers.Lifecycle.{DeleteFunctionRequest, get_request_namespace, delete_handler}
use faasd.Handlers.Functions.{Engine}
use faasd.Handlers.Functions.Deleting.{IsEngine, before_remove}
use faasd.Handlers.Deploying.{Platform, node_containers}
use faasd.Handlers.Deploying.Deletion.{Gone, delete_handler-refines}
use faasd.Tests.Runs.{self_node, peer_node, known}
use faasd.Tests.Containers.{Tasks, host, exists, loaded, host-IsContainers}

abbrev service : NamespaceService Tasks
service = record {
  list = λ w. (ok ("openfaas-fn" ∷ []), w);
  labels = λ name w. (ok [], w);
  set_label = λ name key value w. (ok tt, w);
  create = λ name labels w. (ok tt, w);
  delete = λ name w. (ok tt, w);
}

abbrev engine : Engine Tasks
engine = record {
  host = host;
  image_of = λ name w. (ok "echo:latest", w);
  labels_of = λ name w. (ok [], w);
  spec_of = λ name w. (ok (record { env = []; mounts = []; linux = none }), w);
  created_of = λ name w. (ok 1, w);
}

abbrev platform : String → Platform Tasks String (Unit {0})
platform namespace = record {
  engine = engine;
  registry = record {
    has_config = λ w. (err not_found, w);
    resolver = λ w. (ok tt, w);
    get_image = λ name w. (ok name, w);
    pull = λ name resolver w. (ok name, w);
    is_unpacked = λ image snapshotter w. (ok true, w);
    unpack = λ image snapshotter w. (ok tt, w);
  };
  new_container = λ options w. (ok tt, w);
  stat = λ path w. (ok tt, w);
  parse_reference = λ image. ok image;
  parse_quantity = λ quantity. none;
  snapshotter = none;
  hosts_dir = none;
}

engine-IsEngine : IsEngine engine exists
engine-IsEngine = record {
  containers = host-IsContainers;
  image_quiet = λ n j w. refl;
  labels_quiet = λ n j w. refl;
  spec_quiet = λ n j w. refl;
  created_quiet = λ n j w. refl;
  network_quiet = λ id netns j w. refl;
  read_quiet = λ dir j w. refl;
  open_quiet = λ file j w. refl;
}

loaded-ne : (o : Option TaskStatus) → loaded o ≢ err failed
loaded-ne none said = cc
loaded-ne (some s) said = cc

abbrev tasks : Tasks
tasks = ("echo", running) ∷ []

abbrev catalog : Catalog
catalog = record {
  node_catalog = ("0", self_node) ∷ ("peer", peer_node) ∷ [];
  function_catalog = ("echo", known) ∷ [];
  sorted_p2p_id = "0" ∷ "peer" ∷ [];
  sorted_capacity = 4;
}

abbrev server : Server Tasks
server = record { world = tasks; catalog = catalog; status = none; reported = []; explored = [] }

abbrev request : DeleteFunctionRequest
request = record { function_name = "echo"; delete_namespace = "" }

request-quiet :
    (delete_handler (node_containers platform service "/secrets") (some request) server).1.status
    ≡ none
unfolding delete_handler valid_namespace get_request_namespace delete_available_functions
    update_node lookup updatet_replicas_with_function_name drop_function insert publish_info
    sum_replicas delete_from_node delete node_containers get_ip_address decimal delete_cni_network
request-quiet = refl

catalog-deletes : (delete_available_functions "echo" catalog).0 ≡ return tt
unfolding delete_available_functions update_node lookup updatet_replicas_with_function_name
    drop_function insert publish_info sum_replicas delete_from_node delete
catalog-deletes = refl

delete_handler-refines_example :
    Gone platform service "/secrets" exists "echo" known self_node tasks catalog
      (delete_handler (node_containers platform service "/secrets") (some request) server).1
unfolding valid_namespace get_request_namespace lookup
delete_handler-refines_example =
    delete_handler-refines platform service "/secrets" exists request server tasks known self_node
      engine-IsEngine refl refl refl refl catalog-deletes
      (loaded-ne
        (lookup "echo" (before_remove engine exists engine-IsEngine "echo" "openfaas-fn" tasks)))
      request-quiet
