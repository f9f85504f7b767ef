-- ===== src/Handlers/Reading.antt =====
-- The handlers that read: pkg/provider/handlers/read.go, replicas.go and namespaces.go. A reply is
-- what is written to the body.
use faasd.Prelude.{
  ltb, String, ◌<>◌, Option, none, some, List, if◌then◌else◌, contains_text, trim_suffix,
}
use faasd.Effects.{Action, pure, ◌>>=◌, ◌>>◌, Result, ok, err}
use faasd.Catalog.Types.{FunctionStatus, cluster_level}
use faasd.Catalog.Cluster.{get_available_function, list_available_functions}
use faasd.Handlers.Server.{Server, in_world, in_catalog, write_header, status_ok, status_not_found}
use faasd.Handlers.Namespaces.{NamespaceService, default_function_namespace}
use faasd.Handlers.Functions.Listing.{list_namespaces}

-- The name without the default namespace behind it.
abbrev pub plain_name : String → String
plain_name function_name =
    if contains_text "." function_name
    then trim_suffix ("." <> default_function_namespace) function_name
    else function_name

-- The replicas of the cluster stand for those of the node where they are more.
abbrev pub with_max : FunctionStatus → FunctionStatus
with_max fn = record fn {
  available_replicas =
      if ltb fn.available_replicas fn.replicas then fn.replicas else fn.available_replicas;
}

module _ {W : Type 0} where
  abbrev pub reply : {A : Type 0} → A → Action (Server W) A
  reply a = write_header status_ok >> pure a

  -- MakeReadHandler
  unfoldable pub read_handler : Action (Server W) (List FunctionStatus)
  unfolding list_available_functions
  read_handler = in_catalog (list_available_functions cluster_level) >>= reply

  abbrev pub on_function : Result FunctionStatus → Action (Server W) (Option FunctionStatus)
  on_function (ok fn) = reply (some (with_max fn))
  on_function (err e) = write_header status_not_found >> pure none

  -- MakeReplicaReaderHandler
  unfoldable pub replica_reader : String → Action (Server W) (Option FunctionStatus)
  unfolding get_available_function
  replica_reader function_name =
      in_catalog (get_available_function (plain_name function_name)) >>= on_function

  -- MakeNamespacesLister
  unfoldable pub namespaces_lister : NamespaceService W → Action (Server W) (List String)
  unfolding list_namespaces
  namespaces_lister service = in_world (list_namespaces service) >>= reply
