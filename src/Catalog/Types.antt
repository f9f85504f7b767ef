-- ===== src/Catalog/Types.antt =====
-- The data of pkg/provider/catalog/catalog.go, and of the provider's types that it stores.
use faasd.Prelude.{ℕ, ◌^◌, String, Bool, false, Option, none, List, [], Map}

-- uint64
abbrev pub word : ℕ
word = 2 ^ 64

pub record FunctionResources : Type 0 where
  pub memory : String
  pub cpu : String

-- types.FunctionStatus, less the fields that this program never touches (InvocationCount, Usage).
pub record FunctionStatus : Type 0 where
  pub name : String
  pub image : String
  pub namespace : String
  pub env_process : String
  pub env_vars : Map String
  pub constraints : List String
  pub secrets : List String
  pub labels : Option (Map String)
  pub annotations : Option (Map String)
  pub limits : Option FunctionResources
  pub requests : Option FunctionResources
  pub read_only_root_filesystem : Bool
  pub replicas : ℕ
  pub available_replicas : ℕ
  pub created_at : ℕ

-- Milliseconds, averaged; 1 stands for "not measured yet".
pub record NodeInfo : Type 0 where
  pub function_execution_time : Map ℕ
  pub available_functions_replicas : Map ℕ
  pub overload : Bool

pub record NodeInfoMsg : Type 0 where
  pub available_functions : List FunctionStatus
  pub msg_overload : Bool

pub record NodeMetadata : Type 0 where
  pub ip : String
  pub hostname : String

-- The SDK client: where its gateway is, and the credentials.
pub record SdkClient : Type 0 where
  pub gateway_host : String
  pub user : String
  pub password : String

-- `client` is nil for the node itself, and where the configuration file could not be read.
pub record FaasClient : Type 0 where
  pub client : Option SdkClient
  pub p2p_id : String

-- The channel is nil until the node's own room is set up. A sent value is always the pointer to
-- the node's own information, so only the number of values not yet received is kept.
pub record Node : Type 0 where
  pub info : NodeInfo
  pub open info use *
  pub metadata : NodeMetadata
  pub faas_client : FaasClient
  pub info_chan : Option ℕ

-- `sorted_capacity` is the capacity of the slice behind `SortedP2PID`.
pub record Catalog : Type 0 where
  pub node_catalog : Map Node
  pub function_catalog : Map FunctionStatus
  pub sorted_p2p_id : List String
  pub sorted_capacity : ℕ

pub data InfoLevel : Type 0 where
  local_level cluster_level : InfoLevel

abbrev pub self_catalog_key : String
self_catalog_key = "0"

abbrev pub faas_p2p_ip : String
faas_p2p_ip = "0.0.0.0"

-- The zero value of types.FunctionStatus.
abbrev pub no_status : FunctionStatus
no_status = record {
  name = "";
  image = "";
  namespace = "";
  env_process = "";
  env_vars = [];
  constraints = [];
  secrets = [];
  labels = none;
  annotations = none;
  limits = none;
  requests = none;
  read_only_root_filesystem = false;
  replicas = 0;
  available_replicas = 0;
  created_at = 0;
}

-- NewCatalog
unfoldable pub new_catalog : ℕ → Catalog
new_catalog total_amount_p2p_peer = record {
  node_catalog = [];
  function_catalog = [];
  sorted_p2p_id = [];
  sorted_capacity = total_amount_p2p_peer;
}
