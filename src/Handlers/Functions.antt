-- ===== src/Handlers/Functions.antt =====
-- The functions as containers: pkg/provider/handlers/functions.go over the containers of a node. A
-- client stands for one with the namespace of its context.
pub mod Listing
pub mod Resuming
pub mod Deleting
use faasd.Prelude.{
  ℕ, String, ◌==◌, Bool, true, false, Option, none, some, List, [], ◌∷◌, ◌++◌, Map, lookup, insert,
  get_or, is_some, if◌then◌else◌,
}
use faasd.Effects.{Result, ok, err, failed}
use faasd.Effects.Calls.{Call, succeed, fail, ◌>>=◌, ◌>>◌, attempt, regardless}
use faasd.Runtime.{
  Task, TaskStatus, running, created, stopped, paused, pausing, unknown, Containerd, Host,
}
use faasd.Runtime.Network.{get_ip_address, delete_cni_network}
use faasd.Runtime.Service.{remove}
use faasd.Catalog.Types.{FunctionStatus}
use faasd.Handlers.Namespaces.{
  NamespaceService, valid_namespace, default_function_namespace, namespace_label, find_namespace,
}
use faasd.Handlers.Specification.{
  ℤ, pos, Spec, build_labels_and_annotations, read_env_from_process_env, read_secrets_from_mounts,
  read_memory_limit_from_spec,
}

-- What containerd keeps of a container besides its task: the name of the image, the labels, the
-- specification and the time of the creation.
pub record Engine (W : Type 0) : Type 0 where
  pub host : Host W
  pub image_of : String → Call W String
  pub labels_of : String → Call W (Map String)
  pub spec_of : String → Call W Spec
  pub created_of : String → Call W ℕ

-- type Function
pub record Function : Type 0 where
  pub name : String
  pub namespace : String
  pub image : String
  pub pid : ℕ
  pub replicas : ℕ
  pub ip : String
  pub labels : Map String
  pub annotations : Map String
  pub secrets : List String
  pub env_vars : Map String
  pub env_process : String
  pub memory_limit : ℤ
  pub created_at : ℕ

-- The errors of the labels are logged, and leave them nil.
abbrev pub labels_or_nil : Result (Map String) → Map String
labels_or_nil (ok labels) = labels
labels_or_nil (err e) = []

-- The function that containerd describes, its task aside.
unfoldable pub described : String → String → String → Map String → Spec → ℕ → Function
described name namespace image all_labels spec created_at =
    let (labels, annotations) = build_labels_and_annotations all_labels in
    let (env_vars, env_process) = read_env_from_process_env spec.env in
    record {
      name = name;
      namespace = namespace;
      image = image;
      pid = 0;
      replicas = 0;
      ip = "";
      labels = labels;
      annotations = annotations;
      secrets = read_secrets_from_mounts spec.mounts;
      env_vars = env_vars;
      env_process = env_process;
      memory_limit = read_memory_limit_from_spec spec;
      created_at = created_at;
    }

-- The status that GetFunctionStatus and ListFunctionStatus report.
unfoldable pub status_from : Function → FunctionStatus
status_from fn = record {
  name = fn.name;
  image = fn.image;
  namespace = fn.namespace;
  env_process = fn.env_process;
  env_vars = fn.env_vars;
  constraints = [];
  secrets = fn.secrets;
  labels = some fn.labels;
  annotations = some fn.annotations;
  limits = none;
  requests = none;
  read_only_root_filesystem = false;
  replicas = fn.replicas;
  available_replicas = fn.replicas;
  created_at = fn.created_at;
}

module _ {W : Type 0} (engine : Engine W) where
  abbrev client : Containerd W
  client = engine.host.client

  -- A running task counts as one replica.
  abbrev pub with_address : Function → Task → String → Function
  with_address fn task ip = record fn { replicas = 1; pid = task.pid; ip = ip }

  abbrev pub with_status : Function → Task → TaskStatus → Call W Function
  with_status fn task running =
      get_ip_address engine.host fn.name task.pid >>= (λ ip. succeed (with_address fn task ip))
  with_status fn task _ = succeed fn

  abbrev pub with_task : Function → Result Task → Call W Function
  with_task fn (ok task) = client.status task >>= with_status fn task
  with_task fn (err e) = succeed fn

  unfoldable pub describe : String → String → String → Map String → Call W Function
  unfolding described
  describe name namespace image all_labels = engine.spec_of name >>= (λ spec.
      engine.created_of name >>= (λ created_at.
        attempt (client.task name)
          (with_task (described name namespace image all_labels spec created_at))))

  unfoldable pub get_function : String → String → Call W Function
  unfolding describe
  get_function name namespace = client.load_container name >> engine.image_of name >>= (λ image.
      attempt (engine.labels_of name)
        (λ labels. describe name namespace image (labels_or_nil labels)))

  -- Its steps are those of GetFunction; the memory limit, the address and the process are left out.
  unfoldable pub get_function_status : String → String → Call W FunctionStatus
  unfolding get_function status_from
  get_function_status name namespace =
      get_function name namespace >>= (λ fn. succeed (status_from fn))

  -- The error of the network is logged.
  unfoldable pub delete_function : String → String → Call W (Unit {0})
  unfolding get_function
  delete_function name namespace =
      get_function name namespace
      >> regardless (delete_cni_network engine.host name) (remove engine.host name)
