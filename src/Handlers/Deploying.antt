-- ===== src/Handlers/Deploying.antt =====
-- What deploy.go does to the containers of a node for a function, and the operations of a node that
-- the handlers of deploy.go, update.go and delete.go take.
pub mod Waiting
pub mod Deletion
pub mod Stored
pub mod Description
use faasd.Prelude.{
  ℕ, String, ◌<>◌, ◌==◌, Bool, true, false, Option, none, some, List, [], ◌∷◌, ◌++◌, Map, get_or,
  path_join,
}
use faasd.Effects.{Result, ok, err, failed}
use faasd.Effects.Calls.{Call, succeed, fail, ◌>>=◌, ◌>>◌, attempt}
use faasd.Runtime.{Host}
use faasd.Runtime.Network.{delete_cni_network}
use faasd.Runtime.Service.{create_task, remove}
use faasd.Runtime.Service.Images.{Registry, prepare_image}
use faasd.Handlers.Namespaces.{NamespaceService}
use faasd.Handlers.Specification.{
  ℤ, Mount, LinuxMemory, build_labels, prepare_env, get_os_mounts, mount_secrets, memory_of,
}
use faasd.Handlers.Lifecycle.{FunctionDeployment, Containers}
use faasd.Handlers.Functions.{Engine, Function, get_function, delete_function}

-- The options of client.NewContainer.
pub record ContainerOptions (I : Type 0) : Type 0 where
  pub name : String
  pub image : I
  pub snapshotter : String
  pub snapshot : String
  pub hostname : String
  pub capabilities : List String
  pub mounts : List Mount
  pub env : List String
  pub memory : Option LinuxMemory
  pub labels : Map String

-- The libraries that deploy calls, and the environment variables that it reads.
-- `parse_reference` is reference.ParseNormalizedNamed with reference.TagNameOnly.
pub record Platform (W I R : Type 0) : Type 0 where
  pub engine : Engine W
  pub registry : Registry W I R
  pub new_container : ContainerOptions I → Call W (Unit {0})
  pub stat : String → Call W (Unit {0})
  pub parse_reference : String → Result String
  pub parse_quantity : String → Option ℤ
  pub snapshotter : Option String
  pub hosts_dir : Option String

module _ {W I R : Type 0} (platform : Platform W I R) where
  unfoldable pub prepull : FunctionDeployment → Bool → Call W I
  prepull req always_pull = (λ w. (platform.parse_reference req.image, w)) >>= (λ img_ref.
      prepare_image platform.registry img_ref (get_or "" platform.snapshotter) always_pull)

  unfoldable pub container_options :
      FunctionDeployment → String → I → Map String → ContainerOptions I
  unfolding prepare_env get_os_mounts mount_secrets memory_of
  container_options req secret_mount_path image labels = record {
    name = req.service;
    image = image;
    snapshotter = get_or "" platform.snapshotter;
    snapshot = req.service <> "-snapshot";
    hostname = req.service;
    capabilities = "CAP_NET_RAW" ∷ [];
    mounts = mount_secrets secret_mount_path req.secrets (get_os_mounts platform.hosts_dir);
    env = prepare_env req.env_process req.env_vars;
    memory = memory_of platform.parse_quantity req.limits;
    labels = labels;
  }

  -- The labels are built once the image is there.
  abbrev pub with_labels : FunctionDeployment → String → I → Result (Map String) → Call W (Unit {0})
  with_labels req secret_mount_path image (err e) = fail e
  with_labels req secret_mount_path image (ok labels) =
      platform.new_container (container_options req secret_mount_path image labels)
      >> create_task platform.engine.host req.service

  unfoldable pub deploy : FunctionDeployment → String → Bool → Call W (Unit {0})
  unfolding prepull container_options build_labels
  deploy req secret_mount_path always_pull =
      prepull req always_pull
      >>= (λ image. with_labels req secret_mount_path image (build_labels req))

  abbrev pub or_failed : Result (Unit {0}) → Call W (Unit {0}) → Call W (Unit {0})
  or_failed (ok a) rest = rest
  or_failed (err e) rest = fail failed

  unfoldable pub validate_secrets : String → List String → Call W (Unit {0})
  unfolding path_join
  validate_secrets secret_mount_path [] = succeed tt
  validate_secrets secret_mount_path (secret ∷ secrets) =
      attempt (platform.stat (path_join secret_mount_path secret))
        (λ r. or_failed r (validate_secrets secret_mount_path secrets))

-- What the handlers call, each in its namespace.
unfoldable pub node_containers :
    {W I R : Type 0} → (String → Platform W I R) → NamespaceService W → String → Containers W
unfolding deploy validate_secrets prepull get_function delete_function remove path_join
node_containers platforms service secret_mount_path = record {
  namespaces = service;
  validate_secrets = λ namespace secrets.
      validate_secrets (platforms namespace) (path_join secret_mount_path namespace) secrets;
  deploy = λ namespace req always_pull.
      deploy (platforms namespace) req (path_join secret_mount_path namespace) always_pull;
  get_function = λ namespace name.
      get_function (platforms namespace).engine name namespace
      >>= (λ (fn : Function). succeed fn.replicas);
  prepull = λ namespace req always_pull.
      prepull (platforms namespace) req always_pull >>= (λ image. succeed tt);
  delete_network = λ namespace name. delete_cni_network (platforms namespace).engine.host name;
  remove = λ namespace name. remove (platforms namespace).engine.host name;
  delete_function = λ namespace name. delete_function (platforms namespace).engine name namespace;
}
