-- ===== src/Handlers/Lifecycle.antt =====
-- The handlers that create, replace and remove a function: pkg/provider/handlers/deploy.go, update.go
-- and delete.go. What they do to containers, images, networks and secrets is a parameter.
pub mod Keeping
pub mod Replacing
use faasd.Prelude.{
  ℕ, ◌==ℕ◌, String, ◌==◌, Bool, true, false, Option, none, some, List, [], ◌∷◌, Map, if◌then◌else◌,
}
use faasd.Effects.{Outcome, return, Action, pure, ◌>>=◌, ◌>>◌, Result, ok, err}
use faasd.Catalog.Types.{FunctionResources, Catalog}
use faasd.Catalog.Cluster.{delete_available_functions}
use faasd.Handlers.Server.{
  Server, in_world, in_catalog, http_error, spawn_report, status_bad_request, status_not_found,
  status_internal_error,
}
use faasd.Handlers.Namespaces.{NamespaceService, valid_namespace, default_function_namespace}

-- types.FunctionDeployment
pub record FunctionDeployment : Type 0 where
  pub service : String
  pub image : String
  pub namespace : String
  pub env_process : String
  pub env_vars : Map String
  pub constraints : List String
  pub secrets : List String
  pub labels : Option (Map String)
  pub annotations : Option (Map String)
  pub limits : Option FunctionResources
  pub requests : Option FunctionResources
  pub read_only_root_filesystem : Bool

pub record DeleteFunctionRequest : Type 0 where
  pub function_name : String
  pub delete_namespace : String

-- Each operation takes the namespace first. The replicas of a function are what GetFunction says.
pub record Containers (W : Type 0) : Type 0 where
  pub namespaces : NamespaceService W
  pub validate_secrets : String → List String → W → Result (Unit {0}) × W
  pub deploy : String → FunctionDeployment → Bool → W → Result (Unit {0}) × W
  pub get_function : String → String → W → Result ℕ × W
  pub prepull : String → FunctionDeployment → Bool → W → Result (Unit {0}) × W
  pub delete_network : String → String → W → Result (Unit {0}) × W
  pub remove : String → String → W → Result (Unit {0}) × W
  pub delete_function : String → String → W → Result (Unit {0}) × W

-- getRequestNamespace
unfoldable pub get_request_namespace : String → String
get_request_namespace namespace = if namespace == "" then default_function_namespace else namespace

module _ {W : Type 0} (containers : Containers W) where
  abbrev Handling : Type 0
  Handling = Action (Server W) (Unit {0})

  -- A reply where there is an error, and on with the rest.
  abbrev pub report_only : ℕ → Result (Unit {0}) → Handling
  report_only code (err e) s = http_error code s
  report_only code (ok a) s = (return tt, s)

  -- A reply where there is an error, and nothing else.
  abbrev pub report_or : ℕ → Handling → Result (Unit {0}) → Handling
  report_or code rest (err e) s = http_error code s
  report_or code rest (ok a) s = rest s

  -- The namespace must exist and have the label.
  abbrev pub on_valid : Handling → Result Bool → Handling
  on_valid rest (err e) s = http_error status_bad_request s
  on_valid rest (ok false) s = http_error status_bad_request s
  on_valid rest (ok true) s = rest s

  abbrev pub in_namespace : String → Handling → Handling
  in_namespace namespace rest =
      in_world (valid_namespace containers.namespaces namespace) >>= on_valid rest

  abbrev pub done : Handling
  done = pure tt

  -- The goroutine of the handler is that of scale.go.
  unfoldable pub deploy_new : String → Bool → FunctionDeployment → Handling
  deploy_new namespace always_pull req =
      in_world (containers.deploy namespace req always_pull)
      >>= report_or status_bad_request (spawn_report req.service)

  unfoldable pub deploy_checked : String → Bool → FunctionDeployment → Handling
  unfolding deploy_new
  deploy_checked namespace always_pull req =
      in_world (containers.validate_secrets namespace req.secrets)
      >>= report_or status_bad_request (deploy_new namespace always_pull req)

  -- MakeDeployHandler; a body that is missing or no JSON is none.
  unfoldable pub deploy_handler : Bool → Option FunctionDeployment → Handling
  unfolding deploy_checked
  deploy_handler always_pull none = http_error status_bad_request
  deploy_handler always_pull (some req) =
      in_namespace (get_request_namespace req.namespace)
        (deploy_checked (get_request_namespace req.namespace) always_pull req)

  -- The network is removed where the function has a task; an error is logged.
  unfoldable pub remove_network : String → String → ℕ → Handling
  remove_network namespace name replicas =
      if replicas ==ℕ 0
      then done
      else in_world (containers.delete_network namespace name) >>= (λ ignored. done)

  -- The image is there by now.
  unfoldable pub deploy_again : String → FunctionDeployment → Handling
  deploy_again namespace req =
      in_world (containers.deploy namespace req false) >>= report_or status_bad_request done

  -- The update once the image is pulled.
  unfoldable pub replace : String → FunctionDeployment → ℕ → Handling
  unfolding remove_network deploy_again
  replace namespace req replicas =
      remove_network namespace req.service replicas
      >> in_world (containers.remove namespace req.service)
      >>= report_or status_internal_error (deploy_again namespace req)

  -- The errors of the secrets and of the pull are replied to, but do not end the handler.
  unfoldable pub pull_and_replace : String → Bool → FunctionDeployment → ℕ → Handling
  unfolding replace
  pull_and_replace namespace always_pull req replicas =
      in_world (containers.prepull namespace req always_pull)
      >>= report_only status_internal_error
      >> replace namespace req replicas

  unfoldable pub on_function : String → Bool → FunctionDeployment → Result ℕ → Handling
  unfolding pull_and_replace
  on_function namespace always_pull req (err e) = http_error status_not_found
  on_function namespace always_pull req (ok replicas) =
      in_world (containers.validate_secrets namespace req.secrets)
      >>= report_only status_bad_request
      >> pull_and_replace namespace always_pull req replicas

  -- MakeUpdateHandler
  unfoldable pub update_handler : Bool → Option FunctionDeployment → Handling
  unfolding on_function
  update_handler always_pull none = http_error status_bad_request
  update_handler always_pull (some req) = in_namespace (get_request_namespace req.namespace) (
      in_world (containers.get_function (get_request_namespace req.namespace) req.service)
      >>= on_function (get_request_namespace req.namespace) always_pull req)

  -- The catalog is told before the container is deleted, whatever the namespace.
  unfoldable pub delete_checked : String → String → Handling
  delete_checked namespace name =
      in_catalog (delete_available_functions name)
      >> in_world (containers.delete_function namespace name)
      >>= report_or status_bad_request done

  -- MakeDeleteHandler
  unfoldable pub delete_handler : Option DeleteFunctionRequest → Handling
  unfolding delete_checked
  delete_handler none = http_error status_bad_request
  delete_handler (some req) =
      in_namespace (get_request_namespace req.delete_namespace)
        (delete_checked (get_request_namespace req.delete_namespace) req.function_name)
