-- ===== src/Handlers/Lifecycle/Keeping.antt =====
-- Deploying, updating and deleting a function (deploy.go, update.go, delete.go) keep the catalog
-- consistent.
use faasd.Prelude.{ℕ, ◌==ℕ◌, String, Bool, true, false, Option, none, some}
use faasd.Effects.{Action, ◌>>=◌, ◌>>◌, Result, ok, err}
use faasd.Catalog.Cluster.{delete_available_functions}
use faasd.Catalog.Invariant.{IsConsistent}
use faasd.Catalog.Deletion.{delete-IsConsistent}
use faasd.Handlers.Keeps.{header, bind-keeps, if-keeps}
use faasd.Handlers.Server.{
  Server, in_world, in_catalog, spawn_report, status_bad_request, status_not_found,
  status_internal_error,
}
use faasd.Handlers.Namespaces.{valid_namespace}
use faasd.Handlers.Lifecycle.{
  FunctionDeployment, DeleteFunctionRequest, Containers, get_request_namespace, report_only,
  report_or, on_valid, in_namespace, done, deploy_new, deploy_again, deploy_checked, deploy_handler,
  remove_network, replace, pull_and_replace, on_function, update_handler, delete_checked,
  delete_handler,
}

-- The action keeps the invariant of every server.
abbrev Keeps : {W A : Type 0} → Action (Server W) A → Type 0
Keeps {W} m = (s : Server W) → IsConsistent s.catalog → IsConsistent (m s).1.catalog

module _ {W : Type 0} where
  Keeps-bind :
      {A B : Type 0} (m : Action (Server W) A) (f : A → Action (Server W) B)
      → Keeps m
      → ((a : A) → Keeps (f a))
      → Keeps (m >>= f)
  Keeps-bind m f first rest s inv = bind-keeps m f s (first s inv) rest

  Keeps-then :
      {A B : Type 0} (m : Action (Server W) A) (n : Action (Server W) B)
      → Keeps m
      → Keeps n
      → Keeps (m >> n)
  Keeps-then m n first rest s inv = bind-keeps m (λ a. n) s (first s inv) (λ a. rest)

  Keeps-in_world : {A : Type 0} (m : W → A × W) → Keeps (in_world m)
  Keeps-in_world m s inv = inv

module _ {W : Type 0} (containers : Containers W) where
  Keeps-report_only : (code : ℕ) (r : Result (Unit {0})) → Keeps (report_only containers code r)
  Keeps-report_only code (err e) s inv = header code s inv
  Keeps-report_only code (ok a) s inv = inv

  Keeps-report_or :
      (code : ℕ) (rest : Action (Server W) (Unit {0}))
      → Keeps rest
      → (r : Result (Unit {0})) → Keeps (report_or containers code rest r)
  Keeps-report_or code rest kept (err e) s inv = header code s inv
  Keeps-report_or code rest kept (ok a) s inv = kept s inv

  Keeps-on_valid :
      (rest : Action (Server W) (Unit {0}))
      → Keeps rest
      → (r : Result Bool) → Keeps (on_valid containers rest r)
  Keeps-on_valid rest kept (err e) s inv = header status_bad_request s inv
  Keeps-on_valid rest kept (ok false) s inv = header status_bad_request s inv
  Keeps-on_valid rest kept (ok true) s inv = kept s inv

  Keeps-in_namespace :
      (namespace : String) (rest : Action (Server W) (Unit {0}))
      → Keeps rest
      → Keeps (in_namespace containers namespace rest)
  Keeps-in_namespace namespace rest kept =
      Keeps-bind (in_world (valid_namespace containers.namespaces namespace))
        (on_valid containers rest) (λ s inv. inv) (Keeps-on_valid rest kept)

  Keeps-deploy_new :
      (namespace : String) (always_pull : Bool) (req : FunctionDeployment)
      → Keeps (deploy_new containers namespace always_pull req)
  unfolding deploy_new
  Keeps-deploy_new namespace always_pull req =
      Keeps-bind (in_world (containers.deploy namespace req always_pull))
        (report_or containers status_bad_request (spawn_report req.service)) (λ s inv. inv)
        (Keeps-report_or status_bad_request (spawn_report req.service) (λ s inv. inv))

  Keeps-deploy_again :
      (namespace : String) (req : FunctionDeployment)
      → Keeps (deploy_again containers namespace req)
  unfolding deploy_again
  Keeps-deploy_again namespace req =
      Keeps-bind (in_world (containers.deploy namespace req false))
        (report_or containers status_bad_request (done containers)) (λ s inv. inv)
        (Keeps-report_or status_bad_request (done containers) (λ s inv. inv))

  Keeps-deploy_checked :
      (namespace : String) (always_pull : Bool) (req : FunctionDeployment)
      → Keeps (deploy_checked containers namespace always_pull req)
  unfolding deploy_checked
  Keeps-deploy_checked namespace always_pull req =
      Keeps-bind (in_world (containers.validate_secrets namespace req.secrets))
        (report_or containers status_bad_request (deploy_new containers namespace always_pull req))
        (λ s inv. inv)
        (Keeps-report_or status_bad_request (deploy_new containers namespace always_pull req)
          (Keeps-deploy_new namespace always_pull req))

  pub Keeps-deploy_handler :
      (always_pull : Bool) (body : Option FunctionDeployment)
      → Keeps (deploy_handler containers always_pull body)
  unfolding deploy_handler
  Keeps-deploy_handler always_pull none s inv = header status_bad_request s inv
  Keeps-deploy_handler always_pull (some req) s inv =
      Keeps-in_namespace (get_request_namespace req.namespace) _
        (Keeps-deploy_checked (get_request_namespace req.namespace) always_pull req) s inv

  Keeps-remove_network :
      (namespace name : String) (replicas : ℕ)
      → Keeps (remove_network containers namespace name replicas)
  unfolding remove_network
  Keeps-remove_network namespace name replicas s inv = if-keeps (replicas ==ℕ 0) _ _ s inv inv

  Keeps-replace :
      (namespace : String) (req : FunctionDeployment) (replicas : ℕ)
      → Keeps (replace containers namespace req replicas)
  unfolding replace
  Keeps-replace namespace req replicas =
      Keeps-bind
        (remove_network containers namespace req.service replicas
          >> in_world (containers.remove namespace req.service))
        (report_or containers status_internal_error (deploy_again containers namespace req))
        (Keeps-then (remove_network containers namespace req.service replicas)
          (in_world (containers.remove namespace req.service))
          (Keeps-remove_network namespace req.service replicas) (λ s inv. inv))
        (Keeps-report_or status_internal_error (deploy_again containers namespace req)
          (Keeps-deploy_again namespace req))

  Keeps-pull_and_replace :
      (namespace : String) (always_pull : Bool) (req : FunctionDeployment) (replicas : ℕ)
      → Keeps (pull_and_replace containers namespace always_pull req replicas)
  unfolding pull_and_replace
  Keeps-pull_and_replace namespace always_pull req replicas =
      Keeps-then
        (in_world (containers.prepull namespace req always_pull)
          >>= report_only containers status_internal_error)
        (replace containers namespace req replicas)
        (Keeps-bind (in_world (containers.prepull namespace req always_pull))
          (report_only containers status_internal_error) (λ s inv. inv)
          (Keeps-report_only status_internal_error))
        (Keeps-replace namespace req replicas)

  Keeps-on_function :
      (namespace : String) (always_pull : Bool) (req : FunctionDeployment) (found : Result ℕ)
      → Keeps (on_function containers namespace always_pull req found)
  unfolding on_function
  Keeps-on_function namespace always_pull req (err e) s inv = header status_not_found s inv
  Keeps-on_function namespace always_pull req (ok replicas) s inv =
      Keeps-then
        (in_world (containers.validate_secrets namespace req.secrets)
          >>= report_only containers status_bad_request)
        (pull_and_replace containers namespace always_pull req replicas)
        (Keeps-bind (in_world (containers.validate_secrets namespace req.secrets))
          (report_only containers status_bad_request) (λ s inv. inv)
          (Keeps-report_only status_bad_request))
        (Keeps-pull_and_replace namespace always_pull req replicas) s inv

  pub Keeps-update_handler :
      (always_pull : Bool) (body : Option FunctionDeployment)
      → Keeps (update_handler containers always_pull body)
  unfolding update_handler
  Keeps-update_handler always_pull none s inv = header status_bad_request s inv
  Keeps-update_handler always_pull (some req) s inv =
      let namespace = get_request_namespace req.namespace in
      Keeps-in_namespace namespace _
        (Keeps-bind (in_world (containers.get_function namespace req.service))
          (on_function containers namespace always_pull req) (λ s inv. inv)
          (Keeps-on_function namespace always_pull req))
        s inv

  Keeps-delete_checked :
      (namespace name : String) → Keeps (delete_checked containers namespace name)
  unfolding delete_checked
  Keeps-delete_checked namespace name =
      Keeps-bind
        (in_catalog (delete_available_functions name)
          >> in_world (containers.delete_function namespace name))
        (report_or containers status_bad_request (done containers))
        (Keeps-then (in_catalog (delete_available_functions name))
          (in_world (containers.delete_function namespace name))
          (λ s inv. delete-IsConsistent name s.catalog inv) (λ s inv. inv))
        (Keeps-report_or status_bad_request (done containers) (λ s inv. inv))

  pub Keeps-delete_handler :
      (body : Option DeleteFunctionRequest) → Keeps (delete_handler containers body)
  unfolding delete_handler
  Keeps-delete_handler none s inv = header status_bad_request s inv
  Keeps-delete_handler (some req) s inv =
      Keeps-in_namespace (get_request_namespace req.delete_namespace) _
        (Keeps-delete_checked (get_request_namespace req.delete_namespace) req.function_name) s inv
