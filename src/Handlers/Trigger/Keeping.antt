-- ===== src/Handlers/Trigger/Keeping.antt =====
-- No request to a function (trigger.go) breaks the invariant of the catalog.
use faasd.Prelude.{
  ℕ, String, ◌==◌, Bool, true, false, Option, none, some, inl, inr, Map, lookup, Option-cases,
}
use faasd.Effects.{Outcome, return, panic, blocked, after_deferred, Result, ok, err}
use faasd.Catalog.Types.{FunctionStatus, self_catalog_key}
use faasd.Catalog.Invariant.{IsConsistent}
use faasd.Catalog.Operations.{add-IsConsistent}
use faasd.Handlers.Keeps.{header, bind-keeps, if-keeps}
use faasd.Handlers.Server.{Server, status_internal_error}
use faasd.Handlers.Scale.{Cluster, deploy_function_by_p2p_id}
use faasd.Handlers.Scale.Frame.{deploy-catalog}
use faasd.Handlers.Trigger.{Float64, find_suitable_node}
use faasd.Handlers.Trigger.Proxy.{Network, TriggerRequest}
use faasd.Handlers.Trigger.Handler.{
  on_ready, wait_ready_at, run_report, run_explore, on_explored, explore, invoke,
  explore_and_invoke, add_at, on_deployed, on_target, on_known, trigger,
}
use faasd.Handlers.Trigger.Responses.{offload_request-keeps}
use faasd.Handlers.Trigger.Picks.{find_suitable_node-keeps}

module _ {W F : Type 0} (float : Float64 F) (choose : Map ℕ → W → Option String × W)
    (cluster : Cluster W) (network : Network W) where
  on_ready-keeps :
      (found : Result FunctionStatus) (s : Server W)
      → IsConsistent s.catalog
      → IsConsistent (on_ready float choose cluster network found s).1.catalog
  unfolding on_ready
  on_ready-keeps (err e) s inv = inv
  on_ready-keeps (ok fn) s inv = add-IsConsistent fn s.catalog inv

  wait-keeps :
      (p f : String) (s : Server W)
      → IsConsistent s.catalog
      → IsConsistent (wait_ready_at float choose cluster network p f s).1.catalog
  wait-keeps p f s inv = elim (Option-cases (lookup p s.catalog.node_catalog)) [
    | inl missing ↦ rw (missing, wait_ready_at) inv
    | inr (node, found) ↦ rw (found, wait_ready_at) inv
  ]

  on_explored-keeps :
      (f : String) (o : Outcome (Option String)) (s : Server W)
      → IsConsistent s.catalog
      → IsConsistent (on_explored float choose cluster network f o s).1.catalog
  unfolding on_explored
  on_explored-keeps f panic s inv = inv
  on_explored-keeps f blocked s inv = inv
  on_explored-keeps f (return none) s inv = inv
  on_explored-keeps f (return (some p)) s inv = inv

  invoke-keeps :
      (target : String) (r : TriggerRequest) (s : Server W)
      → IsConsistent s.catalog
      → IsConsistent (invoke float choose cluster network target r s).1.catalog
  unfolding invoke
  invoke-keeps target r s inv = elim (Option-cases (lookup target s.catalog.node_catalog)) [
    | inl missing ↦ rw (missing, invoke) inv
    | inr (node, found) ↦ rw (found, invoke) (offload_request-keeps network target r s inv)
  ]

  explore_and_invoke-keeps :
      (target : String) (r : TriggerRequest) (s : Server W)
      → IsConsistent s.catalog
      → IsConsistent (explore_and_invoke float choose cluster network target r s).1.catalog
  unfolding explore_and_invoke explore
  explore_and_invoke-keeps target r s inv =
      go (invoke float choose cluster network target r s).0
        (invoke float choose cluster network target r s).1 (invoke-keeps target r s inv)
    where
      go :
          (o : Outcome (Unit {0})) (t : Server W)
          → IsConsistent t.catalog
          → IsConsistent
              (after_deferred o
                (explore float choose cluster network target r.function_name)
                t).1.catalog
      go (return a) t i = unfold explore in on_explored-keeps r.function_name _ t i
      go panic t i = unfold explore in on_explored-keeps r.function_name _ t i
      go blocked t i = i

  add_at-keeps :
      (target : String) (fn : FunctionStatus) (s : Server W)
      → IsConsistent s.catalog
      → IsConsistent (add_at float choose cluster network target fn s).1.catalog
  unfolding add_at
  add_at-keeps target fn s inv =
      if-keeps (target == self_catalog_key) _ _ s (add-IsConsistent fn s.catalog inv) inv

  on_deployed-keeps :
      (target : String) (r : TriggerRequest) (found : Result FunctionStatus) (s : Server W)
      → IsConsistent s.catalog
      → IsConsistent (on_deployed float choose cluster network target r found s).1.catalog
  unfolding on_deployed
  on_deployed-keeps target r (err e) s inv = header status_internal_error s inv
  on_deployed-keeps target r (ok fn) s inv =
      bind-keeps (add_at float choose cluster network target fn)
        (λ a. explore_and_invoke float choose cluster network target r) s
        (add_at-keeps target fn s inv) (λ a t i. explore_and_invoke-keeps target r t i)

  on_target-keeps :
      (r : TriggerRequest) (found : String × Bool) (s : Server W)
      → IsConsistent s.catalog
      → IsConsistent (on_target float choose cluster network r found s).1.catalog
  unfolding on_target
  on_target-keeps r (target, false) s inv = explore_and_invoke-keeps target r s inv
  on_target-keeps r (target, true) s inv =
      bind-keeps (deploy_function_by_p2p_id cluster r.function_name target) _ s
        (rw (deploy-catalog cluster r.function_name target s) inv)
        (λ a t i.
          bind-keeps (wait_ready_at float choose cluster network target r.function_name)
            (on_deployed float choose cluster network target r) t
            (wait-keeps target r.function_name t i) (on_deployed-keeps target r))

  on_known-keeps :
      (r : TriggerRequest) (s : Server W)
      → IsConsistent s.catalog
      → IsConsistent (on_known float choose cluster network r s).1.catalog
  unfolding on_known
  on_known-keeps r s inv = if-keeps r.offloaded _ _ s (invoke-keeps self_catalog_key r s inv) (
      bind-keeps (find_suitable_node float choose r.function_name)
        (on_target float choose cluster network r) s
        (find_suitable_node-keeps float choose r.function_name s inv) (on_target-keeps r))

  pub trigger-keeps :
      (r : TriggerRequest) (s : Server W)
      → IsConsistent s.catalog
      → IsConsistent (trigger float choose cluster network r s).1.catalog
  unfolding trigger
  trigger-keeps r s inv = elim (Option-cases (lookup r.function_name s.catalog.function_catalog)) [
    | inl absent ↦ rw (absent, trigger) (header status_internal_error s inv)
    | inr (fn, there) ↦ rw (there, trigger) (on_known-keeps r s inv)
  ]

  pub run_explore-keeps :
      (p f : String) (s : Server W)
      → IsConsistent s.catalog
      → IsConsistent (run_explore float choose cluster network p f s).1.catalog
  unfolding run_explore
  run_explore-keeps p f s inv =
      bind-keeps (deploy_function_by_p2p_id cluster f p) _ s (rw (deploy-catalog cluster f p s) inv)
        (λ a t i.
          if-keeps (p == self_catalog_key) _ _ t
            (bind-keeps (wait_ready_at float choose cluster network self_catalog_key f)
              (on_ready float choose cluster network) t (wait-keeps self_catalog_key f t i)
              on_ready-keeps)
            i)

  pub run_report-keeps :
      (f : String) (s : Server W)
      → IsConsistent s.catalog
      → IsConsistent (run_report float choose cluster network f s).1.catalog
  unfolding run_report
  run_report-keeps f s inv =
      bind-keeps (wait_ready_at float choose cluster network self_catalog_key f)
        (on_ready float choose cluster network) s (wait-keeps self_catalog_key f s inv)
        on_ready-keeps
