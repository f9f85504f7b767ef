-- ===== src/Handlers/Trigger/Responses.antt =====
-- The proxied request of trigger.go writes no more than an execution time.
use faasd.Prelude.{ℕ, ◌==ℕ◌, String, ◌==◌, ◌≡◌, ◌||◌, some, inl, inr, arith, lookup, Option-cases}
use faasd.Effects.{Result, ok, err}
use faasd.Catalog.Types.{Node}
use faasd.Catalog.Invariant.{IsConsistent}
use faasd.Catalog.Invariant.Times.{OnlyTimes, written-OnlyTimes, update_node-IsConsistent}
use faasd.Handlers.Keeps.{header, bind-keeps, if-keeps}
use faasd.Handlers.Server.{
  Server, in_world, write_header, status_bad_request, status_internal_error,
  status_service_unavailable, status_method_not_allowed,
}
use faasd.Handlers.Trigger.{averaged}
use faasd.Handlers.Trigger.Proxy.{
  Network, TriggerRequest, store_time, on_response, on_built, on_resolved, resolve_at,
  proxy_request, offload_request,
}

store_time-OnlyTimes :
    (f : String) (ms : ℕ) (node node' : Node)
    → store_time f ms node ≡ some node'
    → OnlyTimes node node'
unfolding store_time
store_time-OnlyTimes f ms node node' h =
    elim (Option-cases (lookup f node.function_execution_time)) [
      | inl absent ↦ absurd (ground (arith, absent, h))
      | inr (t, there) ↦
          written-OnlyTimes f (averaged t ms) node node' (rw (there, store_time) at h)
    ]

module _ {W : Type 0} (network : Network W) where
  on_response-keeps :
      (target : String) (r : TriggerRequest) (response : Result (ℕ × ℕ)) (s : Server W)
      → IsConsistent s.catalog
      → IsConsistent (on_response network target r response s).1.catalog
  unfolding on_response
  on_response-keeps target r (err e) s inv = header status_internal_error s inv
  on_response-keeps target r (ok (code, ms)) s inv =
      bind-keeps (write_header code) _ s (header code s inv) λ a t i.
        if-keeps (code ==ℕ status_bad_request || code ==ℕ status_internal_error) _ _ t i (
          update_node-IsConsistent target (store_time r.function_name ms) t.catalog
            (store_time-OnlyTimes r.function_name ms) i)

  on_built-keeps :
      (target : String) (r : TriggerRequest) (built : Result (Unit {0})) (s : Server W)
      → IsConsistent s.catalog
      → IsConsistent (on_built network target r built s).1.catalog
  unfolding on_built
  on_built-keeps target r (err e) s inv = header status_internal_error s inv
  on_built-keeps target r (ok a) s inv = if-keeps r.event_stream _ _ s inv (
      bind-keeps (in_world (network.send r.path_name)) (on_response network target r) s inv
        (on_response-keeps target r))

  on_resolved-keeps :
      (target : String) (r : TriggerRequest) (resolved : Result (Unit {0})) (s : Server W)
      → IsConsistent s.catalog
      → IsConsistent (on_resolved network target r resolved s).1.catalog
  unfolding on_resolved
  on_resolved-keeps target r (err e) s inv = header status_service_unavailable s inv
  on_resolved-keeps target r (ok a) s inv =
      bind-keeps (in_world (network.build r.path_name)) (on_built network target r) s inv
        (on_built-keeps target r)

  resolve_at-catalog :
      (target name : String) (s : Server W)
      → (resolve_at network target name s).1.catalog ≡ s.catalog
  unfolding resolve_at
  resolve_at-catalog target name s = ground arith

  pub offload_request-keeps :
      (target : String) (r : TriggerRequest) (s : Server W)
      → IsConsistent s.catalog
      → IsConsistent (offload_request network target r s).1.catalog
  unfolding offload_request proxy_request
  offload_request-keeps target r s inv =
      if-keeps r.may_proxy _ _ s
        (if-keeps (r.path_name == "") _ _ s (header status_bad_request s inv) (
          bind-keeps (resolve_at network target r.path_name) (on_resolved network target r) s
            (rw (resolve_at-catalog target r.path_name s) inv) (on_resolved-keeps target r)))
        (header status_method_not_allowed s inv)
