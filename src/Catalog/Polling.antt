-- ===== src/Catalog/Polling.antt =====
-- The polling of pkg/provider/catalog/catalog_local_level.go: a round of ListenUpdateInfo over the
-- containers of the node, the metrics of Prometheus and the catalog. Floating point is a parameter.
use faasd.Prelude.{
  ℕ, String, ◌==ℕ◌, Bool, true, false, ◌||◌, not, Option, none, some, List, [], ◌∷◌, Map, lookup,
  insert, length, if◌then◌else◌,
}
use faasd.Effects.{return, panic, Action, pure, modify, deref, ◌>>=◌, ◌>>◌, Result, ok, err}
use faasd.Effects.Calls.{Call}
use faasd.Runtime.{Host}
use faasd.Runtime.Network.{delete_cni_network}
use faasd.Runtime.Service.{remove, ensure_task_running, get_task_ip, ensure_all_stopped_task_delete}
use faasd.Catalog.Types.{Node, Catalog, self_catalog_key}
use faasd.Catalog.Local.{update_node, publish_info}

-- model.SampleValue; `of_int` converts a length.
pub record Samples (F : Type 0) : Type 0 where
  pub zero_load : F
  pub add : F → F → F
  pub div : F → F → F
  pub of_int : ℕ → F
  pub above_threshold : F → Bool

-- Query: a vector of values, or none for a value of another type.
pub record Prometheus (W F : Type 0) : Type 0 where
  pub query : String → Call W (Option (List F))

pub record Polled (W : Type 0) : Type 0 where
  pub world : W
  pub invoke_cache : Map String
  pub catalog : Catalog

module _ {F : Type 0} (samples : Samples F) where
  unfoldable pub sum_load : F → List F → F
  sum_load load [] = load
  sum_load load (v ∷ vs) = sum_load (samples.add load v) vs

  -- The average of a vector, which divides by its length also if that is 0.
  unfoldable pub average_load : List F → F
  unfolding sum_load
  average_load vector =
      samples.div (sum_load samples.zero_load vector) (samples.of_int (length vector))

module _ {W F : Type 0} (host : Host W) (prometheus : Prometheus W F) (samples : Samples F) where
  abbrev Polling : Type 0 → Type 0
  Polling A = Action (Polled W) A

  abbrev pub calling : {A : Type 0} → Call W A → Polling (Result A)
  calling m s = (return (m s.world).0, record s { world = (m s.world).1 })

  abbrev pub on_ip : String → Result String → Polling (Unit {0})
  on_ip fname (ok ip) = modify (λ s. record s { invoke_cache = insert fname ip s.invoke_cache })
  on_ip fname (err e) = pure tt

  -- A function without replicas loses its container, another one is kept running. All errors are
  -- logged or dropped.
  unfoldable pub update_function : String → ℕ → Polling (Unit {0})
  update_function fname replica =
      if replica ==ℕ 0
      then calling (delete_cni_network host fname) >> calling (remove host fname) >> pure tt
      else calling (ensure_task_running host fname)
        >> calling (get_task_ip host fname)
        >>= on_ip fname

  unfoldable pub update_functions : Map ℕ → Polling (Unit {0})
  unfolding update_function
  update_functions [] = pure tt
  update_functions ((fname, replica) ∷ held) =
      update_function fname replica >> update_functions held

  abbrev pub self_node : Polling Node
  self_node s = deref (lookup self_catalog_key s.catalog.node_catalog) s

  -- The result is always false: the check publishes nothing.
  unfoldable pub update_available_replicas : Polling Bool
  unfolding update_functions
  update_available_replicas =
      self_node
      >>= (λ node. update_functions node.available_functions_replicas)
      >> calling (ensure_all_stopped_task_delete host)
      >> pure false

  -- The process ends where a metric is not to be had (log.Fatalf).
  abbrev pub on_vector : Result (Option (List F)) → Polling F
  on_vector (ok (some vector)) s = (return (average_load samples vector), s)
  on_vector (ok none) s = (panic, s)
  on_vector (err e) s = (panic, s)

  unfoldable pub query_resource_average_load : String → Polling F
  unfolding average_load
  query_resource_average_load query = calling (prometheus.query query) >>= on_vector

  abbrev pub in_self : (Node → Node) → Polling (Unit {0})
  in_self f s =
      let (r, c) = update_node self_catalog_key (λ node. some (f node)) s.catalog in
      (r, record s { catalog = c })

  abbrev pub overloaded : Bool → Node → Node
  overloaded b node = record node { info = record node.info { overload = b } }

  abbrev pub same_flag : Bool → Bool → Bool
  same_flag true b = b
  same_flag false b = not b

  abbrev pub set_if_changed : Bool → Node → Polling Bool
  set_if_changed b node =
      if same_flag b node.overload then pure false else (in_self (overloaded b) >> pure true)

  unfoldable pub update_pressure : String → String → Polling Bool
  unfolding query_resource_average_load
  update_pressure cpu_query mem_query = query_resource_average_load cpu_query >>= (λ cpu.
      query_resource_average_load mem_query >>= (λ mem.
        self_node >>= set_if_changed (samples.above_threshold cpu || samples.above_threshold mem)))

  abbrev pub publish : Polling (Unit {0})
  publish s = let (r, c) = publish_info s.catalog in (r, record s { catalog = c })

  abbrev pub publish_if : Bool → Polling (Unit {0})
  publish_if true = publish
  publish_if false = pure tt

  abbrev pub or_pressure : String → String → Bool → Polling Bool
  or_pressure cpu_query mem_query true = pure true
  or_pressure cpu_query mem_query false = update_pressure cpu_query mem_query

  -- One round of the loop of ListenUpdateInfo, the sleep aside.
  unfoldable pub listen_round : String → String → Polling (Unit {0})
  unfolding update_available_replicas update_pressure
  listen_round cpu_query mem_query =
      update_available_replicas >>= or_pressure cpu_query mem_query >>= publish_if
