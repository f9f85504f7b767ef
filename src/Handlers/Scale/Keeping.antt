-- ===== src/Handlers/Scale/Keeping.antt =====
-- No scale request (scale.go) breaks the invariant of the catalog.
use faasd.Prelude.{
  ℕ, String, ◌==◌, ◌==ℕ◌, ltb, ◌≡◌, ◌∙◌, ap, Bool, true, false, Option, none, some, List, [], ◌∷◌,
  inl, inr, arith, lookup, Option-cases,
}
use faasd.Effects.{Result, ok, err}
use faasd.Catalog.Types.{FunctionStatus, Node, self_catalog_key}
use faasd.Catalog.Cluster.{update_available_functions}
use faasd.Catalog.Invariant.{IsConsistent}
use faasd.Catalog.Operations.{update-IsConsistent}
use faasd.Handlers.Keeps.{header, bind-keeps, if-keeps}
use faasd.Handlers.Server.{
  Server, in_catalog, in_world, status_bad_request, status_no_content, status_internal_error,
  status_not_found,
}
use faasd.Handlers.Namespaces.{valid_namespace, default_function_namespace}
use faasd.Handlers.Scale.Frame.{scale_up-catalog}
use faasd.Handlers.Scale.{
  Cluster, ScaleServiceRequest, scale_up, drop_local, scale_down, replica_update, replicas_of,
  sub_word, scale_down_other, scale_down_loop, change_replicas, allowed_replicas, on_function,
  on_namespace,
}

module _ {W : Type 0} (cluster : Cluster W) where
  drop_local-keeps :
      (f : String) (s : Server W)
      → IsConsistent s.catalog
      → IsConsistent (drop_local cluster f s).1.catalog
  unfolding drop_local
  drop_local-keeps f s inv = elim (Option-cases (lookup f s.catalog.function_catalog)) [
    | inl absent ↦ rw absent inv
    | inr (fn, found) ↦
        let gone = record fn { available_replicas = 0; replicas = 0 } in
        let named : lookup fn.name s.catalog.function_catalog ≡ some fn =
          ap (λ k. lookup k s.catalog.function_catalog) (inv.named f fn found) ∙ found in
        rw found (
          bind-keeps (in_catalog (update_available_functions gone)) _ s
            (update-IsConsistent gone s.catalog fn inv named
              (λ node is_self pos. absurd (omega arith)))
            (λ a t inv'. inv'))
  ]

  scale_down_loop-keeps :
      (f : String) (n : ℕ) (ps : List String) (s : Server W)
      → IsConsistent s.catalog
      → IsConsistent (scale_down_loop cluster f n ps s).1.catalog
  unfolding scale_down_loop
  scale_down_loop-keeps f n [] s inv = inv
  scale_down_loop-keeps f n (p ∷ ps) s inv = elim (Option-cases (lookup p s.catalog.node_catalog)) [
    | inl missing ↦ rw missing inv
    | inr (node, found) ↦ rw found (
        if-keeps (replicas_of f node ==ℕ 0) _ _ s inv
          (if-keeps (p == self_catalog_key) _ _ s (drop_local-keeps f s inv) (rw (other node) inv)))
  ]
    where
      other : (node : Node) → (scale_down_other cluster f n node s).1.catalog ≡ s.catalog
      other node = unfold scale_down_other in ground arith

  scale_down-keeps :
      (f : String) (d : ℕ) (s : Server W)
      → IsConsistent s.catalog
      → IsConsistent (scale_down cluster f d s).1.catalog
  unfolding scale_down
  scale_down-keeps f d s inv = elim (Option-cases (lookup f s.catalog.function_catalog)) [
    | inl absent ↦ rw absent inv
    | inr (fn, found) ↦ rw found (
        if-keeps (sub_word fn.replicas d ==ℕ 0) _ _ s inv
          (scale_down_loop-keeps f (sub_word fn.replicas d) s.catalog.sorted_p2p_id s inv))
  ]

  change_replicas-keeps :
      (f : String) (n : ℕ) (fn : FunctionStatus) (offloaded : Bool) (s : Server W)
      → IsConsistent s.catalog
      → IsConsistent (change_replicas cluster f n fn offloaded s).1.catalog
  unfolding change_replicas
  change_replicas-keeps f n fn offloaded s inv =
      if-keeps (n ==ℕ 0) _ _ s (header status_bad_request s inv) (
        if-keeps (fn.replicas ==ℕ n) _ _ s (header status_no_content s inv) (
          if-keeps offloaded _ _ s (header status_no_content s inv) (
            if-keeps (ltb fn.replicas n) _ _ s
              (bind-keeps (scale_up cluster f n) _ s (rw (scale_up-catalog cluster f n s) inv)
                (elim [ err _ ↦ λ t i. header status_internal_error t i | ok _ ↦ λ t i. i ]))
              (scale_down-keeps f n s inv))))

  on_function-keeps :
      (req : ScaleServiceRequest) (offloaded : Bool) (o : Option FunctionStatus) (s : Server W)
      → IsConsistent s.catalog
      → IsConsistent (on_function cluster req offloaded o s).1.catalog
  unfolding on_function
  on_function-keeps req offloaded none s inv = header status_not_found s inv
  on_function-keeps req offloaded (some fn) s inv =
      change_replicas-keeps req.service_name (allowed_replicas cluster req.replicas) fn offloaded s
        inv

  on_namespace-keeps :
      (req : ScaleServiceRequest) (offloaded : Bool) (valid : Result Bool) (s : Server W)
      → IsConsistent s.catalog
      → IsConsistent (on_namespace cluster req offloaded valid s).1.catalog
  unfolding on_namespace
  on_namespace-keeps req offloaded (err e) s inv = header status_bad_request s inv
  on_namespace-keeps req offloaded (ok false) s inv = header status_bad_request s inv
  on_namespace-keeps req offloaded (ok true) s inv =
      on_function-keeps req offloaded (lookup req.service_name s.catalog.function_catalog) s inv

  replica_update-keeps :
      (body : Option ScaleServiceRequest) (offloaded : Bool) (s : Server W)
      → IsConsistent s.catalog
      → IsConsistent (replica_update cluster body offloaded s).1.catalog
  unfolding replica_update
  replica_update-keeps none offloaded s inv = header status_bad_request s inv
  replica_update-keeps (some req) offloaded s inv =
      bind-keeps (in_world (valid_namespace cluster.namespaces default_function_namespace))
        (on_namespace cluster req offloaded) s inv (on_namespace-keeps req offloaded)

-- A scale request, whatever it asks and however it ends, keeps the invariant of the catalog.
pub replica_update-IsConsistent :
    {W : Type 0} (cluster : Cluster W) (body : Option ScaleServiceRequest) (offloaded : Bool)
    (s : Server W)
    → IsConsistent s.catalog
    → IsConsistent (replica_update cluster body offloaded s).1.catalog
replica_update-IsConsistent cluster body offloaded s inv =
    replica_update-keeps cluster body offloaded s inv
