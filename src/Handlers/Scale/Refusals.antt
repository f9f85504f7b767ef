-- ===== src/Handlers/Scale/Refusals.antt =====
-- When a scale request (scale.go) is refused.
use faasd.Prelude.{ℕ, ltb, ◌==ℕ◌, ◌≡◌, Bool, Option, none, some, arith, lookup, if◌then◌else◌}
use faasd.Effects.{return}
use faasd.Catalog.Types.{FunctionStatus}
use faasd.Handlers.Server.{Server, status_bad_request, status_no_content, status_not_found}
use faasd.Handlers.Namespaces.{valid_namespace}
use faasd.Handlers.Scale.{
  Cluster, ScaleServiceRequest, change_replicas, replica_update, on_function, on_namespace,
  max_replicas,
}

-- The status of a request that is refused: an unknown function, no replicas, as many replicas as
-- there are, or a request that another node passed on.
abbrev pub refusal : ScaleServiceRequest → Bool → Option FunctionStatus → Option ℕ
refusal req offloaded none = some status_not_found
refusal req offloaded (some fn) =
    if req.replicas ==ℕ 0
    then some status_bad_request
    else if fn.replicas ==ℕ (if ltb max_replicas req.replicas then max_replicas else req.replicas)
    then some status_no_content
    else if offloaded
    then some status_no_content
    else none

module _ {W : Type 0} (cluster : Cluster W) where
  refused :
      (req : ScaleServiceRequest) (offloaded : Bool) (code : ℕ) (o : Option FunctionStatus)
      (s : Server W)
      → s.status ≡ none
      → refusal req offloaded o ≡ some code
      → on_function cluster req offloaded o s ≡ (return tt, record s { status = some code })
  unfolding on_function change_replicas
  refused req offloaded code none s fresh code_is = ground arith
  refused req offloaded code (some fn) s fresh code_is = ground arith

-- Where nothing was replied yet, a scale request that is to be refused is answered with the
-- status of its refusal and does nothing else: no container, no other node and no catalog entry
-- is touched.
pub replica_update-refuses :
    {W : Type 0} (cluster : Cluster W) (req : ScaleServiceRequest) (offloaded : Bool) (code : ℕ)
    (s : Server W)
    → s.status ≡ none
    → refusal req offloaded (lookup req.service_name s.catalog.function_catalog) ≡ some code
    → replica_update cluster (some req) offloaded s ≡ (return tt, record s { status = some code })
unfolding replica_update on_namespace valid_namespace
replica_update-refuses cluster req offloaded code s fresh code_is =
    refused cluster req offloaded code (lookup req.service_name s.catalog.function_catalog) s fresh
      code_is
