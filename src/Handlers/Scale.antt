-- ===== src/Handlers/Scale.antt =====
-- pkg/provider/handlers/scale.go. The other nodes are reached through the SDK, which is a
-- parameter, and so is what this node does to its own disk and containers (validateSecrets, deploy,
-- DeleteFunction).
pub mod Frame
pub mod Keeping
pub mod Nodes
pub mod Refusals
use faasd.Prelude.{
  ℕ, suc, ◌+◌, ◌-◌, ◌%◌, ltb, leb, ◌==ℕ◌, String, ◌==◌, Bool, true, false, not, ◌&&◌, Option, none,
  some, List, [], ◌∷◌, Map, lookup, get_or, if◌then◌else◌,
}
use faasd.Effects.{
  Outcome, return, panic, Action, get, pure, deref, ◌>>=◌, ◌>>◌, Result, ok, err, Error, failed,
}
use faasd.Catalog.Types.{word, FunctionStatus, SdkClient, Node, Catalog, self_catalog_key}
use faasd.Catalog.Cluster.{update_available_functions}
use faasd.Handlers.Server.{
  Server, in_world, in_catalog, write_header, http_error, spawn_report, status_no_content,
  status_bad_request, status_not_found, status_internal_error,
}
use faasd.Handlers.Namespaces.{NamespaceService, valid_namespace, default_function_namespace}

abbrev pub max_replicas : ℕ
max_replicas = 10

-- What the handlers do to the containers of this node, and to other nodes by the SDK.
pub record Cluster (W : Type 0) : Type 0 where
  pub namespaces : NamespaceService W
  pub validate_secrets : List String → W → Result (Unit {0}) × W
  pub deploy_local : FunctionStatus → W → Result (Unit {0}) × W
  pub delete_local : String → W → Result (Unit {0}) × W
  pub deploy_at : SdkClient → FunctionStatus → W → Result (Unit {0}) × W
  pub scale_at : SdkClient → String → ℕ → W → Result (Unit {0}) × W
  pub delete_at : SdkClient → String → W → Result (Unit {0}) × W

pub record ScaleServiceRequest : Type 0 where
  pub service_name : String
  pub replicas : ℕ

-- a - b in uint64
abbrev pub sub_word : ℕ → ℕ → ℕ
sub_word a b = (a + word - b) % word

abbrev pub replicas_of : String → Node → ℕ
replicas_of function_name node = get_or 0 (lookup function_name node.available_functions_replicas)

module _ {W : Type 0} (cluster : Cluster W) where
  abbrev pub Handling : Type 0 → Type 0
  Handling A = Action (Server W) A

  -- c.NodeCatalog[p2pID], dereferenced
  abbrev pub node_at : String → Handling Node
  node_at p2p_id s = deref (lookup p2p_id s.catalog.node_catalog) s

  abbrev pub function_at : String → Handling FunctionStatus
  function_at name s = deref (lookup name s.catalog.function_catalog) s

  -- The error of a local deployment is logged, and `err`, which is nil by then, is returned.
  unfoldable pub deploy_function_by_p2p_id : String → String → Handling (Result (Unit {0}))
  deploy_function_by_p2p_id function_name target s =
      elim (lookup function_name s.catalog.function_catalog) [
        | none ↦ (return (err failed), s)
        | some fn ↦
            if target == self_catalog_key
            then (do
              validated ← in_world (cluster.validate_secrets fn.secrets)
              elim validated [
                | err e ↦ pure (err e)
                | ok _ ↦ do ignored ← in_world (cluster.deploy_local fn); pure (ok tt)
              ])
                s
            else (do
              node ← node_at target
              client ← deref node.faas_client.client
              in_world (cluster.deploy_at client fn))
                s
      ]

  -- Deploy the first instance at the node, and report it if the node is this one.
  unfoldable pub deploy_first : String → String → ℕ → Handling (Result ℕ)
  unfolding deploy_function_by_p2p_id
  deploy_first function_name p2p_id count = do
    deployed ← deploy_function_by_p2p_id function_name p2p_id
    elim deployed [
      | err e ↦ pure (err e)
      | ok _ ↦
          if p2p_id == self_catalog_key
          then (do spawn_report function_name; pure (ok (sub_word count 1)))
          else pure (ok (sub_word count 1))
    ]

  -- Ask another node for all of the replicas; if it agrees nothing is left to do.
  unfoldable pub scale_other : String → ℕ → String → Node → ℕ → Handling ℕ
  scale_other function_name desired p2p_id node count =
      if ltb 0 count && not (p2p_id == self_catalog_key)
      then (do
        client ← deref node.faas_client.client
        scaled ← in_world (cluster.scale_at client function_name desired)
        elim scaled [ ok _ ↦ pure 0 | err _ ↦ pure count ])
      else pure count

  -- What one node of the loop of scaleUp does; the result is the count that is left.
  unfoldable pub scale_up_node : String → ℕ → String → Node → ℕ → Handling (Result ℕ)
  unfolding deploy_first scale_other
  scale_up_node function_name desired p2p_id node count =
      if replicas_of function_name node ==ℕ 0
      then (do
        first ← deploy_first function_name p2p_id count
        elim first [
          | err e ↦ pure (err e)
          | ok left ↦ do left' ← scale_other function_name desired p2p_id node left; pure (ok left')
        ])
      else (do left ← scale_other function_name desired p2p_id node count; pure (ok left))

  -- The loop over the nodes from near to far.
  unfoldable pub scale_up_loop : String → ℕ → List String → ℕ → Handling (Result (Unit {0}))
  scale_up_loop function_name desired [] count = pure (ok tt)
  scale_up_loop function_name desired (p2p_id ∷ p2p_ids) count =
      let rest = λ (left : ℕ). scale_up_loop function_name desired p2p_ids left in
      if count ==ℕ 0 then pure (ok tt) else (do
        node ← node_at p2p_id
        if node.overload then rest count else (do
          result ← scale_up_node function_name desired p2p_id node count
          elim result [ err e ↦ pure (err e) | ok left ↦ rest left ]))

  unfoldable pub scale_up : String → ℕ → Handling (Result (Unit {0}))
  scale_up function_name desired = do
    fn ← function_at function_name
    s ← get
    scale_up_loop function_name desired s.catalog.sorted_p2p_id (sub_word desired fn.replicas)

  -- Report the function as gone before its containers are deleted; the result is not looked at.
  unfoldable pub drop_local : String → Handling (Unit {0})
  drop_local function_name = do
    fn ← function_at function_name
    in_catalog (update_available_functions (record fn { available_replicas = 0; replicas = 0 }))
    ignored ← in_world (cluster.delete_local function_name)
    pure tt

  -- What scaleDown does at a node that is not this one.
  unfoldable pub scale_down_other : String → ℕ → Node → Handling (Unit {0})
  scale_down_other function_name count node = do
    client ← deref node.faas_client.client
    let has = replicas_of function_name node
    ignored ← in_world (
        if ltb count has
        then cluster.scale_at client function_name (has - count)
        else cluster.delete_at client function_name)
    pure tt

  -- A node with no replica is left alone; this node drops all of its own in either branch.
  unfoldable pub scale_down_node : String → ℕ → String → Node → Handling (Unit {0})
  unfolding drop_local scale_down_other
  scale_down_node function_name count p2p_id node =
      if replicas_of function_name node ==ℕ 0
      then pure tt
      else if p2p_id == self_catalog_key
      then drop_local function_name
      else scale_down_other function_name count node

  -- The loop of scaleDown, which looks at the first node of the ranking only.
  unfoldable pub scale_down_loop : String → ℕ → List String → Handling (Unit {0})
  unfolding scale_down_node
  scale_down_loop function_name count [] s = (panic, s)
  scale_down_loop function_name count (p2p_id ∷ _) s =
      (do node ← node_at p2p_id; scale_down_node function_name count p2p_id node) s

  unfoldable pub scale_down : String → ℕ → Handling (Unit {0})
  unfolding scale_down_loop
  scale_down function_name desired = do
    fn ← function_at function_name
    s ← get
    let count = sub_word fn.replicas desired
    if count ==ℕ 0 then pure tt else scale_down_loop function_name count s.catalog.sorted_p2p_id

  -- The change of a catalogued function to a count of replicas.
  unfoldable pub change_replicas : String → ℕ → FunctionStatus → Bool → Handling (Unit {0})
  unfolding scale_up scale_down
  change_replicas name replicas fn offloaded =
      if replicas ==ℕ 0
      then http_error status_bad_request
      else if fn.replicas ==ℕ replicas
      then write_header status_no_content
      else if offloaded
      then write_header status_no_content
      else if ltb fn.replicas replicas
      then (do
        scaled ← scale_up name replicas
        elim scaled [ err _ ↦ http_error status_internal_error | ok _ ↦ pure tt ])
      else scale_down name replicas

  -- The request is cut to what is allowed.
  abbrev pub allowed_replicas : ℕ → ℕ
  allowed_replicas n = if ltb max_replicas n then max_replicas else n

  -- The handler once the catalog was asked for the function.
  unfoldable pub on_function :
      ScaleServiceRequest → Bool → Option FunctionStatus → Handling (Unit {0})
  on_function req offloaded none = http_error status_not_found
  on_function req offloaded (some fn) =
      change_replicas req.service_name (allowed_replicas req.replicas) fn offloaded

  -- The handler once the namespace was checked.
  unfoldable pub on_namespace : ScaleServiceRequest → Bool → Result Bool → Handling (Unit {0})
  unfolding on_function
  on_namespace req offloaded (err e) = http_error status_bad_request
  on_namespace req offloaded (ok false) = http_error status_bad_request
  on_namespace req offloaded (ok true) = do
    s ← get
    on_function req offloaded (lookup req.service_name s.catalog.function_catalog)

  -- MakeReplicaUpdateHandler. `body` is none where it is missing or no JSON; `offloaded` is
  -- isOffloadRequest of the request.
  unfoldable pub replica_update : Option ScaleServiceRequest → Bool → Handling (Unit {0})
  unfolding on_namespace
  replica_update none offloaded = http_error status_bad_request
  replica_update (some req) offloaded = do
    valid ← in_world (valid_namespace cluster.namespaces default_function_namespace)
    on_namespace req offloaded valid
