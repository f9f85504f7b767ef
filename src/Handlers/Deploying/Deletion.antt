-- ===== src/Handlers/Deploying/Deletion.antt =====
-- The delete handler (delete.go) over the containers of a node.
use faasd.Prelude.{
  String, lookup, ◌≢◌, ◌==◌, ◌≡◌, refl, sym, ap, ◌∙◌, subst, Bool, true, false, none, some,
  if◌then◌else◌,
}
use faasd.Effects.{Outcome, return, Result, ok, err, failed}
use faasd.Catalog.Types.{FunctionStatus, Node, Catalog, self_catalog_key}
use faasd.Catalog.Cluster.{delete_available_functions}
use faasd.Catalog.Deletion.{Forgotten, delete-function}
use faasd.Handlers.Server.{Server, http_error, status_bad_request}
use faasd.Handlers.Namespaces.{NamespaceService, valid_namespace}
use faasd.Handlers.Lifecycle.{
  DeleteFunctionRequest, get_request_namespace, report_or, done, delete_checked, delete_handler,
}
use faasd.Handlers.Functions.{delete_function}
use faasd.Handlers.Functions.Deleting.{IsEngine, before_remove, delete_function-deletes}
use faasd.Handlers.Deploying.{Platform, node_containers}

refused :
    {W : Type 0} (s : Server W)
    → s.status ≡ none
    → (http_error status_bad_request s).1.status ≡ some status_bad_request
refused s fresh = rw fresh refl

module _ {W I R : Type 0} (platforms : String → Platform W I R) (service : NamespaceService W)
    (path : String) (exists : W → String → Bool) where
  -- What a deletion leaves of a function, from the world `w` and the catalog `c`.
  abbrev pub Gone : String → FunctionStatus → Node → W → Catalog → Server W → Type 0
  Gone name fn node w c s =
      Forgotten name fn node c s.catalog
      × ((j : String) → exists s.world j ≡ (if name == j then false else exists w j))

  module _ (namespace name : String) (laws : IsEngine (platforms namespace).engine exists)
      (fn : FunctionStatus) (node : Node) (s : Server W) (w : W) (c : Catalog)
      (left : Forgotten name fn node s.catalog c)
      (answers : ((platforms namespace).engine.host.client.load_container name
          (before_remove (platforms namespace).engine exists laws name namespace w)).0
        ≢ err failed)
      (fresh : s.status ≡ none) where
    deleted : Result (Unit {0})
    deleted = (delete_function (platforms namespace).engine name namespace w).0

    w' : W
    w' = (delete_function (platforms namespace).engine name namespace w).1

    replied-Gone :
        (r : Result (Unit {0}))
        → deleted ≡ r
        → (report_or
            (node_containers platforms service path)
            status_bad_request
            (done (node_containers platforms service path))
            r
            (record s { world = w'; catalog = c })).1.status
          ≡ none
        → Gone name fn node w s.catalog
            (report_or
              (node_containers platforms service path)
              status_bad_request
              (done (node_containers platforms service path))
              r
              (record s { world = w'; catalog = c })).1
    unfolding deleted w'
    replied-Gone (ok a) ran quiet = (
      left,
      λ j.
          delete_function-deletes (platforms namespace).engine exists laws name namespace w j
            answers ran,
    )
    replied-Gone (err e) ran quiet =
        cc (quiet, refused (record s { world = w'; catalog = c }) fresh)

  -- A delete request for a catalogued function in a valid namespace, answered without an error,
  -- leaves of the function no count of this node, and its catalog entry with the total over the
  -- other nodes, in uint64, or without one where this total is 0; of the containers of the node it
  -- takes that of the function away and no other. It is supposed that the node has an entry of its
  -- own, that nothing was replied yet, that the deletion from the catalog does not block, and that
  -- Remove can load the container or is told that there is none.
  pub delete_handler-refines :
      (req : DeleteFunctionRequest) (s : Server W) (w : W) (fn : FunctionStatus) (node : Node)
      (laws : IsEngine (platforms (get_request_namespace req.delete_namespace)).engine exists)
      → s.status ≡ none
      → valid_namespace service (get_request_namespace req.delete_namespace) s.world ≡ (ok true, w)
      → lookup self_catalog_key s.catalog.node_catalog ≡ some node
      → lookup req.function_name s.catalog.function_catalog ≡ some fn
      → (delete_available_functions req.function_name s.catalog).0 ≡ return tt
      → ((platforms (get_request_namespace req.delete_namespace)).engine.host.client.load_container
          req.function_name
          (before_remove
            (platforms (get_request_namespace req.delete_namespace)).engine
            exists
            laws
            req.function_name
            (get_request_namespace req.delete_namespace)
            w)).0
        ≢ err failed
      → (delete_handler (node_containers platforms service path) (some req) s).1.status ≡ none
      → Gone req.function_name fn node w s.catalog
          (delete_handler (node_containers platforms service path) (some req) s).1
  unfolding delete_handler delete_checked node_containers deleted w'
  delete_handler-refines req s w fn node laws fresh valid found present returned answers quiet =
      subst (λ (r : Outcome (Unit {0}) × Server W). Gone req.function_name fn node w s.catalog r.1)
        (sym same)
        (replied-Gone namespace req.function_name laws fn node s w c left answers fresh
          (deleted namespace req.function_name laws fn node s w c left answers fresh) refl
          (ap (λ (r : Outcome (Unit {0}) × Server W). r.1.status) (sym same) ∙ quiet))
    where
      namespace : String
      namespace = get_request_namespace req.delete_namespace

      c : Catalog
      c = (delete_available_functions req.function_name s.catalog).1

      left : Forgotten req.function_name fn node s.catalog c
      left = delete-function req.function_name s.catalog node fn found present

      listed : delete_available_functions req.function_name s.catalog ≡ (return tt, c)
      listed = ap (λ (r : Outcome (Unit {0})). (r, c)) returned

      same :
          delete_handler (node_containers platforms service path) (some req) s
          ≡ report_or
              (node_containers platforms service path)
              status_bad_request
              (done (node_containers platforms service path))
              (deleted namespace req.function_name laws fn node s w c left answers fresh)
              (record s {
                world = w' namespace req.function_name laws fn node s w c left answers fresh;
                catalog = c;
              })
      same = rw (valid, listed) refl
