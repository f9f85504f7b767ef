-- ===== src/Handlers/Namespaces.antt =====
-- pkg/provider/handlers/mutate_namespaces.go, and the tests on namespaces of utils.go and
-- functions.go. The namespace service of containerd is a parameter; a body that is no JSON is
-- `none`.
pub mod Labels
use faasd.Prelude.{
  String, ◌==◌, Bool, true, false, not, ◌&&◌, ◌||◌, Option, none, some, List, [], ◌∷◌, Map, lookup,
  is_some, ℕ, if◌then◌else◌,
}
use faasd.Effects.{Action, ◌>>=◌, Result, ok, err, not_found, failed}
use faasd.Handlers.Server.{
  Server, in_world, write_header, http_error, status_ok, status_created, status_accepted,
  status_bad_request, status_not_found, status_method_not_allowed, status_conflict,
  status_internal_error,
}

abbrev pub default_function_namespace : String
default_function_namespace = "openfaas-fn"

abbrev pub namespace_label : String
namespace_label = "openfaas"

-- client.NamespaceService()
pub record NamespaceService (W : Type 0) : Type 0 where
  pub list : W → Result (List String) × W
  pub labels : String → W → Result (Map String) × W
  pub set_label : String → String → String → W → Result (Unit {0}) × W
  pub create : String → Map String → W → Result (Unit {0}) × W
  pub delete : String → W → Result (Unit {0}) × W

pub data Method : Type 0 where
  get post put delete other : Method

pub record FunctionNamespace : Type 0 where
  pub name : String
  pub labels : Map String

-- `path_name` is the name in the path, empty if there is none.
pub record NamespaceRequest : Type 0 where
  pub method : Method
  pub path_name : String
  pub body : Option FunctionNamespace

unfoldable pub has_openfaas_label : Map String → Bool
has_openfaas_label labels = elim (lookup namespace_label labels) [
  | none ↦ false
  | some v ↦ v == "1"
]

abbrev pub is_get : Method → Bool
is_get get = true
is_get _ = false

abbrev pub is_post : Method → Bool
is_post post = true
is_post _ = false

-- The checks on a parsed body; the error is an HttpError with its status.
unfoldable pub check_namespace : NamespaceRequest → FunctionNamespace → Option ℕ
check_namespace r req =
    if not (is_post r.method) && r.path_name == ""
    then some status_bad_request
    else if not (is_post r.method) && not (req.name == r.path_name)
    then some status_bad_request
    else if req.name == ""
    then some status_bad_request
    else if not (has_openfaas_label req.labels)
    then some status_bad_request
    else none

-- A parsed request, or the status of the error.
pub data Parsed : Type 0 where
  parsed : FunctionNamespace → Parsed
  rejected : ℕ → Parsed

unfoldable pub parse_namespace_request : NamespaceRequest → Parsed
parse_namespace_request r =
    if is_get r.method
    then if r.path_name == ""
      then rejected status_bad_request
      else parsed (record { name = r.path_name; labels = [] })
    else (elim r.body [
      | none ↦ rejected status_bad_request
      | some req ↦ elim (check_namespace r req) [ some code ↦ rejected code | none ↦ parsed req ]
    ])

unfoldable pub find_namespace : String → List String → Bool
find_namespace target [] = false
find_namespace target (n ∷ items) = n == target || find_namespace target items

-- The labels of the namespace that the request no longer has.
unfoldable pub exclusions : Map String → Map String → List String
exclusions wanted [] = []
exclusions wanted ((key, value) ∷ original) =
    let rest = exclusions wanted original in
    if is_some (lookup key wanted) then rest else key ∷ rest

module _ {W : Type 0} (service : NamespaceService W) where
  -- found and label value "true" or "1"
  abbrev enabled : Option String → Bool
  enabled none = false
  enabled (some v) = v == "true" || v == "1"

  unfoldable pub valid_namespace : String → W → Result Bool × W
  valid_namespace namespace w =
      if namespace == default_function_namespace
      then (ok true, w)
      else (let (found, w') = service.labels namespace w in
          elim found [
            | ok labels ↦ (ok (enabled (lookup namespace_label labels)), w')
            | err e ↦ (err e, w')
          ])

  unfoldable pub namespace_exists : String → W → Result Bool × W
  namespace_exists name w =
      let (ns, w') = service.list w in
      elim ns [ ok items ↦ (ok (find_namespace name items), w') | err e ↦ (err e, w') ]

  abbrev Handling : Type 0
  Handling = Action (Server W) (Unit {0})

  -- The loops over the labels; the rest of the handler is not run after an error.
  unfoldable pub clear_labels : String → List String → W → Result (Unit {0}) × W
  clear_labels name [] w = (ok tt, w)
  clear_labels name (key ∷ rest) w =
      let (r, w') = service.set_label name key "" w in
      elim r [ ok _ ↦ clear_labels name rest w' | err e ↦ (err e, w') ]

  unfoldable pub set_labels : String → Map String → W → Result (Unit {0}) × W
  set_labels name [] w = (ok tt, w)
  set_labels name ((key, value) ∷ rest) w =
      let (r, w') = service.set_label name key value w in
      elim r [ ok _ ↦ set_labels name rest w' | err e ↦ (err e, w') ]

  -- From `originalLabels` on.
  unfoldable pub update_labels : FunctionNamespace → Map String → Handling
  update_labels req original =
      if not (has_openfaas_label original) then http_error status_bad_request else (do
        cleared ← in_world (clear_labels req.name (exclusions req.labels original))
        elim cleared [
          | err _ ↦ http_error status_internal_error
          | ok _ ↦ do
            written ← in_world (set_labels req.name req.labels)
            elim written [
              | err _ ↦ http_error status_internal_error
              | ok _ ↦ write_header status_accepted
            ]
        ])

  -- The namespace must exist; its labels are then handed to the rest of the handler.
  unfoldable pub with_labels : String → (Map String → Handling) → Handling
  with_labels name rest = do
    found ← in_world (namespace_exists name)
    elim found [
      | err _ ↦ http_error status_bad_request
      | ok false ↦ http_error status_not_found
      | ok true ↦ do
        labels ← in_world (service.labels name)
        elim labels [ err _ ↦ http_error status_bad_request | ok original ↦ rest original ]
    ]

  unfoldable pub update_namespace : NamespaceRequest → Handling
  update_namespace r = elim (parse_namespace_request r) [
    | rejected code ↦ http_error code
    | parsed req ↦ with_labels req.name (update_labels req)
  ]

  unfoldable pub delete_namespace : NamespaceRequest → Handling
  delete_namespace r = elim (parse_namespace_request r) [
    | rejected code ↦ http_error code
    | parsed req ↦ do
      deleted ← in_world (service.delete req.name)
      elim deleted [
        | err not_found ↦ http_error status_not_found
        | err failed ↦ http_error status_internal_error
        | ok _ ↦ write_header status_accepted
      ]
  ]

  unfoldable pub get_namespace : NamespaceRequest → Handling
  get_namespace r = elim (parse_namespace_request r) [
    | rejected code ↦ http_error code
    | parsed req ↦ with_labels req.name λ labels.
        if has_openfaas_label labels then write_header status_ok else http_error status_not_found
  ]

  unfoldable pub create_namespace : NamespaceRequest → Handling
  create_namespace r = elim (parse_namespace_request r) [
    | rejected code ↦ http_error code
    | parsed req ↦ do
      namespaces ← in_world service.list
      elim namespaces [
        | err _ ↦ http_error status_bad_request
        | ok items ↦ if find_namespace req.name items then http_error status_conflict else (do
          created ← in_world (service.create req.name req.labels)
          elim created [
            | err _ ↦ http_error status_bad_request
            | ok _ ↦ write_header status_created
          ])
      ]
  ]

  unfoldable pub mutate_namespace : NamespaceRequest → Handling
  mutate_namespace r = elim r.method [
    | post ↦ create_namespace r
    | get ↦ get_namespace r
    | delete ↦ delete_namespace r
    | put ↦ update_namespace r
    | other ↦ write_header status_method_not_allowed
  ]
