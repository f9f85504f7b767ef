-- ===== src/Handlers/Functions/Listing.antt =====
-- The lists of functions and of namespaces (functions.go).
use faasd.Prelude.{
  String, Bool, true, false, List, [], ◌∷◌, ◌++◌, Map, lookup, insert, is_some, if◌then◌else◌,
}
use faasd.Effects.{Result, ok, err, failed}
use faasd.Effects.Calls.{Call, succeed, fail, ◌>>=◌, attempt}
use faasd.Runtime.{Containerd}
use faasd.Catalog.Types.{FunctionStatus}
use faasd.Handlers.Namespaces.{
  NamespaceService, valid_namespace, default_function_namespace, namespace_label, find_namespace,
}
use faasd.Handlers.Functions.{Engine, Function, get_function, status_from}

module _ {W : Type 0} (engine : Engine W) where
  abbrev client : Containerd W
  client = engine.host.client

  -- A container that cannot be read is skipped.
  abbrev pub add_function_found : String → Result Function → Map Function → Map Function
  add_function_found name (ok f) functions = insert name f functions
  add_function_found name (err e) functions = functions

  unfoldable pub collect_functions : String → List String → Map Function → Call W (Map Function)
  unfolding get_function
  collect_functions namespace [] functions = succeed functions
  collect_functions namespace (name ∷ names) functions =
      attempt (get_function engine name namespace)
        (λ f. collect_functions namespace names (add_function_found name f functions))

  abbrev pub in_valid_namespace : {A : Type 0} → Call W A → Bool → Call W A
  in_valid_namespace rest true = rest
  in_valid_namespace rest false = fail failed

  unfoldable pub list_functions : NamespaceService W → String → Call W (Map Function)
  unfolding collect_functions
  list_functions service namespace =
      valid_namespace service namespace
      >>= in_valid_namespace (client.containers >>= (λ names. collect_functions namespace names []))

  abbrev pub statuses : Map Function → List FunctionStatus
  statuses [] = []
  statuses ((name, fn) ∷ fns) = status_from fn ∷ statuses fns

  unfoldable pub list_function_status : NamespaceService W → String → Call W (List FunctionStatus)
  unfolding list_functions
  list_function_status service namespace =
      list_functions service namespace >>= (λ fns. succeed (statuses fns))

module _ {W : Type 0} (service : NamespaceService W) where
  -- The default namespace is added inside the loop.
  abbrev pub with_default : List String → List String
  with_default set =
      if find_namespace default_function_namespace set
      then set
      else set ++ default_function_namespace ∷ []

  abbrev pub with_labelled : String → Map String → List String → List String
  with_labelled namespace labels set =
      if is_some (lookup namespace_label labels) then set ++ namespace ∷ [] else set

  -- A namespace whose labels cannot be read is skipped.
  abbrev pub add_namespace : String → Result (Map String) → List String → List String
  add_namespace namespace (err e) set = set
  add_namespace namespace (ok labels) set = with_default (with_labelled namespace labels set)

  unfoldable pub collect_namespaces : List String → List String → W → List String × W
  unfolding find_namespace lookup
  collect_namespaces [] set w = (set, w)
  collect_namespaces (namespace ∷ namespaces) set w =
      collect_namespaces namespaces (add_namespace namespace (service.labels namespace w).0 set)
        (service.labels namespace w).1

  abbrev pub on_namespaces : Result (List String) → W → List String × W
  on_namespaces (err e) w = (default_function_namespace ∷ [], w)
  on_namespaces (ok namespaces) w = collect_namespaces namespaces [] w

  unfoldable pub list_namespaces : W → List String × W
  unfolding collect_namespaces
  list_namespaces w = on_namespaces (service.list w).0 (service.list w).1
