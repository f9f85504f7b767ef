-- ===== src/Tests/Labels.antt =====
-- The theorem on the labels of a namespace (mutate_namespaces.go) at a service with one namespace.
use faasd.Prelude.{String, ◌==◌, none, [], ◌∷◌, Map, insert, delete, if◌then◌else◌}
use faasd.Effects.{ok}
use faasd.Catalog.Types.{new_catalog}
use faasd.Handlers.Server.{Server}
use faasd.Handlers.Namespaces.{NamespaceService, FunctionNamespace}

-- The world is the labels of the namespace.
abbrev store : NamespaceService (Map String)
store = record {
  list = λ w. (ok ("dev" ∷ []), w);
  labels = λ name w. (ok w, w);
  set_label = λ name key value w. (ok tt, if value == "" then delete key w else insert key value w);
  create = λ name labels w. (ok tt, labels);
  delete = λ name w. (ok tt, []);
}

abbrev all_labels : String → Map String → Map String
all_labels name w = w

abbrev wanted : FunctionNamespace
wanted = record { name = "dev"; labels = ("openfaas", "1") ∷ ("team", "b") ∷ [] }

abbrev before : Map String
before = ("openfaas", "1") ∷ ("owner", "a") ∷ []

abbrev site : Server (Map String)
site = record {
  world = before;
  catalog = new_catalog 1;
  status = none;
  reported = [];
  explored = [];
}
