-- ===== src/Handlers/Deploying/Description.antt =====
-- A function that was deployed (deploy.go) as GetFunction (functions.go) describes it.
use faasd.Prelude.{String, ◌≡◌, Option, [], lookup, get_or}
use faasd.Handlers.Lifecycle.{FunctionDeployment}
use faasd.Handlers.Functions.{Function}
use faasd.Handlers.Deploying.{ContainerOptions, Platform}
use faasd.Handlers.Deploying.Stored.{Stores}

module _ {W I R : Type 0} (platform : Platform W I R)
    (held : W → String → Option (ContainerOptions I)) (laws : Stores platform held) where
  -- What GetFunction says of the labels, annotations and secrets that were requested, at a key.
  abbrev pub AsRequested : FunctionDeployment → String → Function → Type 0
  AsRequested req k fn =
      (lookup k fn.labels ≡ lookup k (get_or [] req.labels))
      × (lookup k fn.annotations ≡ lookup k (get_or [] req.annotations))
      × (fn.secrets ≡ req.secrets)
