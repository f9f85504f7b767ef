-- ===== src/Handlers/Namespaces/Labels.antt =====
-- What an update of a namespace (mutate_namespaces.go) makes of its labels.
use faasd.Prelude.{
  String, ◌==◌, ◌≡◌, Bool, true, false, Option, none, some, List, [], ◌∷◌, Map, lookup, All, arith,
  ◌⊎◌, if◌then◌else◌,
}
use faasd.Effects.{ok, err, Error}
use faasd.Handlers.Server.{Server}
use faasd.Handlers.Namespaces.{
  NamespaceService, FunctionNamespace, exclusions, clear_labels, set_labels,
}

-- A label after a value was set for `k`: the empty value removes it.
abbrev pub written : String → String → String → Option String → Option String
written k j v before = if k == j then (if v == "" then none else some v) else before

-- What containerd says of SetLabel: where it returns no error, that label of that namespace changes
-- and no other one. An error is left open.
abbrev pub SetsLabels : {W : Type 0} → NamespaceService W → (String → W → Map String) → Type 0
SetsLabels {W} service view =
    (namespace k v : String) (w : W)
    → (service.set_label namespace k v w).0 ≡ ok tt
    → (j : String)
    → lookup j (view namespace (service.set_label namespace k v w).1)
      ≡ written k j v (lookup j (view namespace w))

unfoldable member : String → List String → Bool
member j [] = false
member j (k ∷ ks) = let rest = member j ks in if k == j then true else rest

abbrev pub NoEmpty : Map String → Type 0
NoEmpty = All (λ e. (e.1 == "") ≡ false)

cleared :
    (j k : String) (later : Bool) (before after : Option String)
    → after ≡ written k j "" before
    → (if later then none else after) ≡ (if (if k == j then true else later) then none else before)
cleared j k later before after seen = ground arith

-- A call of SetLabel returned an error, in the loop that removes labels or in the one that writes
-- them.
abbrev pub SetFails :
    {W : Type 0} → NamespaceService W → FunctionNamespace → Map String → W → Type 0
SetFails service req original w =
    let cleared = clear_labels service req.name (exclusions req.labels original) w in
    (e : Error) × ((cleared.0 ≡ err e)
      ⊎ ((cleared.0 ≡ ok tt) × ((set_labels service req.name req.labels cleared.1).0 ≡ err e)))
