-- ===== src/Catalog/Gossip/Visit.antt =====
-- One round of the loop of unpackNodeInfoMsg: no nil dereference, and what the node has after it.
use faasd.Prelude.{
  ℕ, ◌<◌, ltb, String, ◌≡◌, refl, true, not, ◌&&◌, some, inl, inr, arith, Map, lookup, insert,
  lookup-insert, lookup-insert_self, Option-cases, Bool-cases, is_some, ◌==◌, ◌∙◌,
}
use faasd.Catalog.Types.{FunctionStatus, Node}
use faasd.Catalog.Gossip.{ensure_execution_time, has_new_replicas, reset_execution_time}

pub record Visit (fn : FunctionStatus) (node node' : Node) : Type 0 where
  pub same_replicas : node'.available_functions_replicas ≡ node.available_functions_replicas
  pub same_overload : node'.overload ≡ node.overload
  pub keeps_time :
      (f : String) (t : ℕ)
      → lookup f node.function_execution_time ≡ some t
      → (t' : ℕ) × (lookup f node'.function_execution_time ≡ some t')
  pub has_time :
      0 < fn.available_replicas → (t : ℕ) × (lookup fn.name node'.function_execution_time ≡ some t)

-- A write of one entry keeps every key.
keeps_key :
    (k f : String) (v t : ℕ) (m : Map ℕ)
    → lookup f m ≡ some t
    → (t' : ℕ) × (lookup f (insert k v m) ≡ some t')
keeps_key k f v t m h = elim (Bool-cases (k == f)) [
  | inl same ↦ (v, rw (lookup-insert k f v m, same) refl)
  | inr other ↦ (t, rw (lookup-insert k f v m, other) h)
]

module _ (fn : FunctionStatus) (node : Node) where
  ensure-time :
      0 < fn.available_replicas
      → (t : ℕ) × (lookup fn.name (ensure_execution_time fn node).function_execution_time ≡ some t)
  unfolding ensure_execution_time
  ensure-time pos = elim (Option-cases (lookup fn.name node.function_execution_time)) [
    | inl absent ↦ (1, ground (arith, lookup-insert_self fn.name 1 node.function_execution_time))
    | inr (t, there) ↦ (t, ground arith)
  ]

  ensure-keeps :
      (f : String) (t : ℕ)
      → lookup f node.function_execution_time ≡ some t
      → (t' : ℕ) × (lookup f (ensure_execution_time fn node).function_execution_time ≡ some t')
  unfolding ensure_execution_time
  ensure-keeps f t h =
      elim (Bool-cases (
        not (is_some (lookup fn.name node.function_execution_time))
        && ltb 0 fn.available_replicas)) [
          | inl new ↦ rw new (keeps_key fn.name f 1 t node.function_execution_time h)
          | inr old ↦ rw old (t, h)
        ]

  ensure-Visit : Visit fn node (ensure_execution_time fn node)
  ensure-Visit = record {
    same_replicas = unfold ensure_execution_time in ground arith;
    same_overload = unfold ensure_execution_time in ground arith;
    keeps_time = ensure-keeps;
    has_time = ensure-time;
  }

  has_new-pos : has_new_replicas fn node ≡ true → 0 < fn.available_replicas
  unfolding has_new_replicas
  has_new-pos h = ground arith

  -- Where the node has a time for the function if it is to have replicas, the reset goes through.
  reset-Visit :
      (0 < fn.available_replicas → (t : ℕ) × (lookup fn.name node.function_execution_time ≡ some t))
      → (node' : Node) × (reset_execution_time fn node ≡ some node') × Visit fn node node'
  unfolding reset_execution_time
  reset-Visit timed = elim (Bool-cases (has_new_replicas fn node)) [
    | inr same ↦ (
      node,
      rw same refl,
      record {
        same_replicas = refl;
        same_overload = refl;
        keeps_time = λ f t h. (t, h);
        has_time = timed;
      },
    )
    | inl new ↦
        let (t, there) = timed (has_new-pos new) in
        (
          record node {
            info = record node.info {
              function_execution_time = insert fn.name 1 node.function_execution_time;
            };
          },
          rw (new, there) refl,
          record {
            same_replicas = refl;
            same_overload = refl;
            keeps_time = λ f t h. keeps_key fn.name f 1 t node.function_execution_time h;
            has_time = λ pos. (1, lookup-insert_self fn.name 1 node.function_execution_time);
          },
        )
  ]

-- Both writes of a round together.
pub visit :
    (fn : FunctionStatus) (node : Node)
    → (node' : Node) × (reset_execution_time fn (ensure_execution_time fn node) ≡ some node')
      × Visit fn node node'
visit fn node =
    let first = ensure-Visit fn node in
    let (node', reset, second) = reset-Visit fn (ensure_execution_time fn node) first.has_time in
    (
      node',
      reset,
      record {
        same_replicas = second.same_replicas ∙ first.same_replicas;
        same_overload = second.same_overload ∙ first.same_overload;
        keeps_time = λ f t h. let (t', h') = first.keeps_time f t h in second.keeps_time f t' h';
        has_time = second.has_time;
      },
    )
