-- ===== src/Handlers/Trigger/Explore.antt =====
-- Which node is worth a first instance of a function (explorePotentialNode of trigger.go).
use faasd.Prelude.{
  ℕ, ltb, String, ◌==◌, ◌≡◌, Bool, false, not, ◌&&◌, Option, none, some, List, [], ◌∷◌, arith, All,
  Map, lookup, is_some, if◌then◌else◌,
}
use faasd.Effects.{return}
use faasd.Catalog.Types.{Node, Catalog}
use faasd.Handlers.Trigger.{has_replicas, load_time, explore_loop, explore_potential_node}

-- A node without the function whose last known time is better than `curr`.
abbrev pub is_faster : String → ℕ → Node → Bool
is_faster f curr node =
    not (has_replicas f node)
    && (elim (lookup f node.function_execution_time) [ none ↦ false | some t ↦ ltb t curr ])

-- A node without the function that never ran it.
abbrev pub is_untried : String → Node → Bool
is_untried f node =
    not (has_replicas f node) && not (is_some (lookup f node.function_execution_time))

abbrev satisfies : (Node → Bool) → Option Node → Bool
satisfies test none = false
satisfies test (some node) = test node

-- The first of the nodes, from near to far, with the property.
unfoldable pub nearest : (Node → Bool) → Map Node → List String → Option String
nearest test nodes [] = none
nearest test nodes (p ∷ ps) =
    let rest = nearest test nodes ps in if satisfies test (lookup p nodes) then some p else rest

abbrev pub or_else : Option String → Option String → Option String
or_else none o = o
or_else (some p) o = some p

abbrev pub kept : String → Option String → Option String
kept q o = if q == "" then o else some q

-- Every key of the ranking is that of a node, and none is empty.
abbrev pub IsRanking : Map Node → List String → Type 0
IsRanking nodes = All (λ p. ((p == "") ≡ false) × ((node : Node) × (lookup p nodes ≡ some node)))

explore_loop-nearest :
    (f : String) (curr : ℕ) (nodes : Map Node) (ps : List String) (q : String)
    → IsRanking nodes ps
    → explore_loop f curr nodes ps q
      ≡ return
          (or_else (nearest (is_faster f curr) nodes ps) (kept q (nearest (is_untried f) nodes ps)))
unfolding explore_loop nearest
explore_loop-nearest f curr nodes [] q h = ground arith
explore_loop-nearest f curr nodes (p ∷ ps) q ((named, (node, found)), h) = rw found (
    ground
      (arith, explore_loop-nearest f curr nodes ps q h, explore_loop-nearest f curr nodes ps p h))

-- The node to try is the nearest that lacks the function and was faster than the target, failing
-- that the nearest that lacks it and never ran it, failing that none; it never panics where the
-- ranking holds nodes of the catalog and the target has a time.
pub explore-nearest :
    (target f : String) (curr : ℕ) (c : Catalog)
    → load_time target f c ≡ return curr
    → IsRanking c.node_catalog c.sorted_p2p_id
    → explore_potential_node target f c
      ≡ return (
          or_else
            (nearest (is_faster f curr) c.node_catalog c.sorted_p2p_id)
            (nearest (is_untried f) c.node_catalog c.sorted_p2p_id))
unfolding explore_potential_node
explore-nearest target f curr c timed ranked =
    rw (timed, explore_potential_node)
      (explore_loop-nearest f curr c.node_catalog c.sorted_p2p_id "" ranked)
