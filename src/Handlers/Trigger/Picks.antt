-- ===== src/Handlers/Trigger/Picks.antt =====
-- Choosing a node in trigger.go writes no more than execution times.
use faasd.Prelude.{
  ℕ, String, ◌≡◌, Option, none, some, [], ◌∷◌, inl, inr, arith, Map, lookup, Option-cases,
  Bool-cases,
}
use faasd.Effects.{Outcome, return, panic, blocked, and_then, Result, ok, err}
use faasd.Catalog.Types.{Node, Catalog}
use faasd.Catalog.Local.{update_node}
use faasd.Catalog.Invariant.{IsConsistent}
use faasd.Catalog.Invariant.Times.{OnlyTimes, written-OnlyTimes, update_node-IsConsistent}
use faasd.Handlers.Keeps.{bind-keeps}
use faasd.Handlers.Server.{Server, in_catalog}
use faasd.Handlers.Trigger.{
  has_replicas, Float64, Scan, untimed, times, reset_time, reset_times, pick, pick_weighted,
  schedule, weight_exec_time_scheduler, on_idle, on_scheduled, find_suitable_node,
}

reset_time-OnlyTimes :
    (f : String) (node node' : Node) → reset_time f node ≡ some node' → OnlyTimes node node'
unfolding reset_time
reset_time-OnlyTimes f node node' h = elim (Option-cases (lookup f node.function_execution_time)) [
  | inl absent ↦ absurd (ground (arith, absent, h))
  | inr (t, there) ↦ written-OnlyTimes f 1 node node' (rw (there, reset_time) at h)
]

reset_times-keeps :
    (f : String) (nodes : Map Node) (c : Catalog)
    → IsConsistent c
    → IsConsistent (reset_times f nodes c).1
unfolding reset_times
reset_times-keeps f [] c inv = inv
reset_times-keeps f ((p, node) ∷ nodes) c inv = elim (Bool-cases (has_replicas f node)) [
  | inr lacks ↦ rw lacks (reset_times-keeps f nodes c inv)
  | inl has ↦ rw has (
      go (update_node p (reset_time f) c).0 (update_node p (reset_time f) c).1
        (update_node-IsConsistent p (reset_time f) c (reset_time-OnlyTimes f) inv)
        (reset_times-keeps f nodes))
]
  where
    go :
        (r : Outcome (Unit {0})) (d : Catalog)
        → IsConsistent d
        → ((e : Catalog) → IsConsistent e → IsConsistent (reset_times f nodes e).1)
        → IsConsistent (and_then r (λ _. reset_times f nodes) d).1
    go (return a) d i rest = rest d i
    go panic d i rest = i
    go blocked d i rest = i

module _ {W F : Type 0} (float : Float64 F) (choose : Map ℕ → W → Option String × W) where
  pick-keeps :
      (f : String) (choices : Map ℕ) (s : Server W)
      → IsConsistent s.catalog
      → IsConsistent (pick float choose f choices s).1.catalog
  unfolding pick
  pick-keeps f choices s inv = elim (Option-cases (choose choices s.world).0) [
    | inr (p, chosen) ↦ rw (chosen, pick) inv
    | inl refused ↦
        rw (refused, pick)
          (bind-keeps (in_catalog (reset_times f s.catalog.node_catalog)) _ _
            (reset_times-keeps f s.catalog.node_catalog s.catalog inv) (λ a t i. i))
  ]

  pick_weighted-keeps :
      (f : String) (o : Outcome (Map F × F)) (s : Server W)
      → IsConsistent s.catalog
      → IsConsistent (pick_weighted float choose f o s).1.catalog
  unfolding pick_weighted
  pick_weighted-keeps f panic s inv = inv
  pick_weighted-keeps f blocked s inv = inv
  pick_weighted-keeps f (return (weighted, prod)) s inv = pick-keeps f _ s inv

  schedule-keeps :
      (f : String) (scan : Outcome (Scan F)) (s : Server W)
      → IsConsistent s.catalog
      → IsConsistent (schedule float choose f scan s).1.catalog
  unfolding schedule
  schedule-keeps f panic s inv = inv
  schedule-keeps f blocked s inv = inv
  schedule-keeps f (return (untimed p)) s inv = inv
  schedule-keeps f (return (times [] least)) s inv = inv
  schedule-keeps f (return (times (x ∷ raw) least)) s inv = pick_weighted-keeps f _ s inv

  on_idle-keeps :
      (o : Outcome (Option String)) (s : Server W)
      → IsConsistent s.catalog
      → IsConsistent (on_idle float choose o s).1.catalog
  unfolding on_idle
  on_idle-keeps panic s inv = inv
  on_idle-keeps blocked s inv = inv
  on_idle-keeps (return none) s inv = inv
  on_idle-keeps (return (some p)) s inv = inv

  on_scheduled-keeps :
      (found : Result String) (s : Server W)
      → IsConsistent s.catalog
      → IsConsistent (on_scheduled float choose found s).1.catalog
  unfolding on_scheduled
  on_scheduled-keeps (ok p) s inv = inv
  on_scheduled-keeps (err e) s inv = on_idle-keeps _ s inv

  pub find_suitable_node-keeps :
      (f : String) (s : Server W)
      → IsConsistent s.catalog
      → IsConsistent (find_suitable_node float choose f s).1.catalog
  unfolding find_suitable_node weight_exec_time_scheduler
  find_suitable_node-keeps f s inv =
      bind-keeps (weight_exec_time_scheduler float choose f) (on_scheduled float choose) s
        (schedule-keeps f _ s inv) on_scheduled-keeps
