-- ===== src/Handlers/Trigger/Schedule.antt =====
-- What the scheduler of trigger.go may pick (weightExecTimeScheduler and findSuitableNode).
use faasd.Prelude.{
  ℕ, String, ◌≡◌, ◌⊎◌, refl, subst, Bool, true, false, not, Option, none, some, List, [], ◌∷◌, inl,
  inr, arith, In, Map, keys, Option-cases,
}
use faasd.Effects.{Outcome, return, panic, blocked, and_then, Result, ok, err}
use faasd.Catalog.Types.{Node, self_catalog_key}
use faasd.Handlers.Server.{Server}
use faasd.Handlers.Trigger.{
  Float64, Scan, untimed, times, choices_of, pick, pick_weighted, schedule, on_scheduled, on_idle,
  weight_exec_time_scheduler, first_idle, find_suitable_node,
}
use faasd.Handlers.Trigger.Loops.{
  Holder, NoHolder, FromHolders, WeighedAmong, scan_nodes-FromHolders, scan_nodes-NoHolder,
  keys-choices_of, weigh-WeighedAmong,
}
use faasd.Handlers.Trigger.Explore.{nearest, IsRanking}

-- What Pick of weightedrand promises: it returns one of the choices it was given.
abbrev pub PicksAmong : {W : Type 0} → (Map ℕ → W → Option String × W) → Type 0
PicksAmong choose =
    (choices : Map ℕ) (w : _) (p : String) → (choose choices w).0 ≡ some p → In p (keys choices)

module _ {W F : Type 0} (float : Float64 F) (choose : Map ℕ → W → Option String × W) where
  -- The picked node has the function, or it is this node.
  abbrev Picked : String → Map Node → Outcome (Result String) → Type 0
  Picked f nodes (return (ok p)) = Holder f nodes p ⊎ (p ≡ self_catalog_key)
  Picked f nodes (return (err e)) = Unit
  Picked f nodes panic = Unit
  Picked f nodes blocked = Unit

  self-Picked :
      (f : String) (nodes : Map Node) (r : Outcome (Unit {0})) (s : Server W)
      → Picked f nodes (and_then r (λ _ t. (return (ok self_catalog_key), t)) s).0
  self-Picked f nodes (return a) s = inr refl
  self-Picked f nodes panic s = tt
  self-Picked f nodes blocked s = tt

  pick-Picked :
      (f : String) (nodes : Map Node) (choices : Map ℕ) (s : Server W)
      → PicksAmong choose
      → ((p : String) → In p (keys choices) → Holder f nodes p)
      → Picked f nodes (pick float choose f choices s).0
  unfolding pick
  pick-Picked f nodes choices s law all = elim (Option-cases (choose choices s.world).0) [
    | inl refused ↦ rw (refused, pick) (self-Picked f nodes _ _)
    | inr (p, chosen) ↦ rw (chosen, pick) (inl (all p (law choices s.world p chosen)))
  ]

  drop_empty :
      (f p : String) (nodes : Map Node)
      → In p (keys (let m : Map F = [] in m)) ⊎ Holder f nodes p
      → Holder f nodes p
  drop_empty f p nodes (inl h) = elim h [ ]
  drop_empty f p nodes (inr h) = h

  pick_weighted-Picked :
      (f : String) (nodes : Map Node) (raw : Map F) (o : Outcome (Map F × F)) (s : Server W)
      → PicksAmong choose
      → WeighedAmong float raw [] o
      → ((p : String) → In p (keys raw) → Holder f nodes p)
      → Picked f nodes (pick_weighted float choose f o s).0
  unfolding pick_weighted
  pick_weighted-Picked f nodes raw panic s law among held = tt
  pick_weighted-Picked f nodes raw blocked s law among held = tt
  pick_weighted-Picked f nodes raw (return (weighted, prod)) s law among held =
      pick-Picked f nodes (choices_of float prod weighted) s law (λ p there.
        elim (among p (subst (In p) (keys-choices_of float prod weighted) there)) [
          | inl h ↦ elim h [ ]
          | inr h ↦ held p h
        ])

  schedule-Picked :
      (f : String) (scan : Outcome (Scan F)) (s : Server W)
      → PicksAmong choose
      → FromHolders float f s.catalog.node_catalog [] scan
      → Picked f s.catalog.node_catalog (schedule float choose f scan s).0
  unfolding schedule
  schedule-Picked f panic s law from = tt
  schedule-Picked f blocked s law from = tt
  schedule-Picked f (return (untimed p)) s law from = inl from
  schedule-Picked f (return (times [] least)) s law from = tt
  schedule-Picked f (return (times ((p, x) ∷ raw) least)) s law from =
      pick_weighted-Picked f s.catalog.node_catalog ((p, x) ∷ raw) _ s law
        (weigh-WeighedAmong float s.catalog.node_catalog least ((p, x) ∷ raw) [] (float.of_int 1))
        (λ q there. drop_empty f q s.catalog.node_catalog (from q there))

first_idle-nearest :
    (nodes : Map Node) (ps : List String)
    → IsRanking nodes ps
    → first_idle nodes ps ≡ return (nearest (λ node. not node.overload) nodes ps)
unfolding first_idle nearest
first_idle-nearest nodes [] h = refl
first_idle-nearest nodes (p ∷ ps) ((named, (node, found)), h) =
    rw found (ground (arith, first_idle-nearest nodes ps h))

-- The scheduler only ever picks a node that has a replica of the function, or this node, as long as
-- Pick returns one of its choices.
pub scheduler-picks :
    {W F : Type 0} (float : Float64 F) (choose : Map ℕ → W → Option String × W) (f : String)
    (s : Server W) (p : String)
    → PicksAmong choose
    → (weight_exec_time_scheduler float choose f s).0 ≡ return (ok p)
    → Holder f s.catalog.node_catalog p ⊎ (p ≡ self_catalog_key)
unfolding weight_exec_time_scheduler
scheduler-picks float choose f s p law picked =
    subst (Picked float choose f s.catalog.node_catalog) picked (
      schedule-Picked float choose f _ s law
        (scan_nodes-FromHolders float f s.catalog.node_catalog [] float.max))

-- The answer where no node has the function.
abbrev pub idle_answer : Option String → String × Bool
idle_answer none = ("", false)
idle_answer (some p) = (p, true)

-- Where no node has a replica of the function and the ranking holds nodes of the catalog, the
-- node to deploy it at is the nearest that is not overloaded, with an error to say so; but where
-- all are overloaded the answer is the empty name and no error.
pub find_suitable_node-nearest :
    {W F : Type 0} (float : Float64 F) (choose : Map ℕ → W → Option String × W) (f : String)
    (s : Server W)
    → NoHolder f s.catalog.node_catalog
    → IsRanking s.catalog.node_catalog s.catalog.sorted_p2p_id
    → find_suitable_node float choose f s ≡ (
      return (
          idle_answer
            (nearest (λ node. not node.overload) s.catalog.node_catalog s.catalog.sorted_p2p_id)),
      s,
    )
unfolding find_suitable_node weight_exec_time_scheduler schedule on_scheduled
find_suitable_node-nearest float choose f s none_has ranked =
    rw
      (
        scan_nodes-NoHolder float f s.catalog.node_catalog [] float.max none_has,
        first_idle-nearest s.catalog.node_catalog s.catalog.sorted_p2p_id ranked,
      )
      (answered
        (nearest (λ node. not node.overload) s.catalog.node_catalog s.catalog.sorted_p2p_id))
  where
    answered : (o : Option String) → on_idle float choose (return o) s ≡ (return (idle_answer o), s)
    answered none = unfold on_idle in refl
    answered (some p) = unfold on_idle in refl
