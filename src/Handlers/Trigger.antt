-- ===== src/Handlers/Trigger.antt =====
-- pkg/provider/handlers/trigger.go: at which node a function is run. Floating point numbers and the
-- weighted choice of the weightedrand package are parameters.
pub mod Explore
pub mod Loops
pub mod Schedule
pub mod Proxy
pub mod Handler
pub mod Responses
pub mod Picks
pub mod Keeping
use faasd.Prelude.{
  ℕ, zero, suc, ◌+◌, ◌-◌, ◌/◌, ltb, ◌==ℕ◌, String, ◌==◌, Bool, true, false, not, Option, none, some,
  List, [], ◌∷◌, ◌++◌, Map, lookup, insert, get_or, if◌then◌else◌,
}
use faasd.Effects.{
  Outcome, return, panic, blocked, Action, get, pure, deref, ◌>>=◌, ◌>>◌, Result, ok, err, failed,
}
use faasd.Catalog.Types.{Node, Catalog, self_catalog_key}
use faasd.Catalog.Local.{update_node}
use faasd.Handlers.Server.{Server, in_world, in_catalog}

-- replicas, exist := node.AvailableFunctionsReplicas[functionName]; exist && replicas > 0
abbrev pub has_replicas : String → Node → Bool
has_replicas f node = ltb 0 (get_or 0 (lookup f node.available_functions_replicas))

-- c.NodeCatalog[p2pID].FunctionExecutionTime[functionName].Load()
unfoldable pub load_time : String → String → Catalog → Outcome ℕ
load_time p2p_id f c = elim (lookup p2p_id c.node_catalog) [
  | none ↦ panic
  | some node ↦ elim (lookup f node.function_execution_time) [ none ↦ panic | some t ↦ return t ]
]

-- The loop of explorePotentialNode; `potential` is "" as long as no node was kept in mind.
unfoldable pub explore_loop : String → ℕ → Map Node → List String → String → Outcome (Option String)
explore_loop f curr nodes [] potential = return (if potential == "" then none else some potential)
explore_loop f curr nodes (p ∷ ps) potential =
    let rest = explore_loop f curr nodes ps in
    elim (lookup p nodes) [
      | none ↦ panic
      | some node ↦
          if has_replicas f node
          then rest potential
          else (elim (lookup f node.function_execution_time) [
            | some t ↦ if ltb t curr then return (some p) else rest potential
            | none ↦ if potential == "" then rest p else rest potential
          ])
    ]

-- The error of the source is none.
unfoldable pub explore_potential_node : String → String → Catalog → Outcome (Option String)
unfolding load_time
explore_potential_node target f c = elim (load_time target f c) [
  | return curr ↦ explore_loop f curr c.node_catalog c.sorted_p2p_id ""
  | panic ↦ panic
  | blocked ↦ blocked
]

-- The operations on float64 that the scheduler uses.
pub record Float64 (F : Type 0) : Type 0 where
  pub of_int : ℕ → F
  pub max : F
  pub is_one : F → Bool
  pub less : F → F → Bool
  pub mul : F → F → F
  pub div : F → F → F
  pub to_uint64 : F → ℕ

-- What the first loop of the scheduler found: a node to be tried at once, or the times of the
-- nodes that have the function, with the least of them.
pub data Scan (F : Type 0) : Type 0 where
  untimed : String → Scan F
  times : Map F → F → Scan F

abbrev pub weight_rr_factory : ℕ
weight_rr_factory = 4

abbrev pub overload_penalty_factory : ℕ
overload_penalty_factory = 4

module _ {F : Type 0} (float : Float64 F) where
  unfoldable pub scan_nodes : String → Map Node → Map F → F → Outcome (Scan F)
  scan_nodes f [] raw least = return (times raw least)
  scan_nodes f ((p, node) ∷ nodes) raw least =
      let rest = scan_nodes f nodes in
      if has_replicas f node
      then (elim (lookup f node.function_execution_time) [
        | none ↦ panic
        | some t ↦
            let x = float.of_int t in
            if float.is_one x
            then return (untimed p)
            else rest (raw ++ (p, x) ∷ []) (if float.less x least then x else least)
      ])
      else rest raw least

  -- execTimeWeighted: `i` more products with `x`.
  abbrev pub power : F → ℕ → F → F
  power x zero acc = acc
  power x (suc i) acc = power x i (float.mul acc x)

  abbrev pub factory_of : Node → ℕ
  factory_of node =
      if node.overload then weight_rr_factory + overload_penalty_factory else weight_rr_factory

  -- The second loop, whose results are the weights and their product.
  unfoldable pub weigh : Map Node → F → Map F → Map F → F → Outcome (Map F × F)
  weigh nodes least [] weighted prod = return (weighted, prod)
  weigh nodes least ((p, x) ∷ raw) weighted prod =
      let rest = weigh nodes least raw in
      elim (lookup p nodes) [
        | none ↦ panic
        | some node ↦
            let y = float.div x least in
            let w = power y (factory_of node - 1) y in
            rest (weighted ++ (p, w) ∷ []) (float.mul prod w)
      ]

  -- The third loop: the choices with their probabilities.
  abbrev pub choices_of : F → Map F → Map ℕ
  choices_of prod [] = []
  choices_of prod ((p, w) ∷ weighted) =
      (p, float.to_uint64 (float.mul (float.div prod w) (float.of_int 10)))
      ∷ choices_of prod weighted

-- Store(1); an entry that is not there is a nil dereference.
unfoldable pub reset_time : String → Node → Option Node
reset_time f node = elim (lookup f node.function_execution_time) [
  | none ↦ none
  | some _ ↦ some (record node {
    info = record node.info { function_execution_time = insert f 1 node.function_execution_time };
  })
]

-- The loop over the nodes that have the function.
unfoldable pub reset_times : String → Map Node → Action Catalog (Unit {0})
unfolding reset_time
reset_times f [] = pure tt
reset_times f ((p, node) ∷ nodes) =
    let rest = reset_times f nodes in
    if has_replicas f node then (do update_node p (reset_time f); rest) else rest

-- The first node of the ranking that is not overloaded.
unfoldable pub first_idle : Map Node → List String → Outcome (Option String)
first_idle nodes [] = return none
first_idle nodes (p ∷ ps) =
    let rest = first_idle nodes ps in
    elim (lookup p nodes) [
      | none ↦ panic
      | some node ↦ if node.overload then rest else return (some p)
    ]

module _ {W F : Type 0} (float : Float64 F) (choose : Map ℕ → W → Option String × W) where
  -- The end of the scheduler: `choose` is NewChooser, none where it returns an error, and Pick.
  unfoldable pub pick : String → Map ℕ → Action (Server W) (Result String)
  pick f choices = do
    picked ← in_world (choose choices)
    elim picked [
      | some p ↦ pure (ok p)
      | none ↦ do
        s ← get
        in_catalog (reset_times f s.catalog.node_catalog)
        pure (ok self_catalog_key)
    ]

  unfoldable pub pick_weighted : String → Outcome (Map F × F) → Action (Server W) (Result String)
  unfolding pick
  pick_weighted f panic s = (panic, s)
  pick_weighted f blocked s = (blocked, s)
  pick_weighted f (return (weighted, prod)) s = pick f (choices_of float prod weighted) s

  -- The scheduler after its first loop.
  unfoldable pub schedule : String → Outcome (Scan F) → Action (Server W) (Result String)
  unfolding pick_weighted
  schedule f panic s = (panic, s)
  schedule f blocked s = (blocked, s)
  schedule f (return (untimed p)) s = (return (ok p), s)
  schedule f (return (times [] least)) s = (return (err failed), s)
  schedule f (return (times ((p, x) ∷ raw) least)) s =
      pick_weighted f (weigh float s.catalog.node_catalog least ((p, x) ∷ raw) [] (float.of_int 1))
        s

  unfoldable pub weight_exec_time_scheduler : String → Action (Server W) (Result String)
  unfolding schedule
  weight_exec_time_scheduler f s =
      schedule f (scan_nodes float f s.catalog.node_catalog [] float.max) s

  unfoldable pub on_idle : Outcome (Option String) → Action (Server W) (String × Bool)
  on_idle panic s = (panic, s)
  on_idle blocked s = (blocked, s)
  on_idle (return none) s = (return ("", false), s)
  on_idle (return (some p)) s = (return (p, true), s)

  unfoldable pub on_scheduled : Result String → Action (Server W) (String × Bool)
  unfolding on_idle
  on_scheduled (ok p) s = (return (p, false), s)
  on_scheduled (err e) s = on_idle (first_idle s.catalog.node_catalog s.catalog.sorted_p2p_id) s

  -- The result and whether the error is set: it is not if every node is overloaded, and the
  -- result is "" then.
  unfoldable pub find_suitable_node : String → Action (Server W) (String × Bool)
  unfolding on_scheduled
  find_suitable_node f = do found ← weight_exec_time_scheduler f; on_scheduled found

-- The execution time after a run of so many milliseconds; 1 stands for no time yet.
abbrev pub averaged : ℕ → ℕ → ℕ
averaged before milliseconds = if before ==ℕ 1 then milliseconds else (before + milliseconds) / 2
