-- ===== src/Catalog/Rank/Ranking.antt =====
-- The ranking by round trips: sorted, complete where the round trips differ, and lossy in a tie.
use faasd.Prelude.{
  ℕ, suc, ◌≤◌, ltb, ◌==ℕ◌, String, ◌≡◌, ◌≢◌, refl, sym, ap, true, false, Option, List, [], ◌∷◌, map,
  length, In, All, ◌⊎◌, inl, inr, arith, Map, keys, Bool-cases, if◌then◌else◌,
}
use mathlib.Core.List.{Perm}
use mathlib.Core.List.Perm
use faasd.Effects.{return}
use faasd.Catalog.Types.{Node, Catalog}
use faasd.Catalog.Rank.Sorting.{IsSorted, sort-IsSorted, sort-perm, sort-In}
use faasd.Catalog.Rank.{measure, node_at_rtt, sort, rtts, rank_node_by_rtt}

-- No two measured nodes have one round trip.
abbrev pub DistinctRtts : List (ℕ × String) → Type 0
DistinctRtts [] = Unit
DistinctRtts ((r, p) ∷ rest) = All (λ other. other ≢ r) (rtts rest) × DistinctRtts rest

abbrev pub ids : List (ℕ × String) → List String
ids [] = []
ids ((r, p) ∷ rest) = p ∷ ids rest

abbrev at_rtt : List (ℕ × String) → ℕ → ℕ × String
at_rtt measured r = (r, node_at_rtt r "" measured)

-- Where no node has the round trip, the loop leaves what it had.
node_at_rtt-absent :
    (r : ℕ) (d : String) (m : List (ℕ × String))
    → All (λ other. other ≢ r) (rtts m)
    → node_at_rtt r d m ≡ d
unfolding node_at_rtt
node_at_rtt-absent r d [] h = refl
node_at_rtt-absent r d ((r', p) ∷ m) (ne, h) =
    let test : (r' ==ℕ r) ≡ false = ground arith in rw test (node_at_rtt-absent r d m h)

at_rtt-skip :
    (r : ℕ) (p : String) (m : List (ℕ × String)) (xs : List ℕ)
    → All (λ other. other ≢ r) xs
    → map (at_rtt ((r, p) ∷ m)) xs ≡ map (at_rtt m) xs
unfolding node_at_rtt
at_rtt-skip r p m [] h = refl
at_rtt-skip r p m (x ∷ xs) (ne, h) =
    let test : (r ==ℕ x) ≡ false = ground arith in rw (test, at_rtt-skip r p m xs h) refl

In-dec : (r : ℕ) (xs : List ℕ) → In r xs ⊎ All (λ other. other ≢ r) xs
In-dec r [] = inr tt
In-dec r (x ∷ xs) = elim (Bool-cases (x ==ℕ r)) [
  | inl same ↦ inl (inl (ground arith))
  | inr other ↦ elim (In-dec r xs) [
    | inl later ↦ inl (inr later)
    | inr absent ↦ inr (ground arith, absent)
  ]
]

not-In_of_All : (r : ℕ) (xs : List ℕ) → All (λ other. other ≢ r) xs → In r xs → ⊥
not-In_of_All r [] h m = m
not-In_of_All r (x ∷ xs) (ne, h) (inl e) = ne e
not-In_of_All r (x ∷ xs) (ne, h) (inr m) = not-In_of_All r xs h m

-- With distinct round trips the map from round trips to nodes has them all.
at_rtt-all : (m : List (ℕ × String)) → DistinctRtts m → map (at_rtt m) (rtts m) ≡ m
unfolding node_at_rtt
at_rtt-all [] h = refl
at_rtt-all ((r, p) ∷ m) (fresh, h) =
    let test : (r ==ℕ r) ≡ true = ground arith in
    rw (at_rtt-skip r p m (rtts m) fresh, at_rtt-all m h, test, node_at_rtt-absent r p m fresh) refl

rtts-map : (m : List (ℕ × String)) (xs : List ℕ) → rtts (map (at_rtt m) xs) ≡ xs
rtts-map m [] = refl
rtts-map m (x ∷ xs) = ap (λ l. x ∷ l) (rtts-map m xs)

ids-map :
    (m : List (ℕ × String)) (xs : List ℕ)
    → ids (map (at_rtt m) xs) ≡ map (λ r. node_at_rtt r "" m) xs
ids-map m [] = refl
ids-map m (x ∷ xs) = ap (λ l. node_at_rtt x "" m ∷ l) (ids-map m xs)

measure-cons :
    (ping : String → Option ℕ) (p : String) (node : Node) (nodes : Map Node) (m : List (ℕ × String))
    → measure ping ((p, node) ∷ nodes) ≡ return m
    → (rtt : ℕ) × (rest : List (ℕ × String)) × (measure ping nodes ≡ return rest)
      × (m ≡ (rtt, p) ∷ rest)
unfolding measure
measure-cons ping p node nodes m h = ground arith

-- Every node of the catalog is measured, in the order of the loop.
pub measure-ids :
    (ping : String → Option ℕ) (nodes : Map Node) (m : List (ℕ × String))
    → measure ping nodes ≡ return m
    → ids m ≡ keys nodes
unfolding measure
measure-ids ping [] m h = ground arith
measure-ids ping ((p, node) ∷ nodes) m h =
    let (rtt, rest, tail, e) = measure-cons ping p node nodes m h in
    rw (e, measure-ids ping nodes rest tail) refl

module _ (ping : String → Option ℕ) (c : Catalog) (m : List (ℕ × String))
    (measured : measure ping c.node_catalog ≡ return m)
    (fits : length (rtts m) ≤ c.sorted_capacity) where
  rank-runs :
      rank_node_by_rtt ping c
      ≡ (return tt, record c { sorted_p2p_id = map (λ r. node_at_rtt r "" m) (sort (rtts m)) })
  unfolding rank_node_by_rtt
  rank-runs =
      let test : ltb c.sorted_capacity (length (rtts m)) ≡ false = ground arith in
      rw (measured, test, rank_node_by_rtt) refl

  -- Where all round trips could be measured and differ, and the slice has room for them, the
  -- ranking lists the nodes of the catalog, each once, by growing round trips.
  pub rank-order :
      DistinctRtts m
      → (order : List (ℕ × String)) × Perm order m
        × ids m ≡ keys c.node_catalog
        × IsSorted (rtts order)
        × (rank_node_by_rtt ping c).0 ≡ return tt
        × (rank_node_by_rtt ping c).1.sorted_p2p_id ≡ ids order
  rank-order distinct = (
    map (at_rtt m) (sort (rtts m)),
    rw (at_rtt-all m distinct) at (Perm.map (at_rtt m) (sort-perm (rtts m))),
    measure-ids ping c.node_catalog m measured,
    rw (rtts-map m (sort (rtts m))) (sort-IsSorted (rtts m)),
    rw rank-runs refl,
    rw rank-runs (sym (ids-map m (sort (rtts m)))),
  )

node_at_rtt-In :
    (r : ℕ) (d : String) (m : List (ℕ × String)) → In r (rtts m) → In (node_at_rtt r d m) (ids m)
unfolding node_at_rtt
node_at_rtt-In r d [] h = elim h [ ]
node_at_rtt-In r d ((r', p) ∷ m) h = elim (In-dec r (rtts m)) [
  | inl later ↦ inr (node_at_rtt-In r (if r' ==ℕ r then p else d) m later)
  | inr absent ↦ elim h [
    | inr later ↦ absurd (not-In_of_All r (rtts m) absent later)
    | inl e ↦
        let test : (r' ==ℕ r) ≡ true = ground arith in
        rw test (inl (sym (node_at_rtt-absent r p m absent)))
  ]
]

In-map-inv :
    (f : ℕ → String) (p : String) (xs : List ℕ) → In p (map f xs) → (x : ℕ) × In x xs × (f x ≡ p)
In-map-inv f p [] h = elim h [ ]
In-map-inv f p (x ∷ xs) (inl e) = (x, inl refl, e)
In-map-inv f p (x ∷ xs) (inr h) = let (y, m, e) = In-map-inv f p xs h in (y, inr m, e)

-- A node that is measured first, once, and has the same round trip as a node measured after it is
-- missing from the ranking, where the slice has room for all.
pub rank-tie :
    (ping : String → Option ℕ) (c : Catalog) (r : ℕ) (p : String) (m : List (ℕ × String))
    → measure ping c.node_catalog ≡ return ((r, p) ∷ m)
    → suc (length (rtts m)) ≤ c.sorted_capacity
    → In r (rtts m)
    → ¬ In p (ids m)
    → ¬ In p (rank_node_by_rtt ping c).1.sorted_p2p_id
unfolding node_at_rtt
rank-tie ping c r p m measured fits tie once listed =
    let all : List (ℕ × String) = (r, p) ∷ m in
    let here : In p (map (λ x. node_at_rtt x "" all) (sort (rtts all))) =
      rw (rank-runs ping c all measured fits) at listed in
    let (x, at, e) = In-map-inv (λ x. node_at_rtt x "" all) p (sort (rtts all)) here in
    once (rw e at (later x (sort-In x (rtts all) at)))
  where
    later : (x : ℕ) → In x (r ∷ rtts m) → In (node_at_rtt x "" ((r, p) ∷ m)) (ids m)
    later x (inl e) = node_at_rtt-In x _ m (rw e at tie)
    later x (inr i) = node_at_rtt-In x _ m i
