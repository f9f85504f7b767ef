-- ===== src/Catalog/Gossip/Loop.antt =====
-- The loop of unpackNodeInfoMsg: it goes through, and what holds after any number of rounds.
use faasd.Prelude.{
  ℕ, ◌<◌, String, ◌==◌, ◌≡◌, refl, ◌∙◌, false, some, List, [], ◌∷◌, ◌⊎◌, inl, inr, arith, eq_iff,
  Map, lookup, insert, lookup-insert, lookup-insert_self, lookup-insert_other, lookup-insert_inv,
  Option-cases,
}
use faasd.Effects.{return}
use faasd.Catalog.Types.{FunctionStatus, Node, Catalog}
use faasd.Catalog.Cluster.{add_function}
use faasd.Catalog.Gossip.{ensure_execution_time, reset_execution_time, unpack_functions}
use faasd.Catalog.Gossip.Visit.{Visit, visit}
use faasd.Catalog.Invariant.Steps.{with_node, update_node-found}

-- The replicas that a message leaves for each function: the last entry of a name counts.
unfoldable pub message_replicas : Map ℕ → List FunctionStatus → Map ℕ
message_replicas replicas [] = replicas
message_replicas replicas (fn ∷ fns) =
    message_replicas (insert fn.name fn.available_replicas replicas) fns

-- What holds in the loop, that began with `c₀` and the node `n₀`, at the catalog `c` and node `n`.
pub record Progress (room : String) (c₀ : Catalog) (n₀ : Node) (replicas : Map ℕ) (c : Catalog)
    (n : Node) : Type 0 where
  pub here : lookup room c.node_catalog ≡ some n
  pub others :
      (p : String) → (room == p) ≡ false → lookup p c.node_catalog ≡ lookup p c₀.node_catalog
  pub same_overload : n.overload ≡ n₀.overload
  pub same_chan : n.info_chan ≡ n₀.info_chan
  pub keeps_functions :
      (f : String) (s : FunctionStatus)
      → lookup f c₀.function_catalog ≡ some s
      → lookup f c.function_catalog ≡ some s
  pub new_functions :
      (f : String) (s : FunctionStatus)
      → lookup f c.function_catalog ≡ some s
      → (lookup f c₀.function_catalog ≡ some s) ⊎ (s.name ≡ f)
  pub catalogued :
      (f : String) (r : ℕ)
      → lookup f replicas ≡ some r
      → (s : FunctionStatus) × (lookup f c.function_catalog ≡ some s)
  pub timed :
      (f : String) (r : ℕ)
      → lookup f replicas ≡ some r
      → 0 < r
      → (t : ℕ) × (lookup f n.function_execution_time ≡ some t)

module _ (fn : FunctionStatus) (c : Catalog) where
  add-there : (s : FunctionStatus) × (lookup fn.name (add_function fn c).function_catalog ≡ some s)
  unfolding add_function
  add-there = elim (Option-cases (lookup fn.name c.function_catalog)) [
    | inl absent ↦ (fn, ground (arith, lookup-insert_self fn.name fn c.function_catalog))
    | inr (s, there) ↦ (s, ground arith)
  ]

  add-keeps :
      (f : String) (s : FunctionStatus)
      → lookup f c.function_catalog ≡ some s
      → lookup f (add_function fn c).function_catalog ≡ some s
  unfolding add_function
  add-keeps f s h = ground (arith, lookup-insert fn.name f fn c.function_catalog, eq_iff fn.name f)

  add-new :
      (f : String) (s : FunctionStatus)
      → lookup f (add_function fn c).function_catalog ≡ some s
      → (lookup f c.function_catalog ≡ some s) ⊎ (s.name ≡ f)
  unfolding add_function
  add-new f s h = ground (arith, lookup-insert fn.name f fn c.function_catalog, eq_iff fn.name f)

  add-nodes : (add_function fn c).node_catalog ≡ c.node_catalog
  unfolding add_function
  add-nodes = ground arith

module _ (room : String) (c₀ : Catalog) (n₀ : Node) where
  -- The catalog after one round.
  abbrev after_round : FunctionStatus → Catalog → Node → Node → Catalog
  after_round fn c n n' =
      add_function fn (with_node room n' (with_node room (ensure_execution_time fn n) c))

  round-Progress :
      (fn : FunctionStatus) (replicas : Map ℕ) (c : Catalog) (n n' : Node)
      → Progress room c₀ n₀ replicas c n
      → Visit fn n n'
      → n'.info_chan ≡ n.info_chan
      → Progress room c₀ n₀
          (insert fn.name fn.available_replicas replicas)
          (after_round fn c n n')
          n'
  round-Progress fn replicas c n n' p v chan = record {
    here = rw (add-nodes fn mid) (lookup-insert_self room n' _);
    others = λ q other. rw (add-nodes fn mid) (
        lookup-insert_other room q n' _ other
        ∙ lookup-insert_other room q (ensure_execution_time fn n) _ other
        ∙ p.others q other);
    same_overload = v.same_overload ∙ p.same_overload;
    same_chan = chan ∙ p.same_chan;
    keeps_functions = λ f s h. add-keeps fn mid f s (p.keeps_functions f s h);
    new_functions = λ f s h. elim (add-new fn mid f s h) [
      | inl old ↦ p.new_functions f s old
      | inr new ↦ inr new
    ];
    catalogued = λ f r h. elim (lookup-insert_inv _ _ _ _ _ h) [
      | inl (e, new) ↦ rw (← e) (add-there fn mid)
      | inr (e, old) ↦ let (s, there) = p.catalogued f r old in (s, add-keeps fn mid f s there)
    ];
    timed = λ f r h pos. elim (lookup-insert_inv _ _ _ _ _ h) [
      | inl (e, new) ↦ rw (← e) (v.has_time (omega arith))
      | inr (e, old) ↦ let (t, there) = p.timed f r old pos in v.keeps_time f t there
    ];
  }
    where
      mid : Catalog
      mid = with_node room n' (with_node room (ensure_execution_time fn n) c)

  round-runs :
      (fn : FunctionStatus) (fns : List FunctionStatus) (replicas : Map ℕ) (c : Catalog)
      (n n' : Node)
      → lookup room c.node_catalog ≡ some n
      → reset_execution_time fn (ensure_execution_time fn n) ≡ some n'
      → unpack_functions room replicas (fn ∷ fns) c
        ≡ unpack_functions room
            (insert fn.name fn.available_replicas replicas)
            fns
            (after_round fn c n n')
  unfolding unpack_functions
  round-runs fn fns replicas c n n' found reset =
      rw
        (update_node-found room (λ m. some (ensure_execution_time fn m)) c n
          (ensure_execution_time fn n) found refl)
        (rw
          (update_node-found room (reset_execution_time fn)
            (with_node room (ensure_execution_time fn n) c) (ensure_execution_time fn n) n'
            (lookup-insert_self room (ensure_execution_time fn n) c.node_catalog) reset)
          refl)

-- A round leaves the channel alone.
ensure-chan :
    (fn : FunctionStatus) (n : Node) → (ensure_execution_time fn n).info_chan ≡ n.info_chan
unfolding ensure_execution_time
ensure-chan fn n = ground arith

reset-chan :
    (fn : FunctionStatus) (n n' : Node)
    → reset_execution_time fn n ≡ some n'
    → n'.info_chan ≡ n.info_chan
unfolding reset_execution_time
reset-chan fn n n' h = ground arith

-- The loop goes through, and the invariant holds at its end.
pub unpack_functions-runs :
    (room : String) (c₀ : Catalog) (n₀ : Node) (fns : List FunctionStatus) (replicas : Map ℕ)
    (c : Catalog) (n : Node)
    → Progress room c₀ n₀ replicas c n
    → (c' : Catalog) × (n' : Node) × (unpack_functions room replicas fns c
        ≡ (return (message_replicas replicas fns), c'))
      × Progress room c₀ n₀ (message_replicas replicas fns) c' n'
unfolding unpack_functions message_replicas
unpack_functions-runs room c₀ n₀ [] replicas c n p = (c, n, refl, p)
unpack_functions-runs room c₀ n₀ (fn ∷ fns) replicas c n p =
    let (n', reset, v) = visit fn n in
    let chan = reset-chan fn (ensure_execution_time fn n) n' reset ∙ ensure-chan fn n in
    let (c', n'', runs, q) =
      unpack_functions-runs room c₀ n₀ fns (insert fn.name fn.available_replicas replicas)
        (after_round room c₀ n₀ fn c n n') n'
        (round-Progress room c₀ n₀ fn replicas c n n' p v chan) in
    (c', n'', round-runs room c₀ n₀ fn fns replicas c n n' p.here reset ∙ runs, q)
