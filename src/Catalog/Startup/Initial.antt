-- ===== src/Catalog/Startup/Initial.antt =====
-- The catalog after the start: it is consistent, and the node lists every function it runs.
use faasd.Prelude.{
  ℕ, ◌<◌, ◌≤◌, String, ◌≡◌, refl, sym, ◌∙◌, ap, false, Option, some, List, [], ◌∷◌, All, inl, inr,
  arith, lookup, insert, lookup-nil, lookup-insert_self, lookup-insert_other, lookup-insert_inv,
  ltb,
}
use faasd.Effects.{return, ok}
use faasd.Catalog.Types.{
  word, FunctionStatus, Node, Catalog, new_catalog, self_catalog_key, faas_p2p_ip,
}
use faasd.Catalog.Local.{add_to_node}
use faasd.Catalog.Cluster.{sum_replicas, total_replicas}
use faasd.Catalog.Rank.{
  FaasConfig, new_node_with_ip, round_trip, measure, rank_node_by_rtt, new_node_catalog_entry,
}
use faasd.Catalog.Invariant.{IsConsistent, LocalChange, LocalChange-IsConsistent}
use faasd.Catalog.Invariant.Steps.{with_node, update_node-found}
use faasd.Catalog.Startup.{init_functions, init_self_catalog}
use faasd.Catalog.Startup.Entry.{new_entry-IsConsistent}

-- What ListFunctionStatus gives: the replicas of the node are all that it knows of.
abbrev pub IsLocal : FunctionStatus → Type 0
IsLocal fn = (fn.replicas ≡ fn.available_replicas) × (fn.available_replicas < word)

pub new_catalog-IsConsistent : (n : ℕ) → IsConsistent (new_catalog n)
unfolding new_catalog
new_catalog-IsConsistent n = record {
  catalogued = λ self f r is_self held. cc (lookup-nil {V = Node} self_catalog_key);
  totals = λ f s h. cc (lookup-nil {V = FunctionStatus} f);
  named = λ f s h. cc (lookup-nil {V = FunctionStatus} f);
  timed = λ p node f r h held pos. cc (lookup-nil {V = Node} p);
}

-- The catalog holds the node itself only.
abbrev IsAlone : Catalog → Node → Type 0
IsAlone c node = c.node_catalog ≡ (self_catalog_key, node) ∷ []

module _ (fn : FunctionStatus) (c : Catalog) (node : Node) (alone : IsAlone c node) where
  found_alone : lookup self_catalog_key c.node_catalog ≡ some node
  unfolding lookup
  found_alone = rw alone refl

  listed : Catalog
  listed = record c { function_catalog = insert fn.name fn c.function_catalog }

  after_init : Catalog
  unfolding listed
  after_init = with_node self_catalog_key (add_to_node fn node) listed

  init-IsAlone : IsAlone after_init (add_to_node fn node)
  unfolding after_init insert
  init-IsAlone = rw alone refl

  init-LocalChange :
      IsLocal fn → IsConsistent c → LocalChange c after_init fn.name node (add_to_node fn node)
  unfolding after_init add_to_node
  init-LocalChange (same, fits) inv = record {
    found = found_alone;
    replaced = refl;
    same_replicas = λ f other. lookup-insert_other fn.name f _ _ other;
    same_functions = λ f other. lookup-insert_other fn.name f _ _ other;
    here_catalogued = λ r held. (fn, lookup-insert_self fn.name fn _);
    here_total = λ s h.
        let e : some fn ≡ some s = sym (lookup-insert_self fn.name fn c.function_catalog) ∙ h in
        let total : total_replicas fn.name after_init.node_catalog ≡ fn.available_replicas =
          ap (total_replicas fn.name) init-IsAlone ∙ count in
        ground (arith, total);
    here_timed = λ f r held pos. elim (lookup-insert_inv _ _ _ _ _ held) [
      | inl (e, new) ↦ (1, rw (← e) (lookup-insert_self fn.name _ _))
      | inr (other, old) ↦
          let (t, h) = inv.timed self_catalog_key node f r found_alone old pos in
          (t, lookup-insert_other fn.name f _ _ other ∙ h)
    ];
  }
    where
      count :
          total_replicas fn.name ((self_catalog_key, add_to_node fn node) ∷ [])
          ≡ fn.available_replicas
      count =
          unfold sum_replicas add_to_node in
          rw (lookup-insert_self fn.name fn.available_replicas node.available_functions_replicas)
            (omega arith)

  init-step :
      (fns : List FunctionStatus) → init_functions (fn ∷ fns) c ≡ init_functions fns after_init
  unfolding init_functions after_init
  init-step fns =
      rw
        (update_node-found self_catalog_key (λ n. some (add_to_node fn n))
          (record c { function_catalog = insert fn.name fn c.function_catalog }) node
          (add_to_node fn node) found_alone refl)
        refl

init_functions-IsConsistent :
    (fns : List FunctionStatus) (c : Catalog) (node : Node)
    → IsAlone c node
    → All IsLocal fns
    → IsConsistent c
    → ((init_functions fns c).0 ≡ return tt) × IsConsistent (init_functions fns c).1
unfolding init_functions
init_functions-IsConsistent [] c node alone local inv = (refl, inv)
init_functions-IsConsistent (fn ∷ fns) c node alone (here, local) inv =
    rw (init-step fn c node alone fns) (
      init_functions-IsConsistent fns (after_init fn c node alone) (add_to_node fn node)
        (init-IsAlone fn c node alone) local
        (LocalChange-IsConsistent (init-LocalChange fn c node alone here inv) inv))

entered_self :
    (read_config : String → Option FaasConfig) (ping : String → Option ℕ) (peers : ℕ)
    → 1 ≤ peers
    → let entered =
        new_node_catalog_entry read_config ping self_catalog_key faas_p2p_ip (new_catalog peers) in
      (entered.0 ≡ return tt)
      × IsAlone entered.1 (new_node_with_ip read_config faas_p2p_ip self_catalog_key)
unfolding new_node_catalog_entry rank_node_by_rtt measure round_trip new_catalog lookup insert
entered_self read_config ping peers room =
    let test : ltb peers 1 ≡ false = ground arith in (rw test refl, rw test refl)

-- From the empty catalog, with room for at least one node in the ranking, the start goes through
-- and leaves a consistent catalog, whatever functions run already, if the replicas of each are
-- those of the node and fewer than 2^64.
pub init_self_catalog-IsConsistent :
    (read_config : String → Option FaasConfig) (ping : String → Option ℕ) (peers : ℕ)
    (fns : List FunctionStatus)
    → 1 ≤ peers
    → All IsLocal fns
    → let end = init_self_catalog read_config ping (ok fns) (new_catalog peers) in
      (end.0 ≡ return tt) × IsConsistent end.1
init_self_catalog-IsConsistent read_config ping peers fns room local =
    let (first, alone) = entered_self read_config ping peers room in
    unfold init_self_catalog in
    rw first (
      init_functions-IsConsistent fns _ _ alone local (
        new_entry-IsConsistent read_config ping self_catalog_key faas_p2p_ip (new_catalog peers)
          (new_catalog-IsConsistent peers)))
