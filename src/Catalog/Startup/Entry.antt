-- ===== src/Catalog/Startup/Entry.antt =====
-- A new node in the catalog keeps the invariant, and a known one is left as it is.
use faasd.Prelude.{
  ℕ, String, ◌≡◌, refl, sym, ◌∙◌, ap, Option, none, some, [], ◌∷◌, inl, inr, arith, Map, lookup,
  insert, lookup-nil, lookup-insert_inv, Option-cases, String-cases, if◌then◌else◌,
}
use faasd.Catalog.Types.{Node, Catalog}
use faasd.Catalog.Cluster.{count_replicas, sum_replicas}
use faasd.Catalog.Rank.{FaasConfig, new_node_with_ip, rank_node_by_rtt, new_node_catalog_entry}
use faasd.Catalog.Invariant.{IsConsistent}

-- A node that has no function adds nothing to the count.
sum_replicas-new :
    (f : String) (key : String) (node : Node) (nodes : Map Node) (acc : ℕ)
    → lookup key nodes ≡ none
    → node.available_functions_replicas ≡ []
    → sum_replicas f (insert key node nodes) acc ≡ sum_replicas f nodes acc
unfolding sum_replicas lookup insert
sum_replicas-new f key node [] acc absent empty = ap (λ m. count_replicas acc (lookup f m)) empty
sum_replicas-new f key node ((k, n) ∷ nodes) acc absent empty = elim (String-cases k key) [
  | inl (e, test) ↦ cc (ap (λ b. if b then some n else lookup key nodes) test)
  | inr (e, test) ↦ rw test (
      sum_replicas-new f key node nodes
        (count_replicas acc (lookup f n.available_functions_replicas)) (rw test at absent) empty)
]

pub new_node-IsConsistent :
    (key : String) (node : Node) (c : Catalog)
    → lookup key c.node_catalog ≡ none
    → node.available_functions_replicas ≡ []
    → IsConsistent c
    → IsConsistent (record c { node_catalog = insert key node c.node_catalog })
new_node-IsConsistent key node c absent empty inv = record {
  catalogued = λ self f r is_self held. elim (lookup-insert_inv _ _ _ _ _ is_self) [
    | inl (e, new) ↦ cc (lookup-nil {V = ℕ} f, nothing f new)
    | inr (e, old) ↦ inv.catalogued self f r old held
  ];
  totals =
      λ f s h. inv.totals f s h ∙ sym (sum_replicas-new f key node c.node_catalog 0 absent empty);
  named = inv.named;
  timed = λ p n f r is_p held pos. elim (lookup-insert_inv _ _ _ _ _ is_p) [
    | inl (e, new) ↦ cc (lookup-nil {V = ℕ} f, nothing f new)
    | inr (e, old) ↦ inv.timed p n f r old held pos
  ];
}
  where
    nothing :
        (f : String) {n : Node} → node ≡ n → lookup f n.available_functions_replicas ≡ lookup f []
    nothing f new = ap (lookup f) (ap (λ n. n.available_functions_replicas) (sym new) ∙ empty)

-- The ranking changes only the order of the nodes.
pub rank-IsConsistent :
    (ping : String → Option ℕ) (c : Catalog)
    → IsConsistent c
    → IsConsistent (rank_node_by_rtt ping c).1
rank-IsConsistent ping c inv = record {
  catalogued = rw (nodes, functions) inv.catalogued;
  totals = rw (nodes, functions) inv.totals;
  named = rw functions inv.named;
  timed = rw nodes inv.timed;
}
  where
    nodes : (rank_node_by_rtt ping c).1.node_catalog ≡ c.node_catalog
    nodes = unfold rank_node_by_rtt in ground arith

    functions : (rank_node_by_rtt ping c).1.function_catalog ≡ c.function_catalog
    functions = unfold rank_node_by_rtt in ground arith

-- A node that joins keeps the invariant, also where its round trip cannot be measured.
pub new_entry-IsConsistent :
    (read_config : String → Option FaasConfig) (ping : String → Option ℕ) (peer_id ip : String)
    (c : Catalog)
    → IsConsistent c
    → IsConsistent (new_node_catalog_entry read_config ping peer_id ip c).1
unfolding new_node_catalog_entry
new_entry-IsConsistent read_config ping peer_id ip c inv =
    elim (Option-cases (lookup peer_id c.node_catalog)) [
      | inr (node, known) ↦ rw (known, new_node_catalog_entry) inv
      | inl absent ↦
          rw (absent, new_node_catalog_entry)
            (rank-IsConsistent ping _ (
              new_node-IsConsistent peer_id (new_node_with_ip read_config ip peer_id) c absent
                (unfold new_node_with_ip in refl) inv))
    ]
