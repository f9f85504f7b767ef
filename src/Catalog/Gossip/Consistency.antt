-- ===== src/Catalog/Gossip/Consistency.antt =====
-- Unpacking a message keeps the invariant of the catalog, whatever the message says.
use faasd.Prelude.{
  ℕ, ◌<◌, String, ◌==◌, ◌≡◌, sym, ◌∙◌, ap, false, some, [], inl, inr, arith, Map, lookup,
  lookup-insert_other, lookup-insert_inv, Option-cases,
}
use faasd.Catalog.Types.{FunctionStatus, NodeInfoMsg, Node, Catalog, self_catalog_key}
use faasd.Catalog.Cluster.{total_replicas, with_totals}
use faasd.Catalog.Gossip.{set_overload, set_replicas, unpack_node_info_msg}
use faasd.Catalog.Gossip.Loop.{message_replicas, Progress}
use faasd.Catalog.Gossip.Unpack.{lookup-with_totals, renewed, renew, unpacked}
use faasd.Catalog.Invariant.{IsConsistent}
use faasd.Catalog.Invariant.Steps.{with_node, update_node-missing}

module _ (nodes : Map Node) (fns : Map FunctionStatus) (f : String) where
  renewed-there :
      (s : FunctionStatus)
      → lookup f fns ≡ some s
      → (s' : FunctionStatus) × (lookup f (with_totals nodes fns) ≡ some s')
  renewed-there s h = (
    record s { replicas = total_replicas f nodes },
    lookup-with_totals f nodes fns ∙ ap (renewed nodes f) h,
  )

  renewed-from :
      (s : FunctionStatus)
      → lookup f (with_totals nodes fns) ≡ some s
      → (old : FunctionStatus) × (lookup f fns ≡ some old)
        × (s.name ≡ old.name)
        × (s.replicas ≡ total_replicas f nodes)
  renewed-from s h = elim (Option-cases (lookup f fns)) [
    | inl absent ↦ cc (lookup-with_totals f nodes fns, ap (renewed nodes f) absent)
    | inr (old, there) ↦
        let e : some (record old { replicas = total_replicas f nodes }) ≡ some s =
          ap (renewed nodes f) (sym there) ∙ sym (lookup-with_totals f nodes fns) ∙ h in
        (old, there, ground arith, ground arith)
  ]

module _ (room : String) (msg : NodeInfoMsg) (c : Catalog) (node after : Node) (loop : Catalog)
    (progress : Progress room
      (with_node room (set_overload msg.msg_overload node) c)
      (set_overload msg.msg_overload node)
      (message_replicas [] msg.available_functions)
      loop
      after)
    (inv : IsConsistent c) where
  abbrev last : Node
  last = set_replicas (message_replicas [] msg.available_functions) after

  abbrev final : Catalog
  final = renew (with_node room last loop)

  other_node :
      (p : String) {n : Node}
      → (room == p) ≡ false
      → lookup p loop.node_catalog ≡ some n
      → lookup p c.node_catalog ≡ some n
  other_node p other h =
      sym (lookup-insert_other room p _ c.node_catalog other) ∙ sym (progress.others p other) ∙ h

  final-catalogued :
      (self : Node) (f : String) (r : ℕ)
      → lookup self_catalog_key final.node_catalog ≡ some self
      → lookup f self.available_functions_replicas ≡ some r
      → (s : FunctionStatus) × (lookup f final.function_catalog ≡ some s)
  unfolding set_replicas
  final-catalogued self f r is_self held = elim (lookup-insert_inv _ _ _ _ _ is_self) [
    | inl (e, new) ↦
        let (s, there) =
          progress.catalogued f r (ap (λ n. lookup f n.available_functions_replicas) new ∙ held) in
        renewed-there _ _ f s there
    | inr (other, old) ↦
        let (s, there) = inv.catalogued self f r (other_node _ other old) held in
        renewed-there _ _ f s (progress.keeps_functions f s there)
  ]

  final-timed :
      (p : String) (n : Node) (f : String) (r : ℕ)
      → lookup p final.node_catalog ≡ some n
      → lookup f n.available_functions_replicas ≡ some r
      → 0 < r
      → (t : ℕ) × (lookup f n.function_execution_time ≡ some t)
  unfolding set_replicas
  final-timed p n f r is_p held pos = elim (lookup-insert_inv _ _ _ _ _ is_p) [
    | inl (e, new) ↦
        let (t, there) =
          progress.timed f r (ap (λ n. lookup f n.available_functions_replicas) new ∙ held) pos in
        (t, ap (λ n. lookup f n.function_execution_time) (sym new) ∙ there)
    | inr (other, old) ↦ inv.timed p n f r (other_node p other old) held pos
  ]

  final-IsConsistent : IsConsistent final
  final-IsConsistent = record {
    catalogued = final-catalogued;
    totals = λ f s h. let (old, there, same, count) = renewed-from _ _ f s h in count;
    named = λ f s h.
        let (old, there, same, count) = renewed-from _ _ f s h in
        elim (progress.new_functions f old there) [
          | inl before ↦ same ∙ inv.named f old before
          | inr new ↦ same ∙ new
        ];
    timed = final-timed;
  }

-- Unpacking a message keeps the invariant, whatever the message and the room.
pub unpack-IsConsistent :
    (room : String) (msg : NodeInfoMsg) (c : Catalog)
    → IsConsistent c
    → IsConsistent (unpack_node_info_msg msg room c).1
unpack-IsConsistent room msg c inv = elim (Option-cases (lookup room c.node_catalog)) [
  | inl missing ↦ unfold unpack_node_info_msg in rw (update_node-missing room _ c missing) inv
  | inr (node, found) ↦
      let (c', u) = unpacked room msg c node found in
      rw (u.runs, u.result) (final-IsConsistent room msg c u.before u.after u.loop u.progress inv)
]
