-- ===== src/Catalog/Gossip/Unpack.antt =====
-- unpackNodeInfoMsg as a whole: it never dereferences nil for a known room, the entry of the
-- sender becomes what the message says, and the invariant of the catalog is kept.
use faasd.Prelude.{
  ℕ, String, ◌≡◌, refl, ◌∙◌, Option, none, some, [], ◌∷◌, inl, inr, arith, Map, lookup, lookup-nil,
  lookup-insert_self, String-cases,
}
use faasd.Effects.{return}
use faasd.Catalog.Types.{FunctionStatus, NodeInfoMsg, Node, Catalog}
use faasd.Catalog.Cluster.{total_replicas, with_totals, updatet_replicas}
use faasd.Catalog.Gossip.{set_overload, set_replicas, unpack_node_info_msg}
use faasd.Catalog.Gossip.Loop.{message_replicas, Progress, unpack_functions-runs}
use faasd.Catalog.Invariant.Steps.{with_node, update_node-found}

-- An entry of the function catalog after the totals are renewed.
abbrev pub renewed : Map Node → String → Option FunctionStatus → Option FunctionStatus
renewed nodes f none = none
renewed nodes f (some s) = some (record s { replicas = total_replicas f nodes })

pub lookup-with_totals :
    (f : String) (nodes : Map Node) (fns : Map FunctionStatus)
    → lookup f (with_totals nodes fns) ≡ renewed nodes f (lookup f fns)
unfolding lookup with_totals
lookup-with_totals f nodes [] = refl
lookup-with_totals f nodes ((k, s) ∷ fns) = elim (String-cases k f) [
  | inl (e, test) ↦ rw (test, e) refl
  | inr (e, test) ↦ rw test (lookup-with_totals f nodes fns)
]

abbrev pub renew : Catalog → Catalog
renew c = record c { function_catalog = with_totals c.node_catalog c.function_catalog }

-- How the catalog `c'` after a message in `room` stands to the catalog `c` before it.
pub record Unpacked (room : String) (msg : NodeInfoMsg) (c c' : Catalog) : Type 0 where
  pub before : Node
  pub after : Node
  pub loop : Catalog
  pub was : lookup room c.node_catalog ≡ some before
  pub runs : unpack_node_info_msg msg room c ≡ (return tt, c')
  pub progress :
      Progress room
        (with_node room (set_overload msg.msg_overload before) c)
        (set_overload msg.msg_overload before)
        (message_replicas [] msg.available_functions)
        loop
        after
  pub result :
      c'
      ≡ renew
          (with_node room (set_replicas (message_replicas [] msg.available_functions) after) loop)

module _ (room : String) (msg : NodeInfoMsg) (c : Catalog) where
  pub unpacked :
      (node : Node)
      → lookup room c.node_catalog ≡ some node
      → (c' : Catalog) × Unpacked room msg c c'
  unpacked node found =
      let n₀ = set_overload msg.msg_overload node in
      let c₁ = with_node room n₀ c in
      let start : Progress room c₁ n₀ [] c₁ n₀ = record {
        here = lookup-insert_self room n₀ c.node_catalog;
        others = λ p other. refl;
        same_overload = refl;
        same_chan = refl;
        keeps_functions = λ f s h. h;
        new_functions = λ f s h. inl h;
        catalogued = λ f r h. cc (lookup-nil {V = ℕ} f);
        timed = λ f r h pos. cc (lookup-nil {V = ℕ} f);
      } in
      let (loop, after, runs, progress) =
        unpack_functions-runs room c₁ n₀ msg.available_functions [] c₁ n₀ start in
      let replicas = message_replicas [] msg.available_functions in
      (
        renew (with_node room (set_replicas replicas after) loop),
        record {
          before = node;
          after = after;
          loop = loop;
          was = found;
          runs =
              unfold unpack_node_info_msg updatet_replicas in
              rw
                (update_node-found room (λ n. some (set_overload msg.msg_overload n)) c node n₀
                  found refl)
                (rw runs (
                  rw
                    (update_node-found room (λ n. some (set_replicas replicas n)) loop after
                      (set_replicas replicas after) progress.here refl)
                    refl));
          progress = progress;
          result = refl;
        },
      )

  -- After a message in a known room the entry of the sender holds the replicas and the overload
  -- that the message says, and keeps its channel.
  pub unpack-node :
      (node : Node)
      → lookup room c.node_catalog ≡ some node
      → (node' : Node) × (lookup room (unpack_node_info_msg msg room c).1.node_catalog ≡ some node')
        × (node'.available_functions_replicas ≡ message_replicas [] msg.available_functions)
        × (node'.overload ≡ msg.msg_overload)
        × (node'.info_chan ≡ node.info_chan)
  unfolding set_overload set_replicas
  unpack-node node found =
      let (c', u) = unpacked node found in
      (
        set_replicas (message_replicas [] msg.available_functions) u.after,
        rw (u.runs, u.result) (lookup-insert_self room _ _),
        refl,
        u.progress.same_overload,
        u.progress.same_chan ∙ ground (arith, u.was),
      )

  -- A message for a known room is unpacked with no nil dereference.
  pub unpack-returns :
      (node : Node)
      → lookup room c.node_catalog ≡ some node
      → (unpack_node_info_msg msg room c).0 ≡ return tt
  unpack-returns node found = let (c', u) = unpacked node found in rw u.runs refl
