-- ===== src/Catalog/Gossip/RoundTrip.antt =====
-- What a node packs, another unpacks: the entry of the sender at the receiver.
use faasd.Prelude.{
  ℕ, String, ◌≡◌, refl, ◌∙◌, ap, false, Option, none, some, List, [], ◌∷◌, inl, inr, arith, Map,
  lookup, insert, keys, In, DistinctKeys, contains_key, lookup-nil, lookup-insert,
  lookup-some_of_In, String-cases,
}
use faasd.Effects.{return}
use faasd.Catalog.Types.{FunctionStatus, NodeInfoMsg, Node, Catalog, self_catalog_key}
use faasd.Catalog.Cluster.{held_functions}
use faasd.Catalog.Gossip.{pack_node_info_msg, unpack_node_info_msg}
use faasd.Catalog.Gossip.Loop.{message_replicas}
use faasd.Catalog.Gossip.Unpack.{unpack-node}
use faasd.Catalog.Invariant.{IsConsistent}

module _ (catalog : Map FunctionStatus) where
  abbrev pub Named : Type 0
  Named = (f : String) (s : FunctionStatus) → lookup f catalog ≡ some s → s.name ≡ f

  held-step :
      (k : String) (r : ℕ) (held : Map ℕ) (fn : FunctionStatus) (fns : List FunctionStatus)
      → lookup k catalog ≡ some fn
      → held_functions catalog held ≡ return fns
      → held_functions catalog ((k, r) ∷ held) ≡ return (record fn { available_replicas = r } ∷ fns)
  unfolding held_functions
  held-step k r held fn fns found rest = ground arith

  -- Every held function is catalogued, so the loop has no nil dereference.
  pub held-returns :
      (held : Map ℕ)
      → ((f : String) → In f (keys held) → (s : FunctionStatus) × (lookup f catalog ≡ some s))
      → (fns : List FunctionStatus) × (held_functions catalog held ≡ return fns)
  unfolding held_functions
  held-returns [] there = ([], refl)
  held-returns ((k, r) ∷ held) there =
      let (fn, found) = there k (inl refl) in
      let (fns, rest) = held-returns held (λ f m. there f (inr m)) in
      (record fn { available_replicas = r } ∷ fns, held-step k r held fn fns found rest)

  -- The first function of the result, and the rest of the loop.
  held-cons :
      (k : String) (r : ℕ) (held : Map ℕ) (fns : List FunctionStatus)
      → held_functions catalog ((k, r) ∷ held) ≡ return fns
      → (fn : FunctionStatus) × (rest : List FunctionStatus) × (lookup k catalog ≡ some fn)
        × (held_functions catalog held ≡ return rest)
        × (fns ≡ record fn { available_replicas = r } ∷ rest)
  unfolding held_functions
  held-cons k r held fns h = ground arith

  abbrev pub over : Option ℕ → Option ℕ → Option ℕ
  over none below = below
  over (some r) below = some r

  over-cons :
      (k f : String) (r : ℕ) (held replicas : Map ℕ)
      → contains_key k held ≡ false
      → over (lookup f held) (lookup f (insert k r replicas))
        ≡ over (lookup f ((k, r) ∷ held)) (lookup f replicas)
  unfolding contains_key lookup
  over-cons k f r held replicas fresh = elim (String-cases k f) [
    | inl (e, test) ↦
        let absent : lookup k held ≡ none = ground arith in
        rw (lookup-insert k f r replicas, test, ← e, absent) refl
    | inr (e, test) ↦ rw (lookup-insert k f r replicas, test) refl
  ]

  pub held-message :
      Named
      → (held : Map ℕ) (fns : List FunctionStatus) (replicas : Map ℕ) (f : String)
      → DistinctKeys held
      → held_functions catalog held ≡ return fns
      → lookup f (message_replicas replicas fns) ≡ over (lookup f held) (lookup f replicas)
  unfolding message_replicas held_functions
  held-message named [] fns replicas f distinct h = ground (arith, lookup-nil {V = ℕ} f)
  held-message named ((k, r) ∷ held) fns replicas f (fresh, distinct) h =
      let (fn, rest, found, tail, e) = held-cons k r held fns h in
      let name : fn.name ≡ k = named k fn found in
      let ih = held-message named held rest (insert k r replicas) f distinct tail in
      rw (e, name) (ih ∙ over-cons k f r held replicas fresh)

-- A consistent node packs its message with no nil dereference.
pub pack-returns :
    (c : Catalog) (self : Node)
    → IsConsistent c
    → lookup self_catalog_key c.node_catalog ≡ some self
    → (msg : NodeInfoMsg) × (pack_node_info_msg c.function_catalog self.info ≡ return msg)
      × (held_functions c.function_catalog self.available_functions_replicas
          ≡ return msg.available_functions)
      × (msg.msg_overload ≡ self.overload)
unfolding pack_node_info_msg
pack-returns c self inv found =
    let (fns, packs) = held-returns c.function_catalog self.available_functions_replicas λ f m.
      let (r, held) = lookup-some_of_In f self.available_functions_replicas m in
      inv.catalogued self f r found held in
    (
      record { available_functions = fns; msg_overload = self.overload },
      rw (packs, pack_node_info_msg) refl,
      packs,
      refl,
    )

-- Gossip delivers: a consistent sender packs a message, and after unpacking it in the room of the
-- sender the receiver has the sender's replicas of every function, and its overload.
pub gossip_delivers :
    (sender receiver : Catalog) (self entry : Node) (room : String)
    → IsConsistent sender
    → lookup self_catalog_key sender.node_catalog ≡ some self
    → DistinctKeys self.available_functions_replicas
    → lookup room receiver.node_catalog ≡ some entry
    → (msg : NodeInfoMsg) × (entry' : Node) × (pack_node_info_msg sender.function_catalog self.info
        ≡ return msg)
      × (lookup room (unpack_node_info_msg msg room receiver).1.node_catalog ≡ some entry')
      × ((f : String)
          → lookup f entry'.available_functions_replicas
            ≡ lookup f self.available_functions_replicas)
      × (entry'.overload ≡ self.overload)
gossip_delivers sender receiver self entry room inv is_self distinct known =
    let (msg, packs, held, load) = pack-returns sender self inv is_self in
    let (entry', found, replicas, overload, chan) = unpack-node room msg receiver entry known in
    (
      msg,
      entry',
      packs,
      found,
      λ f.
          ap (lookup f) replicas
          ∙ held-message sender.function_catalog inv.named self.available_functions_replicas
              msg.available_functions [] f distinct held
          ∙ over-nil f (lookup f self.available_functions_replicas),
      overload ∙ load,
    )
  where
    over-nil : (f : String) (o : Option ℕ) → over sender.function_catalog o (lookup f []) ≡ o
    over-nil f none = lookup-nil f
    over-nil f (some r) = refl
