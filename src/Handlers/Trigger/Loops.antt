-- ===== src/Handlers/Trigger/Loops.antt =====
-- The loops of weightExecTimeScheduler (trigger.go): only nodes with the function get through.
use faasd.Prelude.{
  String, ◌≡◌, ◌⊎◌, refl, ap, true, false, [], ◌∷◌, ◌++◌, inl, inr, All, In, Map, keys, lookup,
  Bool-cases, Option-cases,
}
use faasd.Effects.{Outcome, return, panic, blocked}
use faasd.Catalog.Types.{Node}
use faasd.Handlers.Trigger.{
  has_replicas, Float64, Scan, untimed, times, scan_nodes, weigh, choices_of,
}

-- The entry of a node with a replica of the function.
abbrev pub Holder : String → Map Node → String → Type 0
Holder f nodes p = (node : Node) × In (p, node) nodes × (has_replicas f node ≡ true)

abbrev pub NoHolder : String → Map Node → Type 0
NoHolder f = All (λ e. has_replicas f e.1 ≡ false)

module _ {F : Type 0} (float : Float64 F) where
  -- What a scan may name: nodes with the function, or what was named before.
  abbrev pub FromHolders : String → Map Node → Map F → Outcome (Scan F) → Type 0
  FromHolders f nodes raw (return (untimed p)) = Holder f nodes p
  FromHolders f nodes raw (return (times raw' least)) =
      (p : String) → In p (keys raw') → In p (keys raw) ⊎ Holder f nodes p
  FromHolders f nodes raw panic = Unit
  FromHolders f nodes raw blocked = Unit

  later :
      (f p : String) (e : String × Node) (nodes : Map Node)
      → Holder f nodes p
      → Holder f (e ∷ nodes) p
  later f p e nodes (node, there, has) = (node, inr there, has)

  keys-append_one :
      (q p : String) (x : F) (raw : Map F)
      → In q (keys (raw ++ (p, x) ∷ []))
      → In q (keys raw) ⊎ (p ≡ q)
  keys-append_one q p x [] (inl e) = inr e
  keys-append_one q p x [] (inr h) = elim h [ ]
  keys-append_one q p x ((k, y) ∷ raw) (inl e) = inl (inl e)
  keys-append_one q p x ((k, y) ∷ raw) (inr h) = elim (keys-append_one q p x raw h) [
    | inl there ↦ inl (inr there)
    | inr e ↦ inr e
  ]

  scan-later :
      (f : String) (e : String × Node) (nodes : Map Node) (raw : Map F) (scan : Outcome (Scan F))
      → FromHolders f nodes raw scan
      → FromHolders f (e ∷ nodes) raw scan
  scan-later f e nodes raw (return (untimed p)) h = later f p e nodes h
  scan-later f e nodes raw (return (times raw' least)) h = λ p there. elim (h p there) [
    | inl before ↦ inl before
    | inr held ↦ inr (later f p e nodes held)
  ]
  scan-later f e nodes raw panic h = tt
  scan-later f e nodes raw blocked h = tt

  scan-one :
      (f p : String) (node : Node) (x : F) (nodes : Map Node) (raw : Map F)
      (scan : Outcome (Scan F))
      → has_replicas f node ≡ true
      → FromHolders f nodes (raw ++ (p, x) ∷ []) scan
      → FromHolders f ((p, node) ∷ nodes) raw scan
  scan-one f p node x nodes raw (return (untimed q)) has h = later f q (p, node) nodes h
  scan-one f p node x nodes raw (return (times raw' least)) has h = λ q there. elim (h q there) [
    | inr held ↦ inr (later f q (p, node) nodes held)
    | inl before ↦ elim (keys-append_one q p x raw before) [
      | inl old ↦ inl old
      | inr e ↦ inr (node, inl (rw e refl), has)
    ]
  ]
  scan-one f p node x nodes raw panic has h = tt
  scan-one f p node x nodes raw blocked has h = tt

  pub scan_nodes-FromHolders :
      (f : String) (nodes : Map Node) (raw : Map F) (least : F)
      → FromHolders f nodes raw (scan_nodes float f nodes raw least)
  unfolding scan_nodes
  scan_nodes-FromHolders f [] raw least = λ p there. inl there
  scan_nodes-FromHolders f ((p, node) ∷ nodes) raw least = elim (Bool-cases (has_replicas f node)) [
    | inr lacks ↦
        rw lacks (scan-later f (p, node) nodes raw _ (scan_nodes-FromHolders f nodes raw least))
    | inl has ↦ rw has (elim (Option-cases (lookup f node.function_execution_time)) [
      | inl absent ↦ rw absent tt
      | inr (t, timed) ↦ rw timed (elim (Bool-cases (float.is_one (float.of_int t))) [
        | inl one ↦ rw one (node, inl refl, has)
        | inr more ↦ rw more (
            scan-one f p node (float.of_int t) nodes raw _ has
              (scan_nodes-FromHolders f nodes (raw ++ (p, float.of_int t) ∷ []) _))
      ])
    ])
  ]

  -- Where no node has the function nothing is found.
  pub scan_nodes-NoHolder :
      (f : String) (nodes : Map Node) (raw : Map F) (least : F)
      → NoHolder f nodes
      → scan_nodes float f nodes raw least ≡ return (times raw least)
  unfolding scan_nodes
  scan_nodes-NoHolder f [] raw least h = refl
  scan_nodes-NoHolder f ((p, node) ∷ nodes) raw least (lacks, h) =
      rw lacks (scan_nodes-NoHolder f nodes raw least h)

  pub keys-choices_of :
      (prod : F) (weighted : Map F) → keys (choices_of float prod weighted) ≡ keys weighted
  keys-choices_of prod [] = refl
  keys-choices_of prod ((p, w) ∷ weighted) = ap (λ ks. p ∷ ks) (keys-choices_of prod weighted)

  -- The second loop weighs what it is given, and nothing else.
  abbrev pub WeighedAmong : Map F → Map F → Outcome (Map F × F) → Type 0
  WeighedAmong raw before (return (weighted, prod)) =
      (p : String) → In p (keys weighted) → In p (keys before) ⊎ In p (keys raw)
  WeighedAmong raw before panic = Unit
  WeighedAmong raw before blocked = Unit

  weighed-one :
      (p : String) (x w : F) (raw before : Map F) (o : Outcome (Map F × F))
      → WeighedAmong raw (before ++ (p, w) ∷ []) o
      → WeighedAmong ((p, x) ∷ raw) before o
  weighed-one p x w raw before (return (weighted, prod)) h = λ q there. elim (h q there) [
    | inl old ↦ elim (keys-append_one q p w before old) [
      | inl older ↦ inl older
      | inr e ↦ inr (inl e)
    ]
    | inr new ↦ inr (inr new)
  ]
  weighed-one p x w raw before panic h = tt
  weighed-one p x w raw before blocked h = tt

  pub weigh-WeighedAmong :
      (nodes : Map Node) (least : F) (raw before : Map F) (prod : F)
      → WeighedAmong raw before (weigh float nodes least raw before prod)
  unfolding weigh
  weigh-WeighedAmong nodes least [] before prod = λ p there. inl there
  weigh-WeighedAmong nodes least ((p, x) ∷ raw) before prod = elim (Option-cases (lookup p nodes)) [
    | inl absent ↦ rw (absent, WeighedAmong, weigh) tt
    | inr (node, found) ↦
        rw (found, WeighedAmong, weigh)
          (weighed-one p x _ raw before _ (weigh-WeighedAmong nodes least raw _ _))
  ]
