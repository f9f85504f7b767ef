-- ===== src/Handlers/Scale/Nodes.antt =====
-- Which nodes scaling up may use, what a request is refused for, and what a failed deployment does.
use faasd.Prelude.{
  ℕ, String, ◌==ℕ◌, ◌≡◌, refl, sym, ◌∙◌, ap, Bool, true, false, Option, none, some, List, [], ◌∷◌,
  inl, inr, Map, lookup, Option-cases, Bool-cases, if◌then◌else◌,
}
use faasd.Effects.{Outcome, return, panic, blocked, Action, and_then, ◌>>=◌, Result, ok, err}
use faasd.Catalog.Types.{Node}
use faasd.Handlers.Server.{Server}
use faasd.Handlers.Scale.{Cluster, scale_up_node, scale_up_loop}
use faasd.Handlers.Scale.Frame.{scale_up_node-catalog}

-- The node is known and overloaded.
abbrev is_overloaded : Option Node → Bool
is_overloaded none = false
is_overloaded (some node) = node.overload

unfoldable pub without_overloaded : Map Node → List String → List String
without_overloaded nodes [] = []
without_overloaded nodes (p ∷ ps) =
    let rest = without_overloaded nodes ps in
    if is_overloaded (lookup p nodes) then rest else p ∷ rest

if-true : {S A : Type 0} (b : Bool) (m n : S → A) (s : S) → b ≡ true → (if b then m else n) s ≡ m s
if-true b m n s same = ap (λ b. (if b then m else n) s) same

if-false :
    {S A : Type 0} (b : Bool) (m n : S → A) (s : S) → b ≡ false → (if b then m else n) s ≡ n s
if-false b m n s same = ap (λ b. (if b then m else n) s) same

module _ {W : Type 0} (cluster : Cluster W) where
  -- What the loop does after a node that it used.
  abbrev after : String → ℕ → List String → Result ℕ → Action (Server W) (Result (Unit {0}))
  after f d ps (err e) s = (return (err e), s)
  after f d ps (ok left) s = scale_up_loop cluster f d ps left s

  loop-skip :
      (f p : String) (d n : ℕ) (ps : List String) (node : Node) (s : Server W)
      → (n ==ℕ 0) ≡ false
      → lookup p s.catalog.node_catalog ≡ some node
      → node.overload ≡ true
      → scale_up_loop cluster f d (p ∷ ps) n s ≡ scale_up_loop cluster f d ps n s
  unfolding scale_up_loop
  loop-skip f p d n ps node s more found over = rw (more, found) (if-true _ _ _ s over)

  bind-same :
      {A B : Type 0} (m : Action (Server W) A) (f g : A → Action (Server W) B) (s : Server W)
      → (m s).1.catalog ≡ s.catalog
      → ((a : A) (t : Server W) → t.catalog ≡ s.catalog → f a t ≡ g a t)
      → and_then (m s).0 f (m s).1 ≡ and_then (m s).0 g (m s).1
  bind-same m f g s kept rest = go (m s).0 (m s).1 kept
    where
      go : (r : Outcome _) (t : Server W) → t.catalog ≡ s.catalog → and_then r f t ≡ and_then r g t
      go (return a) t same = rest a t same
      go panic t same = refl
      go blocked t same = refl

  loop-use :
      (f p : String) (d n : ℕ) (ps : List String) (node : Node) (s : Server W)
      → (n ==ℕ 0) ≡ false
      → lookup p s.catalog.node_catalog ≡ some node
      → node.overload ≡ false
      → scale_up_loop cluster f d (p ∷ ps) n s
        ≡ (scale_up_node cluster f d p node n >>= after f d ps) s
  unfolding scale_up_loop
  loop-use f p d n ps node s more found idle =
      rw (more, found)
        (if-false node.overload _ _ s idle
          ∙ bind-same (scale_up_node cluster f d p node n) _ (after f d ps) s
              (scale_up_node-catalog cluster f d p node n s)
              (elim [ err e ↦ λ t same. refl | ok left ↦ λ t same. refl ]))

  loop-over :
      (f : String) (d n : ℕ) (ps : List String) (s : Server W)
      → (n ==ℕ 0) ≡ true
      → scale_up_loop cluster f d ps n s ≡ (return (ok tt), s)
  unfolding scale_up_loop
  loop-over f d n [] s over = refl
  loop-over f d n (p ∷ ps) s over = rw over refl

  loop-lost :
      (f p : String) (d n : ℕ) (ps : List String) (s : Server W)
      → (n ==ℕ 0) ≡ false
      → lookup p s.catalog.node_catalog ≡ none
      → scale_up_loop cluster f d (p ∷ ps) n s ≡ (panic, s)
  unfolding scale_up_loop
  loop-lost f p d n ps s more lost = rw (more, lost) refl

  -- The loop of scaling up does exactly what it would do if the overloaded nodes were not in the
  -- ranking.
  pub scale_up_loop-without_overloaded :
      (f : String) (d : ℕ) (ps : List String) (n : ℕ) (nodes : Map Node) (s : Server W)
      → s.catalog.node_catalog ≡ nodes
      → scale_up_loop cluster f d ps n s
        ≡ scale_up_loop cluster f d (without_overloaded nodes ps) n s
  unfolding without_overloaded
  scale_up_loop-without_overloaded f d [] n nodes s same = refl
  scale_up_loop-without_overloaded f d (p ∷ ps) n nodes s same = elim (Bool-cases (n ==ℕ 0)) [
    | inl over ↦ loop-over f d n (p ∷ ps) s over ∙ sym (loop-over f d n _ s over)
    | inr more ↦ elim (Option-cases (lookup p nodes)) [
      | inl lost ↦
          let lost' = ap (lookup p) same ∙ lost in
          rw lost (loop-lost f p d n ps s more lost' ∙ sym (loop-lost f p d n _ s more lost'))
      | inr (node, found) ↦
          let found' = ap (lookup p) same ∙ found in
          elim (Bool-cases node.overload) [
            | inl over ↦
                rw (found, over)
                  (loop-skip f p d n ps node s more found' over
                    ∙ scale_up_loop-without_overloaded f d ps n nodes s same)
            | inr idle ↦
                rw (found, idle)
                  (loop-use f p d n ps node s more found' idle
                    ∙ bind-same (scale_up_node cluster f d p node n) _ _ s
                        (scale_up_node-catalog cluster f d p node n s)
                        (elim [
                          | err e ↦ λ t kept. refl
                          | ok left ↦ λ t kept.
                              scale_up_loop-without_overloaded f d ps left nodes t
                                (ap (λ c. c.node_catalog) kept ∙ same)
                        ])
                    ∙ sym (loop-use f p d n _ node s more found' idle))
          ]
    ]
  ]
