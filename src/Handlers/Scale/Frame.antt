-- ===== src/Handlers/Scale/Frame.antt =====
-- Scaling up (scaleUp of scale.go), up to the goroutine that reports a first instance: that one is
-- recorded by `spawn_report` and run by run_report of Handlers/Trigger/Handler.
use faasd.Prelude.{
  ℕ, String, ◌==ℕ◌, ◌≡◌, refl, ◌∙◌, Bool, true, false, List, [], ◌∷◌, inl, inr, arith, lookup,
  Option-cases, Bool-cases, if◌then◌else◌,
}
use faasd.Effects.{Outcome, return, panic, blocked, Action, and_then, ok, err}
use faasd.Catalog.Types.{Node}
use faasd.Handlers.Server.{Server}
use faasd.Handlers.Scale.{
  Cluster, deploy_function_by_p2p_id, deploy_first, scale_other, scale_up_node, scale_up_loop,
  scale_up, replicas_of,
}

module _ {W : Type 0} (cluster : Cluster W) where
  pub deploy-catalog :
      (f p : String) (s : Server W)
      → (deploy_function_by_p2p_id cluster f p s).1.catalog ≡ s.catalog
  unfolding deploy_function_by_p2p_id
  deploy-catalog f p s = ground arith

  deploy_first-catalog :
      (f p : String) (n : ℕ) (s : Server W) → (deploy_first cluster f p n s).1.catalog ≡ s.catalog
  unfolding deploy_first
  deploy_first-catalog f p n s = ground (arith, deploy-catalog f p s)

  scale_other-catalog :
      (f : String) (d : ℕ) (p : String) (node : Node) (n : ℕ) (s : Server W)
      → (scale_other cluster f d p node n s).1.catalog ≡ s.catalog
  unfolding scale_other
  scale_other-catalog f d p node n s = ground arith

  -- A chain leaves the catalog alone where both of its parts do.
  pub bind-catalog :
      {A B : Type 0} (m : Action (Server W) A) (f : A → Action (Server W) B) (s : Server W)
      → (m s).1.catalog ≡ s.catalog
      → ((a : A) (t : Server W) → (f a t).1.catalog ≡ t.catalog)
      → (and_then (m s).0 f (m s).1).1.catalog ≡ s.catalog
  bind-catalog m f s first rest = go (m s).0 (m s).1 ∙ first
    where
      go : (r : Outcome _) (t : Server W) → (and_then r f t).1.catalog ≡ t.catalog
      go (return a) t = rest a t
      go panic t = refl
      go blocked t = refl

  pub if-catalog :
      {A : Type 0} (b : Bool) (m n : Action (Server W) A) (s : Server W)
      → (m s).1.catalog ≡ s.catalog
      → (n s).1.catalog ≡ s.catalog
      → ((if b then m else n) s).1.catalog ≡ s.catalog
  if-catalog true m n s hm hn = hm
  if-catalog false m n s hm hn = hn

  pub scale_up_node-catalog :
      (f : String) (d : ℕ) (p : String) (node : Node) (n : ℕ) (s : Server W)
      → (scale_up_node cluster f d p node n s).1.catalog ≡ s.catalog
  unfolding scale_up_node
  scale_up_node-catalog f d p node n s = elim (Bool-cases (replicas_of f node ==ℕ 0)) [
    | inl none_yet ↦ rw none_yet (
        bind-catalog (deploy_first cluster f p n) _ s (deploy_first-catalog f p n s) (elim [
          | err e ↦ λ t. refl
          | ok left ↦ λ t.
              bind-catalog (scale_other cluster f d p node left) _ t
                (scale_other-catalog f d p node left t) (λ a u. refl)
        ]))
    | inr some_yet ↦ rw some_yet (
        bind-catalog (scale_other cluster f d p node n) _ s (scale_other-catalog f d p node n s)
          (λ a u. refl))
  ]

  scale_up_loop-catalog :
      (f : String) (d : ℕ) (ps : List String) (n : ℕ) (s : Server W)
      → (scale_up_loop cluster f d ps n s).1.catalog ≡ s.catalog
  unfolding scale_up_loop
  scale_up_loop-catalog f d [] n s = refl
  scale_up_loop-catalog f d (p ∷ ps) n s = elim (Bool-cases (n ==ℕ 0)) [
    | inl over ↦ rw over refl
    | inr more ↦ rw more (elim (Option-cases (lookup p s.catalog.node_catalog)) [
      | inl missing ↦ rw missing refl
      | inr (node, found) ↦ rw found (
          if-catalog node.overload _ _ s (scale_up_loop-catalog f d ps n s) (
            bind-catalog (scale_up_node cluster f d p node n) _ s
              (scale_up_node-catalog f d p node n s)
              (elim [ err e ↦ λ t. refl | ok left ↦ λ t. scale_up_loop-catalog f d ps left t ])))
    ])
  ]

  pub scale_up-catalog :
      (f : String) (d : ℕ) (s : Server W) → (scale_up cluster f d s).1.catalog ≡ s.catalog
  unfolding scale_up
  scale_up-catalog f d s = elim (Option-cases (lookup f s.catalog.function_catalog)) [
    | inl absent ↦ rw absent refl
    | inr (fn, found) ↦ rw found (scale_up_loop-catalog f d s.catalog.sorted_p2p_id _ s)
  ]
