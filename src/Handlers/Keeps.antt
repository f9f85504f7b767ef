-- ===== src/Handlers/Keeps.antt =====
-- How a chain of steps of a handler keeps the invariant of the catalog (pkg/provider/handlers).
use faasd.Prelude.{ℕ, ◌≡◌, sym, Bool, true, false, arith, if◌then◌else◌, subst}
use faasd.Effects.{Outcome, return, panic, blocked, Action, and_then}
use faasd.Catalog.Types.{Catalog}
use faasd.Catalog.Invariant.{IsConsistent}
use faasd.Handlers.Server.{Server, in_catalog, write_header}

pub header :
    {W : Type 0} (code : ℕ) (t : Server W)
    → IsConsistent t.catalog
    → IsConsistent (write_header code t).1.catalog
header code t i = subst IsConsistent (sym same) i
  where
    same : (write_header code t).1.catalog ≡ t.catalog
    same = ground arith

module _ {W : Type 0} where
  -- A chain keeps the invariant where both of its parts do.
  pub bind-keeps :
      {A B : Type 0} (m : Action (Server W) A) (f : A → Action (Server W) B) (s : Server W)
      → IsConsistent (m s).1.catalog
      → ((a : A) (t : Server W) → IsConsistent t.catalog → IsConsistent (f a t).1.catalog)
      → IsConsistent (and_then (m s).0 f (m s).1).1.catalog
  bind-keeps m f s first rest = go (m s).0 (m s).1 first
    where
      go :
          (r : Outcome _) (t : Server W)
          → IsConsistent t.catalog
          → IsConsistent (and_then r f t).1.catalog
      go (return a) t inv = rest a t inv
      go panic t inv = inv
      go blocked t inv = inv

  pub if-keeps :
      {A : Type 0} (b : Bool) (m n : Action (Server W) A) (s : Server W)
      → IsConsistent (m s).1.catalog
      → IsConsistent (n s).1.catalog
      → IsConsistent ((if b then m else n) s).1.catalog
  if-keeps true m n s hm hn = hm
  if-keeps false m n s hm hn = hn

  -- So does a step on the catalog alone.
  pub in_catalog-keeps :
      {A : Type 0} (m : Action Catalog A) (s : Server W)
      → IsConsistent (m s.catalog).1
      → IsConsistent (in_catalog m s).1.catalog
  in_catalog-keeps m s inv = inv
