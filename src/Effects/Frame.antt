-- ===== src/Effects/Frame.antt =====
-- What calls leave as it was in a view of the world, and what holds after a call that succeeds.
use faasd.Prelude.{String, ◌≡◌, refl, ◌∙◌}
use faasd.Effects.{Result, ok, err}
use faasd.Effects.Calls.{Call, on_success, ◌>>=◌, ◌>>◌, attempt, regardless}

-- The view of the world at one name is the same after the call.
abbrev pub KeepsAt : {W X A : Type 0} → (W → String → X) → String → Call W A → Type 0
KeepsAt {W} view j m = (w : W) → view (m w).1 j ≡ view w j

module _ {W X : Type 0} (view : W → String → X) (j : String) where
  module _ {A B : Type 0} where
    keeps-on_success :
        (f : A → Call W B) (r : Result A) (w : W)
        → ((a : A) → KeepsAt view j (f a))
        → view (on_success f r w).1 j ≡ view w j
    keeps-on_success f (ok a) w rest = rest a w
    keeps-on_success f (err e) w rest = refl

    pub keeps-bind :
        (m : Call W A) (f : A → Call W B)
        → KeepsAt view j m
        → ((a : A) → KeepsAt view j (f a))
        → KeepsAt view j (m >>= f)
    keeps-bind m f first rest w = keeps-on_success f (m w).0 (m w).1 rest ∙ first w

    -- What the rest may use of a result is that the first call gave it.
    pub keeps-bind_of :
        (m : Call W A) (f : A → Call W B)
        → KeepsAt view j m
        → ((w : W) (a : A) → (m w).0 ≡ ok a → KeepsAt view j (f a))
        → KeepsAt view j (m >>= f)
    keeps-bind_of m f first rest w = go (m w).0 refl ∙ first w
      where
        go : (r : Result A) → (m w).0 ≡ r → view (on_success f r (m w).1).1 j ≡ view (m w).1 j
        go (ok a) e = rest w a e (m w).1
        go (err x) e = refl

    pub keeps-attempt_of :
        (m : Call W A) (f : Result A → Call W B)
        → KeepsAt view j m
        → ((w : W) → KeepsAt view j (f (m w).0))
        → KeepsAt view j (attempt m f)
    keeps-attempt_of m f first rest w = rest w (m w).1 ∙ first w

    pub keeps-then :
        (m : Call W A) (n : Call W B)
        → KeepsAt view j m
        → KeepsAt view j n
        → KeepsAt view j (m >> n)
    keeps-then m n first rest = keeps-bind m (λ a. n) first (λ a. rest)

    pub keeps-attempt :
        (m : Call W A) (f : Result A → Call W B)
        → KeepsAt view j m
        → ((r : Result A) → KeepsAt view j (f r))
        → KeepsAt view j (attempt m f)
    keeps-attempt m f first rest w = rest (m w).0 (m w).1 ∙ first w

    pub keeps-regardless :
        (m : Call W A) (n : Call W B)
        → KeepsAt view j m
        → KeepsAt view j n
        → KeepsAt view j (regardless m n)
    keeps-regardless m n first rest w = rest (m w).1 ∙ first w

-- A chain that succeeds has its last call succeed, after the first one.
module _ {W A B : Type 0} (P : W → Type 0) (b : B) where
  after-on_success :
      (f : A → Call W B) (r : Result A) (w : W)
      → ((a : A) → r ≡ ok a → (f a w).0 ≡ ok b → P (f a w).1)
      → (on_success f r w).0 ≡ ok b
      → P (on_success f r w).1
  after-on_success f (ok a) w rest done = rest a refl done
  after-on_success f (err e) w rest done = cc

  pub after-bind :
      (m : Call W A) (f : A → Call W B) (w : W)
      → ((a : A) → (m w).0 ≡ ok a → (f a (m w).1).0 ≡ ok b → P (f a (m w).1).1)
      → ((m >>= f) w).0 ≡ ok b
      → P ((m >>= f) w).1
  after-bind m f w rest done = after-on_success f (m w).0 (m w).1 rest done

  pub after-then :
      (m : Call W A) (n : Call W B) (w : W)
      → ((n (m w).1).0 ≡ ok b → P (n (m w).1).1)
      → ((m >> n) w).0 ≡ ok b
      → P ((m >> n) w).1
  after-then m n w rest done = after-bind m (λ a. n) w (λ a first. rest) done

-- A chain that succeeds went on after its first call.
module _ {W A B : Type 0} where
  pub bind-eq-ok :
      (m : Call W A) (f : A → Call W B) (w : W) (b : B)
      → ((m >>= f) w).0 ≡ ok b
      → (a : A) × ((m w).0 ≡ ok a) × ((m >>= f) w ≡ f a (m w).1)
  bind-eq-ok m f w b = go (m w).0
    where
      go :
          (r : Result A)
          → (on_success f r (m w).1).0 ≡ ok b
          → (a : A) × (r ≡ ok a) × (on_success f r (m w).1 ≡ f a (m w).1)
      go (ok a) done = (a, refl, refl)
      go (err e) done = cc
