-- ===== src/Effects/Calls.antt =====
-- Calls that may fail, of a world outside: Go's functions that return an error.
use faasd.Effects.{Error, Result, ok, err}

abbrev pub Call : Type 0 → Type 0 → Type 0
Call W A = W → Result A × W

module _ {W : Type 0} where
  module _ {A : Type 0} where
    abbrev pub succeed : A → Call W A
    succeed a w = (ok a, w)

    abbrev pub fail : Error → Call W A
    fail e w = (err e, w)

  module _ {A B : Type 0} where
    abbrev pub on_success : (A → Call W B) → Result A → Call W B
    on_success f (ok a) w = f a w
    on_success f (err e) w = (err e, w)

    -- `if err != nil { return err }` between two calls.
    infixl 5 ◌>>=◌ ◌>>◌
    abbrev pub ◌>>=◌ : Call W A → (A → Call W B) → Call W B
    (m >>= f) w = on_success f (m w).0 (m w).1

    abbrev pub ◌>>◌ : Call W A → Call W B → Call W B
    (m >> n) w = on_success (λ ignored. n) (m w).0 (m w).1

    -- The result is looked at, error or not.
    abbrev pub attempt : Call W A → (Result A → Call W B) → Call W B
    attempt m f w = f (m w).0 (m w).1

    -- An error is at most logged.
    abbrev pub regardless : Call W A → Call W B → Call W B
    regardless m n w = n (m w).1
