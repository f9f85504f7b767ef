-- ===== src/Effects.antt =====
-- Go code that mutates shared state, may dereference nil, and may block on a channel. The state
-- outlives a panic: an HTTP server recovers the panic of a handler and goes on from there.
pub mod Calls
pub mod Frame
use faasd.Prelude.{Option, none, some}

pub data Outcome {ℓ} (A : Type ℓ) : Type ℓ where
  return : A → Outcome A
  -- a nil dereference, an index out of range, or an explicit panic
  panic : Outcome A
  -- a send on a nil channel, which never proceeds
  blocked : Outcome A

abbrev pub Action : Type 0 → Type 0 → Type 0
Action S A = S → Outcome A × S

module _ {S : Type 0} where
  abbrev pub get : Action S S
  get s = (return s, s)

  abbrev pub modify : (S → S) → Action S (Unit {0})
  modify f s = (return tt, f s)

  module _ {A : Type 0} where
    abbrev pub pure : A → Action S A
    pure a s = (return a, s)

    -- *p, where nil panics
    abbrev pub deref : Option A → Action S A
    deref none s = (panic, s)
    deref (some a) s = (return a, s)

  module _ {A B : Type 0} where
    abbrev pub and_then : Outcome A → (A → Action S B) → Action S B
    and_then (return a) f s = f a s
    and_then panic f s = (panic, s)
    and_then blocked f s = (blocked, s)

    infixl 5 ◌>>=◌ ◌>>◌
    abbrev pub ◌>>=◌ : Action S A → (A → Action S B) → Action S B
    (m >>= f) s = and_then (m s).0 f (m s).1

    abbrev pub ◌>>◌ : Action S A → Action S B → Action S B
    (m >> n) s = and_then (m s).0 (λ _. n) (m s).1

module _ {A : Type 0} where
  abbrev pub then_return : Outcome (Unit {0}) → Outcome A → Outcome A
  then_return (return _) r = r
  then_return panic r = panic
  then_return blocked r = blocked

module _ {S A : Type 0} where
  abbrev pub after_deferred : Outcome A → Action S (Unit {0}) → Action S A
  after_deferred blocked d s = (blocked, s)
  after_deferred panic d s = (then_return (d s).0 panic, (d s).1)
  after_deferred (return a) d s = (then_return (d s).0 (return a), (d s).1)

  -- `defer d` before `m`: it also runs where `m` panics, and a panic of either is one of both.
  abbrev pub deferred : Action S (Unit {0}) → Action S A → Action S A
  deferred d m s = after_deferred (m s).0 d (m s).1

-- What the program looks at in an error: whether it says that something was not found.
pub data Error : Type 0 where
  not_found failed : Error

-- A value of Go's (T, error).
pub data Result {ℓ} (A : Type ℓ) : Type ℓ where
  ok : A → Result A
  err : Error → Result A
