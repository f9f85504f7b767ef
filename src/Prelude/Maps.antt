-- ===== src/Prelude/Maps.antt =====
-- Go's maps with string keys, as association lists. The order of the list stands for the order
-- in which a `range` loop happens to visit the keys.
use Prim.Native.String.{String}
use mathlib.Core.Path.{◌≡◌, refl}
use mathlib.Core.Logic.{◌⊎◌, inl, inr}
use mathlib.Core.Bool.{Bool, true, false}
use mathlib.Core.Option.{Option, none, some}
use mathlib.Core.List.{List, [], ◌∷◌}
use native.Mathlib.Omega.{arith}
use text.Mathlib.Text.{◌==◌}
use text.Mathlib.TextEquality.{eq_iff}
use text.Mathlib.TextPositions.{eq_refl}
use faasd.Prelude.Tests.{if◌then◌else◌, String-cases}
use faasd.Prelude.Lists.{In}

abbrev pub Map {ℓ} : Type ℓ → Type ℓ
Map V = List (String × V)

module _ {ℓ} {V : Type ℓ} where
  -- v, ok := m[k]
  unfoldable pub lookup : String → Map V → Option V
  lookup key [] = none
  lookup key ((here, value) ∷ later) = if here == key then some value else lookup key later

  -- m[k] = v
  unfoldable pub insert : String → V → Map V → Map V
  insert key value [] = (key, value) ∷ []
  insert key value ((here, old) ∷ later) =
      let rest = insert key value later in
      if here == key then (key, value) ∷ later else (here, old) ∷ rest

  -- delete(m, k)
  unfoldable pub delete : String → Map V → Map V
  delete k [] = []
  delete k ((j, v) ∷ m) = let rest = delete k m in if j == k then rest else (j, v) ∷ rest

  -- _, ok := m[k]
  abbrev pub is_some : Option V → Bool
  is_some none = false
  is_some (some v) = true

  -- m[k] where the zero value of the type stands for a missing key
  abbrev pub get_or : V → Option V → V
  get_or d none = d
  get_or d (some v) = v

module _ {ℓ} {V : Type ℓ} where
  unfoldable pub contains_key : String → Map V → Bool
  contains_key k m = is_some (lookup k m)

  abbrev pub keys : Map V → List String
  keys [] = []
  keys ((k, v) ∷ m) = k ∷ keys m

  -- Each key once, as in every Go map.
  abbrev pub DistinctKeys : Map V → Type 0
  DistinctKeys [] = Unit
  DistinctKeys ((k, v) ∷ m) = (contains_key k m ≡ false) × DistinctKeys m

  pub lookup-nil : (k : String) → lookup k (let m : Map V = [] in m) ≡ none
  unfolding lookup
  lookup-nil k = refl

  pub lookup-insert :
      (k j : String) (v : V) (m : Map V)
      → lookup j (insert k v m) ≡ (if k == j then some v else lookup j m)
  unfolding insert lookup
  lookup-insert key asked value [] = refl
  lookup-insert key asked value ((here, old) ∷ later) = ground (
    arith,
    lookup-insert key asked value later,
    eq_iff here key,
    eq_iff key asked,
    eq_iff here asked,
  )

  pub lookup-delete :
      (k j : String) (m : Map V) → lookup j (delete k m) ≡ (if k == j then none else lookup j m)
  unfolding lookup delete
  lookup-delete k j [] = ground arith
  lookup-delete k j ((i, w) ∷ m) =
      ground (arith, eq_iff k j, eq_iff i k, eq_iff i j, lookup-delete k j m)

  pub lookup-some_of_In : (k : String) (m : Map V) → In k (keys m) → (v : V) × (lookup k m ≡ some v)
  unfolding lookup
  lookup-some_of_In k [] h = elim h [ ]
  lookup-some_of_In k ((j, v) ∷ m) (inl e) = (v, ground (arith, eq_iff j k))
  lookup-some_of_In k ((j, v) ∷ m) (inr h) = elim (String-cases j k) [
    | inl (same, test) ↦ (v, rw test)
    | inr (other, test) ↦ rw test (lookup-some_of_In k m h)
  ]

  pub In-keys_of_lookup : (k : String) (m : Map V) (v : V) → lookup k m ≡ some v → In k (keys m)
  unfolding lookup
  In-keys_of_lookup k [] v h = cc
  In-keys_of_lookup k ((j, w) ∷ m) v h = elim (String-cases j k) [
    | inl (same, test) ↦ inl same
    | inr (other, test) ↦ inr (In-keys_of_lookup k m v (ground arith))
  ]

  -- Keys stay distinct under a write and a deletion.
  pub contains-insert :
      (k j : String) (v : V) (m : Map V)
      → contains_key j (insert k v m) ≡ (if k == j then true else contains_key j m)
  unfolding contains_key
  contains-insert k j v m = ground (arith, lookup-insert k j v m)

  pub insert-DistinctKeys :
      (k : String) (v : V) (m : Map V) → DistinctKeys m → DistinctKeys (insert k v m)
  unfolding insert contains_key lookup
  insert-DistinctKeys k v [] h = (refl, tt)
  insert-DistinctKeys k v ((j, w) ∷ m) (fresh, rest) = elim (String-cases j k) [
    | inl (same, test) ↦ rw test (ground arith, rest)
    | inr (other, test) ↦ rw test (
      ground (arith, lookup-insert k j v m, eq_iff k j, eq_iff j k),
      insert-DistinctKeys k v m rest,
    )
  ]

  pub lookup-insert_inv :
      (k j : String) (v w : V) (m : Map V)
      → lookup j (insert k v m) ≡ some w
      → (k ≡ j) × (v ≡ w) ⊎ ((k == j) ≡ false) × (lookup j m ≡ some w)
  lookup-insert_inv k j v w m h = ground (arith, lookup-insert k j v m, eq_iff k j)

  pub lookup-insert_self : (k : String) (v : V) (m : Map V) → lookup k (insert k v m) ≡ some v
  lookup-insert_self k v m = rw (lookup-insert k k v m, eq_refl k)

  pub lookup-insert_other :
      (k j : String) (v : V) (m : Map V) → (k == j) ≡ false → lookup j (insert k v m) ≡ lookup j m
  lookup-insert_other k j v m other = rw (lookup-insert k j v m, other)
