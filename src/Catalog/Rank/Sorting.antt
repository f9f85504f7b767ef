-- ===== src/Catalog/Rank/Sorting.antt =====
-- slices.Sort, as RankNodeByRTT (faas_client.go) uses it: sorted, and the same numbers.
use faasd.Prelude.{ℕ, ◌≤◌, leb, List, [], ◌∷◌, In, All, inl, inr, arith, Bool-cases}
use mathlib.Core.List.{Perm}
use mathlib.Core.List.Perm
use faasd.Catalog.Rank.{insert_sorted, sort}

abbrev pub IsSorted : List ℕ → Type 0
IsSorted [] = Unit
IsSorted (x ∷ xs) = All (λ y. x ≤ y) xs × IsSorted xs

All-le : (x y : ℕ) (xs : List ℕ) → x ≤ y → All (λ z. y ≤ z) xs → All (λ z. x ≤ z) xs
All-le x y [] h a = tt
All-le x y (z ∷ xs) h (b, a) = (omega arith, All-le x y xs h a)

insert_sorted-All :
    (bound x : ℕ) (xs : List ℕ)
    → bound ≤ x
    → All (λ z. bound ≤ z) xs
    → All (λ z. bound ≤ z) (insert_sorted x xs)
unfolding insert_sorted
insert_sorted-All bound x [] h a = (h, tt)
insert_sorted-All bound x (y ∷ xs) h (b, a) = elim (Bool-cases (leb x y)) [
  | inl le ↦ rw le (h, (b, a))
  | inr gt ↦ rw gt (b, insert_sorted-All bound x xs h a)
]

insert_sorted-IsSorted : (x : ℕ) (xs : List ℕ) → IsSorted xs → IsSorted (insert_sorted x xs)
unfolding insert_sorted
insert_sorted-IsSorted x [] s = (tt, tt)
insert_sorted-IsSorted x (y ∷ xs) (a, s) = elim (Bool-cases (leb x y)) [
  | inl le ↦ rw le ((ground arith, All-le x y xs (ground arith) a), (a, s))
  | inr gt ↦ rw gt (insert_sorted-All y x xs (ground arith) a, insert_sorted-IsSorted x xs s)
]

pub sort-IsSorted : (xs : List ℕ) → IsSorted (sort xs)
unfolding sort
sort-IsSorted [] = tt
sort-IsSorted (x ∷ xs) = insert_sorted-IsSorted x (sort xs) (sort-IsSorted xs)

insert_sorted-perm : (x : ℕ) (xs : List ℕ) → Perm (insert_sorted x xs) (x ∷ xs)
unfolding insert_sorted
insert_sorted-perm x [] = Perm.refl (x ∷ [])
insert_sorted-perm x (y ∷ xs) = elim (Bool-cases (leb x y)) [
  | inl le ↦ rw le (Perm.refl (x ∷ y ∷ xs))
  | inr gt ↦ rw gt (Perm.trans (Perm.cons y (insert_sorted-perm x xs)) (Perm.swap _ _ _))
]

pub sort-perm : (xs : List ℕ) → Perm (sort xs) xs
unfolding sort
sort-perm [] = Perm.refl []
sort-perm (x ∷ xs) = Perm.trans (insert_sorted-perm x (sort xs)) (Perm.cons x (sort-perm xs))

insert_sorted-In : (r x : ℕ) (xs : List ℕ) → In r (insert_sorted x xs) → In r (x ∷ xs)
unfolding insert_sorted
insert_sorted-In r x [] h = h
insert_sorted-In r x (y ∷ xs) h = elim (Bool-cases (leb x y)) [
  | inl le ↦ rw le at h
  | inr gt ↦ go (insert_sorted-In r x xs) (rw gt at h)
]
  where
    go :
        (In r (insert_sorted x xs) → In r (x ∷ xs))
        → In r (y ∷ insert_sorted x xs)
        → In r (x ∷ y ∷ xs)
    go rest (inl e) = inr (inl e)
    go rest (inr m) = elim (rest m) [ inl e ↦ inl e | inr i ↦ inr (inr i) ]

pub sort-In : (r : ℕ) (xs : List ℕ) → In r (sort xs) → In r xs
unfolding sort
sort-In r [] h = h
sort-In r (x ∷ xs) h = elim (insert_sorted-In r x (sort xs) h) [
  | inl e ↦ inl e
  | inr m ↦ inr (sort-In r xs m)
]
