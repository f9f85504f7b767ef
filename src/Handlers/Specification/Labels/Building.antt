-- ===== src/Handlers/Specification/Labels/Building.antt =====
-- The labels that buildLabels (deploy.go) builds, key by key.
use faasd.Prelude.{
  String, ◌<>◌, ◌==◌, ◌≡◌, refl, ap, ◌∙◌, subst, true, false, Option, none, some, [], ◌∷◌, Map,
  DistinctKeys, lookup, insert, is_some, contains_key, lookup-insert, lookup-insert_other, eq_refl,
  insert-DistinctKeys, if◌then◌else◌, strip_prefix, strip_prefix-append, arith, Bool-cases,
  String-cases, inl, inr,
}
use text.Mathlib.TextLemmas.{append_cancel_left}
use faasd.Effects.{ok}
use faasd.Handlers.Specification.{annotation_label_prefix, copy_labels, add_annotations}

abbrev pub or_else : {V : Type 0} → Option V → Option V → Option V
or_else none b = b
or_else (some v) b = some v

-- No key has the prefix of the annotations.
abbrev pub Unprefixed : Map String → Type 0
Unprefixed labels = (name : String) → lookup (annotation_label_prefix <> name) labels ≡ none

-- A loop that inserts finds each key of its list, and what was there before.
pub insert-or_else :
    (k j v : String) (m rest : Map String)
    → contains_key k rest ≡ false
    → or_else (lookup j rest) (lookup j (insert k v m))
      ≡ or_else (lookup j ((k, v) ∷ rest)) (lookup j m)
unfolding lookup contains_key
insert-or_else k j v m rest fresh = elim (String-cases k j) [
  | inl (same, test) ↦ ground (arith, lookup-insert k j v m)
  | inr (other, test) ↦ ground (arith, lookup-insert k j v m)
]

lookup-copy :
    (given labels : Map String) (j : String)
    → DistinctKeys given
    → lookup j (copy_labels given labels) ≡ or_else (lookup j given) (lookup j labels)
unfolding copy_labels lookup
lookup-copy [] labels j distinct = refl
lookup-copy ((k, v) ∷ rest) labels j (fresh, distinct) =
    lookup-copy rest (insert k v labels) j distinct ∙ insert-or_else k j v labels rest fresh

pub copy-DistinctKeys :
    (given labels : Map String) → DistinctKeys labels → DistinctKeys (copy_labels given labels)
unfolding copy_labels
copy-DistinctKeys [] labels distinct = distinct
copy-DistinctKeys ((k, v) ∷ rest) labels distinct =
    copy-DistinctKeys rest (insert k v labels) (insert-DistinctKeys k v labels distinct)

-- What has the prefix is no key without it, and two such keys are equal as their names are.
prefixed-ne :
    (k j : String)
    → strip_prefix annotation_label_prefix j ≡ none
    → (annotation_label_prefix <> k == j) ≡ false
prefixed-ne k j plain = elim (String-cases (annotation_label_prefix <> k) j) [
  | inl (same, test) ↦ cc (
    plain,
    ap (strip_prefix annotation_label_prefix) same,
    strip_prefix-append annotation_label_prefix k,
  )
  | inr (other, test) ↦ test
]

pub prefixed-eq :
    (k j : String) → (annotation_label_prefix <> k == annotation_label_prefix <> j) ≡ (k == j)
prefixed-eq k j = elim (String-cases k j) [
  | inl (same, test) ↦ rw test (rw same (eq_refl (annotation_label_prefix <> j)))
  | inr (other, test) ↦
      elim (String-cases (annotation_label_prefix <> k) (annotation_label_prefix <> j)) [
        | inl (joined, whole) ↦
            absurd (other (append_cancel_left annotation_label_prefix k j joined))
        | inr (apart, whole) ↦ rw (test, whole) refl
      ]
]

-- A key that no annotation has is left alone.
pub lookup-add_other :
    (given labels built : Map String) (j : String)
    → strip_prefix annotation_label_prefix j ≡ none
    → add_annotations given labels ≡ ok built
    → lookup j built ≡ lookup j labels
unfolding add_annotations
lookup-add_other [] labels built j plain done = cc
lookup-add_other ((k, v) ∷ rest) labels built j plain done =
    let key = annotation_label_prefix <> k in
    elim (Bool-cases (is_some (lookup key labels))) [
      | inl taken ↦ cc (rw taken at done)
      | inr free ↦
          lookup-add_other rest (insert key v labels) built j plain (rw free at done)
          ∙ lookup-insert_other key j v labels (prefixed-ne k j plain)
    ]

lookup-insert_prefixed :
    (k j v : String) (m : Map String)
    → lookup (annotation_label_prefix <> j) (insert (annotation_label_prefix <> k) v m)
      ≡ (if k == j then some v else lookup (annotation_label_prefix <> j) m)
lookup-insert_prefixed k j v m =
    lookup-insert (annotation_label_prefix <> k) (annotation_label_prefix <> j) v m
    ∙ rw (prefixed-eq k j) refl

prefixed-or_else :
    (k j v : String) (m rest : Map String)
    → contains_key k rest ≡ false
    → or_else
        (lookup j rest)
        (lookup (annotation_label_prefix <> j) (insert (annotation_label_prefix <> k) v m))
      ≡ or_else (lookup j ((k, v) ∷ rest)) (lookup (annotation_label_prefix <> j) m)
unfolding lookup contains_key
prefixed-or_else k j v m rest fresh = elim (String-cases k j) [
  | inl (same, test) ↦ rw (lookup-insert_prefixed k j v m, test) (ground arith)
  | inr (other, test) ↦ rw (lookup-insert_prefixed k j v m, test) refl
]

pub add_annotations-DistinctKeys :
    (given labels built : Map String)
    → DistinctKeys labels
    → add_annotations given labels ≡ ok built
    → DistinctKeys built
unfolding add_annotations
add_annotations-DistinctKeys [] labels built distinct done = subst DistinctKeys (cc) distinct
add_annotations-DistinctKeys ((k, v) ∷ rest) labels built distinct done =
    let key = annotation_label_prefix <> k in
    elim (Bool-cases (is_some (lookup key labels))) [
      | inl taken ↦ cc (rw taken at done)
      | inr free ↦
          add_annotations-DistinctKeys rest (insert key v labels) built
            (insert-DistinctKeys key v labels distinct) (rw free at done)
    ]

pub lookup-add_prefixed :
    (given labels built : Map String) (j : String)
    → DistinctKeys given
    → add_annotations given labels ≡ ok built
    → lookup (annotation_label_prefix <> j) built
      ≡ or_else (lookup j given) (lookup (annotation_label_prefix <> j) labels)
unfolding add_annotations lookup
lookup-add_prefixed [] labels built j distinct done = cc
lookup-add_prefixed ((k, v) ∷ rest) labels built j (fresh, distinct) done =
    let key = annotation_label_prefix <> k in
    elim (Bool-cases (is_some (lookup key labels))) [
      | inl taken ↦ cc (rw taken at done)
      | inr free ↦
          lookup-add_prefixed rest (insert key v labels) built j distinct (rw free at done)
          ∙ prefixed-or_else k j v labels rest fresh
    ]

pub or_else-none : {V : Type 0} (o : Option V) → or_else o none ≡ o
or_else-none none = refl
or_else-none (some v) = refl

pub lookup-copied :
    (labels : Map String)
    → DistinctKeys labels
    → (k : String) → lookup k (copy_labels labels []) ≡ lookup k labels
unfolding lookup
lookup-copied labels distinct k = lookup-copy labels [] k distinct ∙ or_else-none (lookup k labels)

-- No annotation's key is taken.
abbrev Untaken : Map String → Map String → Type 0
Untaken given labels =
    (j : String) → contains_key j given ≡ true → lookup (annotation_label_prefix <> j) labels ≡ none

pub add_annotations-total :
    (given labels : Map String)
    → DistinctKeys given
    → Untaken given labels
    → (built : Map String) × (add_annotations given labels ≡ ok built)
unfolding add_annotations contains_key lookup
add_annotations-total [] labels distinct untaken = (labels, refl)
add_annotations-total ((k, v) ∷ rest) labels (fresh, distinct) untaken =
    let free = untaken k (rw (eq_refl k) refl) in
    let (built, done) =
      add_annotations-total rest (insert (annotation_label_prefix <> k) v labels) distinct
        (still k v rest labels fresh untaken) in
    (built, rw free done)
  where
    still :
        (k v : String) (rest labels : Map String)
        → contains_key k rest ≡ false
        → Untaken ((k, v) ∷ rest) labels
        → Untaken rest (insert (annotation_label_prefix <> k) v labels)
    still k v rest labels fresh untaken j there = elim (String-cases k j) [
      | inl (same, test) ↦ cc (fresh, there, same)
      | inr (other, test) ↦
          rw (lookup-insert_prefixed k j v labels, test) (untaken j (rw test there))
    ]
