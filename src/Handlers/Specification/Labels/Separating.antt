-- ===== src/Handlers/Specification/Labels/Separating.antt =====
-- What buildLabelsAndAnnotations (functions.go) finds, key by key.
use faasd.Prelude.{
  String, ◌<>◌, ◌==◌, ◌≡◌, ◌≢◌, refl, ap, ◌∙◌, false, none, some, [], ◌∷◌, Map, DistinctKeys,
  lookup, insert, contains_key, lookup-insert, lookup-insert_other, eq_refl, strip_prefix,
  append-strip_prefix, strip_prefix-append, arith, String-cases, inl, inr, Option-cases,
}
use faasd.Handlers.Specification.{annotation_label_prefix, separate}
use faasd.Handlers.Specification.Labels.Building.{or_else, insert-or_else, prefixed-eq}

pub strips-ne :
    (a b : String)
    → strip_prefix annotation_label_prefix a ≢ strip_prefix annotation_label_prefix b
    → (a == b) ≡ false
strips-ne a b apart = elim (String-cases a b) [
  | inl (same, test) ↦ absurd (apart (ap (strip_prefix annotation_label_prefix) same))
  | inr (other, test) ↦ test
]

stripped-or_else :
    (k name j v : String) (m rest : Map String)
    → contains_key k rest ≡ false
    → k ≡ annotation_label_prefix <> name
    → or_else (lookup (annotation_label_prefix <> j) rest) (lookup j (insert name v m))
      ≡ or_else (lookup (annotation_label_prefix <> j) ((k, v) ∷ rest)) (lookup j m)
unfolding lookup contains_key
stripped-or_else k name j v m rest fresh whole = elim (String-cases name j) [
  | inl (same, test) ↦
      let there : annotation_label_prefix <> j ≡ k = cc in
      rw (there, eq_refl k, lookup-insert name j v m, test) (ground arith)
  | inr (other, test) ↦
      let apart : (k == annotation_label_prefix <> j) ≡ false =
        rw whole (prefixed-eq name j ∙ test) in
      rw (apart, lookup-insert name j v m, test) refl
]

-- What the reading finds: the keys without the prefix, and the names behind it.
pub lookup-separate_plain :
    (built labels annotations : Map String) (j : String)
    → DistinctKeys built
    → strip_prefix annotation_label_prefix j ≡ none
    → lookup j (separate built (labels, annotations)).0 ≡ or_else (lookup j built) (lookup j labels)
unfolding separate lookup
lookup-separate_plain [] labels annotations j distinct plain = refl
lookup-separate_plain ((k, v) ∷ rest) labels annotations j (fresh, distinct) plain =
    elim (Option-cases (strip_prefix annotation_label_prefix k)) [
      | inl none_there ↦
          rw (none_there, separate)
            (lookup-separate_plain rest (insert k v labels) annotations j distinct plain
              ∙ insert-or_else k j v labels rest fresh)
      | inr (name, there) ↦
          rw (there, separate)
            (lookup-separate_plain rest labels (insert name v annotations) j distinct plain
              ∙ rw (strips-ne k j (λ e. cc (e, there, plain))) refl)
    ]

pub lookup-separate_prefixed :
    (built labels annotations : Map String) (j : String)
    → DistinctKeys built
    → lookup j (separate built (labels, annotations)).1
      ≡ or_else (lookup (annotation_label_prefix <> j) built) (lookup j annotations)
unfolding separate lookup
lookup-separate_prefixed [] labels annotations j distinct = refl
lookup-separate_prefixed ((k, v) ∷ rest) labels annotations j (fresh, distinct) =
    elim (Option-cases (strip_prefix annotation_label_prefix k)) [
      | inl none_there ↦
          rw (none_there, separate)
            (lookup-separate_prefixed rest (insert k v labels) annotations j distinct
              ∙ rw
                  (strips-ne k (annotation_label_prefix <> j)
                    (λ e. cc (e, none_there, strip_prefix-append annotation_label_prefix j)))
                  refl)
      | inr (name, there) ↦
          rw (there, separate)
            (lookup-separate_prefixed rest labels (insert name v annotations) j distinct
              ∙ stripped-or_else k name j v annotations rest fresh
                  (append-strip_prefix annotation_label_prefix k name there))
    ]

-- A key with the prefix is no label.
pub lookup-separate_skips :
    (built labels annotations : Map String) (j name : String)
    → strip_prefix annotation_label_prefix j ≡ some name
    → lookup j (separate built (labels, annotations)).0 ≡ lookup j labels
unfolding separate
lookup-separate_skips [] labels annotations j name there = refl
lookup-separate_skips ((k, v) ∷ rest) labels annotations j name there =
    elim (Option-cases (strip_prefix annotation_label_prefix k)) [
      | inl plain ↦
          rw (plain, separate)
            (lookup-separate_skips rest (insert k v labels) annotations j name there
              ∙ lookup-insert_other k j v labels (strips-ne k j (λ e. cc (e, plain, there))))
      | inr (other, prefixed) ↦
          rw (prefixed, separate)
            (lookup-separate_skips rest labels (insert other v annotations) j name there)
    ]
