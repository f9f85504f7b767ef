-- ===== src/Handlers/Specification/Labels.antt =====
-- The labels and annotations of a function (buildLabels of deploy.go) and their reading
-- (buildLabelsAndAnnotations of functions.go).
pub mod Building
pub mod Separating
use faasd.Prelude.{
  String, ◌<>◌, ◌==◌, ◌≡◌, ◌≢◌, refl, sym, ap, ◌∙◌, subst, true, false, Option, none, some, [], ◌∷◌,
  Map, DistinctKeys, lookup, insert, is_some, get_or, contains_key, lookup-insert,
  lookup-insert_other, eq_refl, insert-DistinctKeys, if◌then◌else◌, strip_prefix,
  append-strip_prefix, strip_prefix-append, arith, Bool-cases, String-cases, inl, inr, Option-cases,
}
use text.Mathlib.TextLemmas.{append_cancel_left}
use faasd.Effects.{ok}
use faasd.Handlers.Lifecycle.{FunctionDeployment}
use faasd.Handlers.Specification.{
  annotation_label_prefix, copy_labels, add_annotations, build_labels, separate,
  build_labels_and_annotations,
}
use faasd.Handlers.Specification.Labels.Building.{
  or_else, Unprefixed, copy-DistinctKeys, lookup-add_other, add_annotations-DistinctKeys,
  lookup-add_prefixed, or_else-none, lookup-copied, add_annotations-total,
}
use faasd.Handlers.Specification.Labels.Separating.{
  lookup-separate_plain, lookup-separate_prefixed, lookup-separate_skips,
}

module _ (labels annotations built : Map String) (labels_distinct : DistinctKeys labels)
    (annotations_distinct : DistinctKeys annotations) (unprefixed : Unprefixed labels)
    (done : add_annotations annotations (copy_labels labels []) ≡ ok built) where
  built-DistinctKeys : DistinctKeys built
  built-DistinctKeys =
      add_annotations-DistinctKeys annotations (copy_labels labels []) built
        (copy-DistinctKeys labels [] tt) done

  label_back : (k : String) → lookup k (separate built ([], [])).0 ≡ lookup k labels
  unfolding lookup
  label_back k = elim (Option-cases (strip_prefix annotation_label_prefix k)) [
    | inl plain ↦
        lookup-separate_plain built [] [] k built-DistinctKeys plain
        ∙ or_else-none (lookup k built)
        ∙ lookup-add_other annotations (copy_labels labels []) built k plain done
        ∙ lookup-copied labels labels_distinct k
    | inr (name, there) ↦
        lookup-separate_skips built [] [] k name there
        ∙ sym (unprefixed name)
        ∙ ap (λ (j : String). lookup j labels)
            (sym (append-strip_prefix annotation_label_prefix k name there))
  ]

  annotation_back : (k : String) → lookup k (separate built ([], [])).1 ≡ lookup k annotations
  unfolding lookup
  annotation_back k =
      lookup-separate_prefixed built [] [] k built-DistinctKeys
      ∙ or_else-none (lookup (annotation_label_prefix <> k) built)
      ∙ lookup-add_prefixed annotations (copy_labels labels []) built k annotations_distinct done
      ∙ ap (or_else (lookup k annotations))
          (lookup-copied labels labels_distinct (annotation_label_prefix <> k) ∙ unprefixed k)
      ∙ or_else-none (lookup k annotations)

-- For a request whose labels and annotations have each key once, where no label has the prefix of
-- annotations, buildLabels succeeds, and buildLabelsAndAnnotations gives the labels and the
-- annotations of the request back: every key has the same value, or none, in both.
pub build_labels-round_trip :
    (request : FunctionDeployment)
    → DistinctKeys (get_or [] request.labels)
    → DistinctKeys (get_or [] request.annotations)
    → Unprefixed (get_or [] request.labels)
    → (built : Map String) × (build_labels request ≡ ok built)
      × ((k : String)
          → lookup k (build_labels_and_annotations built).0 ≡ lookup k (get_or [] request.labels))
      × ((k : String)
          → lookup k (build_labels_and_annotations built).1
            ≡ lookup k (get_or [] request.annotations))
unfolding build_labels build_labels_and_annotations
build_labels-round_trip request labels_distinct annotations_distinct unprefixed =
    let labels = get_or [] request.labels in
    let annotations = get_or [] request.annotations in
    let (built, done) =
      add_annotations-total annotations (copy_labels labels []) annotations_distinct (λ j there.
        lookup-copied labels labels_distinct (annotation_label_prefix <> j) ∙ unprefixed j) in
    (
      built,
      done,
      label_back labels annotations built labels_distinct annotations_distinct unprefixed done,
      annotation_back labels annotations built labels_distinct annotations_distinct unprefixed done,
    )
