-- ===== src/Exporter/Labels.antt =====
-- observability/exporter.go: the labels of an exported metric.
use orkai_observability.Exporter.{merge_labels_with_le, parse_metric_key, le_label, split_key}
use orkai_observability.Metrics.Key.{format_metric_key, keys, label_part, sort_texts}
use orkai_observability.Prelude.{
  ◌++◌, [], map, some, ◌∷◌, ◌≡◌, ap, arith, length, length-append, refl, suc, take-append_length,
  ◌∙◌,
}
use orkai_observability.Table.{Table}
use orkai_observability.Text.{Text, codes, join}
use orkai_observability.Text.Split.{Lacks, cut_at-append, cut_at_missing}

-- The labels as the exporter reads them from a key, with `le` in a histogram's bucket.
abbrev pub inner : Table Text → Text
inner labels = join (map (label_part labels) (sort_texts (keys labels))) (codes ",")

abbrev pub block : Table Text → Text
block [] = []
block (kv ∷ labels) = codes "{" ++ (inner (kv ∷ labels) ++ codes "}")

abbrev pub bucket_block : Table Text → Text → Text
bucket_block [] le = codes "{le=\"" ++ (le ++ codes "\"}")
bucket_block (kv ∷ labels) le =
    codes "{" ++ (inner (kv ∷ labels) ++ (codes ",le=\"" ++ (le ++ codes "\"}")))

parse_block :
    (name rest : Text)
    → Lacks b'{' name
    → parse_metric_key (name ++ b'{' ∷ rest) ≡ (name, b'{' ∷ rest)
unfolding parse_metric_key
parse_block name rest h = ap split_key (cut_at-append b'{' name rest h)

parse_plain : (name : Text) → Lacks b'{' name → parse_metric_key name ≡ (name, [])
unfolding parse_metric_key
parse_plain name h = ap split_key (cut_at_missing b'{' name h)

merge_block :
    (xs le : Text)
    → merge_labels_with_le (b'{' ∷ (xs ++ b'}' ∷ [])) le
      ≡ some (b'{' ∷ (xs ++ (codes "," ++ le_label le)))
unfolding merge_labels_with_le
merge_block [] le = refl
merge_block (x ∷ xs) le =
    let e : length (xs ++ b'}' ∷ []) ≡ suc (length xs) =
      omega (arith, length-append xs (b'}' ∷ [])) in
    rw (e, take-append_length xs (b'}' ∷ [])) refl

-- The key of a metric whose name holds no brace is taken apart into the name and its labels again,
-- and a bucket of its histogram has the same labels with `le` at their end: the slice that takes off
-- the braces never panics.
pub exported_labels :
    (name : Text) (labels : Table Text) (le : Text)
    → Lacks b'{' name
    → let (base, ls) = parse_metric_key (format_metric_key name labels) in
      (base ≡ name)
      × (ls ≡ block labels)
      × (merge_labels_with_le ls le ≡ some (bucket_block labels le))
unfolding parse_metric_key format_metric_key merge_labels_with_le
exported_labels name [] le h =
    let e = parse_plain name h in
    (ap (λ r. r.0) e, ap (λ r. r.1) e, ap (λ r. merge_labels_with_le r.1 le) e)
exported_labels name (kv ∷ labels) le h =
    let e = parse_block name (inner (kv ∷ labels) ++ codes "}") h in
    (
      ap (λ r. r.0) e,
      ap (λ r. r.1) e,
      ap (λ r. merge_labels_with_le r.1 le) e ∙ merge_block (inner (kv ∷ labels)) le,
    )
