-- ===== src/Metrics/Key.antt =====
-- observability/metrics.go: `formatMetricKey`. A map of labels is an association list in the order
-- in which `range` meets it.
pub mod Deterministic
mod Tests
use orkai_observability.Prelude.{◌++◌, List, [], if◌then◌else◌, map, ◌∷◌}
use orkai_observability.Table.{Table, at}
use orkai_observability.Text.{Text, codes, join, text_leb}

-- sort.Strings
pub insert_text : Text → List Text → List Text
insert_text x [] = x ∷ []
insert_text x (y ∷ ys) = if text_leb x y then x ∷ y ∷ ys else y ∷ insert_text x ys

pub sort_texts : List Text → List Text
unfolding insert_text
sort_texts [] = []
sort_texts (x ∷ xs) = insert_text x (sort_texts xs)

abbrev pub keys {ℓ} : {V : Type ℓ} → Table V → List Text
keys [] = []
keys ((k, v) ∷ m) = k ∷ keys m

-- k="v"
unfoldable pub label_part : Table Text → Text → Text
label_part labels k = k ++ (codes "=\"" ++ (at [] k labels ++ codes "\""))

unfoldable pub format_metric_key : Text → Table Text → Text
unfolding sort_texts label_part
format_metric_key name [] = name
format_metric_key name (kv ∷ labels) =
    name
    ++ (codes "{"
        ++ (join (map (label_part (kv ∷ labels)) (sort_texts (keys (kv ∷ labels)))) (codes ",")
            ++ codes "}"))
