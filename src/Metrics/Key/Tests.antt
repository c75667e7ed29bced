-- ===== src/Metrics/Key/Tests.antt =====
-- The keys of metrics at concrete inputs.
use orkai_observability.Metrics.Key.{format_metric_key}
use orkai_observability.Metrics.Key.Deterministic.{SameMap, format_metric_key-SameMap}
use orkai_observability.Prelude.{[], arith, refl, ◌∷◌, ◌≡◌}
use orkai_observability.Table.{Table, lookup}
use orkai_observability.Text.{Text, codes, join, text_eq, text_leb}
use orkai_observability.Text.Equality.{text_eq_iff}

abbrev ab : Table Text
ab = (codes "a", codes "1") ∷ (codes "b", codes "2") ∷ []

abbrev ba : Table Text
ba = (codes "b", codes "2") ∷ (codes "a", codes "1") ∷ []

format_metric_key_runs : format_metric_key (codes "hits") ba ≡ codes "hits{a=\"1\",b=\"2\"}"
unfolding format_metric_key lookup text_eq text_leb join
format_metric_key_runs = refl

ab-SameMap : SameMap ab ba
unfolding lookup
ab-SameMap = record {
  same_keys = λ a. omega arith;
  same_values = λ a. ground (arith, text_eq_iff (codes "a") a, text_eq_iff (codes "b") a);
}

format_metric_key-SameMap_example :
    format_metric_key (codes "hits") ab ≡ format_metric_key (codes "hits") ba
format_metric_key-SameMap_example = format_metric_key-SameMap (codes "hits") ab ba ab-SameMap
