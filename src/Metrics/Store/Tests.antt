-- ===== src/Metrics/Store/Tests.antt =====
-- The laws of the metrics at concrete inputs.
use mathlib.Core.Option
use orkai_observability.Float64.{thousandths}
use orkai_observability.Metrics.Reservoir.{buckets, percentiles}
use orkai_observability.Metrics.Store.{
  InMemoryMetrics, Op, counts, gauges, new_in_memory_metrics, records, run, apply, get_summary,
  print, record_latency_with_labels,
}
use orkai_observability.Metrics.Store.Copying.{average}
use orkai_observability.Metrics.Store.Counters.{increments_all, run-counters}
use orkai_observability.Metrics.Store.Printing.{print-run}
use orkai_observability.Metrics.Store.Snapshot.{get_summary-run}
use orkai_observability.Metrics.Store.Validity.{IsValid, run-IsValid}
use orkai_observability.Prelude.{◌%◌, ◌+◌, List, [], arith, refl, some, ℕ, ◌∷◌, ◌≡◌}
use orkai_observability.Prelude.Int64.{word}
use orkai_observability.Table.{at, lookup, or_zero}
use orkai_observability.Text.{codes}
use orkai_observability.Text.Decimal.{format_int, format_nat}

abbrev blank : InMemoryMetrics ℕ
blank = record {
  writer = [];
  service = codes "api";
  counters = [];
  latency_totals = [];
  latency_counts = [];
  latency_reservoirs = [];
  gauges = [];
}

blank_is_new : new_in_memory_metrics {F = ℕ} (codes "api") ≡ blank
unfolding new_in_memory_metrics
blank_is_new = refl

blank-IsValid : IsValid blank
unfolding lookup
blank-IsValid = record { sized = λ k r e. cc }

abbrev traffic : List (Op ℕ)
traffic =
    counts (codes "hits") []
    ∷ records (codes "db") 15000000 []
    ∷ gauges (codes "g") 7 []
    ∷ counts (codes "hits") []
    ∷ []

-- A run that does not panic.
traffic_runs : (m : InMemoryMetrics ℕ) × (run traffic blank ≡ some m) × IsValid m
traffic_runs = run-IsValid traffic blank blank-IsValid

print-run_example :
    (m : InMemoryMetrics ℕ) × (run traffic (new_in_memory_metrics (codes "api")) ≡ some m)
    × ((m' : InMemoryMetrics ℕ) × (print format_int format_nat m ≡ some m'))
print-run_example = print-run traffic (codes "api") format_int format_nat (omega arith)

abbrev after_traffic : InMemoryMetrics ℕ
after_traffic = or_zero blank (run traffic (new_in_memory_metrics (codes "api")))

after_traffic_lem : run traffic (new_in_memory_metrics (codes "api")) ≡ some after_traffic
unfolding run apply record_latency_with_labels lookup new_in_memory_metrics
after_traffic_lem = refl

get_summary-run_example :
    let s = get_summary after_traffic in
    let k = codes "db" in
    (lookup k s.counters ≡ lookup k after_traffic.counters)
    × (lookup k s.gauges ≡ lookup k after_traffic.gauges)
    × (lookup k s.latencies
        ≡ average after_traffic.latency_counts k (lookup k after_traffic.latency_totals))
    × (lookup k s.percentiles ≡ Option.map percentiles (lookup k after_traffic.latency_reservoirs))
    × (lookup k s.histograms ≡ Option.map buckets (lookup k after_traffic.latency_reservoirs))
get_summary-run_example =
    get_summary-run traffic (codes "api") (codes "db") after_traffic after_traffic_lem

run-counters_example :
    at 0 (codes "hits") after_traffic.counters % word
    ≡ (at 0 (codes "hits") (new_in_memory_metrics {F = ℕ} (codes "api")).counters
        + increments_all traffic (codes "hits"))
      % word
run-counters_example =
    run-counters traffic (new_in_memory_metrics (codes "api")) after_traffic (codes "hits")
      after_traffic_lem
