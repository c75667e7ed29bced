-- ===== src/Metrics/Reservoir/Tests.antt =====
-- The laws of the reservoir at concrete inputs.
use orkai_observability.Metrics.Reservoir.{
  LatencyReservoir, buckets, inf, new_latency_reservoir, percentiles, thresholds,
}
use orkai_observability.Metrics.Reservoir.Cumulative.{Counts, buckets_cumulative}
use orkai_observability.Metrics.Reservoir.Quantiles.{percentiles_ordered}
use orkai_observability.Metrics.Reservoir.Sorting.{count}
use orkai_observability.Metrics.Reservoir.Window.{add_all, add_all_window, last}
use orkai_observability.Prelude.{◌%◌, ◌<◌, All, [], arith, some, ◌∷◌, ◌≡◌, ◌≤◌}
use orkai_observability.Prelude.Int64.{rank, word}
use orkai_observability.Table.{at}

abbrev held : LatencyReservoir
held = record { samples = 7 ∷ 300 ∷ 12 ∷ []; max_size = 3 }

add_all_window_example :
    add_all (1 ∷ 2 ∷ 3 ∷ []) (new_latency_reservoir 2)
    ≡ some (record { samples = last 2 (1 ∷ 2 ∷ 3 ∷ []); max_size = 2 })
add_all_window_example = add_all_window 1 (1 ∷ 2 ∷ 3 ∷ [])

percentiles_ordered_example :
    let q = percentiles held in
    (0 < count q.p50 held.samples)
    × (0 < count q.p90 held.samples)
    × (0 < count q.p99 held.samples)
    × (rank q.p50 ≤ rank q.p90)
    × (rank q.p90 ≤ rank q.p99)
percentiles_ordered_example = percentiles_ordered held (omega arith)

buckets_cumulative_example :
    All (Counts held) thresholds × (at 0 inf (buckets held) % word ≡ 3 % word)
buckets_cumulative_example = buckets_cumulative held
