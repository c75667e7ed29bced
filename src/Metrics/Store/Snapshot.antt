-- ===== src/Metrics/Store/Snapshot.antt =====
-- observability/metrics.go: what `GetSummary` reports, key by key.
use mathlib.Core.Option
use orkai_observability.Float64.{Float64}
use orkai_observability.Metrics.Key.{format_metric_key}
use orkai_observability.Metrics.Reservoir.{LatencyReservoir, buckets, percentiles, add_sample}
use orkai_observability.Metrics.Store.{
  InMemoryMetrics, Op, apply, bind_metrics, counts, gauges, get_summary, inc_counter,
  new_in_memory_metrics, records, run, set_gauge, record_latency, reservoir_of, store_reservoir,
  add_to_totals, milliseconds, inc_counter_with_labels, record_latency_with_labels,
  set_gauge_with_labels,
}
use orkai_observability.Metrics.Store.Copying.{
  Distinct, average, copied-lookup, copied_histograms, copied_percentiles, insert-Distinct,
  latencies-lookup, lookup-map_values, map_values, map_values-Distinct, over-none,
}
use orkai_observability.Prelude.{
  Option, [], ap, inl, inr, none, some, sym, ◌∙◌, ◌∷◌, ◌≡◌, subst, List, Option-cases,
}
use orkai_observability.Prelude.Int64.{Int64}
use orkai_observability.Table.{insert, lookup}
use orkai_observability.Text.{Text}

module _ {F : Type 0} where
  -- Every map of the metrics has one entry for a key.
  record IsKeyed (m : InMemoryMetrics F) : Type 0 where
    counters_distinct : Distinct m.counters
    gauges_distinct : Distinct m.gauges
    totals_distinct : Distinct m.latency_totals
    reservoirs_distinct : Distinct m.latency_reservoirs

  new-IsKeyed : (service : Text) → IsKeyed (new_in_memory_metrics {F = F} service)
  unfolding new_in_memory_metrics
  new-IsKeyed service = record {
    counters_distinct = tt;
    gauges_distinct = tt;
    totals_distinct = tt;
    reservoirs_distinct = tt;
  }

  record_latency-IsKeyed :
      (name : Text) (d : Int64) (m m' : InMemoryMetrics F)
      → record_latency name d m ≡ some m'
      → IsKeyed m
      → IsKeyed m'
  unfolding record_latency
  record_latency-IsKeyed name d m m' e h =
      stored (add_sample (milliseconds d) (reservoir_of (lookup name m.latency_reservoirs))) e
    where
      stored :
          (o : Option LatencyReservoir)
          → store_reservoir name (add_to_totals name d m) o ≡ some m'
          → IsKeyed m'
      stored none e = absurd (cc)
      stored (some r) e =
          let e' : record (add_to_totals name d m) {
            latency_reservoirs = insert name r m.latency_reservoirs;
          }
              ≡ m' =
            cc in
          subst IsKeyed e' (record {
            counters_distinct = h.counters_distinct;
            gauges_distinct = h.gauges_distinct;
            totals_distinct = insert-Distinct name _ m.latency_totals h.totals_distinct;
            reservoirs_distinct = insert-Distinct name r m.latency_reservoirs h.reservoirs_distinct;
          })

  apply-IsKeyed :
      (op : Op F) (m m' : InMemoryMetrics F) → apply op m ≡ some m' → IsKeyed m → IsKeyed m'
  unfolding apply inc_counter_with_labels inc_counter set_gauge_with_labels set_gauge
      record_latency_with_labels
  apply-IsKeyed (counts name labels) m m' e h =
      let e' : inc_counter (format_metric_key name labels) m ≡ m' = cc in
      subst IsKeyed e' (record {
        counters_distinct =
            insert-Distinct (format_metric_key name labels) _ m.counters h.counters_distinct;
        gauges_distinct = h.gauges_distinct;
        totals_distinct = h.totals_distinct;
        reservoirs_distinct = h.reservoirs_distinct;
      })
  apply-IsKeyed (records name d labels) m m' e h =
      record_latency-IsKeyed (format_metric_key name labels) d m m' e h
  apply-IsKeyed (gauges name v labels) m m' e h =
      let e' : set_gauge (format_metric_key name labels) v m ≡ m' = cc in
      subst IsKeyed e' (record {
        counters_distinct = h.counters_distinct;
        gauges_distinct =
            insert-Distinct (format_metric_key name labels) v m.gauges h.gauges_distinct;
        totals_distinct = h.totals_distinct;
        reservoirs_distinct = h.reservoirs_distinct;
      })

  run-IsKeyed :
      (ops : List (Op F)) (m m' : InMemoryMetrics F) → run ops m ≡ some m' → IsKeyed m → IsKeyed m'
  unfolding run
  run-IsKeyed [] m m' e h = let e' : m ≡ m' = cc in subst IsKeyed e' h
  run-IsKeyed (op ∷ ops) m m' e h = elim (Option-cases (apply op m)) [
    | inl stuck ↦ absurd (cc (sym (ap (λ o. bind_metrics o (run ops)) stuck) ∙ e))
    | inr (m1, e1) ↦
        run-IsKeyed ops m1 m' (sym (ap (λ o. bind_metrics o (run ops)) e1) ∙ e)
          (apply-IsKeyed op m m1 e1 h)
  ]

module _ {F : Type 0} ⦃f : Float64 F⦄ where
  -- `GetSummary`, after any operations on new metrics, reports under every key just what the metrics
  -- hold: the counters and the gauges as they are; the average of the latencies in milliseconds, if
  -- their count is positive; the percentiles and the buckets of the reservoir, if there is one; and
  -- nothing under a key that is not used.
  pub get_summary-run :
      (ops : List (Op F)) (service k : Text) (m : InMemoryMetrics F)
      → run ops (new_in_memory_metrics service) ≡ some m
      → let s = get_summary m in
        (lookup k s.counters ≡ lookup k m.counters)
        × (lookup k s.gauges ≡ lookup k m.gauges)
        × (lookup k s.latencies ≡ average m.latency_counts k (lookup k m.latency_totals))
        × (lookup k s.percentiles ≡ Option.map percentiles (lookup k m.latency_reservoirs))
        × (lookup k s.histograms ≡ Option.map buckets (lookup k m.latency_reservoirs))
  unfolding get_summary lookup
  get_summary-run ops service k m e =
      let h = run-IsKeyed ops (new_in_memory_metrics service) m e (new-IsKeyed service) in
      let t = m.latency_reservoirs in
      (
        copied-lookup k m.counters h.counters_distinct,
        copied-lookup k m.gauges h.gauges_distinct,
        latencies-lookup m.latency_counts k m.latency_totals [] h.totals_distinct ∙ over-none _,
        ap (lookup k) (copied_percentiles t [])
            ∙ copied-lookup k (map_values percentiles t)
                (map_values-Distinct percentiles t h.reservoirs_distinct)
            ∙ lookup-map_values percentiles k t,
        ap (lookup k) (copied_histograms t [])
            ∙ copied-lookup k (map_values buckets t)
                (map_values-Distinct buckets t h.reservoirs_distinct)
            ∙ lookup-map_values buckets k t,
      )
