-- ===== src/Metrics/Store.antt =====
-- observability/metrics.go: `InMemoryMetrics` and its snapshot. An operation that panics returns
-- `none`. The mutex makes each operation one step.
pub mod Counters
pub mod Validity
mod Copying
pub mod Snapshot
pub mod Printing
mod Tests
use mathlib.Core.Option
use orkai_observability.Float64.{Float64}
use orkai_observability.Metrics.Key.{format_metric_key}
use orkai_observability.Metrics.Reservoir.{
  LatencyPercentiles, LatencyReservoir, add_sample, buckets, new_latency_reservoir, percentiles,
}
use orkai_observability.Prelude.{◌++◌, ◌==◌, List, Option, [], if◌then◌else◌, none, some, ◌∷◌}
use orkai_observability.Prelude.Int64.{Int64, add, div, slt}
use orkai_observability.Table.{Table, at, insert, lookup}
use orkai_observability.Text.{Text, codes}
use orkai_observability.Text.Decimal.{format_int}

pub record InMemoryMetrics (F : Type 0) : Type 0 where
  pub writer : List Text
  pub service : Text
  pub counters : Table Int64
  pub latency_totals : Table Int64
  pub latency_counts : Table Int64
  pub latency_reservoirs : Table LatencyReservoir
  pub gauges : Table F

pub record MetricsSummary (F : Type 0) : Type 0 where
  pub counters : Table Int64
  pub latencies : Table F
  pub percentiles : Table LatencyPercentiles
  pub histograms : Table (Table Int64)
  pub gauges : Table F

-- duration.Milliseconds()
abbrev pub milliseconds : Int64 → Int64
milliseconds d = div d 1000000

abbrev pub reservoir_of : Option LatencyReservoir → LatencyReservoir
reservoir_of none = new_latency_reservoir 2000
reservoir_of (some r) = r

abbrev print_counters : Table Int64 → List Text
print_counters [] = []
print_counters ((name, val) ∷ m) =
    (name ++ (codes ": " ++ (format_int val ++ codes "\n"))) ∷ print_counters m

-- `avg`: an integer division, which panics where the count is 0. `show` is
-- `time.Duration.String`; the count is positive as long as it has not wrapped.
abbrev pub print_latencies : (Int64 → Text) → Table Int64 → Table Int64 → Option (List Text)
print_latencies show counts [] = some []
print_latencies show counts ((name, total) ∷ m) =
    let calls = at 0 name counts in
    let line = name ++ (codes "_latency_avg: " ++ (show (div total calls) ++ codes "\n")) in
    let rest = print_latencies show counts m in
    if calls == 0 then none else Option.map (λ lines. line ∷ lines) rest

module _ {F : Type 0} where
  unfoldable pub new_in_memory_metrics : Text → InMemoryMetrics F
  new_in_memory_metrics service = record {
    writer = [];
    service = service;
    counters = [];
    latency_totals = [];
    latency_counts = [];
    latency_reservoirs = [];
    gauges = [];
  }

  unfoldable pub set_writer : List Text → InMemoryMetrics F → InMemoryMetrics F
  set_writer w m = record m { writer = w }

  unfoldable pub inc_counter : Text → InMemoryMetrics F → InMemoryMetrics F
  inc_counter name m = record m { counters = insert name (add (at 0 name m.counters) 1) m.counters }

  abbrev pub store_reservoir :
      Text → InMemoryMetrics F → Option LatencyReservoir → Option (InMemoryMetrics F)
  store_reservoir name m none = none
  store_reservoir name m (some r) =
      some (record m { latency_reservoirs = insert name r m.latency_reservoirs })

  unfoldable pub add_sample_to_reservoir :
      Text → Int64 → InMemoryMetrics F → Option (InMemoryMetrics F)
  unfolding new_latency_reservoir add_sample
  add_sample_to_reservoir name duration m =
      store_reservoir name m
        (add_sample (milliseconds duration) (reservoir_of (lookup name m.latency_reservoirs)))

  -- The totals and the count, which are written before the reservoir.
  abbrev pub add_to_totals : Text → Int64 → InMemoryMetrics F → InMemoryMetrics F
  add_to_totals name duration m = record m {
    latency_totals = insert name (add (at 0 name m.latency_totals) duration) m.latency_totals;
    latency_counts = insert name (add (at 0 name m.latency_counts) 1) m.latency_counts;
  }

  unfoldable pub record_latency : Text → Int64 → InMemoryMetrics F → Option (InMemoryMetrics F)
  unfolding add_sample_to_reservoir
  record_latency name duration m =
      add_sample_to_reservoir name duration (add_to_totals name duration m)

  unfoldable pub set_gauge : Text → F → InMemoryMetrics F → InMemoryMetrics F
  set_gauge name value m = record m { gauges = insert name value m.gauges }

  unfoldable pub inc_counter_with_labels : Text → Table Text → InMemoryMetrics F → InMemoryMetrics F
  unfolding inc_counter
  inc_counter_with_labels name labels m = inc_counter (format_metric_key name labels) m

  unfoldable pub record_latency_with_labels :
      Text → Int64 → Table Text → InMemoryMetrics F → Option (InMemoryMetrics F)
  unfolding record_latency
  record_latency_with_labels name duration labels m =
      record_latency (format_metric_key name labels) duration m

  unfoldable pub set_gauge_with_labels :
      Text → F → Table Text → InMemoryMetrics F → InMemoryMetrics F
  unfolding set_gauge
  set_gauge_with_labels name value labels m = set_gauge (format_metric_key name labels) value m

  -- `show` is `strconv.FormatFloat`.
  abbrev print_gauges : (F → Text) → Table F → List Text
  print_gauges show [] = []
  print_gauges show ((name, val) ∷ m) =
      (name ++ (codes ": " ++ (show val ++ codes "\n"))) ∷ print_gauges show m

  unfoldable pub print :
      (Int64 → Text) → (F → Text) → InMemoryMetrics F → Option (InMemoryMetrics F)
  print show show_float m =
      Option.map
        (λ latencies. record m {
          writer =
              m.writer
              ++ (codes "=== METRICS ===\n"
                  ∷ (print_counters m.counters ++ (latencies ++ print_gauges show_float m.gauges)));
        })
        (print_latencies show m.latency_counts m.latency_totals)

-- for k, v := range m { s[k] = v }
unfoldable pub copy_to_summary {ℓ} : {V : Type ℓ} → Table V → Table V → Table V
copy_to_summary [] s = s
copy_to_summary ((k, v) ∷ m) s = copy_to_summary m (insert k v s)

unfoldable pub copy_percentiles :
    Table LatencyReservoir → Table LatencyPercentiles → Table LatencyPercentiles
copy_percentiles [] s = s
copy_percentiles ((k, r) ∷ m) s = copy_percentiles m (insert k (percentiles r) s)

unfoldable pub copy_histograms : Table LatencyReservoir → Table (Table Int64) → Table (Table Int64)
copy_histograms [] s = s
copy_histograms ((k, r) ∷ m) s = copy_histograms m (insert k (buckets r) s)

module _ {F : Type 0} ⦃f : Float64 F⦄ where
  unfoldable pub copy_latencies_to_summary : Table Int64 → Table Int64 → Table F → Table F
  copy_latencies_to_summary counts [] s = s
  copy_latencies_to_summary counts ((k, v) ∷ m) s =
      let calls = at 0 k counts in
      copy_latencies_to_summary counts m (
        if slt 0 calls then insert k (f.over (f.of_int (milliseconds v)) (f.of_int calls)) s else s)

  unfoldable pub get_summary : InMemoryMetrics F → MetricsSummary F
  unfolding copy_to_summary copy_percentiles copy_histograms copy_latencies_to_summary
  get_summary m = record {
    counters = copy_to_summary m.counters [];
    gauges = copy_to_summary m.gauges [];
    latencies = copy_latencies_to_summary m.latency_counts m.latency_totals [];
    percentiles = copy_percentiles m.latency_reservoirs [];
    histograms = copy_histograms m.latency_reservoirs [];
  }

-- The operations that change the metrics.
pub data Op (F : Type 0) : Type 0 where
  counts : Text → Table Text → Op F
  records : Text → Int64 → Table Text → Op F
  gauges : Text → F → Table Text → Op F

module _ {F : Type 0} where
  unfoldable pub apply : Op F → InMemoryMetrics F → Option (InMemoryMetrics F)
  unfolding inc_counter_with_labels record_latency_with_labels set_gauge_with_labels
  apply (counts name labels) m = some (inc_counter_with_labels name labels m)
  apply (records name d labels) m = record_latency_with_labels name d labels m
  apply (gauges name v labels) m = some (set_gauge_with_labels name v labels m)

  abbrev pub bind_metrics :
      Option (InMemoryMetrics F)
      → (InMemoryMetrics F → Option (InMemoryMetrics F))
      → Option (InMemoryMetrics F)
  bind_metrics none k = none
  bind_metrics (some m) k = k m

  pub run : List (Op F) → InMemoryMetrics F → Option (InMemoryMetrics F)
  run [] m = some m
  run (op ∷ ops) m = bind_metrics (apply op m) (run ops)
