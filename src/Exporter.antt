-- ===== src/Exporter.antt =====
-- observability/exporter.go: the metrics in the text format of Prometheus. What is written is the
-- list of the lines; `show` is the format `%g` of a number. A slice out of range, which panics, is
-- `none`. A summary's maps are association lists in the order in which `range` meets them.
pub mod Labels
pub mod Handler
pub mod Scrape
mod Tests
use orkai_observability.Float64.{Float64}
use orkai_observability.Metrics.Store.{MetricsSummary}
use orkai_observability.Prelude.{◌++◌, List, Option, [], length, none, some, take, ◌∷◌}
use orkai_observability.Prelude.Int64.{Int64}
use orkai_observability.Table.{Table, at}
use orkai_observability.Text.{Text, codes, cut_at}
use orkai_observability.Text.Decimal.{format_int}

infixl 5 ◌>>=◌
-- A step that may panic, and what follows it.
abbrev pub ◌>>=◌ : {A B : Type 0} → Option A → (A → Option B) → Option B
none >>= k = none
some a >>= k = k a

-- `strings.Index(key, "{")` and the two slices at that index.
abbrev pub split_key : Text × Option Text → Text × Text
split_key (base, none) = (base, [])
split_key (base, some rest) = (base, b'{' ∷ rest)

unfoldable pub parse_metric_key : Text → Text × Text
unfolding cut_at
parse_metric_key key = split_key (cut_at b'{' key)

abbrev pub le_label : Text → Text
le_label le = codes "le=\"" ++ (le ++ codes "\"}")

-- labels[1 : len(labels)-1]
unfoldable pub merge_labels_with_le : Text → Text → Option Text
merge_labels_with_le [] le = some (codes "{" ++ le_label le)
merge_labels_with_le (x ∷ []) le = none
merge_labels_with_le (x ∷ y ∷ labels) le =
    some (codes "{" ++ (take (length labels) (y ∷ labels) ++ (codes "," ++ le_label le)))

abbrev pub header : Text → Text → Text → List Text
header name help kind =
    (codes "# HELP " ++ (name ++ (codes " " ++ (help ++ codes "\n"))))
    ∷ (codes "# TYPE " ++ (name ++ (codes " " ++ (kind ++ codes "\n"))))
    ∷ []

abbrev pub value_line : Text → Text → Text → Text
value_line name labels value = name ++ (labels ++ (codes " " ++ (value ++ codes "\n")))

unfoldable pub write_counters : Table Int64 → List Text
unfolding parse_metric_key
write_counters [] = []
write_counters ((name, val) ∷ counters) =
    let (base, labels) = parse_metric_key name in
    header base (codes "Cumulative counter of " ++ base) (codes "counter")
    ++ (value_line base labels (format_int val) ∷ write_counters counters)

-- A line for each of the upper limits of the buckets, which are written as texts in the source.
unfoldable pub write_buckets : List Text → Text → Text → Table Int64 → Option (List Text)
unfolding merge_labels_with_le
write_buckets [] base labels bs = some []
write_buckets (le ∷ les) base labels bs = do
  bucket_labels ← merge_labels_with_le labels le
  lines ← write_buckets les base labels bs
  some (value_line (base ++ codes "_bucket") bucket_labels (format_int (at 0 le bs)) ∷ lines)

abbrev pub bucket_limits : List Text
bucket_limits =
    codes "5"
    ∷ codes "10"
    ∷ codes "25"
    ∷ codes "50"
    ∷ codes "100"
    ∷ codes "250"
    ∷ codes "500"
    ∷ codes "1000"
    ∷ codes "2500"
    ∷ codes "5000"
    ∷ codes "+Inf"
    ∷ []

unfoldable pub write_histogram_buckets : Text → Text → Table Int64 → Option (List Text)
unfolding write_buckets
write_histogram_buckets = write_buckets bucket_limits

module _ {F : Type 0} ⦃f : Float64 F⦄ (show : F → Text) where
  unfoldable pub write_gauges : Table F → List Text
  unfolding parse_metric_key
  write_gauges [] = []
  write_gauges ((name, val) ∷ gs) =
      let (base, labels) = parse_metric_key name in
      header base (codes "Current " ++ base) (codes "gauge")
      ++ (value_line base labels (show val) ∷ write_gauges gs)

  unfoldable pub write_latencies : Table F → List Text
  unfolding parse_metric_key
  write_latencies [] = []
  write_latencies ((name, val) ∷ latencies) =
      let (base, labels) = parse_metric_key name in
      let full_name = base ++ codes "_latency_avg" in
      header full_name (codes "Average latency of " ++ (base ++ codes " in milliseconds"))
        (codes "gauge")
      ++ (value_line full_name labels (show val) ∷ write_latencies latencies)

  unfoldable pub write_histogram_sum_and_count : Text → Text → F → Int64 → List Text
  write_histogram_sum_and_count base labels sum samples =
      value_line (base ++ codes "_sum") labels (show sum)
      ∷ value_line (base ++ codes "_count") labels (format_int samples)
      ∷ []

  unfoldable pub write_histograms : Table F → Table (Table Int64) → Option (List Text)
  unfolding parse_metric_key write_histogram_buckets write_histogram_sum_and_count
  write_histograms latencies [] = some []
  write_histograms latencies ((name, bs) ∷ histograms) =
      let (base, labels) = parse_metric_key name in
      let samples = at 0 (codes "+Inf") bs in
      let sum = f.times (at (f.of_int 0) name latencies) (f.of_int samples) in
      do
        bucket_lines ← write_histogram_buckets base labels bs
        rest ← write_histograms latencies histograms
        some (
            header base (codes "Histogram of latency in milliseconds for " ++ base)
              (codes "histogram")
            ++ (bucket_lines ++ (write_histogram_sum_and_count base labels sum samples ++ rest)))

  -- The body of the answer.
  unfoldable pub write_prometheus_metrics : MetricsSummary F → Option (List Text)
  unfolding write_counters write_gauges write_latencies write_histograms
  write_prometheus_metrics summary = do
    histograms ← write_histograms summary.latencies summary.histograms
    some (
        write_counters summary.counters
        ++ (write_gauges summary.gauges ++ (write_latencies summary.latencies ++ histograms)))
