-- ===== src/Metrics/Reservoir.antt =====
-- observability/metrics.go: `latencyReservoir`. A sample is `float64(duration.Milliseconds())`, an
-- integer that a float64 holds exactly, and it is kept as that integer.
pub mod Window
pub mod Sorting
pub mod Quantiles
pub mod Cumulative
mod Tests
use orkai_observability.Prelude.{
  ◌*◌, ◌++◌, ◌/◌, ◌==◌, List, Option, [], if◌then◌else◌, get_elem?, leb, length, ltb, none, some, ℕ,
  ◌∷◌,
}
use orkai_observability.Prelude.Int64.{Int64, add, sle}
use orkai_observability.Table.{Table, at, insert, or_zero}
use orkai_observability.Text.{Text, codes}
use orkai_observability.Text.Decimal.{format_int}

pub record LatencyReservoir : Type 0 where
  pub samples : List Int64
  pub max_size : ℕ

unfoldable pub new_latency_reservoir : ℕ → LatencyReservoir
new_latency_reservoir max_size = record { samples = []; max_size = max_size }

-- `r.Add(val)`. `r.samples[1:]` of an empty slice panics: `none`.
unfoldable pub add_sample : Int64 → LatencyReservoir → Option LatencyReservoir
add_sample val r =
    if leb r.max_size (length r.samples)
    then elim r.samples [ [] ↦ none | x ∷ rest ↦ some (record r { samples = rest ++ val ∷ [] }) ]
    else some (record r { samples = r.samples ++ val ∷ [] })

-- sort.Float64s: the sorted permutation, which is unique on these numbers.
pub insert_sorted : Int64 → List Int64 → List Int64
insert_sorted x [] = x ∷ []
insert_sorted x (y ∷ ys) = if sle x y then x ∷ y ∷ ys else y ∷ insert_sorted x ys

pub sort : List Int64 → List Int64
unfolding insert_sorted
sort [] = []
sort (x ∷ xs) = insert_sorted x (sort xs)

-- `percentile` is given in hundredths: for 0.50, 0.90 and 0.99 and up to 2000 samples,
-- `int(float64(n) * percentile)` is `n * hundredths / 100`.
unfoldable pub extract_percentile : List Int64 → ℕ → Int64
extract_percentile sorted hundredths =
    let n = length sorted in
    let idx = n * hundredths / 100 in if ltb idx n then or_zero 0 (get_elem? sorted idx) else 0

pub record LatencyPercentiles : Type 0 where
  pub p50 : Int64
  pub p90 : Int64
  pub p99 : Int64

unfoldable pub percentiles : LatencyReservoir → LatencyPercentiles
unfolding extract_percentile sort
percentiles r =
    if length r.samples == 0
    then record { p50 = 0; p90 = 0; p99 = 0 }
    else let temp = sort r.samples in
      record {
        p50 = extract_percentile temp 50;
        p90 = extract_percentile temp 90;
        p99 = extract_percentile temp 99;
      }

abbrev pub thresholds : List Int64
thresholds = 5 ∷ 10 ∷ 25 ∷ 50 ∷ 100 ∷ 250 ∷ 500 ∷ 1000 ∷ 2500 ∷ 5000 ∷ []

abbrev pub inf : Text
inf = codes "+Inf"

-- buckets[key]++
abbrev pub bump : Text → Table Int64 → Table Int64
bump key buckets = insert key (add (at 0 key buckets) 1) buckets

-- The loop over the thresholds, then the bucket `+Inf`. `FormatFloat(limit, 'f', -1, 64)` of a whole
-- number is its decimal print.
unfoldable pub increment_bucket_counters : List Int64 → Int64 → Table Int64 → Table Int64
increment_bucket_counters [] val buckets = bump inf buckets
increment_bucket_counters (limit ∷ limits) val buckets =
    increment_bucket_counters limits val
      (if sle val limit then bump (format_int limit) buckets else buckets)

abbrev pub zero_buckets : List Int64 → Table Int64 → Table Int64
zero_buckets [] buckets = insert inf 0 buckets
zero_buckets (limit ∷ limits) buckets = zero_buckets limits (insert (format_int limit) 0 buckets)

abbrev pub count_samples : List Int64 → Table Int64 → Table Int64
count_samples [] buckets = buckets
count_samples (val ∷ samples) buckets =
    count_samples samples (increment_bucket_counters thresholds val buckets)

unfoldable pub buckets : LatencyReservoir → Table Int64
unfolding increment_bucket_counters
buckets r = count_samples r.samples (zero_buckets thresholds [])
