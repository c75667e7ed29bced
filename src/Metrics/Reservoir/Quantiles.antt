-- ===== src/Metrics/Reservoir/Quantiles.antt =====
-- observability/metrics.go: the percentiles of a reservoir.
use orkai_observability.Metrics.Reservoir.{LatencyReservoir, extract_percentile, percentiles, sort}
use orkai_observability.Metrics.Reservoir.Sorting.{
  count, count-sort, count_at, length-sort, sort-IsSorted, sorted_at,
}
use orkai_observability.Prelude.{
  ◌*◌, ◌/◌, ◌<◌, ◌==◌, List, arith, false, get_elem?, length, lt→ltb, ℕ, ◌≡◌, ◌≤◌,
}
use orkai_observability.Prelude.Int64.{Int64, rank}
use orkai_observability.Table.{or_zero}

extract_percentile_at :
    (l : List Int64) (p : ℕ)
    → p < 100
    → 0 < length l
    → extract_percentile l p ≡ or_zero 0 (get_elem? l (length l * p / 100))
unfolding extract_percentile
extract_percentile_at l p small some_sample = rw (lt→ltb (length l * p / 100) (length l) below)
  where
    below : length l * p / 100 < length l
    below = grind arith

index-lt : (n p : ℕ) → p < 100 → 0 < n → n * p / 100 < n
index-lt n p h pos = grind arith

index-le : (n p q : ℕ) → p ≤ q → n * p / 100 ≤ n * q / 100
index-le n p q h = grind arith

-- The `p`-th percentile of the sorted samples occurs among the samples.
percentile_occurs :
    (xs : List Int64) (p : ℕ)
    → p < 100
    → 0 < length xs
    → 0 < count (extract_percentile (sort xs) p) xs
percentile_occurs xs p small pos =
    let n = length (sort xs) in
    let pos' : 0 < n = omega (arith, length-sort xs) in
    rw (extract_percentile_at (sort xs) p small pos') (
      rw (← count-sort (or_zero 0 (get_elem? (sort xs) (n * p / 100))) xs)
        (count_at (sort xs) (n * p / 100) (index-lt n p small pos')))

percentile_le :
    (xs : List Int64) (p q : ℕ)
    → p ≤ q
    → q < 100
    → 0 < length xs
    → rank (extract_percentile (sort xs) p) ≤ rank (extract_percentile (sort xs) q)
percentile_le xs p q le small pos =
    let n = length (sort xs) in
    let pos' : 0 < n = omega (arith, length-sort xs) in
    rw
      (
        extract_percentile_at (sort xs) p (omega arith) pos',
        extract_percentile_at (sort xs) q small pos',
      )
      (sorted_at (sort xs) (n * p / 100) (n * q / 100) (sort-IsSorted xs) (index-le n p q le)
        (index-lt n q small pos'))

-- Of a reservoir that is not empty, p50, p90 and p99 are samples that it holds, and they are in
-- increasing order.
pub percentiles_ordered :
    (r : LatencyReservoir)
    → 0 < length r.samples
    → let q = percentiles r in
      (0 < count q.p50 r.samples)
      × (0 < count q.p90 r.samples)
      × (0 < count q.p99 r.samples)
      × (rank q.p50 ≤ rank q.p90)
      × (rank q.p90 ≤ rank q.p99)
unfolding percentiles
percentiles_ordered r pos =
    let some_sample : (length r.samples == 0) ≡ false = ground arith in
    rw some_sample (
      percentile_occurs r.samples 50 (omega arith) pos,
      percentile_occurs r.samples 90 (omega arith) pos,
      percentile_occurs r.samples 99 (omega arith) pos,
      percentile_le r.samples 50 90 (omega arith) (omega arith) pos,
      percentile_le r.samples 90 99 (omega arith) (omega arith) pos,
    )
