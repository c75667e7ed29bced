-- ===== src/Metrics/Reservoir/Cumulative.antt =====
-- observability/metrics.go: the buckets of a reservoir.
use orkai_observability.Metrics.Reservoir.{
  bump, count_samples, increment_bucket_counters, inf, thresholds, LatencyReservoir, buckets,
  zero_buckets,
}
use orkai_observability.Prelude.{
  ◌%◌, ◌&&◌, ◌+◌, Bool-cases, List, [], arith, if◌then◌else◌, inl, inr, ℕ, ◌∷◌, ◌≡◌, All, length,
  refl,
}
use orkai_observability.Prelude.Int64.{Int64, add, sle, word}
use orkai_observability.Table.{Table, at, lookup-insert, insert, lookup}
use orkai_observability.Text.{Text, text_eq}
use orkai_observability.Text.Decimal.{format_int}
use orkai_observability.Text.Equality.{text_eq_iff}

-- The samples that do not exceed a limit.
pub count_le : Int64 → List Int64 → ℕ
count_le limit [] = 0
count_le limit (v ∷ vs) = (if sle v limit then 1 else 0) + count_le limit vs

-- How often one sample is counted under a key.
abbrev hits : List Int64 → Int64 → Text → ℕ
hits [] val key = if text_eq inf key then 1 else 0
hits (limit ∷ limits) val key =
    (if text_eq (format_int limit) key && sle val limit then 1 else 0) + hits limits val key

at-bump :
    (k key : Text) (b : Table Int64)
    → at 0 key (bump k b) % word ≡ (at 0 key b + (if text_eq k key then 1 else 0)) % word
at-bump k key b = rw (lookup-insert k key (add (at 0 k b) 1) b) (elim (Bool-cases (text_eq k key)) [
  | inl e ↦ rw (e, (text_eq_iff k key).0 e) (omega arith)
  | inr e ↦ rw e (omega arith)
])

at-increment :
    (limits : List Int64) (val : Int64) (key : Text) (b : Table Int64)
    → at 0 key (increment_bucket_counters limits val b) % word
      ≡ (at 0 key b + hits limits val key) % word
unfolding increment_bucket_counters
at-increment [] val key b = at-bump inf key b
at-increment (limit ∷ limits) val key b = elim (Bool-cases (sle val limit)) [
  | inl e ↦ rw e (
      ground (
        arith,
        at-increment limits val key (bump (format_int limit) b),
        at-bump (format_int limit) key b,
      ))
  | inr e ↦ rw e (ground (arith, at-increment limits val key b))
]

hits_all : List Int64 → Text → ℕ
hits_all [] key = 0
hits_all (v ∷ vs) key = hits thresholds v key + hits_all vs key

at-count_samples :
    (vs : List Int64) (key : Text) (b : Table Int64)
    → at 0 key (count_samples vs b) % word ≡ (at 0 key b + hits_all vs key) % word
unfolding hits_all
at-count_samples [] key b = omega arith
at-count_samples (v ∷ vs) key b = omega (
  arith,
  at-count_samples vs key (increment_bucket_counters thresholds v b),
  at-increment thresholds v key b,
)

-- The bucket of a limit holds the number of samples up to the limit.
abbrev pub Counts : LatencyReservoir → Int64 → Type 0
Counts r limit = at 0 (format_int limit) (buckets r) % word ≡ count_le limit r.samples % word

hits_all-count_le :
    (limit : Int64)
    → ((v : Int64) → hits thresholds v (format_int limit) ≡ (if sle v limit then 1 else 0))
    → (vs : List Int64) → hits_all vs (format_int limit) ≡ count_le limit vs
unfolding hits_all count_le
hits_all-count_le limit once [] = refl
hits_all-count_le limit once (v ∷ vs) = omega (arith, once v, hits_all-count_le limit once vs)

bucket-Counts :
    (r : LatencyReservoir) (limit : Int64)
    → ((v : Int64) → hits thresholds v (format_int limit) ≡ (if sle v limit then 1 else 0))
    → at 0 (format_int limit) (zero_buckets thresholds []) ≡ 0
    → Counts r limit
unfolding buckets
bucket-Counts r limit once fresh = omega (
  arith,
  fresh,
  at-count_samples r.samples (format_int limit) (zero_buckets thresholds []),
  hits_all-count_le limit once r.samples,
)

hits_all-inf : (vs : List Int64) → hits_all vs inf ≡ length vs
unfolding hits_all format_int text_eq
hits_all-inf [] = refl
hits_all-inf (v ∷ vs) = ground (arith, hits_all-inf vs)

-- For every reservoir, the bucket of each of the ten limits holds the number of samples that do not
-- exceed the limit, as a 64-bit count, and the bucket `+Inf` the number of all samples.
pub buckets_cumulative :
    (r : LatencyReservoir)
    → All (Counts r) thresholds × (at 0 inf (buckets r) % word ≡ length r.samples % word)
unfolding buckets format_int text_eq insert lookup
buckets_cumulative r = (
  (
    bucket-Counts r 5 (λ v. ground arith) refl,
    (
      bucket-Counts r 10 (λ v. ground arith) refl,
      (
        bucket-Counts r 25 (λ v. ground arith) refl,
        (
          bucket-Counts r 50 (λ v. ground arith) refl,
          (
            bucket-Counts r 100 (λ v. ground arith) refl,
            (
              bucket-Counts r 250 (λ v. ground arith) refl,
              (
                bucket-Counts r 500 (λ v. ground arith) refl,
                (
                  bucket-Counts r 1000 (λ v. ground arith) refl,
                  (
                    bucket-Counts r 2500 (λ v. ground arith) refl,
                    (bucket-Counts r 5000 (λ v. ground arith) refl, tt),
                  ),
                ),
              ),
            ),
          ),
        ),
      ),
    ),
  ),
  omega
      (arith, at-count_samples r.samples inf (zero_buckets thresholds []), hits_all-inf r.samples),
)
