-- ===== src/Metrics/Store/Printing.antt =====
-- observability/metrics.go: `Print`, which divides by the number of calls.
use mathlib.Core.Option
use orkai_observability.Metrics.Key.{format_metric_key}
use orkai_observability.Metrics.Store.{
  InMemoryMetrics, Op, apply, counts, gauges, inc_counter_with_labels, new_in_memory_metrics, print,
  print_latencies, record_latency, records, run, record_latency_with_labels, set_gauge_with_labels,
  inc_counter, set_gauge, add_to_totals, store_reservoir, add_sample_to_reservoir,
}
use orkai_observability.Metrics.Reservoir.{LatencyReservoir}
use orkai_observability.Metrics.Store.Validity.{IsValid, apply-IsValid, new-IsValid}
use orkai_observability.Prelude.{
  ◌++◌, ◌==◌, All, Bool-cases, List, Option, [], ap, arith, inl, inr, length, none, refl, some,
  subst, ℕ, ◌∷◌, ◌≡◌, ◌≤◌, ◌<◌, ◌+◌, suc, false, if◌then◌else◌,
}
use orkai_observability.Prelude.Int64.{Int64, add, div, word}
use orkai_observability.Table.{Table, at, insert, lookup, lookup-insert, or_zero}
use orkai_observability.Text.{Text, codes, text_eq}
use orkai_observability.Text.Equality.{text_eq_refl}

-- The latency of every entry has a call in the counts.
abbrev IsDivisible : Table Int64 → Table Int64 → Type 0
IsDivisible calls totals = All (λ e. 1 ≤ at 0 e.0 calls) totals

-- The entries have calls, and no count has reached `n`, which bounds the number of operations.
pub record IsPrintable {F : Type 0} (n : ℕ) (m : InMemoryMetrics F) : Type 0 where
  pub divisible : IsDivisible m.latency_counts m.latency_totals
  pub bounded : (k : Text) → at 0 k m.latency_counts ≤ n

-- One more call of `name`.
at-more :
    (calls : Table Int64) (name k : Text) (v : Int64)
    → at 0 k (insert name v calls) ≡ (if text_eq name k then v else at 0 k calls)
at-more calls name k v = ground (arith, lookup-insert name k v calls)

still_called :
    (calls : Table Int64) (name j : Text) (v : Int64)
    → 1 ≤ v
    → 1 ≤ at 0 j calls
    → 1 ≤ at 0 j (insert name v calls)
still_called calls name j v h old = ground (arith, at-more calls name j v)

all_called :
    (calls totals : Table Int64) (name : Text) (v : Int64)
    → 1 ≤ v
    → IsDivisible calls totals
    → IsDivisible (insert name v calls) totals
all_called calls [] name v h all = tt
all_called calls (e ∷ totals) name v h all =
    (still_called calls name e.0 v h all.0, all_called calls totals name v h all.1)

newly_called :
    (calls : Table Int64) (name : Text) (v : Int64) → 1 ≤ v → 1 ≤ at 0 name (insert name v calls)
newly_called calls name v h = ground (arith, at-more calls name name v, text_eq_refl name)

insert-IsDivisible :
    (calls totals : Table Int64) (name : Text) (v w : Int64)
    → 1 ≤ v
    → IsDivisible calls totals
    → IsDivisible (insert name v calls) (insert name w totals)
unfolding insert
insert-IsDivisible calls [] name v w h all = (newly_called calls name v h, tt)
insert-IsDivisible calls ((j, u) ∷ totals) name v w h all = elim (Bool-cases (text_eq j name)) [
  | inl e ↦ rw e (newly_called calls name v h, all_called calls totals name v h all.1)
  | inr e ↦
      rw e (still_called calls name j v h all.0, insert-IsDivisible calls totals name v w h all.1)
]

printed :
    (show : Int64 → Text) (calls totals : Table Int64)
    → IsDivisible calls totals
    → (lines : List Text) × (print_latencies show calls totals ≡ some lines)
printed show calls [] all = ([], refl)
printed show calls ((name, total) ∷ totals) all =
    let (lines, e) = printed show calls totals all.1 in
    let divides : (at 0 name calls == 0) ≡ false = ground (arith, all.0) in
    let line =
      name ++ (codes "_latency_avg: " ++ (show (div total (at 0 name calls)) ++ codes "\n")) in
    (line ∷ lines, rw (divides, e) refl)

module _ {F : Type 0} where
  totals-IsPrintable :
      (n : ℕ) (name : Text) (d : Int64) (m : InMemoryMetrics F)
      → suc n < word
      → IsPrintable n m
      → IsPrintable (suc n) (add_to_totals name d m)
  totals-IsPrintable n name d m room h =
      let calls : ℕ = at 0 name m.latency_counts in
      let low : calls ≤ n = h.bounded name in
      let exact : add calls 1 ≡ calls + 1 = ground (arith, low, room) in
      record {
        divisible =
            insert-IsDivisible m.latency_counts m.latency_totals name (add calls 1) _
              (ground (arith, exact)) h.divisible;
        bounded = λ k.
            ground (arith, at-more m.latency_counts name k (add calls 1), exact, low, h.bounded k);
      }

  stored-IsPrintable :
      (n : ℕ) (name : Text) (m : InMemoryMetrics F) (o : Option LatencyReservoir)
      (m' : InMemoryMetrics F)
      → IsPrintable n m
      → store_reservoir name m o ≡ some m'
      → IsPrintable n m'
  stored-IsPrintable n name m none m' h e = cc
  stored-IsPrintable n name m (some r) m' h e =
      subst (IsPrintable n) (ap (or_zero m) e)
        (record { divisible = h.divisible; bounded = h.bounded })

  -- Counters and gauges leave the latencies alone.
  untouched :
      (n : ℕ) (m m' : InMemoryMetrics F)
      → m.latency_counts ≡ m'.latency_counts
      → m.latency_totals ≡ m'.latency_totals
      → IsPrintable n m
      → IsPrintable (suc n) m'
  untouched n m m' same_counts same_totals h = record {
    divisible =
        subst (λ c. IsDivisible c m'.latency_totals) same_counts
          (subst (IsDivisible m.latency_counts) same_totals h.divisible);
    bounded = λ k. subst (λ c. at 0 k c ≤ suc n) same_counts (omega (arith, h.bounded k));
  }

  apply-IsPrintable :
      (op : Op F) (n : ℕ) (m m' : InMemoryMetrics F)
      → suc n < word
      → IsPrintable n m
      → apply op m ≡ some m'
      → IsPrintable (suc n) m'
  unfolding apply inc_counter_with_labels inc_counter set_gauge_with_labels set_gauge
      record_latency_with_labels record_latency add_sample_to_reservoir
  apply-IsPrintable (counts name labels) n m m' room h e =
      subst (IsPrintable (suc n)) (ap (or_zero m) e)
        (untouched n m (inc_counter_with_labels name labels m) refl refl h)
  apply-IsPrintable (gauges name v labels) n m m' room h e =
      subst (IsPrintable (suc n)) (ap (or_zero m) e)
        (untouched n m (set_gauge_with_labels name v labels m) refl refl h)
  apply-IsPrintable (records name d labels) n m m' room h e =
      let key = format_metric_key name labels in
      stored-IsPrintable (suc n) key (add_to_totals key d m) _ m'
        (totals-IsPrintable n key d m room h) e

  run-IsDivisible :
      (ops : List (Op F)) (n : ℕ) (m : InMemoryMetrics F)
      → length ops + n < word
      → IsValid m
      → IsPrintable n m
      → (m' : InMemoryMetrics F) × (run ops m ≡ some m')
        × IsDivisible m'.latency_counts m'.latency_totals
  unfolding run
  run-IsDivisible [] n m room valid h = (m, refl, h.divisible)
  run-IsDivisible (op ∷ ops) n m room valid h =
      let (m1, e1, valid1) = apply-IsValid op m valid in
      let (m2, e2, h2) =
        run-IsDivisible ops (suc n) m1 (omega (arith, room)) valid1
          (apply-IsPrintable op n m m1 (omega (arith, room)) h e1) in
      (m2, rw e1 e2, h2)

  -- After fewer than 2 ^ 64 operations on new metrics, none of which panics, `Print` does not divide by
  -- zero: it does not panic.
  pub print-run :
      (ops : List (Op F)) (service : Text) (show : Int64 → Text) (show_float : F → Text)
      → length ops < word
      → (m : InMemoryMetrics F) × (run ops (new_in_memory_metrics service) ≡ some m)
        × ((m' : InMemoryMetrics F) × (print show show_float m ≡ some m'))
  unfolding new_in_memory_metrics print lookup
  print-run ops service show show_float few =
      let room : length ops + 0 < word = omega (arith, few) in
      let fresh : IsPrintable 0 (new_in_memory_metrics service) = record {
        divisible = tt;
        bounded = λ k. omega arith;
      } in
      let (m, e, h) =
        run-IsDivisible ops 0 (new_in_memory_metrics service) room (new-IsValid service) fresh in
      let (lines, shown) = printed show m.latency_counts m.latency_totals h in
      (m, e, (_, ap (Option.map _) shown))
