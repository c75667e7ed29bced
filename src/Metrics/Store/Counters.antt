-- ===== src/Metrics/Store/Counters.antt =====
-- observability/metrics.go: the counters after a sequence of operations.
use orkai_observability.Metrics.Key.{format_metric_key}
use orkai_observability.Metrics.Reservoir.{add_sample, LatencyReservoir}
use orkai_observability.Metrics.Store.{
  InMemoryMetrics, Op, apply, counts, gauges, records, bind_metrics, inc_counter, milliseconds,
  record_latency, reservoir_of, run, set_gauge, add_to_totals, store_reservoir,
}
use orkai_observability.Prelude.{
  ◌%◌, ◌+◌, List, [], if◌then◌else◌, some, ℕ, ◌∷◌, ◌≡◌, Bool-cases, Option-cases, ap, arith, inl,
  inr, sym, ◌∙◌, Option, none, refl,
}
use orkai_observability.Prelude.Int64.{Int64, word, add}
use orkai_observability.Table.{at, lookup, lookup-insert, insert}
use orkai_observability.Text.{Text, text_eq}
use orkai_observability.Text.Equality.{text_eq_iff}

module _ {F : Type 0} where
  -- The increments of an operation under a key.
  abbrev pub increments : Op F → Text → ℕ
  increments (counts name labels) k = if text_eq (format_metric_key name labels) k then 1 else 0
  increments (records name d labels) k = 0
  increments (gauges name v labels) k = 0

  pub increments_all : List (Op F) → Text → ℕ
  increments_all [] k = 0
  increments_all (op ∷ ops) k = increments op k + increments_all ops k

  pub counters-record_latency :
      (name : Text) (d : Int64) (m m' : InMemoryMetrics F)
      → record_latency name d m ≡ some m'
      → m'.counters ≡ m.counters
  unfolding record_latency
  counters-record_latency name d m m' h =
      stored (add_sample (milliseconds d) (reservoir_of (lookup name m.latency_reservoirs))) h
    where
      stored :
          (o : Option LatencyReservoir)
          → store_reservoir name (add_to_totals name d m) o ≡ some m'
          → m'.counters ≡ m.counters
      stored none e = cc
      stored (some r) e =
          let e' : record (add_to_totals name d m) {
            latency_reservoirs = insert name r m.latency_reservoirs;
          }
              ≡ m' =
            cc in
          rw (← e') refl

  pub at-inc_counter :
      (name k : Text) (m : InMemoryMetrics F)
      → at 0 k (inc_counter name m).counters % word
        ≡ (at 0 k m.counters + (if text_eq name k then 1 else 0)) % word
  unfolding inc_counter
  at-inc_counter name k m =
      rw (lookup-insert name k (add (at 0 name m.counters) 1) m.counters)
        (elim (Bool-cases (text_eq name k)) [
          | inl e ↦ rw (e, (text_eq_iff name k).0 e) (omega arith)
          | inr e ↦ rw e (omega arith)
        ])

  apply-counters :
      (op : Op F) (m m' : InMemoryMetrics F) (k : Text)
      → apply op m ≡ some m'
      → at 0 k m'.counters % word ≡ (at 0 k m.counters + increments op k) % word
  unfolding apply
  apply-counters (counts name labels) m m' k h =
      let e : inc_counter (format_metric_key name labels) m ≡ m' = cc in
      rw (← e) (at-inc_counter (format_metric_key name labels) k m)
  apply-counters (records name d labels) m m' k h =
      rw (counters-record_latency (format_metric_key name labels) d m m' h) (omega arith)
  apply-counters (gauges name v labels) m m' k h =
      let e : set_gauge (format_metric_key name labels) v m ≡ m' = cc in
      rw (← e) (unfold set_gauge in omega arith)

  -- After any operations, a counter has grown by the number of increments whose name and labels
  -- format to its key, as a 64-bit count; no other operation touches it.
  pub run-counters :
      (ops : List (Op F)) (m m' : InMemoryMetrics F) (k : Text)
      → run ops m ≡ some m'
      → at 0 k m'.counters % word ≡ (at 0 k m.counters + increments_all ops k) % word
  unfolding run increments_all
  run-counters [] m m' k h = let e : m ≡ m' = cc in rw e (omega arith)
  run-counters (op ∷ ops) m m' k h = elim (Option-cases (apply op m)) [
    | inl e ↦ ground (arith, e)
    | inr (m1, e) ↦ omega (
      arith,
      apply-counters op m m1 k e,
      run-counters ops m1 m' k (sym (ap (λ o. bind_metrics o (run ops)) e) ∙ h),
    )
  ]
