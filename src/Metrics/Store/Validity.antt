-- ===== src/Metrics/Store/Validity.antt =====
-- observability/metrics.go: the reservoirs after a sequence of operations.
use orkai_observability.Metrics.Key.{format_metric_key}
use orkai_observability.Metrics.Reservoir.{LatencyReservoir, add_sample, new_latency_reservoir}
use orkai_observability.Metrics.Store.{
  InMemoryMetrics, Op, apply, counts, gauges, inc_counter_with_labels, new_in_memory_metrics,
  records, reservoir_of, run, set_gauge_with_labels, milliseconds, record_latency, add_to_totals,
  store_reservoir,
}
use orkai_observability.Prelude.{
  ◌++◌, Bool-cases, List, Option-cases, [], arith, inl, inr, leb, length, refl, some, ◌∷◌, ◌≡◌, ap,
}
use orkai_observability.Prelude.Int64.{Int64}
use orkai_observability.Table.{lookup, Table, insert, lookup-insert}
use orkai_observability.Text.{Text}

-- Every reservoir has the size that the program gives it.
pub record IsValid {F : Type 0} (m : InMemoryMetrics F) : Type 0 where
  pub sized :
      (k : Text) (r : LatencyReservoir) → lookup k m.latency_reservoirs ≡ some r → r.max_size ≡ 2000

add_sample-some :
    (v : Int64) (r : LatencyReservoir)
    → r.max_size ≡ 2000
    → (r' : LatencyReservoir) × (add_sample v r ≡ some r') × (r'.max_size ≡ 2000)
unfolding add_sample
add_sample-some v r h = go r.samples refl
  where
    go :
        (l : List Int64)
        → r.samples ≡ l
        → (r' : LatencyReservoir) × (add_sample v r ≡ some r') × (r'.max_size ≡ 2000)
    go [] e = (record r { samples = v ∷ [] }, ground arith, h)
    go (x ∷ l) e = elim (Bool-cases (leb r.max_size (length r.samples))) [
      | inl full ↦ (record r { samples = l ++ v ∷ [] }, ground arith, h)
      | inr room ↦ (record r { samples = r.samples ++ v ∷ [] }, ground arith, h)
    ]

sized_insert :
    (t : Table LatencyReservoir) (name : Text) (r' : LatencyReservoir)
    → r'.max_size ≡ 2000
    → ((k : Text) (r : LatencyReservoir) → lookup k t ≡ some r → r.max_size ≡ 2000)
    → (k : Text) (r : LatencyReservoir) → lookup k (insert name r' t) ≡ some r
    → r.max_size ≡ 2000
sized_insert t name r' size old k r e = ground (arith, lookup-insert name k r' t, old k r)

module _ {F : Type 0} where
  pub new-IsValid : (service : Text) → IsValid (new_in_memory_metrics {F = F} service)
  unfolding new_in_memory_metrics lookup
  new-IsValid service = record { sized = λ k r e. cc }

  reservoir_sized :
      (m : InMemoryMetrics F) (name : Text)
      → IsValid m
      → (reservoir_of (lookup name m.latency_reservoirs)).max_size ≡ 2000
  unfolding new_latency_reservoir
  reservoir_sized m name h = elim (Option-cases (lookup name m.latency_reservoirs)) [
    | inl e ↦ rw e refl
    | inr (r, e) ↦ rw e (h.sized name r e)
  ]

  pub record_latency-IsValid :
      (name : Text) (d : Int64) (m : InMemoryMetrics F)
      → IsValid m
      → (m' : InMemoryMetrics F) × (record_latency name d m ≡ some m') × IsValid m'
  unfolding record_latency
  record_latency-IsValid name d m h =
      let r = reservoir_of (lookup name m.latency_reservoirs) in
      let (r', e, size) = add_sample-some (milliseconds d) r (reservoir_sized m name h) in
      (
        record (add_to_totals name d m) {
          latency_reservoirs = insert name r' m.latency_reservoirs;
        },
        ap (store_reservoir name (add_to_totals name d m)) e,
        record { sized = sized_insert m.latency_reservoirs name r' size h.sized },
      )

  -- An operation of valid metrics does not panic, and leaves them valid.
  pub apply-IsValid :
      (op : Op F) (m : InMemoryMetrics F)
      → IsValid m
      → (m' : InMemoryMetrics F) × (apply op m ≡ some m') × IsValid m'
  apply-IsValid (counts name labels) m h = (
    inc_counter_with_labels name labels m,
    unfold apply in refl,
    unfold inc_counter_with_labels in record { sized = h.sized },
  )
  apply-IsValid (gauges name v labels) m h = (
    set_gauge_with_labels name v labels m,
    unfold apply in refl,
    unfold set_gauge_with_labels in record { sized = h.sized },
  )
  apply-IsValid (records name d labels) m h =
      unfold apply record_latency in record_latency-IsValid (format_metric_key name labels) d m h

  -- From valid metrics, such as new ones, any operations at all run without a panic, and leave valid
  -- metrics.
  pub run-IsValid :
      (ops : List (Op F)) (m : InMemoryMetrics F)
      → IsValid m
      → (m' : InMemoryMetrics F) × (run ops m ≡ some m') × IsValid m'
  unfolding run
  run-IsValid [] m h = (m, refl, h)
  run-IsValid (op ∷ ops) m h =
      let (m1, e1, h1) = apply-IsValid op m h in
      let (m2, e2, h2) = run-IsValid ops m1 h1 in (m2, rw e1 e2, h2)
