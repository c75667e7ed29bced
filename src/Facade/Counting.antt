-- ===== src/Facade/Counting.antt =====
-- observability/observability.go: the in-memory counter of a name behind the facade.
pub mod Names
pub mod Calls
pub mod Parts
pub mod Singles
mod Tests
use mathlib.Core.Option
use orkai_observability.Metrics.Store
use orkai_observability.Facade.{
  Instance, Metering, Moment, bridged, count_all, gauge_all, in_memory, inc_counter,
  inc_counter_with_labels, record_latency, record_latency_with_labels, set_gauge,
  set_gauge_with_labels,
}
use orkai_observability.Float64.{Float64}
use orkai_observability.Metrics.Key.{format_metric_key}
use orkai_observability.Metrics.Store.{InMemoryMetrics}
use orkai_observability.Metrics.Store.Counters.{at-inc_counter, counters-record_latency}
use orkai_observability.Otel.{OtelMetrics}
use orkai_observability.Prelude.{
  ◌%◌, ◌+◌, All, List, Option, [], ap, arith, false, if◌then◌else◌, none, refl, some, sym, ℕ, ◌∙◌,
  ◌∷◌, ◌≡◌,
}
use orkai_observability.Prelude.Int64.{Int64, word}
use orkai_observability.Table.{Table, at}
use orkai_observability.Text.{Text, text_eq}

-- A 64-bit count, `n` more.
abbrev pub plus : ℕ → Option ℕ → Option ℕ
plus n none = none
plus n (some v) = some ((v + n) % word)

pub plus-plus : (n n' : ℕ) (o : Option ℕ) → plus n' (plus n o) ≡ plus (n + n') o
plus-plus n n' none = refl
plus-plus n n' (some v) = ap some (omega arith)

-- None of the names is the key.
abbrev pub Foreign : Text → List Text → Type 0
Foreign k = All (λ name. text_eq name k ≡ false)

module _ {F : Type 0} where
  -- The counter in the local metrics; with the bridge to OpenTelemetry, `none`.
  abbrev pub value_of : Text → Metering F → Option ℕ
  value_of k (in_memory s) = some (at 0 k s.counters % word)
  value_of k (bridged o) = none

  abbrev pub value_in : Text → Option (Instance F) → Option ℕ
  value_in k none = none
  value_in k (some inst) = value_of k inst.metrics

  -- From `s` to `s'` the counter has grown by `n`.
  abbrev pub Adds : Text → ℕ → Metering F → Metering F → Type 0
  Adds k n s s' = value_of k s' ≡ plus n (value_of k s)

  abbrev pub AddsIn : Text → ℕ → Option (Instance F) → Option (Instance F) → Type 0
  AddsIn k n i i' = value_in k i' ≡ plus n (value_in k i)

  pub Adds-refl : (k : Text) (s : Metering F) → Adds k 0 s s
  Adds-refl k (in_memory s) = ap some (omega arith)
  Adds-refl k (bridged o) = refl

  pub AddsIn-refl : (k : Text) (i : Option (Instance F)) → AddsIn k 0 i i
  AddsIn-refl k none = refl
  AddsIn-refl k (some inst) = Adds-refl k inst.metrics

  pub Adds-trans :
      (k : Text) (n n' : ℕ) (s s' s'' : Metering F)
      → Adds k n s s'
      → Adds k n' s' s''
      → Adds k (n + n') s s''
  Adds-trans k n n' s s' s'' h h' = h' ∙ ap (plus n') h ∙ plus-plus n n' (value_of k s)

  pub AddsIn-trans :
      (k : Text) (n n' : ℕ) (i i' i'' : Option (Instance F))
      → AddsIn k n i i'
      → AddsIn k n' i' i''
      → AddsIn k (n + n') i i''
  AddsIn-trans k n n' i i' i'' h h' = h' ∙ ap (plus n') h ∙ plus-plus n n' (value_in k i)

  pub AddsIn-as :
      (k : Text) (n n' : ℕ) (i i' : Option (Instance F))
      → n ≡ n'
      → AddsIn k n i i'
      → AddsIn k n' i i'
  AddsIn-as k n n' i i' e h = h ∙ ap (λ x. plus x (value_in k i)) e

module _ {F : Type 0} ⦃f : Float64 F⦄ (m : Moment F) (k : Text) where
  pub inc_counter-Adds :
      (name : Text) (s : Metering F)
      → Adds k (if text_eq name k then 1 else 0) s (inc_counter m name s)
  unfolding inc_counter
  inc_counter-Adds name (in_memory s) = ap some (at-inc_counter name k s ∙ omega arith)
  inc_counter-Adds name (bridged o) = refl

  pub inc_counter_with_labels-Adds :
      (name : Text) (labels : Table Text) (s : Metering F)
      → Adds k
          (if text_eq (format_metric_key name labels) k then 1 else 0)
          s
          (inc_counter_with_labels m name labels s)
  unfolding inc_counter_with_labels Store.inc_counter_with_labels
  inc_counter_with_labels-Adds name labels (in_memory s) =
      ap some (at-inc_counter (format_metric_key name labels) k s ∙ omega arith)
  inc_counter_with_labels-Adds name labels (bridged o) = refl

  pub set_gauge-Adds : (name : Text) (v : F) (s : Metering F) → Adds k 0 s (set_gauge m name v s)
  unfolding set_gauge Store.set_gauge
  set_gauge-Adds name v (in_memory s) = ap some (omega arith)
  set_gauge-Adds name v (bridged o) = refl

  pub set_gauge_with_labels-Adds :
      (name : Text) (v : F) (labels : Table Text) (s : Metering F)
      → Adds k 0 s (set_gauge_with_labels m name v labels s)
  unfolding set_gauge_with_labels Store.set_gauge_with_labels Store.set_gauge
  set_gauge_with_labels-Adds name v labels (in_memory s) = ap some (omega arith)
  set_gauge_with_labels-Adds name v labels (bridged o) = refl

  pub count_all-Adds :
      (names : List Text) (s : Metering F) → Foreign k names → Adds k 0 s (count_all m names s)
  unfolding count_all
  count_all-Adds [] s h = Adds-refl k s
  count_all-Adds (name ∷ names) s h =
      let one : Adds k 0 s (inc_counter m name s) =
        inc_counter-Adds name s ∙ ap (λ b. plus (if b then 1 else 0) (value_of k s)) h.0 in
      Adds-trans k 0 0 s (inc_counter m name s) _ one
        (count_all-Adds names (inc_counter m name s) h.1)

  pub gauge_all-Adds : (ratios : List (ℕ × ℕ)) (s : Metering F) → Adds k 0 s (gauge_all m ratios s)
  unfolding gauge_all
  gauge_all-Adds [] s = Adds-refl k s
  gauge_all-Adds ((len, cap') ∷ ratios) s =
      Adds-trans k 0 0 s _ _ (set_gauge-Adds _ _ s) (gauge_all-Adds ratios _)

  stored-Adds :
      (s : InMemoryMetrics F) (o : Option (InMemoryMetrics F)) (s' : Metering F)
      → ((s1 : InMemoryMetrics F) → o ≡ some s1 → s1.counters ≡ s.counters)
      → Option.map in_memory o ≡ some s'
      → Adds k 0 (in_memory s) s'
  stored-Adds s none s' keep h = absurd (cc h)
  stored-Adds s (some s1) s' keep h =
      let same : in_memory s1 ≡ s' = cc h in
      ap (value_of k) (sym same)
      ∙ ap (λ t. some (at 0 k t % word)) (keep s1 refl)
      ∙ Adds-refl k (in_memory s)

  bridged-Adds :
      (o : OtelMetrics F) (r : Option (OtelMetrics F)) (s' : Metering F)
      → Option.map bridged r ≡ some s'
      → Adds k 0 (bridged o) s'
  bridged-Adds o none s' h = absurd (cc h)
  bridged-Adds o (some o1) s' h = let same : bridged o1 ≡ s' = cc h in ap (value_of k) (sym same)

  pub record_latency-Adds :
      (name : Text) (d : Int64) (s s' : Metering F)
      → record_latency m name d s ≡ some s'
      → Adds k 0 s s'
  unfolding record_latency
  record_latency-Adds name d (in_memory s) s' h =
      stored-Adds s (Store.record_latency name d s) s' (counters-record_latency name d s) h
  record_latency-Adds name d (bridged o) s' h = bridged-Adds o _ s' h

  pub record_latency_with_labels-Adds :
      (name : Text) (d : Int64) (labels : Table Text) (s s' : Metering F)
      → record_latency_with_labels m name d labels s ≡ some s'
      → Adds k 0 s s'
  unfolding record_latency_with_labels Store.record_latency_with_labels
  record_latency_with_labels-Adds name d labels (in_memory s) s' h =
      stored-Adds s (Store.record_latency (format_metric_key name labels) d s) s'
        (counters-record_latency (format_metric_key name labels) d s) h
  record_latency_with_labels-Adds name d labels (bridged o) s' h = bridged-Adds o _ s' h
