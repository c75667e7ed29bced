-- ===== src/Otel/Metering.antt =====
-- observability/otel_bridge.go: one call of the bridge on the local metrics and the SDK.
use orkai_observability.Metrics.Key.{format_metric_key}
use orkai_observability.Otel.{OtelMetrics, inc_counter, instrument, measure}
use orkai_observability.Prelude.{
  ◌+◌, Option, [], ap, length, ℕ, ◌∙◌, ◌≡◌, ◌≤◌, arith, length-append, none, some,
}
use orkai_observability.Prelude.Int64.{Int64, add}
use orkai_observability.Table.{Table, at, insert, lookup, lookup-insert_self, or_zero}
use orkai_observability.Text.{Text}

module _ {F : Type 0} where
  -- A call of `IncCounter` on the bridge adds two to the local counter of that name: it increments it
  -- itself, and so does `IncCounterWithLabels` with no labels. The SDK is handed at most one
  -- measurement.
  pub inc_counter_twice :
      (meter : Text → Option ℕ) (one : F) (name : Text) (o : OtelMetrics F)
      → (at 0 name (inc_counter meter one name o).local.counters
          ≡ add (add (at 0 name o.local.counters) 1) 1)
        × (length (inc_counter meter one name o).sent ≤ length o.sent + 1)
  unfolding inc_counter format_metric_key
  inc_counter_twice meter one name o = (counted, handed)
    where
      once : Table Int64
      once = insert name (add (at 0 name o.local.counters) 1) o.local.counters

      held : at 0 name once ≡ add (at 0 name o.local.counters) 1
      held =
          ap (or_zero 0)
            (lookup-insert_self name (add (at 0 name o.local.counters) 1) o.local.counters)

      counted :
          at 0 name (insert name (add (at 0 name once) 1) once)
          ≡ add (add (at 0 name o.local.counters) 1) 1
      counted =
          ap (or_zero 0) (lookup-insert_self name (add (at 0 name once) 1) once)
          ∙ ap (λ (n : ℕ). add n 1) held

      handed_le : (c : Option ℕ) → length (measure c one [] o.sent) ≤ length o.sent + 1
      handed_le none = omega arith
      handed_le (some c) = omega (arith, length-append {0} o.sent _)

      handed :
          length
            (measure (instrument meter name o.counters (lookup name o.counters)).0 one [] o.sent)
          ≤ length o.sent + 1
      handed = handed_le (instrument meter name o.counters (lookup name o.counters)).0
