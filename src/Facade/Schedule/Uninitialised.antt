-- ===== src/Facade/Schedule/Uninitialised.antt =====
-- observability/observability.go: the package before `Init`.
use orkai_observability.Facade.{Moment, empty_facade}
use orkai_observability.Facade.Background.{export_worker, log_worker, telemetry_tick}
use orkai_observability.Facade.Calls.{
  counter, counter_with_labels, end_span, gauge, gauge_with_labels, latency, latency_with_labels,
  log_entry, set_log_level, set_logger, start_span, start_span_nil, log_nil_error,
}
use orkai_observability.Facade.Schedule.{
  Event, calls_counter, calls_counter_with_labels, calls_end_span, calls_gauge,
  calls_gauge_with_labels, calls_latency, calls_latency_with_labels, calls_log, calls_set_log_level,
  calls_set_logger, calls_start_span, calls_start_span_nil, calls_nil_error, run, ticks_telemetry,
  works_logger, after, exporter_receives_log, exporter_receives_span, exporter_ticks,
}
use orkai_observability.Float64.{Float64}
use orkai_observability.Prelude.{List, [], refl, some, ◌∷◌, ◌≡◌}

module _ {F : Type 0} ⦃f : Float64 F⦄ where
  after_nothing : (m : Moment F) (v : Event F) → after m v empty_facade ≡ some empty_facade
  unfolding after log_entry set_log_level set_logger counter counter_with_labels gauge
      gauge_with_labels latency latency_with_labels start_span start_span_nil log_nil_error end_span
      telemetry_tick log_worker export_worker
  after_nothing m (calls_log method msg fields) = refl
  after_nothing m (calls_set_log_level level) = refl
  after_nothing m (calls_set_logger l) = refl
  after_nothing m (calls_counter name) = refl
  after_nothing m (calls_counter_with_labels name labels) = refl
  after_nothing m (calls_gauge name value) = refl
  after_nothing m (calls_gauge_with_labels name value labels) = refl
  after_nothing m (calls_latency name d) = refl
  after_nothing m (calls_latency_with_labels name d labels) = refl
  after_nothing m (calls_start_span ctx name) = refl
  after_nothing m (calls_end_span span) = refl
  after_nothing m (calls_start_span_nil instead name) = refl
  after_nothing m calls_nil_error = refl
  after_nothing m (ticks_telemetry stats) = refl
  after_nothing m works_logger = refl
  after_nothing m (exporter_receives_span c) = refl
  after_nothing m (exporter_receives_log c) = refl
  after_nothing m (exporter_ticks c) = refl

  -- Before `Init`, no sequence of calls that log, count, measure or trace, or that set the logger or
  -- its level, panics or changes anything, and no round of the goroutines does.
  pub run_nothing : (vs : List (Moment F × Event F)) → run vs empty_facade ≡ some empty_facade
  unfolding run
  run_nothing [] = refl
  run_nothing ((m, v) ∷ vs) = rw (after_nothing m v) (run_nothing vs)
