-- ===== src/Facade/Schedule.antt =====
-- observability/observability.go and observability/sys_telemetry.go: the calls of a program that change the
-- state, but for `Init`, `Close` and `Dump`, and the rounds of the goroutines beside them, in any
-- order. Each reads its own moment.
pub mod Uninitialised
pub mod Safety
pub mod Open
pub mod Calls
pub mod Loops
pub mod Moves
pub mod Moving
mod Tests
use orkai_observability.Otlp
use orkai_observability.Context.{Context}
use orkai_observability.Facade.{Facade, Moment}
use orkai_observability.Facade.Background.{RuntimeStats, export_worker, log_worker, telemetry_tick}
use orkai_observability.Facade.Calls.{
  counter, counter_with_labels, end_span, gauge, gauge_with_labels, latency, latency_with_labels,
  log_entry, log_nil_error, set_log_level, set_logger, start_span, start_span_nil,
}
use orkai_observability.Float64.{Float64}
use orkai_observability.Logger.Delivery.{JsonLogger}
use orkai_observability.Logger.Entries.{Method}
use orkai_observability.Otlp.{on_log, on_span, on_tick}
use orkai_observability.Prelude.{Bool, true, false, List, Option, [], none, some, ◌∷◌}
use orkai_observability.Prelude.Int64.{Int64}
use orkai_observability.Table.{Table}
use orkai_observability.Text.{Text}
use orkai_observability.Types.{Field, Span}

pub data Event (F : Type 0) : Type 0 where
  calls_log : Method → Text → List Field → Event F
  calls_set_log_level : Text → Event F
  calls_set_logger : JsonLogger F → Event F
  calls_counter : Text → Event F
  calls_counter_with_labels : Text → Table Text → Event F
  calls_gauge : Text → F → Event F
  calls_gauge_with_labels : Text → F → Table Text → Event F
  calls_latency : Text → Int64 → Event F
  calls_latency_with_labels : Text → Int64 → Table Text → Event F
  calls_start_span : Context → Text → Event F
  calls_end_span : Span → Event F
  -- of a nil context, and of a nil error
  calls_start_span_nil : Context → Text → Event F
  calls_nil_error : Event F
  ticks_telemetry : RuntimeStats → Event F
  works_logger : Event F
  exporter_receives_span exporter_receives_log exporter_ticks : Otlp.Surroundings → Event F

-- Whether a call passes a nil error or a nil context.
abbrev pub passes_nil : {F : Type 0} → Event F → Bool
passes_nil (calls_start_span_nil instead name) = true
passes_nil calls_nil_error = true
passes_nil _ = false

module _ {F : Type 0} ⦃f : Float64 F⦄ where
  unfoldable pub after : Moment F → Event F → Facade F → Option (Facade F)
  unfolding log_entry set_log_level set_logger counter counter_with_labels gauge gauge_with_labels
      latency latency_with_labels start_span start_span_nil log_nil_error end_span telemetry_tick
      log_worker export_worker
  after m (calls_log method msg fields) g = some (log_entry m method msg fields g)
  after m (calls_set_log_level level) g = some (set_log_level m level g)
  after m (calls_set_logger l) g = some (set_logger l g)
  after m (calls_counter name) g = some (counter m name g)
  after m (calls_counter_with_labels name labels) g = some (counter_with_labels m name labels g)
  after m (calls_gauge name value) g = some (gauge m name value g)
  after m (calls_gauge_with_labels name value labels) g =
      some (gauge_with_labels m name value labels g)
  after m (calls_latency name d) g = latency m name d g
  after m (calls_latency_with_labels name d labels) g = latency_with_labels m name d labels g
  after m (calls_start_span ctx name) g = some (start_span m ctx name g).1
  after m (calls_end_span span) g = some (end_span m span g)
  after m (calls_start_span_nil instead name) g = start_span_nil m instead name g
  after m calls_nil_error g = log_nil_error g
  after m (ticks_telemetry stats) g = some (telemetry_tick m stats g)
  after m works_logger g = some (log_worker m g)
  after m (exporter_receives_span c) g = some (export_worker m c on_span g)
  after m (exporter_receives_log c) g = some (export_worker m c on_log g)
  after m (exporter_ticks c) g = some (export_worker m c on_tick g)

  abbrev pub then_run : Option (Facade F) → (Facade F → Option (Facade F)) → Option (Facade F)
  then_run none k = none
  then_run (some g) k = k g

  unfoldable pub run : List (Moment F × Event F) → Facade F → Option (Facade F)
  unfolding after
  run [] g = some g
  run ((m, v) ∷ vs) g = then_run (after m v g) (run vs)
