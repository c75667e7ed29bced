-- ===== src/Facade/Lifecycle/Accepted.antt =====
-- observability/observability.go and observability/otlp_exporter.go: what the exporter accepts in a sequence of
-- calls of the package and of rounds of its goroutines.
use orkai_observability.Tracer
use orkai_observability.Otlp
use orkai_observability.Facade.{
  Facade, Instance, Metering, Moment, Tracing, ambient_of, export_logs, export_spans, local,
  on_instance, recording, settle, spanned, with_exporter,
}
use orkai_observability.Facade.Background.{running}
use orkai_observability.Facade.Calls.{end_on, no_spans}
use orkai_observability.Facade.Lifecycle.Taking.{
  Took, Took-refl, Took-trans, export_logs-Took, export_spans-Took, fitting, none-fits_logs,
  none-fits_spans, shown_pair,
}
use orkai_observability.Facade.Schedule.{
  Event, calls_end_span, calls_log, calls_set_log_level, works_logger,
}
use orkai_observability.Float64.{Float64}
use orkai_observability.Logger.Delivery.{JsonLogger, async_worker, set_level}
use orkai_observability.Logger.Entries.{log}
use orkai_observability.Otlp.{Case, OtlpExporter, Surroundings, on_log, on_span, on_tick}
use orkai_observability.Otlp.Batches.{LogView, SpanView, shown_line}
use orkai_observability.Otlp.Order.{
  after-Step, held_logs, held_spans, receives_log, receives_span, ticks,
}
use orkai_observability.Prelude.{
  ◌++◌, Bool, List, Option, [], false, if◌then◌else◌, length, map, none, refl, some, subst, sym,
  true, ◌≡◌,
}
use orkai_observability.Prelude.Int64.{Int64}
use orkai_observability.Table.{or_zero}
use orkai_observability.Text.{Text}
use orkai_observability.Types.{Span}

module _ {F : Type 0} ⦃f : Float64 F⦄ where
  -- The lines that an operation of the logger exports.
  abbrev logger_lines : (JsonLogger F → JsonLogger F) → Facade F → Option (Instance F) → List Text
  logger_lines op g none = []
  logger_lines op g (some inst) = or_zero [] (op (recording g.exporter inst.logger)).exported

  abbrev pub lines_of : Moment F → Event F → Facade F → List Text
  lines_of m (calls_log method msg fields) g =
      logger_lines (log (ambient_of m g) method msg fields) g g.instance_of
  lines_of m (calls_set_log_level level) g = logger_lines (set_level level) g g.instance_of
  lines_of m works_logger g = logger_lines async_worker g g.instance_of
  lines_of m _ g = []

  -- The spans that the tracer exports when a span ends, with their durations.
  abbrev ended_spans : Moment F → Span → Facade F → Tracing → List (Span × Int64)
  ended_spans m span g (local t) =
      or_zero []
        (Tracer.end_trace m.show_duration m.ambient.now span
          (record t { trace_stack = g.trace_stack; exporter = no_spans g.exporter })).exporter
  ended_spans m span g (spanned o) = []

  abbrev tracer_spans : Moment F → Span → Facade F → Option (Instance F) → List (Span × Int64)
  tracer_spans m span g none = []
  tracer_spans m span g (some inst) = ended_spans m span g inst.tracer

  abbrev pub spans_of : Moment F → Event F → Facade F → List (Span × Int64)
  spans_of m (calls_end_span span) g = tracer_spans m span g g.instance_of
  spans_of m _ g = []

module _ (c : Surroundings) where
  -- Of the items that are exported, the first ones, as many as the channel has room for.
  abbrev pub accepted_spans : List (Span × Int64) → Option OtlpExporter → List SpanView
  accepted_spans spans none = []
  accepted_spans spans (some e) = map shown_pair (fitting (length e.spans_chan) spans)

  abbrev pub accepted_logs : List Text → Option OtlpExporter → List LogView
  accepted_logs lines none = []
  accepted_logs lines (some e) = map (shown_line c) (fitting (length e.logs_chan) lines)

  abbrev pub TookAll :
      List SpanView → List LogView → Option OtlpExporter → Option OtlpExporter → Type 0
  TookAll ss ls none o = o ≡ none
  TookAll ss ls (some e) o = (e' : OtlpExporter) × (o ≡ some e') × Took c ss ls e e'

  pub TookAll-refl : (o : Option OtlpExporter) → TookAll [] [] o o
  TookAll-refl none = refl
  TookAll-refl (some e) = (e, refl, Took-refl c e)

  pub TookAll-trans :
      (ss ss' : List SpanView) (ls ls' : List LogView) (o o' o'' : Option OtlpExporter)
      → TookAll ss ls o o'
      → TookAll ss' ls' o' o''
      → TookAll (ss ++ ss') (ls ++ ls') o o''
  TookAll-trans ss ss' ls ls' none o' o'' h h' = subst (λ x. TookAll ss' ls' x o'') h h'
  TookAll-trans ss ss' ls ls' (some e) o' o'' h h' =
      let (e', eq, t) = h in
      let (e'', eq', t') = subst (λ x. TookAll ss' ls' x o'') eq h' in
      (e'', eq', Took-trans c ss ss' ls ls' e e' e'' t t')

  -- Where nothing is exported.
  pub idle :
      (o o' : Option OtlpExporter)
      → TookAll [] [] o o'
      → TookAll (accepted_spans [] o) (accepted_logs [] o) o o'
  idle none o' h = h
  idle (some e) o' h =
      subst (λ ss. TookAll ss (accepted_logs [] (some e)) (some e) o') (sym (none-fits_spans c e))
        (subst (λ ls. TookAll [] ls (some e) o') (sym (none-fits_logs c e)) h)

  pub idle_same :
      (o o' : Option OtlpExporter)
      → o ≡ o'
      → TookAll (accepted_spans [] o) (accepted_logs [] o) o o'
  idle_same o o' h = idle o o' (subst (TookAll [] [] o) h (TookAll-refl o))

  -- The reset of what was counted changes nothing that is held.
  pub reset-Took :
      (ss : List SpanView) (ls : List LogView) (e e' : OtlpExporter)
      → Took c ss ls (record e { counted = [] }) e'
      → Took c ss ls e (record e' { counted = [] })
  unfolding held_spans held_logs
  reset-Took ss ls e e' h = record { spans = h.spans; logs = h.logs }

  running-Took :
      (k : Bool) (e e' : OtlpExporter) → Took c [] [] e e' → Took c [] [] e (if k then e' else e)
  running-Took true e e' h = h
  running-Took false e e' h = Took-refl c e

  pub rounds-Took :
      (e : OtlpExporter)
      → Took c [] [] e (running c on_span e)
        × Took c [] [] e (running c on_log e)
        × Took c [] [] e (running c on_tick e)
  rounds-Took e =
      let (s1, l1, _) = after-Step c e receives_span in
      let (s2, l2, _) = after-Step c e receives_log in
      let (s3, l3, _) = after-Step c e ticks in
      (
        running-Took e.worker_alive e (Otlp.worker c on_span e) (record { spans = s1; logs = l1 }),
        running-Took e.worker_alive e (Otlp.worker c on_log e) (record { spans = s2; logs = l2 }),
        running-Took e.worker_alive e (Otlp.worker c on_tick e) (record { spans = s3; logs = l3 }),
      )

  module _ {F : Type 0} ⦃f : Float64 F⦄ (m : Moment F) where
    abbrev pub TookEvent : Event F → Facade F → Facade F → Type 0
    TookEvent v g g' =
        TookAll (accepted_spans (spans_of m v g) g.exporter)
          (accepted_logs (lines_of m v g) g.exporter) g.exporter g'.exporter

    logs_taken :
        (lines : List Text) (o : Option OtlpExporter) (s : Metering F)
        → TookAll
            (accepted_spans [] o)
            (accepted_logs lines o)
            o
            (with_exporter m (export_logs lines) o s).0
    logs_taken lines none s = refl
    logs_taken lines (some e) s =
        subst
          (λ ss.
            TookAll ss (accepted_logs lines (some e)) (some e)
              (with_exporter m (export_logs lines) (some e) s).0)
          (sym (none-fits_spans c e))
          (_, refl, reset-Took [] _ e _ (export_logs-Took c lines (record e { counted = [] })))

    spans_taken :
        (spans : List (Span × Int64)) (o : Option OtlpExporter) (s : Metering F)
        → TookAll
            (accepted_spans spans o)
            (accepted_logs [] o)
            o
            (with_exporter m (export_spans spans) o s).0
    spans_taken spans none s = refl
    spans_taken spans (some e) s =
        subst
          (λ ls.
            TookAll (accepted_spans spans (some e)) ls (some e)
              (with_exporter m (export_spans spans) (some e) s).0)
          (sym (none-fits_logs c e))
          (_, refl, reset-Took _ [] e _ (export_spans-Took c spans (record e { counted = [] })))

    pub logger_taken :
        (op : JsonLogger F → JsonLogger F) (g : Facade F) (i : Option (Instance F))
        → TookAll
            (accepted_spans [] g.exporter)
            (accepted_logs (logger_lines op g i) g.exporter)
            g.exporter
            (on_instance
              (λ inst. settle m (op (recording g.exporter inst.logger)) inst g)
              g
              i).exporter
    logger_taken op g none = idle_same g.exporter g.exporter refl
    logger_taken op g (some inst) =
        logs_taken (logger_lines op g (some inst)) g.exporter inst.metrics

    end_taken :
        (span : Span) (g : Facade F) (inst : Instance F) (t : Tracing)
        → TookAll
            (accepted_spans (ended_spans m span g t) g.exporter)
            (accepted_logs [] g.exporter)
            g.exporter
            (end_on m span inst g t).exporter
    end_taken span g inst (local t) =
        spans_taken (ended_spans m span g (local t)) g.exporter inst.metrics
    end_taken span g inst (spanned o) = idle_same g.exporter g.exporter refl

    pub ended_taken :
        (span : Span) (g : Facade F) (i : Option (Instance F))
        → TookAll
            (accepted_spans (tracer_spans m span g i) g.exporter)
            (accepted_logs [] g.exporter)
            g.exporter
            (on_instance (λ inst. end_on m span inst g inst.tracer) g i).exporter
    ended_taken span g none = idle_same g.exporter g.exporter refl
    ended_taken span g (some inst) = end_taken span g inst inst.tracer
