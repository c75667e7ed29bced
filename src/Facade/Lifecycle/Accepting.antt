-- ===== src/Facade/Lifecycle/Accepting.antt =====
-- observability/observability.go and observability/otlp_exporter.go: what the exporter has taken after a
-- sequence of calls of the package and of rounds of its goroutines.
use orkai_observability.Context.{Context}
use orkai_observability.Facade.{
  Facade, Instance, Metering, Moment, Tracing, ambient_of, count_all, inc_counter_with_labels,
  local, on_instance, set_gauge, set_gauge_with_labels, spanned, with_metrics,
}
use orkai_observability.Facade.Background.{
  RuntimeStats, check_auto_pprof, collect_runtime_stats, export_on, export_worker, log_worker,
  running, telemetry_tick, tick_on,
}
use orkai_observability.Facade.Calls.{
  counter, counter_with_labels, end_span, gauge, gauge_with_labels, latency, latency_on,
  latency_with_labels, log_entry, log_nil_error, set_log_level, set_logger, start_on, start_span,
  start_span_nil, start_with, store_metrics, unless_done,
}
use orkai_observability.Facade.Lifecycle.Taking.{Took}
use orkai_observability.Facade.Schedule.{
  Event, after, calls_counter, calls_counter_with_labels, calls_end_span, calls_gauge,
  calls_gauge_with_labels, calls_latency, calls_latency_with_labels, calls_log, calls_nil_error,
  calls_set_log_level, calls_set_logger, calls_start_span, calls_start_span_nil,
  exporter_receives_log, exporter_receives_span, exporter_ticks, run, then_run, ticks_telemetry,
  works_logger,
}
use orkai_observability.Facade.Lifecycle.Accepted.{
  TookAll, TookAll-refl, TookAll-trans, TookEvent, accepted_logs, accepted_spans, ended_taken, idle,
  idle_same, lines_of, logger_taken, reset-Took, rounds-Took, spans_of,
}
use orkai_observability.Facade.Schedule.Moves.{Permits, PermitsAll}
use orkai_observability.Float64.{Float64}
use orkai_observability.Logger.Delivery.{async_worker, set_level}
use orkai_observability.Logger.Entries.{log}
use orkai_observability.Otlp.{Case, OtlpExporter, Surroundings, on_log, on_span, on_tick}
use orkai_observability.Otlp.Batches.{LogView, SpanView}
use orkai_observability.Prelude.{
  ◌++◌, List, Option, Option-cases, [], ap, inl, inr, none, refl, some, subst, sym, ◌∙◌, ◌∷◌, ◌≡◌,
}
use orkai_observability.Prelude.Int64.{Int64}
use orkai_observability.Table.{or_zero}
use orkai_observability.Text.{Text, codes}

module _ {F : Type 0} ⦃f : Float64 F⦄ (c : Surroundings) where
  same_exporter :
      (op : Instance F → Facade F) (o : Option OtlpExporter) (g : Facade F)
      (i : Option (Instance F))
      → o ≡ g.exporter
      → ((inst : Instance F) → o ≡ (op inst).exporter)
      → o ≡ (on_instance op g i).exporter
  same_exporter op o g none h keep = h
  same_exporter op o g (some inst) h keep = keep inst

  latency-same :
      (op : Metering F → Option (Metering F)) (g g' : Facade F) (i : Option (Instance F))
      → latency_on op g i ≡ some g'
      → g.exporter ≡ g'.exporter
  latency-same op g g' none e = ap (λ o. (or_zero g o).exporter) e
  latency-same op g g' (some inst) e = stored (op inst.metrics) e
    where
      stored :
          (o : Option (Metering F)) → store_metrics inst g o ≡ some g' → g.exporter ≡ g'.exporter
      stored none e = absurd (cc e)
      stored (some s) e = ap (λ o. (or_zero g o).exporter) e

  module _ (m : Moment F) where
    start-same :
        (ctx : Context) (name : Text) (g : Facade F) (i : Option (Instance F))
        → g.exporter ≡ (start_with m ctx name g i).1.exporter
    start-same ctx name g none = refl
    start-same ctx name g (some inst) = started inst.tracer
      where
        started : (t : Tracing) → g.exporter ≡ (start_on m ctx name inst g t).1.exporter
        started (local t) = refl
        started (spanned o) = refl

    metrics-same :
        (op : Metering F → Metering F) (g : Facade F) → g.exporter ≡ (with_metrics op g).exporter
    metrics-same op g = same_exporter _ g.exporter g g.instance_of refl (λ inst. refl)

    tick-same :
        (stats : RuntimeStats) (g : Facade F) (loops : List Int64)
        → g.exporter ≡ (tick_on m stats g loops).exporter
    unfolding collect_runtime_stats check_auto_pprof gauge
    tick-same stats g [] = refl
    tick-same stats g (interval ∷ intervals) =
        let g1 = gauge m (codes "go_goroutines") (f.of_int stats.goroutines) g in
        let g2 = gauge m (codes "go_mem_heap_alloc_bytes") (f.of_int stats.heap_alloc) g1 in
        let g3 = gauge m (codes "go_mem_heap_sys_bytes") (f.of_int stats.heap_sys) g2 in
        let g4 = gauge m (codes "go_gc_completed_count") (f.of_int stats.num_gc) g3 in
        let all : g.exporter ≡ g4.exporter =
          metrics-same _ g ∙ metrics-same _ g1 ∙ metrics-same _ g2 ∙ metrics-same _ g3 in
        same_exporter _ g.exporter g4 g4.instance_of all (λ inst. all)

    round_taken :
        (k : Case) (g : Facade F) (o : Option OtlpExporter)
        → g.exporter ≡ o
        → ((e : OtlpExporter) → Took c [] [] e (running c k e))
        → TookAll c [] [] o (export_on m c k g o).exporter
    round_taken k g none h keep = h
    round_taken k g (some e) h keep =
        let e' = running c k (record e { counted = [] }) in
        let g1 = record g { exporter = some (record e' { counted = [] }) } in
        (
          record e' { counted = [] },
          sym (metrics-same (count_all m e'.counted) g1),
          reset-Took c [] [] e e' (keep (record e { counted = [] })),
        )

    -- An event that exports nothing.
    quiet :
        (g x g' : Facade F)
        → some x ≡ some g'
        → g.exporter ≡ x.exporter
        → TookAll c
            (accepted_spans c [] g.exporter)
            (accepted_logs c [] g.exporter)
            g.exporter
            g'.exporter
    quiet g x g' e h = idle_same c g.exporter g'.exporter (h ∙ ap (λ o. (or_zero g o).exporter) e)

    moved :
        (ss : List SpanView) (ls : List LogView) (o : Option OtlpExporter) (x g' : Facade F)
        → some x ≡ some g'
        → TookAll c ss ls o x.exporter
        → TookAll c ss ls o g'.exporter
    moved ss ls o x g' e h = subst (TookAll c ss ls o) (ap (λ y. (or_zero x y).exporter) e) h

    round :
        (c' : Surroundings) (k : Case) (g g' : Facade F)
        → c' ≡ c
        → some (export_on m c' k g g.exporter) ≡ some g'
        → ((e : OtlpExporter) → Took c [] [] e (running c k e))
        → TookAll c
            (accepted_spans c [] g.exporter)
            (accepted_logs c [] g.exporter)
            g.exporter
            g'.exporter
    round c' k g g' p e keep = idle c g.exporter g'.exporter (
        moved [] [] g.exporter (export_on m c' k g g.exporter) g' e (
          subst (λ x. TookAll c [] [] g.exporter (export_on m x k g g.exporter).exporter) (sym p)
            (round_taken k g g.exporter refl keep)))

    after-Took :
        (v : Event F) (g g' : Facade F)
        → Permits (λ c'. c' ≡ c) v
        → after m v g ≡ some g'
        → TookEvent c m v g g'
    unfolding after log_entry set_log_level set_logger counter counter_with_labels gauge
        gauge_with_labels latency latency_with_labels start_span start_span_nil log_nil_error
        end_span telemetry_tick log_worker export_worker
    after-Took (calls_log method msg fields) g g' p e =
        moved _ _ g.exporter _ g' e
          (logger_taken c m (log (ambient_of m g) method msg fields) g g.instance_of)
    after-Took (calls_set_log_level level) g g' p e =
        moved _ _ g.exporter _ g' e (logger_taken c m (set_level level) g g.instance_of)
    after-Took works_logger g g' p e =
        moved _ _ g.exporter _ g' e (logger_taken c m async_worker g g.instance_of)
    after-Took (calls_end_span span) g g' p e =
        moved _ _ g.exporter _ g' e (ended_taken c m span g g.instance_of)
    after-Took (calls_set_logger l) g g' p e =
        quiet g _ g' e (same_exporter _ g.exporter g g.instance_of refl (λ inst. refl))
    after-Took (calls_counter name) g g' p e = quiet g _ g' e (metrics-same _ g)
    after-Took (calls_counter_with_labels name labels) g g' p e =
        quiet g _ g' e (metrics-same (inc_counter_with_labels m name labels) g)
    after-Took (calls_gauge name value) g g' p e =
        quiet g _ g' e (metrics-same (set_gauge m name value) g)
    after-Took (calls_gauge_with_labels name value labels) g g' p e =
        quiet g _ g' e (metrics-same (set_gauge_with_labels m name value labels) g)
    after-Took (calls_latency name d) g g' p e =
        idle_same c g.exporter g'.exporter (latency-same _ g g' g.instance_of e)
    after-Took (calls_latency_with_labels name d labels) g g' p e =
        idle_same c g.exporter g'.exporter (latency-same _ g g' g.instance_of e)
    after-Took (calls_start_span ctx name) g g' p e =
        quiet g _ g' e (start-same ctx name g g.instance_of)
    after-Took (calls_start_span_nil instead name) g g' p e =
        quiet g _ g' (unless_done _ _ g' e) (start-same instead name g g.instance_of)
    after-Took calls_nil_error g g' p e = quiet g g g' (unless_done _ g g' e) refl
    after-Took (ticks_telemetry stats) g g' p e = quiet g _ g' e (tick-same stats g g.loops)
    after-Took (exporter_receives_span c') g g' p e =
        round c' on_span g g' p e (λ x. (rounds-Took c x).0)
    after-Took (exporter_receives_log c') g g' p e =
        round c' on_log g g' p e (λ x. (rounds-Took c x).1)
    after-Took (exporter_ticks c') g g' p e = round c' on_tick g g' p e (λ x. (rounds-Took c x).2)

  abbrev then_list {ℓ} : {A : Type ℓ} → Option (Facade F) → (Facade F → List A) → List A
  then_list none k = []
  then_list (some g) k = k g

  -- What the events export and the channels have room for.
  unfoldable pub later_spans : List (Moment F × Event F) → Facade F → List SpanView
  later_spans [] g = []
  later_spans ((m, v) ∷ vs) g =
      accepted_spans c (spans_of m v g) g.exporter ++ then_list (after m v g) (later_spans vs)

  unfoldable pub later_logs : List (Moment F × Event F) → Facade F → List LogView
  later_logs [] g = []
  later_logs ((m, v) ∷ vs) g =
      accepted_logs c (lines_of m v g) g.exporter ++ then_list (after m v g) (later_logs vs)

  pub run-Took :
      (vs : List (Moment F × Event F)) (g g' : Facade F)
      → PermitsAll (λ c'. c' ≡ c) vs
      → run vs g ≡ some g'
      → TookAll c (later_spans vs g) (later_logs vs g) g.exporter g'.exporter
  unfolding run later_spans later_logs
  run-Took [] g g' p e =
      subst (λ o. TookAll c [] [] g.exporter o) (ap (λ o. (or_zero g o).exporter) e)
        (TookAll-refl c g.exporter)
  run-Took ((m, v) ∷ vs) g g' p e = elim (Option-cases (after m v g)) [
    | inl stuck ↦ absurd (cc (sym (ap (λ o. then_run o (run vs)) stuck) ∙ e))
    | inr (g1, e1) ↦
        let rest = run-Took vs g1 g' p.1 (sym (ap (λ o. then_run o (run vs)) e1) ∙ e) in
        rw e1 (
          TookAll-trans c (accepted_spans c (spans_of m v g) g.exporter) (later_spans vs g1)
            (accepted_logs c (lines_of m v g) g.exporter) (later_logs vs g1) g.exporter g1.exporter
            g'.exporter (after-Took m v g g1 p.0 e1) rest)
  ]
