-- ===== src/Facade/Schedule/Moving.antt =====
-- observability/observability.go: what happens to the exporter in a sequence of calls of the package and of
-- rounds of its goroutines.
use orkai_observability.Facade.{
  inc_counter_with_labels, set_gauge, set_gauge_with_labels, ambient_of, Facade, Moment,
}
use orkai_observability.Facade.Background.{
  RuntimeStats, check_auto_pprof, collect_runtime_stats, export_worker, log_worker, telemetry_tick,
  tick_on,
}
use orkai_observability.Facade.Calls.{
  counter, counter_with_labels, end_span, gauge, gauge_with_labels, latency, latency_with_labels,
  log_entry, set_log_level, set_logger, start_span, start_span_nil, log_nil_error, unless_done,
}
use orkai_observability.Facade.Schedule.{
  Event, exporter_receives_log, exporter_receives_span, exporter_ticks, after, calls_counter,
  calls_counter_with_labels, calls_end_span, calls_gauge, calls_gauge_with_labels, calls_latency,
  calls_latency_with_labels, calls_log, calls_set_log_level, calls_set_logger, calls_start_span,
  calls_start_span_nil, calls_nil_error, run, then_run, ticks_telemetry, works_logger,
}
use orkai_observability.Facade.Schedule.Moves.{
  Moves, Moved, Permits, PermitsAll, Moved-trans, Moved-refl, end_on-Moved, export_on-Moved,
  latency_on-Moved, on_instance-Moved, start_with-Moved, with_logger-Moved, with_metrics-Moved,
}
use orkai_observability.Float64.{Float64}
use orkai_observability.Logger.Delivery.{async_worker, set_level}
use orkai_observability.Logger.Entries.{log}
use orkai_observability.Otlp.{OtlpExporter, Surroundings, on_log, on_span, on_tick}
use orkai_observability.Prelude.{
  List, Option, [], some, subst, ◌∷◌, ◌≡◌, Option-cases, ap, inl, inr, sym, ◌∙◌,
}
use orkai_observability.Prelude.Int64.{Int64}
use orkai_observability.Text.{codes}

module _ {Allowed : Surroundings → Type 0} {R : OtlpExporter → OtlpExporter → Type 0}
    (r : Moves Allowed R) where
  module _ {F : Type 0} ⦃f : Float64 F⦄ (m : Moment F) where
    tick_on-Moved :
        (stats : RuntimeStats) (g : Facade F) (loops : List Int64)
        → Moved R g.exporter (tick_on m stats g loops).exporter
    unfolding collect_runtime_stats check_auto_pprof gauge
    tick_on-Moved stats g [] = Moved-refl r g.exporter
    tick_on-Moved stats g (interval ∷ intervals) =
        let g1 = gauge m (codes "go_goroutines") (f.of_int stats.goroutines) g in
        let g2 = gauge m (codes "go_mem_heap_alloc_bytes") (f.of_int stats.heap_alloc) g1 in
        let g3 = gauge m (codes "go_mem_heap_sys_bytes") (f.of_int stats.heap_sys) g2 in
        let g4 = gauge m (codes "go_gc_completed_count") (f.of_int stats.num_gc) g3 in
        Moved-trans r g.exporter g1.exporter _
          (with_metrics-Moved r m (set_gauge m (codes "go_goroutines") (f.of_int stats.goroutines))
            g)
          (Moved-trans r g1.exporter g2.exporter _
            (with_metrics-Moved r m
              (set_gauge m (codes "go_mem_heap_alloc_bytes") (f.of_int stats.heap_alloc)) g1)
            (Moved-trans r g2.exporter g3.exporter _
              (with_metrics-Moved r m
                (set_gauge m (codes "go_mem_heap_sys_bytes") (f.of_int stats.heap_sys)) g2)
              (Moved-trans r g3.exporter g4.exporter _
                (with_metrics-Moved r m
                  (set_gauge m (codes "go_gc_completed_count") (f.of_int stats.num_gc)) g3)
                (on_instance-Moved r m _ g4 g4.instance_of (λ inst. Moved-refl r g4.exporter)))))

    Moved-to :
        (o : Option OtlpExporter) (x g' : Facade F)
        → some x ≡ some g'
        → Moved R o x.exporter
        → Moved R o g'.exporter
    Moved-to o x g' e h = let e' : x ≡ g' = cc in subst (λ y. Moved R o y.exporter) e' h

    after-Moved :
        (v : Event F) (g g' : Facade F)
        → Permits Allowed v
        → after m v g ≡ some g'
        → Moved R g.exporter g'.exporter
    unfolding after log_entry set_log_level set_logger counter counter_with_labels gauge
        gauge_with_labels latency latency_with_labels start_span start_span_nil log_nil_error
        end_span telemetry_tick log_worker export_worker
    after-Moved (calls_log method msg fields) g g' p e =
        Moved-to g.exporter _ g' e
          (with_logger-Moved r m (log (ambient_of m g) method msg fields) g)
    after-Moved (calls_set_log_level level) g g' p e =
        Moved-to g.exporter _ g' e (with_logger-Moved r m (set_level level) g)
    after-Moved (calls_set_logger l) g g' p e =
        Moved-to g.exporter _ g' e
          (on_instance-Moved r m _ g g.instance_of (λ inst. Moved-refl r g.exporter))
    after-Moved (calls_counter name) g g' p e =
        Moved-to g.exporter _ g' e (with_metrics-Moved r m _ g)
    after-Moved (calls_counter_with_labels name labels) g g' p e =
        Moved-to g.exporter _ g' e
          (with_metrics-Moved r m (inc_counter_with_labels m name labels) g)
    after-Moved (calls_gauge name value) g g' p e =
        Moved-to g.exporter _ g' e (with_metrics-Moved r m (set_gauge m name value) g)
    after-Moved (calls_gauge_with_labels name value labels) g g' p e =
        Moved-to g.exporter _ g' e
          (with_metrics-Moved r m (set_gauge_with_labels m name value labels) g)
    after-Moved (calls_latency name d) g g' p e = latency_on-Moved r m _ g g' g.instance_of e
    after-Moved (calls_latency_with_labels name d labels) g g' p e =
        latency_on-Moved r m _ g g' g.instance_of e
    after-Moved (calls_start_span ctx name) g g' p e =
        Moved-to g.exporter _ g' e (start_with-Moved r m ctx name g g.instance_of)
    after-Moved (calls_end_span span) g g' p e =
        Moved-to g.exporter _ g' e (
          on_instance-Moved r m _ g g.instance_of
            (λ inst. end_on-Moved r m span inst g inst.tracer))
    after-Moved (calls_start_span_nil instead name) g g' p e =
        Moved-to g.exporter _ g' (unless_done _ _ g' e)
          (start_with-Moved r m instead name g g.instance_of)
    after-Moved calls_nil_error g g' p e =
        Moved-to g.exporter g g' (unless_done _ g g' e) (Moved-refl r g.exporter)
    after-Moved (ticks_telemetry stats) g g' p e =
        Moved-to g.exporter _ g' e (tick_on-Moved stats g g.loops)
    after-Moved works_logger g g' p e =
        Moved-to g.exporter _ g' e (with_logger-Moved r m async_worker g)
    after-Moved (exporter_receives_span c) g g' p e = Moved-to g.exporter _ g' e (
        export_on-Moved r m c on_span g g.exporter (λ x. (r.rounds c p x).0)
          (Moved-refl r g.exporter))
    after-Moved (exporter_receives_log c) g g' p e = Moved-to g.exporter _ g' e (
        export_on-Moved r m c on_log g g.exporter (λ x. (r.rounds c p x).1)
          (Moved-refl r g.exporter))
    after-Moved (exporter_ticks c) g g' p e = Moved-to g.exporter _ g' e (
        export_on-Moved r m c on_tick g g.exporter (λ x. (r.rounds c p x).2)
          (Moved-refl r g.exporter))

  module _ {F : Type 0} ⦃f : Float64 F⦄ where
    pub run-Moved :
        (vs : List (Moment F × Event F)) (g g' : Facade F)
        → PermitsAll Allowed vs
        → run vs g ≡ some g'
        → Moved R g.exporter g'.exporter
    unfolding run
    run-Moved [] g g' p e =
        let e' : g ≡ g' = cc in
        subst (λ x. Moved R g.exporter x.exporter) e' (Moved-refl r g.exporter)
    run-Moved ((m, v) ∷ vs) g g' p e = elim (Option-cases (after m v g)) [
      | inl stuck ↦ absurd (cc (sym (ap (λ o. then_run o (run vs)) stuck) ∙ e))
      | inr (g1, e1) ↦
          Moved-trans r g.exporter g1.exporter g'.exporter (after-Moved m v g g1 p.0 e1)
            (run-Moved vs g1 g' p.1 (sym (ap (λ o. then_run o (run vs)) e1) ∙ e))
    ]
