-- ===== src/Facade/Schedule/Loops.antt =====
-- observability/observability.go: the telemetry loops while the package is in use.
use orkai_observability.Context.{Context}
use orkai_observability.Facade.{
  Facade, Instance, Metering, Moment, Tracing, local, on_instance, spanned,
}
use orkai_observability.Facade.Background.{
  RuntimeStats, check_auto_pprof, collect_runtime_stats, export_on, export_worker, log_worker,
  telemetry_tick, tick_on, running,
}
use orkai_observability.Facade.Calls.{
  end_on, latency_on, start_on, start_with, store_metrics, counter, counter_with_labels, end_span,
  gauge, gauge_with_labels, latency, latency_with_labels, log_entry, set_log_level, set_logger,
  start_span, start_span_nil, log_nil_error, unless_done,
}
use orkai_observability.Facade.Schedule.{
  Event, after, calls_counter, calls_counter_with_labels, calls_end_span, calls_gauge,
  calls_gauge_with_labels, calls_latency, calls_latency_with_labels, calls_log, calls_set_log_level,
  calls_set_logger, calls_start_span, calls_start_span_nil, calls_nil_error, exporter_receives_log,
  exporter_receives_span, exporter_ticks, run, then_run, ticks_telemetry, works_logger,
}
use orkai_observability.Float64.{Float64}
use orkai_observability.Otlp.{Case, OtlpExporter, Surroundings, on_log, on_span, on_tick}
use orkai_observability.Prelude.{
  List, Option, Option-cases, [], ap, inl, inr, none, refl, some, subst, sym, ◌∙◌, ◌∷◌, ◌≡◌,
}
use orkai_observability.Prelude.Int64.{Int64}
use orkai_observability.Text.{Text, codes}
use orkai_observability.Types.{Span}

module _ {F : Type 0} where
  -- The loops and the function that ends one are as before.
  abbrev pub Loops : Facade F → Facade F → Type 0
  Loops g g' = (g'.loops ≡ g.loops) × (g'.cancel ≡ g.cancel)

  pub same-Loops : (g x g' : Facade F) → some x ≡ some g' → Loops g x → Loops g g'
  same-Loops g x g' e h = let e' : x ≡ g' = cc in subst (Loops g) e' h

  pub on_instance-Loops :
      (op : Instance F → Facade F) (g : Facade F) (i : Option (Instance F))
      → ((inst : Instance F) → Loops g (op inst))
      → Loops g (on_instance op g i)
  on_instance-Loops op g none keep = (refl, refl)
  on_instance-Loops op g (some inst) keep = keep inst

  latency_on-Loops :
      (op : Metering F → Option (Metering F)) (g g' : Facade F) (i : Option (Instance F))
      → latency_on op g i ≡ some g'
      → Loops g g'
  latency_on-Loops op g g' none e = same-Loops g g g' e (refl, refl)
  latency_on-Loops op g g' (some inst) e = stored (op inst.metrics) e
    where
      stored : (o : Option (Metering F)) → store_metrics inst g o ≡ some g' → Loops g g'
      stored none e = absurd (cc)
      stored (some s) e =
          same-Loops g (record g { instance_of = some (record inst { metrics = s }) }) g' e
            (refl, refl)

module _ {F : Type 0} ⦃f : Float64 F⦄ (m : Moment F) where
  start_with-Loops :
      (ctx : Context) (name : Text) (g : Facade F) (i : Option (Instance F))
      → Loops g (start_with m ctx name g i).1
  start_with-Loops ctx name g none = (refl, refl)
  start_with-Loops ctx name g (some inst) = started inst.tracer
    where
      started : (t : Tracing) → Loops g (start_on m ctx name inst g t).1
      started (local t) = (refl, refl)
      started (spanned o) = (refl, refl)

  end_on-Loops :
      (span : Span) (inst : Instance F) (g : Facade F) (t : Tracing)
      → Loops g (end_on m span inst g t)
  end_on-Loops span inst g (local t) = (refl, refl)
  end_on-Loops span inst g (spanned o) = (refl, refl)

  gauge-Loops : (name : Text) (v : F) (g : Facade F) → Loops g (gauge m name v g)
  unfolding gauge
  gauge-Loops name v g = on_instance-Loops _ g g.instance_of (λ inst. (refl, refl))

  tick_on-Loops :
      (stats : RuntimeStats) (g : Facade F) (loops : List Int64) → Loops g (tick_on m stats g loops)
  unfolding collect_runtime_stats check_auto_pprof
  tick_on-Loops stats g [] = (refl, refl)
  tick_on-Loops stats g (interval ∷ intervals) =
      let g1 = gauge m (codes "go_goroutines") (f.of_int stats.goroutines) g in
      let g2 = gauge m (codes "go_mem_heap_alloc_bytes") (f.of_int stats.heap_alloc) g1 in
      let g3 = gauge m (codes "go_mem_heap_sys_bytes") (f.of_int stats.heap_sys) g2 in
      let g4 = gauge m (codes "go_gc_completed_count") (f.of_int stats.num_gc) g3 in
      let h1 = gauge-Loops (codes "go_goroutines") (f.of_int stats.goroutines) g in
      let h2 = gauge-Loops (codes "go_mem_heap_alloc_bytes") (f.of_int stats.heap_alloc) g1 in
      let h3 = gauge-Loops (codes "go_mem_heap_sys_bytes") (f.of_int stats.heap_sys) g2 in
      let h4 = gauge-Loops (codes "go_gc_completed_count") (f.of_int stats.num_gc) g3 in
      let h5 = on_instance-Loops _ g4 g4.instance_of (λ inst. (refl, refl)) in
      (h5.0 ∙ h4.0 ∙ h3.0 ∙ h2.0 ∙ h1.0, h5.1 ∙ h4.1 ∙ h3.1 ∙ h2.1 ∙ h1.1)

  export_on-Loops :
      (c : Surroundings) (k : Case) (g : Facade F) (e : Option OtlpExporter)
      → Loops g (export_on m c k g e)
  export_on-Loops c k g none = (refl, refl)
  export_on-Loops c k g (some e) =
      let e' = running c k (record e { counted = [] }) in
      let g1 = record g { exporter = some (record e' { counted = [] }) } in
      on_instance-Loops _ g1 g1.instance_of (λ inst. (refl, refl))

  after-Loops : (v : Event F) (g g' : Facade F) → after m v g ≡ some g' → Loops g g'
  unfolding after log_entry set_log_level set_logger counter counter_with_labels gauge_with_labels
      latency latency_with_labels start_span start_span_nil log_nil_error end_span telemetry_tick
      log_worker export_worker gauge
  after-Loops (calls_log method msg fields) g g' e =
      same-Loops g _ g' e (on_instance-Loops _ g g.instance_of (λ inst. (refl, refl)))
  after-Loops (calls_set_log_level level) g g' e =
      same-Loops g _ g' e (on_instance-Loops _ g g.instance_of (λ inst. (refl, refl)))
  after-Loops (calls_set_logger l) g g' e =
      same-Loops g _ g' e (on_instance-Loops _ g g.instance_of (λ inst. (refl, refl)))
  after-Loops (calls_counter name) g g' e =
      same-Loops g _ g' e (on_instance-Loops _ g g.instance_of (λ inst. (refl, refl)))
  after-Loops (calls_counter_with_labels name labels) g g' e =
      same-Loops g _ g' e (on_instance-Loops _ g g.instance_of (λ inst. (refl, refl)))
  after-Loops (calls_gauge name value) g g' e =
      same-Loops g _ g' e (on_instance-Loops _ g g.instance_of (λ inst. (refl, refl)))
  after-Loops (calls_gauge_with_labels name value labels) g g' e =
      same-Loops g _ g' e (on_instance-Loops _ g g.instance_of (λ inst. (refl, refl)))
  after-Loops (calls_latency name d) g g' e = latency_on-Loops _ g g' g.instance_of e
  after-Loops (calls_latency_with_labels name d labels) g g' e =
      latency_on-Loops _ g g' g.instance_of e
  after-Loops (calls_start_span ctx name) g g' e =
      same-Loops g _ g' e (start_with-Loops ctx name g g.instance_of)
  after-Loops (calls_end_span span) g g' e =
      same-Loops g _ g' e
        (on_instance-Loops _ g g.instance_of (λ inst. end_on-Loops span inst g inst.tracer))
  after-Loops (calls_start_span_nil instead name) g g' e =
      same-Loops g _ g' (unless_done _ _ g' e) (start_with-Loops instead name g g.instance_of)
  after-Loops calls_nil_error g g' e = same-Loops g g g' (unless_done _ g g' e) (refl, refl)
  after-Loops (ticks_telemetry stats) g g' e = same-Loops g _ g' e (tick_on-Loops stats g g.loops)
  after-Loops works_logger g g' e =
      same-Loops g _ g' e (on_instance-Loops _ g g.instance_of (λ inst. (refl, refl)))
  after-Loops (exporter_receives_span c) g g' e =
      same-Loops g _ g' e (export_on-Loops c on_span g g.exporter)
  after-Loops (exporter_receives_log c) g g' e =
      same-Loops g _ g' e (export_on-Loops c on_log g g.exporter)
  after-Loops (exporter_ticks c) g g' e =
      same-Loops g _ g' e (export_on-Loops c on_tick g g.exporter)

module _ {F : Type 0} ⦃f : Float64 F⦄ where
  pub run-Loops :
      (vs : List (Moment F × Event F)) (g g' : Facade F) → run vs g ≡ some g' → Loops g g'
  unfolding run
  run-Loops [] g g' e = same-Loops g g g' e (refl, refl)
  run-Loops ((m, v) ∷ vs) g g' e = elim (Option-cases (after m v g)) [
    | inl stuck ↦ absurd (cc (sym (ap (λ o. then_run o (run vs)) stuck) ∙ e))
    | inr (g1, e1) ↦
        let h = after-Loops m v g g1 e1 in
        let h' = run-Loops vs g1 g' (sym (ap (λ o. then_run o (run vs)) e1) ∙ e) in
        (h'.0 ∙ h.0, h'.1 ∙ h.1)
  ]
