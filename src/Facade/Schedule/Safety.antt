-- ===== src/Facade/Schedule/Safety.antt =====
-- observability/observability.go: the metrics behind the facade after any events.
use orkai_observability.Tracer
use orkai_observability.Otlp
use orkai_observability.Context.{Context}
use orkai_observability.Facade.{
  Facade, Instance, Metering, Moment, Tracing, ambient_of, count_all, export_logs, export_spans,
  local, on_instance, recording, spanned, with_logger, with_metrics,
}
use orkai_observability.Facade.Background.{
  RuntimeStats, check_auto_pprof, collect_runtime_stats, export_on, export_worker, log_worker,
  running, telemetry_tick, tick_on,
}
use orkai_observability.Facade.Calls.{
  counter, counter_with_labels, end_on, end_span, gauge, gauge_with_labels, latency, latency_on,
  latency_with_labels, log_entry, no_spans, set_log_level, set_logger, start_on, start_span,
  start_with, store_metrics, start_span_nil, log_nil_error, unless_done,
}
use orkai_observability.Facade.Schedule.{
  Event, after, calls_counter, calls_counter_with_labels, calls_end_span, calls_gauge,
  calls_gauge_with_labels, calls_latency, calls_latency_with_labels, calls_log, calls_set_log_level,
  calls_set_logger, calls_start_span, calls_start_span_nil, calls_nil_error, exporter_receives_log,
  exporter_receives_span, exporter_ticks, passes_nil, run, then_run, ticks_telemetry, works_logger,
}
use orkai_observability.Facade.Soundness.{
  Holds, IsSound, Keeps, count_all-IsSound, gauge_all-IsSound, inc_counter-IsSound,
  inc_counter_with_labels-IsSound, record_latency-Keeps, record_latency_with_labels-Keeps,
  set_gauge-IsSound, set_gauge_with_labels-IsSound, with_exporter-IsSound,
}
use orkai_observability.Float64.{Float64}
use orkai_observability.Logger.Delivery.{JsonLogger, async_worker, set_level}
use orkai_observability.Logger.Entries.{log}
use orkai_observability.Otlp.{OtlpExporter}
use orkai_observability.Prelude.{
  Bool, Bool-cases, any, false, inl, inr, true, ◌||◌, List, Option, [], ap, none, refl, some, ◌∙◌,
  ◌∷◌, ◌≡◌, subst,
}
use orkai_observability.Prelude.Int64.{Int64}
use orkai_observability.Table.{or_zero}
use orkai_observability.Text.{Text, codes}
use orkai_observability.Tracer.{Tracer}
use orkai_observability.Types.{Span}

module _ {F : Type 0} ⦃f : Float64 F⦄ (m : Moment F) where
  -- A call that changes the instance only in ways that keep the metrics valid.
  on_instance-Holds :
      (op : Instance F → Facade F) (g : Facade F) (i : Option (Instance F))
      → Holds g.instance_of
      → ((inst : Instance F) → IsSound inst.metrics → Holds (op inst).instance_of)
      → Holds i
      → Holds (on_instance op g i).instance_of
  on_instance-Holds op g none h keep hi = h
  on_instance-Holds op g (some inst) h keep hi = keep inst hi

  pub with_metrics-Holds :
      (op : Metering F → Metering F) (g : Facade F)
      → ((s : Metering F) → IsSound s → IsSound (op s))
      → Holds g.instance_of
      → Holds (with_metrics op g).instance_of
  with_metrics-Holds op g keep h =
      on_instance-Holds _ g g.instance_of h (λ inst hi. keep inst.metrics hi) h

  pub with_logger-Holds :
      (op : JsonLogger F → JsonLogger F) (g : Facade F)
      → Holds g.instance_of
      → Holds (with_logger m op g).instance_of
  with_logger-Holds op g h =
      on_instance-Holds _ g g.instance_of h
        (λ inst hi. count_all-IsSound m _ _ (
          gauge_all-IsSound m _ _ (
            with_exporter-IsSound m
              (export_logs (or_zero [] (op (recording g.exporter inst.logger)).exported)) g.exporter
              inst.metrics hi)))
        h

  latency_on-Holds :
      (op : Metering F → Option (Metering F)) (g : Facade F) (i : Option (Instance F))
      → Keeps op
      → Holds g.instance_of
      → Holds i
      → (g' : Facade F) × (latency_on op g i ≡ some g') × Holds g'.instance_of
  latency_on-Holds op g none keep h hi = (g, refl, h)
  latency_on-Holds op g (some inst) keep h hi =
      let (s', e, h') = keep inst.metrics hi in
      (
        record g { instance_of = some (record inst { metrics = s' }) },
        ap (store_metrics inst g) e,
        h',
      )

  start_on-Holds :
      (ctx : Context) (name : Text) (inst : Instance F) (g : Facade F) (t : Tracing)
      → IsSound inst.metrics
      → Holds (start_on m ctx name inst g t).1.instance_of
  start_on-Holds ctx name inst g (local t) h = h
  start_on-Holds ctx name inst g (spanned o) h = h

  start_with-Holds :
      (ctx : Context) (name : Text) (g : Facade F) (i : Option (Instance F))
      → Holds g.instance_of
      → Holds i
      → Holds (start_with m ctx name g i).1.instance_of
  start_with-Holds ctx name g none h hi = h
  start_with-Holds ctx name g (some inst) h hi = start_on-Holds ctx name inst g inst.tracer hi

  end_on-Holds :
      (span : Span) (inst : Instance F) (g : Facade F) (t : Tracing)
      → IsSound inst.metrics
      → Holds (end_on m span inst g t).instance_of
  end_on-Holds span inst g (local t) h =
      let t' =
        Tracer.end_trace m.show_duration m.ambient.now span
          (record t { trace_stack = g.trace_stack; exporter = no_spans g.exporter }) in
      with_exporter-IsSound m (export_spans (or_zero [] t'.exporter)) g.exporter inst.metrics h
  end_on-Holds span inst g (spanned o) h = h

  gauge-Holds :
      (name : Text) (v : F) (g : Facade F)
      → Holds g.instance_of
      → Holds (gauge m name v g).instance_of
  unfolding gauge
  gauge-Holds name v g h = with_metrics-Holds _ g (set_gauge-IsSound m name v) h

  collect-Holds :
      (stats : RuntimeStats) (g : Facade F)
      → Holds g.instance_of
      → Holds (collect_runtime_stats m stats g).instance_of
  unfolding collect_runtime_stats check_auto_pprof
  collect-Holds stats g h =
      let h4 = gauge-Holds _ _ _ (
        gauge-Holds _ _ _ (
          gauge-Holds _ _ _
            (gauge-Holds (codes "go_goroutines") (f.of_int stats.goroutines) g h))) in
      on_instance-Holds _ _ _ h4 (λ inst hi. h4) h4

  tick_on-Holds :
      (stats : RuntimeStats) (g : Facade F) (loops : List Int64)
      → Holds g.instance_of
      → Holds (tick_on m stats g loops).instance_of
  tick_on-Holds stats g [] h = h
  tick_on-Holds stats g (interval ∷ intervals) h = collect-Holds stats g h

  export_on-Holds :
      (c : Otlp.Surroundings) (k : Otlp.Case) (g : Facade F) (e : Option OtlpExporter)
      → Holds g.instance_of
      → Holds (export_on m c k g e).instance_of
  export_on-Holds c k g none h = h
  export_on-Holds c k g (some e) h =
      let e' = running c k (record e { counted = [] }) in
      with_metrics-Holds (count_all m e'.counted)
        (record g { exporter = some (record e' { counted = [] }) }) (count_all-IsSound m e'.counted)
        h

  pub after-Holds :
      (v : Event F) (g : Facade F)
      → passes_nil v ≡ false
      → Holds g.instance_of
      → (g' : Facade F) × (after m v g ≡ some g') × Holds g'.instance_of
  unfolding after log_entry set_log_level set_logger counter counter_with_labels gauge_with_labels
      latency latency_with_labels start_span start_span_nil log_nil_error end_span telemetry_tick
      log_worker export_worker
  after-Holds (calls_log method msg fields) g p h =
      (_, refl, with_logger-Holds (log (ambient_of m g) method msg fields) g h)
  after-Holds (calls_set_log_level level) g p h = (_, refl, with_logger-Holds (set_level level) g h)
  after-Holds (calls_set_logger l) g p h =
      (_, refl, on_instance-Holds _ g g.instance_of h (λ inst hi. hi) h)
  after-Holds (calls_counter name) g p h =
      (_, refl, with_metrics-Holds _ g (inc_counter-IsSound m name) h)
  after-Holds (calls_counter_with_labels name labels) g p h =
      (_, refl, with_metrics-Holds _ g (inc_counter_with_labels-IsSound m name labels) h)
  after-Holds (calls_gauge name value) g p h = (_, refl, gauge-Holds name value g h)
  after-Holds (calls_gauge_with_labels name value labels) g p h =
      (_, refl, with_metrics-Holds _ g (set_gauge_with_labels-IsSound m name value labels) h)
  after-Holds (calls_latency name d) g p h =
      latency_on-Holds _ g g.instance_of (record_latency-Keeps m name d) h h
  after-Holds (calls_latency_with_labels name d labels) g p h =
      latency_on-Holds _ g g.instance_of (record_latency_with_labels-Keeps m name d labels) h h
  after-Holds (calls_start_span ctx name) g p h =
      (_, refl, start_with-Holds ctx name g g.instance_of h h)
  after-Holds (calls_end_span span) g p h = (
    _,
    refl,
    on_instance-Holds _ g g.instance_of h (λ inst hi. end_on-Holds span inst g inst.tracer hi) h,
  )
  after-Holds (calls_start_span_nil instead name) g p h = absurd (cc p)
  after-Holds calls_nil_error g p h = absurd (cc p)
  after-Holds (ticks_telemetry stats) g p h = (_, refl, tick_on-Holds stats g g.loops h)
  after-Holds works_logger g p h = (_, refl, with_logger-Holds async_worker g h)
  after-Holds (exporter_receives_span c) g p h =
      (_, refl, export_on-Holds c Otlp.Case.on_span g g.exporter h)
  after-Holds (exporter_receives_log c) g p h =
      (_, refl, export_on-Holds c Otlp.Case.on_log g g.exporter h)
  after-Holds (exporter_ticks c) g p h =
      (_, refl, export_on-Holds c Otlp.Case.on_tick g g.exporter h)

  nil-keeps :
      (v : Event F) (g g' : Facade F)
      → passes_nil v ≡ true
      → after m v g ≡ some g'
      → Holds g.instance_of
      → Holds g'.instance_of
  unfolding after start_span_nil log_nil_error start_span
  nil-keeps (calls_start_span_nil instead name) g g' p e h =
      let same : (start_span m instead name g).1 ≡ g' = cc (unless_done _ _ g' e) in
      subst (λ x. Holds x.instance_of) same (start_with-Holds instead name g g.instance_of h h)
  nil-keeps calls_nil_error g g' p e h =
      let same : g ≡ g' = cc (unless_done _ g g' e) in subst (λ x. Holds x.instance_of) same h
  nil-keeps _ g g' p e h = absurd (cc p)

  -- What holds before an event holds after it.
  pub after-keeps :
      (v : Event F) (g g' : Facade F)
      → after m v g ≡ some g'
      → Holds g.instance_of
      → Holds g'.instance_of
  after-keeps v g g' e h = elim (Bool-cases (passes_nil v)) [
    | inl p ↦ nil-keeps v g g' p e h
    | inr p ↦
        let (g1, e1, h1) = after-Holds v g p h in
        let same : g1 ≡ g' = cc in subst (λ x. Holds x.instance_of) same h1
  ]

none_of : (b c : Bool) → (b || c) ≡ false → (b ≡ false) × (c ≡ false)
none_of true c p = absurd (cc p)
none_of false c p = (refl, p)

module _ {F : Type 0} ⦃f : Float64 F⦄ where
  -- Whether one of the calls passes a nil error or a nil context.
  abbrev pub some_nil : List (Moment F × Event F) → Bool
  some_nil vs = any (λ e. passes_nil e.1) vs

  -- In any order of the calls of the package and of the rounds of its goroutines, none panics, if the
  -- metrics are valid at the start and no call passes a nil error or a nil context.
  pub run-Holds :
      (vs : List (Moment F × Event F)) (g : Facade F)
      → some_nil vs ≡ false
      → Holds g.instance_of
      → (g' : Facade F) × (run vs g ≡ some g') × Holds g'.instance_of
  unfolding run
  run-Holds [] g p h = (g, refl, h)
  run-Holds ((m, v) ∷ vs) g p h =
      let (here, later) = none_of (passes_nil v) (some_nil vs) p in
      let (g1, e1, h1) = after-Holds m v g here h in
      let (g2, e2, h2) = run-Holds vs g1 later h1 in (g2, ap (λ o. then_run o (run vs)) e1 ∙ e2, h2)
