-- ===== src/Facade/Counting/Parts.antt =====
-- observability/observability.go: what the parts of the calls of the package add to a counter.
use orkai_observability.Otlp
use orkai_observability.Tracer
use orkai_observability.Context.{Context}
use orkai_observability.Facade.{
  Facade, Instance, Metering, Moment, Tracing, count_all, export_logs, export_spans, gauge_all,
  local, on_instance, recording, spanned, with_exporter, with_logger, with_metrics,
}
use orkai_observability.Facade.Background.{export_on, running}
use orkai_observability.Facade.Calls.{
  end_on, latency_on, no_spans, start_on, start_with, store_metrics,
}
use orkai_observability.Facade.Counting.{
  Adds, Adds-refl, Adds-trans, AddsIn, AddsIn-refl, count_all-Adds, gauge_all-Adds, plus, value_in,
  value_of,
}
use orkai_observability.Facade.Counting.Names.{
  LoggerNamed, Named, export_logs-Named, export_spans-Named, internal_errors,
}
use orkai_observability.Float64.{Float64}
use orkai_observability.Logger.Delivery.{JsonLogger}
use orkai_observability.Otlp.{Case, OtlpExporter, on_log, on_span, on_tick}
use orkai_observability.Prelude.{
  List, Option, [], ap, false, none, refl, some, subst, sym, ℕ, ◌∙◌, ◌≡◌,
}
use orkai_observability.Table.{or_zero}
use orkai_observability.Text.{Text, text_eq}
use orkai_observability.Tracer.{Tracer}
use orkai_observability.Types.{Span}

-- Neither of the counters that the package counts by itself.
pub record IsOwn (k : Text) : Type 0 where
  pub not_dropped : text_eq Otlp.dropped k ≡ false
  pub not_errors : text_eq internal_errors k ≡ false

module _ {F : Type 0} ⦃f : Float64 F⦄ (k : Text) (own : IsOwn k) (m : Moment F) where
  abbrev pub Other : Text → Type 0
  Other name = text_eq name k ≡ false

  -- What the exporter and the logger have counted leaves the counter alone.
  abbrev pub Clean : OtlpExporter → Type 0
  Clean = Named Other own.not_dropped own.not_errors

  abbrev pub CleanLogger : JsonLogger F → Type 0
  CleanLogger = LoggerNamed Other own.not_dropped own.not_errors

  pub on_instance-AddsIn :
      (n : ℕ) (op : Instance F → Facade F) (g : Facade F) (i : Option (Instance F))
      → g.instance_of ≡ i
      → ((inst : Instance F) → value_in k (op inst).instance_of ≡ plus n (value_of k inst.metrics))
      → AddsIn k n g.instance_of (on_instance op g i).instance_of
  on_instance-AddsIn n op g none e adds =
      ap (value_in k) e ∙ ap (λ i. plus n (value_in k i)) (sym e)
  on_instance-AddsIn n op g (some inst) e adds = adds inst ∙ ap (λ i. plus n (value_in k i)) (sym e)

  pub with_metrics-AddsIn :
      (n : ℕ) (op : Metering F → Metering F) (g : Facade F)
      → ((s : Metering F) → Adds k n s (op s))
      → AddsIn k n g.instance_of (with_metrics op g).instance_of
  with_metrics-AddsIn n op g adds =
      on_instance-AddsIn n _ g g.instance_of refl (λ inst. adds inst.metrics)

  with_exporter-Adds :
      (op : OtlpExporter → OtlpExporter) (o : Option OtlpExporter) (s : Metering F)
      → ((e : OtlpExporter) → Clean e → Clean (op e))
      → Adds k 0 s (with_exporter m op o s).1
  with_exporter-Adds op none s named = Adds-refl k s
  with_exporter-Adds op (some e) s named =
      count_all-Adds m k (op (record e { counted = [] })).counted s
        (named (record e { counted = [] }) tt)

  fresh : (o : Option OtlpExporter) (l : JsonLogger F) → CleanLogger (recording o l)
  fresh none l = tt
  fresh (some e) l = tt

  pub with_logger-AddsIn :
      (op : JsonLogger F → JsonLogger F) (g : Facade F)
      → ((l : JsonLogger F) → CleanLogger l → CleanLogger (op l))
      → AddsIn k 0 g.instance_of (with_logger m op g).instance_of
  with_logger-AddsIn op g named = on_instance-AddsIn 0 _ g g.instance_of refl (λ inst.
      let l : JsonLogger F = op (recording g.exporter inst.logger) in
      let lines : List Text = or_zero [] l.exported in
      let s : Metering F = (with_exporter m (export_logs lines) g.exporter inst.metrics).1 in
      let s1 : Metering F = gauge_all m l.saturation s in
      let h : Adds k 0 inst.metrics s =
        with_exporter-Adds (export_logs lines) g.exporter inst.metrics
          (export_logs-Named Other own.not_dropped own.not_errors lines) in
      Adds-trans k 0 0 inst.metrics s1 (count_all m l.counted s1)
        (Adds-trans k 0 0 inst.metrics s s1 h (gauge_all-Adds m k l.saturation s))
        (count_all-Adds m k l.counted s1 (named _ (fresh g.exporter inst.logger))))

  pub same-AddsIn :
      (n : ℕ) (i : Option (Instance F)) (x g' : Facade F)
      → some x ≡ some g'
      → AddsIn k n i x.instance_of
      → AddsIn k n i g'.instance_of
  same-AddsIn n i x g' e h = let e' : x ≡ g' = cc e in subst (λ y. AddsIn k n i y.instance_of) e' h

  pub latency_on-AddsIn :
      (op : Metering F → Option (Metering F)) (g g' : Facade F) (i : Option (Instance F))
      → g.instance_of ≡ i
      → ((s s' : Metering F) → op s ≡ some s' → Adds k 0 s s')
      → latency_on op g i ≡ some g'
      → AddsIn k 0 g.instance_of g'.instance_of
  latency_on-AddsIn op g g' none ei adds e =
      same-AddsIn 0 g.instance_of g g' e (AddsIn-refl k g.instance_of)
  latency_on-AddsIn op g g' (some inst) ei adds e = stored (op inst.metrics) refl e
    where
      stored :
          (o : Option (Metering F))
          → op inst.metrics ≡ o
          → store_metrics inst g o ≡ some g'
          → AddsIn k 0 g.instance_of g'.instance_of
      stored none eo e = absurd (cc e)
      stored (some s) eo e =
          same-AddsIn 0 g.instance_of _ g' e
            (adds inst.metrics s eo ∙ ap (λ j. plus 0 (value_in k j)) (sym ei))

  pub start_with-AddsIn :
      (ctx : Context) (name : Text) (g : Facade F) (i : Option (Instance F))
      → g.instance_of ≡ i
      → AddsIn k 0 g.instance_of (start_with m ctx name g i).1.instance_of
  start_with-AddsIn ctx name g none e = AddsIn-refl k g.instance_of
  start_with-AddsIn ctx name g (some inst) e =
      on_tracer inst.tracer ∙ ap (λ j. plus 0 (value_in k j)) (sym e)
    where
      on_tracer :
          (t : Tracing)
          → value_in k (start_on m ctx name inst g t).1.instance_of
            ≡ plus 0 (value_of k inst.metrics)
      on_tracer (local t) = Adds-refl k inst.metrics
      on_tracer (spanned o) = Adds-refl k inst.metrics

  pub end_on-Adds :
      (span : Span) (inst : Instance F) (g : Facade F) (t : Tracing)
      → value_in k (end_on m span inst g t).instance_of ≡ plus 0 (value_of k inst.metrics)
  end_on-Adds span inst g (local t) =
      let t' =
        Tracer.end_trace m.show_duration m.ambient.now span
          (record t { trace_stack = g.trace_stack; exporter = no_spans g.exporter }) in
      with_exporter-Adds (export_spans (or_zero [] t'.exporter)) g.exporter inst.metrics
        (export_spans-Named Other own.not_dropped own.not_errors (or_zero [] t'.exporter))
  end_on-Adds span inst g (spanned o) = Adds-refl k inst.metrics

  pub export_on-AddsIn :
      (c : Otlp.Surroundings) (j : Case) (g : Facade F) (o : Option OtlpExporter)
      → ((e : OtlpExporter) → Clean e → Clean (running c j e))
      → AddsIn k 0 g.instance_of (export_on m c j g o).instance_of
  export_on-AddsIn c j g none named = AddsIn-refl k g.instance_of
  export_on-AddsIn c j g (some e) named =
      let e' = running c j (record e { counted = [] }) in
      with_metrics-AddsIn 0 (count_all m e'.counted)
        (record g { exporter = some (record e' { counted = [] }) })
        (λ s. count_all-Adds m k e'.counted s (named (record e { counted = [] }) tt))
