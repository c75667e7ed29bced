-- ===== src/Facade/Schedule/Moves.antt =====
-- observability/observability.go: what happens to the exporter while the package is in use, for any relation
-- that the steps of the exporter respect.
use orkai_observability.Tracer
use orkai_observability.Context.{Context}
use orkai_observability.Facade.{
  Facade, Instance, Metering, Moment, Tracing, count_all, export_logs, export_spans, local,
  on_instance, recording, spanned, with_exporter, with_logger, with_metrics,
}
use orkai_observability.Facade.Background.{export_on, running}
use orkai_observability.Facade.Calls.{
  end_on, latency_on, no_spans, start_on, start_with, store_metrics,
}
use orkai_observability.Facade.Schedule.{
  Event, exporter_receives_log, exporter_receives_span, exporter_ticks,
}
use orkai_observability.Float64.{Float64}
use orkai_observability.Logger.Delivery.{JsonLogger}
use orkai_observability.Otlp.{
  Case, OtlpExporter, Surroundings, export_log, export_span, on_log, on_span, on_tick,
}
use orkai_observability.Prelude.{List, Option, [], none, refl, some, subst, ◌∷◌, ◌≡◌}
use orkai_observability.Prelude.Int64.{Int64}
use orkai_observability.Table.{or_zero}
use orkai_observability.Text.{Text}
use orkai_observability.Tracer.{Tracer}
use orkai_observability.Types.{Span}

-- A relation that holds between an exporter and the one after any step of it, for the surroundings
-- that are allowed.
pub record Moves (Allowed : Surroundings → Type 0) (R : OtlpExporter → OtlpExporter → Type 0)
    : Type 0 where
  pub stays : (e : OtlpExporter) → R e e
  pub joins : (e e' e'' : OtlpExporter) → R e e' → R e' e'' → R e e''
  pub resets : (e : OtlpExporter) → R e (record e { counted = [] })
  pub takes_log : (line : Text) (e : OtlpExporter) → R e (export_log line e)
  pub takes_span : (span : Span) (d : Int64) (e : OtlpExporter) → R e (export_span span d e)
  pub rounds :
      (c : Surroundings)
      → Allowed c
      → (e : OtlpExporter)
      → R e (running c on_span e) × R e (running c on_log e) × R e (running c on_tick e)

-- There is no exporter before and after, or one that has moved.
abbrev pub Moved :
    (OtlpExporter → OtlpExporter → Type 0) → Option OtlpExporter → Option OtlpExporter → Type 0
Moved R none o = o ≡ none
Moved R (some e) o = (e' : OtlpExporter) × (o ≡ some e') × R e e'

module _ {F : Type 0} (Allowed : Surroundings → Type 0) where
  -- The surroundings of a round are allowed.
  abbrev pub Permits : Event F → Type 0
  Permits (exporter_receives_span c) = Allowed c
  Permits (exporter_receives_log c) = Allowed c
  Permits (exporter_ticks c) = Allowed c
  Permits _ = Unit

  abbrev pub PermitsAll : List (Moment F × Event F) → Type 0
  PermitsAll [] = Unit
  PermitsAll ((m, v) ∷ vs) = Permits v × PermitsAll vs

module _ {Allowed : Surroundings → Type 0} {R : OtlpExporter → OtlpExporter → Type 0}
    (r : Moves Allowed R) where
  pub Moved-refl : (o : Option OtlpExporter) → Moved R o o
  Moved-refl none = refl
  Moved-refl (some e) = (e, refl, r.stays e)

  pub Moved-trans : (o o' o'' : Option OtlpExporter) → Moved R o o' → Moved R o' o'' → Moved R o o''
  Moved-trans none o' o'' h h' = subst (λ x. Moved R x o'') h h'
  Moved-trans (some e) o' o'' (e', eq, h) h' =
      let (e'', eq', h'') = subst (λ x. Moved R x o'') eq h' in (e'', eq', r.joins e e' e'' h h'')

  export_logs-R : (lines : List Text) (e : OtlpExporter) → R e (export_logs lines e)
  export_logs-R [] e = r.stays e
  export_logs-R (line ∷ lines) e =
      r.joins e (export_log line e) _ (r.takes_log line e) (export_logs-R lines (export_log line e))

  export_spans-R : (spans : List (Span × Int64)) (e : OtlpExporter) → R e (export_spans spans e)
  export_spans-R [] e = r.stays e
  export_spans-R ((span, d) ∷ spans) e =
      r.joins e (export_span span d e) _ (r.takes_span span d e)
        (export_spans-R spans (export_span span d e))

  -- A step between two resets of what was counted.
  between :
      (op : OtlpExporter → OtlpExporter)
      → ((e : OtlpExporter) → R e (op e))
      → (e : OtlpExporter) → R e (record (op (record e { counted = [] })) { counted = [] })
  between op keep e =
      let e1 = record e { counted = [] } in
      r.joins e e1 _ (r.resets e)
        (r.joins e1 (op e1) (record (op e1) { counted = [] }) (keep e1) (r.resets (op e1)))

  module _ {F : Type 0} ⦃f : Float64 F⦄ (m : Moment F) where
    pub with_exporter-Moved :
        (op : OtlpExporter → OtlpExporter) (o : Option OtlpExporter) (s : Metering F)
        → ((e : OtlpExporter) → R e (op e))
        → Moved R o (with_exporter m op o s).0
    with_exporter-Moved op none s keep = refl
    with_exporter-Moved op (some e) s keep = (_, refl, between op keep e)

    pub on_instance-Moved :
        (op : Instance F → Facade F) (g : Facade F) (i : Option (Instance F))
        → ((inst : Instance F) → Moved R g.exporter (op inst).exporter)
        → Moved R g.exporter (on_instance op g i).exporter
    on_instance-Moved op g none keep = Moved-refl g.exporter
    on_instance-Moved op g (some inst) keep = keep inst

    pub with_metrics-Moved :
        (op : Metering F → Metering F) (g : Facade F)
        → Moved R g.exporter (with_metrics op g).exporter
    with_metrics-Moved op g = on_instance-Moved _ g g.instance_of (λ inst. Moved-refl g.exporter)

    pub with_logger-Moved :
        (op : JsonLogger F → JsonLogger F) (g : Facade F)
        → Moved R g.exporter (with_logger m op g).exporter
    with_logger-Moved op g = on_instance-Moved _ g g.instance_of (λ inst.
        let lines = or_zero [] (op (recording g.exporter inst.logger)).exported in
        with_exporter-Moved (export_logs lines) g.exporter inst.metrics (export_logs-R lines))

    pub latency_on-Moved :
        (op : Metering F → Option (Metering F)) (g g' : Facade F) (i : Option (Instance F))
        → latency_on op g i ≡ some g'
        → Moved R g.exporter g'.exporter
    latency_on-Moved op g g' none e =
        let e' : g ≡ g' = cc in
        subst (λ x. Moved R g.exporter x.exporter) e' (Moved-refl g.exporter)
    latency_on-Moved op g g' (some inst) e = stored (op inst.metrics) e
      where
        stored :
            (o : Option (Metering F))
            → store_metrics inst g o ≡ some g'
            → Moved R g.exporter g'.exporter
        stored none e = absurd (cc)
        stored (some s) e =
            let e' : record g { instance_of = some (record inst { metrics = s }) } ≡ g' = cc in
            subst (λ x. Moved R g.exporter x.exporter) e' (Moved-refl g.exporter)

    pub start_with-Moved :
        (ctx : Context) (name : Text) (g : Facade F) (i : Option (Instance F))
        → Moved R g.exporter (start_with m ctx name g i).1.exporter
    start_with-Moved ctx name g none = Moved-refl g.exporter
    start_with-Moved ctx name g (some inst) = started inst.tracer
      where
        started : (t : Tracing) → Moved R g.exporter (start_on m ctx name inst g t).1.exporter
        started (local t) = Moved-refl g.exporter
        started (spanned o) = Moved-refl g.exporter

    pub end_on-Moved :
        (span : Span) (inst : Instance F) (g : Facade F) (t : Tracing)
        → Moved R g.exporter (end_on m span inst g t).exporter
    end_on-Moved span inst g (local t) =
        let t' =
          Tracer.end_trace m.show_duration m.ambient.now span
            (record t { trace_stack = g.trace_stack; exporter = no_spans g.exporter }) in
        with_exporter-Moved (export_spans (or_zero [] t'.exporter)) g.exporter inst.metrics
          (export_spans-R (or_zero [] t'.exporter))
    end_on-Moved span inst g (spanned o) = Moved-refl g.exporter

    pub export_on-Moved :
        (c : Surroundings) (k : Case) (g : Facade F) (o : Option OtlpExporter)
        → ((e : OtlpExporter) → R e (running c k e))
        → Moved R o g.exporter
        → Moved R o (export_on m c k g o).exporter
    export_on-Moved c k g none keep h = h
    export_on-Moved c k g (some e) keep h =
        let e' = running c k (record e { counted = [] }) in
        Moved-trans (some e) (some (record e' { counted = [] })) _
          (_, refl, between (running c k) keep e)
          (with_metrics-Moved (count_all m e'.counted)
            (record g { exporter = some (record e' { counted = [] }) }))
