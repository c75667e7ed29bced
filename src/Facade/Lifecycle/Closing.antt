-- ===== src/Facade/Lifecycle/Closing.antt =====
-- observability/observability.go: `Close` after any use of the package, and a second `Close`.
use orkai_observability.Otlp
use orkai_observability.Config.{Config}
use orkai_observability.Facade.{
  Facade, Instance, Metering, Moment, export_logs, on_instance, recording, settle, with_exporter,
  count_all, with_logger, with_metrics, empty_facade,
}
use orkai_observability.Facade.Lifecycle.{
  cancel_telemetry, close_exporter, close_all, close_logger, init,
}
use orkai_observability.Facade.Lifecycle.Opening.{init-instance}
use orkai_observability.Facade.Schedule.{Event, run}
use orkai_observability.Facade.Schedule.Open.{is_open, export_logs-alive, run-IsOpen}
use orkai_observability.Facade.Schedule.Safety.{run-Holds, some_nil}
use orkai_observability.Float64.{Float64}
use orkai_observability.Logger.Delivery.{close, JsonLogger}
use orkai_observability.Otlp.{OtlpExporter, new_otlp_exporter}
use orkai_observability.Prelude.{
  Bool, Bool-cases, Option, [], false, inl, inr, none, refl, some, true, ◌≡◌, ap, not, ◌∙◌, sym,
  List, is_some,
}
use orkai_observability.RotatingFile.{Files, SystemCalls}
use orkai_observability.Table.{or_zero}

pub cancel_telemetry-exporter :
    {F : Type 0} (c : Option Bool) (g : Facade F) → (cancel_telemetry c g).exporter ≡ g.exporter
cancel_telemetry-exporter none g = refl
cancel_telemetry-exporter (some false) g = refl
cancel_telemetry-exporter (some true) g = refl

pub close-runs :
    (c : Otlp.Surroundings) (x : OtlpExporter)
    → x.worker_alive ≡ true
    → Otlp.close c x ≡ some (Otlp.worker c Otlp.Case.on_stop x)
unfolding Otlp.close
close-runs c x hx = rw hx refl

pub close-stopped :
    (c : Otlp.Surroundings) (x : OtlpExporter) → x.worker_alive ≡ false → Otlp.close c x ≡ none
unfolding Otlp.close
close-stopped c x hx = rw hx refl

module _ {F : Type 0} ⦃f : Float64 F⦄ where
  with_exporter-open :
      (m : Moment F) (op : OtlpExporter → OtlpExporter) (e : Option OtlpExporter) (s : Metering F)
      → ((e' : OtlpExporter) → (op e').worker_alive ≡ e'.worker_alive)
      → is_open (with_exporter m op e s).0 ≡ is_open e
  with_exporter-open m op none s keep = refl
  with_exporter-open m op (some e) s keep = keep (record e { counted = [] })

  with_logger-open :
      (m : Moment F) (op : JsonLogger F → JsonLogger F) (g : Facade F) (i : Option (Instance F))
      → is_open
          (on_instance
            (λ inst. settle m (op (recording g.exporter inst.logger)) inst g)
            g
            i).exporter
        ≡ is_open g.exporter
  with_logger-open m op g none = refl
  with_logger-open m op g (some inst) =
      let lines = or_zero [] (op (recording g.exporter inst.logger)).exported in
      with_exporter-open m (export_logs lines) g.exporter inst.metrics (export_logs-alive lines)

  on_instance-exporter :
      (op : Instance F → Facade F) (g : Facade F) (i : Option (Instance F))
      → ((inst : Instance F) → (op inst).exporter ≡ g.exporter)
      → (on_instance op g i).exporter ≡ g.exporter
  on_instance-exporter op g none keep = refl
  on_instance-exporter op g (some inst) keep = keep inst

  -- `Close` of an exporter that runs leaves one that does not run.
  close_exporter-open :
      (m : Moment F) (c : Otlp.Surroundings) (e : Option OtlpExporter) (g : Facade F)
      → g.exporter ≡ e
      → is_open e ≡ true
      → (g' : Facade F) × (close_exporter m c e g ≡ some g')
        × (is_open g'.exporter ≡ not (is_some e))
  unfolding Otlp.worker
  close_exporter-open m c none g he h = (g, refl, ap is_open he)
  close_exporter-open m c (some e) g he h =
      let e1 = record e { counted = [] } in
      let e2 = Otlp.worker c Otlp.Case.on_stop e1 in
      (
        with_metrics (count_all m e2.counted)
            (record g { exporter = some (record e2 { counted = [] }) }),
        ap
            (λ o. elim o [
              | none ↦ none
              | some e' ↦ some (
                  with_metrics (count_all m e'.counted)
                    (record g { exporter = some (record e' { counted = [] }) }))
            ])
            (close-runs c e1 h),
        ap is_open (
            on_instance-exporter _ (record g { exporter = some (record e2 { counted = [] }) })
              g.instance_of (λ inst. refl)),
      )

  pub close_all-open :
      (m : Moment F) (c : Otlp.Surroundings) (g : Facade F)
      → is_open g.exporter ≡ true
      → (g' : Facade F) × (close_all m c g ≡ some g')
        × (is_open g'.exporter ≡ not (is_some g.exporter))
  unfolding close_all
  close_all-open m c g h =
      let g0 = cancel_telemetry g.cancel g in
      let e0 = cancel_telemetry-exporter g.cancel g in
      let (g1, e1, h1) = close_exporter-open m c g0.exporter g0 refl (ap is_open e0 ∙ h) in
      (
        with_logger m close g1,
        ap (close_logger m) e1,
        with_logger-open m close g1 g1.instance_of ∙ h1 ∙ ap (λ e. not (is_some e)) e0,
      )

  close_all-stopped :
      (m : Moment F) (c : Otlp.Surroundings) (e : Option OtlpExporter) (g : Facade F)
      → is_open e ≡ false
      → close_exporter m c e g ≡ none
  close_all-stopped m c none g h = absurd (cc)
  close_all-stopped m c (some e) g h =
      ap
        (λ o. elim o [
          | none ↦ none
          | some e' ↦ some (
              with_metrics (count_all m e'.counted)
                (record g { exporter = some (record e' { counted = [] }) }))
        ])
        (close-stopped c (record e { counted = [] }) h)

  -- `Close` panics when the exporter is closed already, and not otherwise.
  pub close_all-panics :
      (m : Moment F) (c : Otlp.Surroundings) (g : Facade F)
      → is_some (close_all m c g) ≡ is_open g.exporter
  unfolding close_all
  close_all-panics m c g =
      let g0 = cancel_telemetry g.cancel g in
      let e0 = cancel_telemetry-exporter g.cancel g in
      elim (Bool-cases (is_open g.exporter)) [
        | inl h ↦ let (g', e, h') = close_all-open m c g h in ap is_some e ∙ sym h
        | inr h ↦
            ap (λ o. is_some (close_logger m o))
              (close_all-stopped m c g0.exporter g0 (ap is_open e0 ∙ h))
            ∙ sym h
      ]

  -- After a `Close` that succeeds, another one panics when an exporter is configured, and succeeds
  -- when none is.
  pub close_all-again :
      (m m' : Moment F) (c c' : Otlp.Surroundings) (g g' : Facade F)
      → close_all m c g ≡ some g'
      → is_some (close_all m' c' g') ≡ not (is_some g.exporter)
  close_all-again m m' c c' g g' e =
      let h : is_open g.exporter ≡ true = sym (close_all-panics m c g) ∙ ap is_some e in
      let (g1, e1, h1) = close_all-open m c g h in
      let same : g1 ≡ g' = cc in
      close_all-panics m' c' g' ∙ ap (λ x. is_open x.exporter) (sym same) ∙ h1

  -- After an `Init` of the package that succeeds, no calls that log, count, measure or trace, or that
  -- set a `JSONLogger` or the level of the logger, and no rounds of the goroutines panic, in any
  -- order and at any times, if no call passes a nil error or a nil context; and `Close` does not
  -- panic after them.
  pub close_all-run :
      (m m' : Moment F) (c : SystemCalls) (files : Files) (cfg : Config F) (o : Otlp.Surroundings)
      (vs : List (Moment F × Event F))
      → (init m c files cfg empty_facade).0 ≡ none
      → some_nil vs ≡ false
      → (g : Facade F) × (run vs (init m c files cfg empty_facade).1 ≡ some g)
        × (is_some (close_all m' o g) ≡ true)
  close_all-run m m' c files cfg o vs e p =
      let (hi, ho) = init-instance m c files cfg e in
      let g0 = (init m c files cfg empty_facade).1 in
      let (g, er, hg) = run-Holds vs g0 p hi in
      (g, er, close_all-panics m' o g ∙ run-IsOpen vs g0 g er ho)
