-- ===== src/Facade/Lifecycle/Ending.antt =====
-- observability/observability.go: the telemetry loops that `Close` ends.
use orkai_observability.Otlp
use orkai_observability.Config.{Config}
use orkai_observability.Facade.{Facade, Moment, count_all, with_logger, with_metrics}
use orkai_observability.Facade.Lifecycle.{
  cancel_telemetry, close_all, close_exporter, close_logger, init, init_system_telemetry, installed,
  configured, telemetry_interval,
}
use orkai_observability.Facade.Lifecycle.Opening.{init_as_installed}
use orkai_observability.Facade.Schedule.{Event, run}
use orkai_observability.Facade.Schedule.Loops.{Loops, on_instance-Loops, run-Loops, same-Loops}
use orkai_observability.Float64.{Float64}
use orkai_observability.Logger.Delivery.{close, JsonLogger}
use orkai_observability.Prelude.{
  List, Option, Option-cases, [], ap, drop, inl, inr, none, refl, some, sym, true, ◌∙◌, ◌∷◌, ◌≡◌,
}
use orkai_observability.RotatingFile.{Files, SystemCalls}

module _ {F : Type 0} ⦃f : Float64 F⦄ where
  close_logger-Loops :
      (m : Moment F) (g g' : Facade F) → close_logger m (some g) ≡ some g' → Loops g g'
  close_logger-Loops m g g' e =
      same-Loops g (with_logger m close g) g' e
        (on_instance-Loops _ g g.instance_of (λ inst. (refl, refl)))

  close_exporter-Loops :
      (m : Moment F) (c : Otlp.Surroundings) (e : Option Otlp.OtlpExporter) (g g' : Facade F)
      → close_exporter m c e g ≡ some g'
      → Loops g g'
  close_exporter-Loops m c none g g' e = same-Loops g g g' e (refl, refl)
  close_exporter-Loops m c (some x) g g' e = closed (Otlp.close c (record x { counted = [] })) e
    where
      closed :
          (o : Option Otlp.OtlpExporter)
          → (elim o [
            | none ↦ none
            | some e' ↦ some (
                with_metrics
                  (count_all m e'.counted)
                  (record g { exporter = some (record e' { counted = [] }) }))
          ])
            ≡ some g'
          → Loops g g'
      closed none e = absurd (cc)
      closed (some x') e =
          let g1 = record g { exporter = some (record x' { counted = [] }) } in
          same-Loops g _ g' e (on_instance-Loops _ g1 g1.instance_of (λ inst. (refl, refl)))

  close_all-Loops :
      (m : Moment F) (c : Otlp.Surroundings) (g g' : Facade F)
      → close_all m c g ≡ some g'
      → g'.loops ≡ (cancel_telemetry g.cancel g).loops
  unfolding close_all
  close_all-Loops m c g g' e =
      let g0 = cancel_telemetry g.cancel g in
      elim (Option-cases (close_exporter m c g0.exporter g0)) [
        | inl stuck ↦ absurd (cc (sym (ap (close_logger m) stuck) ∙ e))
        | inr (g1, e1) ↦
            let h = close_exporter-Loops m c g0.exporter g0 g1 e1 in
            let h' = close_logger-Loops m g1 g' (sym (ap (close_logger m) e1) ∙ e) in h'.0 ∙ h.0
      ]

  installed-loops :
      (m : Moment F) (cfg : Config F) (logger : JsonLogger F) (g : Facade F)
      → cfg.enable_system_telemetry ≡ true
      → let g' = installed m cfg logger g in
        (g'.loops ≡ telemetry_interval cfg.system_telemetry_interval ∷ g.loops)
        × (g'.cancel ≡ some true)
  unfolding init_system_telemetry
  installed-loops m cfg logger g h = rw h (refl, refl)

  -- `Close` ends the telemetry loop that the last `Init` started, whatever was called between the two,
  -- and no other: the loops that ran before that `Init` still run. The `Init` and the `Close`
  -- succeed, and the config enables the telemetry.
  pub close_all-loops :
      (m m' : Moment F) (c : SystemCalls) (files : Files) (cfg : Config F) (o : Otlp.Surroundings)
      (vs : List (Moment F × Event F)) (g g1 g2 : Facade F)
      → cfg.enable_system_telemetry ≡ true
      → (init m c files cfg g).0 ≡ none
      → run vs (init m c files cfg g).1 ≡ some g1
      → close_all m' o g1 ≡ some g2
      → g2.loops ≡ g.loops
  close_all-loops m m' c files cfg o vs g g1 g2 h e er ec =
      let g0 = (init m c files cfg g).1 in
      let same = init_as_installed m c files cfg g e in
      let (loops, cancel) = installed-loops m cfg (configured m cfg) g h in
      let (loops1, cancel1) = run-Loops vs g0 g1 er in
      close_all-Loops m' o g1 g2 ec
      ∙ ap (λ x. (cancel_telemetry x g1).loops) (cancel1 ∙ ap (λ x. x.cancel) same ∙ cancel)
      ∙ ap (drop 1) (loops1 ∙ ap (λ x. x.loops) same ∙ loops)
