-- ===== src/Facade/Lifecycle/Opening.antt =====
-- observability/observability.go: what `Init` leaves.
use orkai_observability.Config.{Config}
use orkai_observability.Facade.{Facade, Moment, empty_facade}
use orkai_observability.Facade.Lifecycle.{
  init, init_metrics_and_tracer, init_system_telemetry, configured, init_logger, installed,
  open_log, install,
}
use orkai_observability.Facade.Schedule.Open.{is_open}
use orkai_observability.Facade.Soundness.{Holds, IsSound}
use orkai_observability.Float64.{Float64}
use orkai_observability.Logger.Delivery.{JsonLogger}
use orkai_observability.Metrics.Store.Validity.{new-IsValid}
use orkai_observability.Otlp.{new_otlp_exporter}
use orkai_observability.Prelude.{
  Bool-cases, [], inl, inr, none, refl, some, true, ◌≡◌, ap, ◌∙◌, sym, Option-cases, subst,
}
use orkai_observability.Prelude.Int64.{Int64}
use orkai_observability.RotatingFile.{Error, Files, SystemCalls}
use orkai_observability.Text.{Text, text_eq}

new_otlp_exporter-open :
    (endpoint service : Text) (interval : Int64)
    → is_open (new_otlp_exporter endpoint service interval) ≡ true
unfolding new_otlp_exporter
new_otlp_exporter-open endpoint service interval = elim (Bool-cases (text_eq endpoint [])) [
  | inl e ↦ rw e refl
  | inr e ↦ rw e refl
]

module _ {F : Type 0} ⦃f : Float64 F⦄ where
  init_metrics_and_tracer-IsSound :
      (m : Moment F) (cfg : Config F) → IsSound (init_metrics_and_tracer m cfg).0
  unfolding init_metrics_and_tracer
  init_metrics_and_tracer-IsSound m cfg = elim (Bool-cases cfg.enable_otel) [
    | inl e ↦ rw e (new-IsValid cfg.service_name)
    | inr e ↦ rw e (new-IsValid cfg.service_name)
  ]

  init_system_telemetry-instance_of :
      (m : Moment F) (cfg : Config F) (g : Facade F)
      → (init_system_telemetry m cfg g).instance_of ≡ g.instance_of
  unfolding init_system_telemetry
  init_system_telemetry-instance_of m cfg g = elim (Bool-cases cfg.enable_system_telemetry) [
    | inl e ↦ rw e refl
    | inr e ↦ rw e refl
  ]

  installed-Holds :
      (m : Moment F) (cfg : Config F) (logger : JsonLogger F) (g : Facade F)
      → Holds (installed m cfg logger g).instance_of
  installed-Holds m cfg logger g =
      subst Holds (sym (init_system_telemetry-instance_of m cfg _))
        (init_metrics_and_tracer-IsSound m cfg)

  init_logger-opened :
      (m : Moment F) (c : SystemCalls) (files : Files) (cfg : Config F)
      → open_log m c files cfg ≡ none
      → init_logger m c files cfg ≡ (some (configured m cfg), none)
  unfolding init_logger
  init_logger-opened m c files cfg e = rw (e, init_logger) refl

  init_logger-refused :
      (m : Moment F) (c : SystemCalls) (files : Files) (cfg : Config F) (err : Error)
      → open_log m c files cfg ≡ some err
      → init_logger m c files cfg ≡ (none, some err)
  unfolding init_logger
  init_logger-refused m c files cfg err e = rw (e, init_logger) refl

  init-opened :
      (m : Moment F) (c : SystemCalls) (files : Files) (cfg : Config F) (g : Facade F)
      → open_log m c files cfg ≡ none
      → init m c files cfg g ≡ (none, installed m cfg (configured m cfg) g)
  unfolding init
  init-opened m c files cfg g e = ap (install m cfg g) (init_logger-opened m c files cfg e)

  init-refused :
      (m : Moment F) (c : SystemCalls) (files : Files) (cfg : Config F) (g : Facade F) (err : Error)
      → open_log m c files cfg ≡ some err
      → init m c files cfg g ≡ (some err, g)
  unfolding init
  init-refused m c files cfg g err e =
      ap (install m cfg g) (init_logger-refused m c files cfg err e)

  -- An `Init` that succeeds has installed an instance.
  pub init_as_installed :
      (m : Moment F) (c : SystemCalls) (files : Files) (cfg : Config F) (g : Facade F)
      → (init m c files cfg g).0 ≡ none
      → (init m c files cfg g).1 ≡ installed m cfg (configured m cfg) g
  init_as_installed m c files cfg g e = elim (Option-cases (open_log m c files cfg)) [
    | inl n ↦ ap (λ r. r.1) (init-opened m c files cfg g n)
    | inr (err, h) ↦ absurd (cc (sym (ap (λ r. r.0) (init-refused m c files cfg g err h)) ∙ e))
  ]

  pub init-instance :
      (m : Moment F) (c : SystemCalls) (files : Files) (cfg : Config F)
      → (init m c files cfg empty_facade).0 ≡ none
      → Holds (init m c files cfg empty_facade).1.instance_of
        × (is_open (init m c files cfg empty_facade).1.exporter ≡ true)
  init-instance m c files cfg e =
      subst (λ g. Holds g.instance_of × (is_open g.exporter ≡ true))
        (sym (init_as_installed m c files cfg empty_facade e))
        (
          installed-Holds m cfg (configured m cfg) empty_facade,
          new_otlp_exporter-open cfg.otlp_endpoint cfg.service_name cfg.export_interval,
        )
