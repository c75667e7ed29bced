-- ===== src/Facade/Lifecycle/Afterwards.antt =====
-- observability/observability.go: calls after `Close`.
use orkai_observability.Otlp
use orkai_observability.Facade.{Facade, Moment, count_all, with_logger, with_metrics}
use orkai_observability.Facade.Background.{running}
use orkai_observability.Facade.Lifecycle.{cancel_telemetry, close_all, close_exporter, close_logger}
use orkai_observability.Facade.Lifecycle.Closing.{close_all-open, close_all-panics}
use orkai_observability.Facade.Schedule.{Event, run}
use orkai_observability.Facade.Schedule.Moves.{Moved, Moves}
use orkai_observability.Facade.Schedule.Moving.{run-Moved}
use orkai_observability.Facade.Schedule.Open.{PermitsAll-any, is_open}
use orkai_observability.Facade.Schedule.Safety.{
  run-Holds, some_nil, with_logger-Holds, with_metrics-Holds,
}
use orkai_observability.Facade.Soundness.{Holds, count_all-IsSound}
use orkai_observability.Float64.{Float64}
use orkai_observability.Logger.Delivery.{close}
use orkai_observability.Otlp.{OtlpExporter, Surroundings, export_log, export_span}
use orkai_observability.Prelude.{
  arith, Bool, [], List, Option, Option-cases, ap, false, true, inl, inr, is_some, none, not, refl,
  some, sym, subst, ◌∙◌, ◌≡◌, if◌then◌else◌,
}

-- Once the worker has stopped, it stays stopped, and nothing is posted.
abbrev Quiet : OtlpExporter → OtlpExporter → Type 0
Quiet e e' = e.worker_alive ≡ false → (e'.worker_alive ≡ false) × (e'.posts ≡ e.posts)

running-Quiet : (c : Surroundings) (k : Otlp.Case) (e : OtlpExporter) → Quiet e (running c k e)
running-Quiet c k e h =
    let same : running c k e ≡ e = ap (λ b. if b then Otlp.worker c k e else e) h in
    (ap (λ x. x.worker_alive) same ∙ h, ap (λ x. x.posts) same)

Quiet-Moves : Moves (λ c. Unit) Quiet
unfolding export_log export_span
Quiet-Moves = record {
  stays = λ e h. (h, refl);
  joins = λ e e' e'' q q' h. let (a, p) = q h in let (a', p') = q' a in (a', p' ∙ p);
  resets = λ e h. (h, refl);
  takes_log = λ line e h. (ground arith, ground arith);
  takes_span = λ span d e h. (ground arith, ground arith);
  rounds = λ c p e. (
    running-Quiet c Otlp.Case.on_span e,
    running-Quiet c Otlp.Case.on_log e,
    running-Quiet c Otlp.Case.on_tick e,
  );
}

module _ {F : Type 0} ⦃f : Float64 F⦄ (m : Moment F) (c : Surroundings) where
  cancel_telemetry-instance :
      (o : Option Bool) (g : Facade F) → (cancel_telemetry o g).instance_of ≡ g.instance_of
  cancel_telemetry-instance none g = refl
  cancel_telemetry-instance (some false) g = refl
  cancel_telemetry-instance (some true) g = refl

  Holds-same : (g1 g' : Facade F) → some g1 ≡ some g' → Holds g1.instance_of → Holds g'.instance_of
  Holds-same g1 g' eq h = let same : g1 ≡ g' = cc eq in subst (λ x. Holds x.instance_of) same h

  close_exporter-Holds :
      (e : Option OtlpExporter) (g g' : Facade F)
      → close_exporter m c e g ≡ some g'
      → Holds g.instance_of
      → Holds g'.instance_of
  close_exporter-Holds none g g' eq h = Holds-same g g' eq h
  close_exporter-Holds (some x) g g' eq h = closed (Otlp.close c (record x { counted = [] })) eq
    where
      closed :
          (o : Option OtlpExporter)
          → (elim o [
            | none ↦ none
            | some e' ↦ some (
                with_metrics
                  (count_all m e'.counted)
                  (record g { exporter = some (record e' { counted = [] }) }))
          ])
            ≡ some g'
          → Holds g'.instance_of
      closed none eq = absurd (cc eq)
      closed (some e') eq = Holds-same _ g' eq (
          with_metrics-Holds m (count_all m e'.counted)
            (record g { exporter = some (record e' { counted = [] }) })
            (count_all-IsSound m e'.counted) h)

  close_all-Holds :
      (g g' : Facade F) → close_all m c g ≡ some g' → Holds g.instance_of → Holds g'.instance_of
  unfolding close_all
  close_all-Holds g g' e h =
      let g0 = cancel_telemetry g.cancel g in
      let h0 : Holds g0.instance_of = subst Holds (sym (cancel_telemetry-instance g.cancel g)) h in
      elim (Option-cases (close_exporter m c g0.exporter g0)) [
        | inl stuck ↦ absurd (cc (sym (ap (close_logger m) stuck) ∙ e))
        | inr (g1, e1) ↦
            Holds-same (with_logger m close g1) g' (sym (ap (close_logger m) e1) ∙ e)
              (with_logger-Holds m close g1 (close_exporter-Holds g0.exporter g0 g1 e1 h0))
      ]

  -- An exporter that does not run.
  stopped_exporter :
      (o : Option OtlpExporter)
      → is_open o ≡ false
      → (e : OtlpExporter) × (o ≡ some e) × (e.worker_alive ≡ false)
  stopped_exporter none h = absurd (cc h)
  stopped_exporter (some e) h = (e, refl, h)

  -- After a `Close` that succeeds while an exporter is configured, calls that log, count, measure or
  -- trace, or that set a `JSONLogger` or the level of the logger, and rounds of the goroutines do not
  -- panic, in any order and at any times, if none passes a nil error or a nil context; but nothing is
  -- posted any more, whatever they export, and a further `Close` panics. The metrics are valid before
  -- the `Close`.
  pub close_all-quiet :
      (vs : List (Moment F × Event F)) (g g1 : Facade F) (e : OtlpExporter)
      → some_nil vs ≡ false
      → Holds g.instance_of
      → g.exporter ≡ some e
      → close_all m c g ≡ some g1
      → (g2 : Facade F) × (e1 : OtlpExporter) × (e2 : OtlpExporter) × (run vs g1 ≡ some g2)
        × (g1.exporter ≡ some e1)
        × (g2.exporter ≡ some e2)
        × (e2.posts ≡ e1.posts)
        × (is_some (close_all m c g2) ≡ false)
  close_all-quiet vs g g1 e p h he ec =
      let alive : is_open g.exporter ≡ true = sym (close_all-panics m c g) ∙ ap is_some ec in
      let (g', e', o') = close_all-open m c g alive in
      let same : g' ≡ g1 = cc in
      let shut : is_open g1.exporter ≡ false =
        ap (λ x. is_open x.exporter) (sym same) ∙ o' ∙ ap (λ o. not (is_some o)) he in
      let (e1, h1, dead) = stopped_exporter g1.exporter shut in
      let (g2, er, h2) = run-Holds vs g1 p (close_all-Holds g g1 ec h) in
      let (e2, h2', q) =
        subst (λ o. Moved Quiet o g2.exporter) h1
          (run-Moved Quiet-Moves vs g1 g2 (PermitsAll-any vs) er) in
      let (dead2, posts) = q dead in
      (g2, e1, e2, er, h1, h2', posts, close_all-panics m c g2 ∙ ap is_open h2' ∙ dead2)
