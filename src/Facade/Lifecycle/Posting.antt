-- ===== src/Facade/Lifecycle/Posting.antt =====
-- observability/observability.go and observability/otlp_exporter.go: what the exporter has posted after `Close`.
use orkai_observability.Otlp
use orkai_observability.Facade.{Facade, Moment, count_all, with_logger, with_metrics}
use orkai_observability.Facade.Lifecycle.{cancel_telemetry, close_all, close_exporter, close_logger}
use orkai_observability.Facade.Lifecycle.Closing.{
  cancel_telemetry-exporter, close-runs, close-stopped,
}
use orkai_observability.Facade.Lifecycle.Accepted.{TookAll}
use orkai_observability.Facade.Lifecycle.Accepting.{later_logs, later_spans, run-Took}
use orkai_observability.Facade.Schedule.{Event, run}
use orkai_observability.Facade.Schedule.Moves.{
  Moved, Moves, PermitsAll, with_logger-Moved, with_metrics-Moved,
}
use orkai_observability.Float64.{Float64}
use orkai_observability.Logger.Delivery.{close}
use orkai_observability.Otlp.{OtlpExporter, Surroundings, export_log, export_span}
use orkai_observability.Otlp.Batches.{posted_logs, posted_spans}
use orkai_observability.Otlp.Order.{held_logs, held_spans, stop-held}
use orkai_observability.Prelude.{
  ◌++◌, Bool-cases, List, Option, Option-cases, [], ap, arith, false, inl, inr, none, refl, some,
  subst, sym, true, ◌∙◌, ◌≡◌,
}

-- Between the rounds of the worker nothing is posted.
posts-Moves : Moves (λ c. true ≡ false) (λ e e'. e'.posts ≡ e.posts)
unfolding export_log export_span
posts-Moves = record {
  stays = λ e. refl;
  joins = λ e e' e'' h h'. h' ∙ h;
  resets = λ e. refl;
  takes_log = λ line e. ground arith;
  takes_span = λ span d e. ground arith;
  rounds = λ c p e. absurd (cc p);
}

module _ {F : Type 0} ⦃f : Float64 F⦄ (m : Moment F) (c : Surroundings) where
  -- The exporter after its worker has stopped.
  abbrev stopped : OtlpExporter → OtlpExporter
  stopped e = record (Otlp.worker c Otlp.on_stop (record e { counted = [] })) { counted = [] }

  abbrev SamePosts : OtlpExporter → Option OtlpExporter → Type 0
  SamePosts e o = (e' : OtlpExporter) × (o ≡ some e') × (e'.posts ≡ e.posts)

  close_exporter-posts :
      (e : OtlpExporter) (g g' : Facade F)
      → close_exporter m c (some e) g ≡ some g'
      → SamePosts (stopped e) g'.exporter
  close_exporter-posts e g g' h = elim (Bool-cases e.worker_alive) [
    | inl alive ↦
        let x = Otlp.worker c Otlp.on_stop (record e { counted = [] }) in
        let g1 = record g { exporter = some (record x { counted = [] }) } in
        let shape : close_exporter m c (some e) g ≡ some (with_metrics (count_all m x.counted) g1) =
          ap (after_close g) (close-runs c (record e { counted = [] }) alive) in
        let same : with_metrics (count_all m x.counted) g1 ≡ g' = cc in
        subst (λ y. SamePosts (stopped e) y.exporter) same
          (with_metrics-Moved posts-Moves m (count_all m x.counted) g1)
    | inr dead ↦
        absurd
          (cc (sym (ap (after_close g) (close-stopped c (record e { counted = [] }) dead)) ∙ h))
  ]
    where
      after_close : Facade F → Option OtlpExporter → Option (Facade F)
      after_close g o = elim o [
        | none ↦ none
        | some e' ↦ some (
            with_metrics (count_all m e'.counted)
              (record g { exporter = some (record e' { counted = [] }) }))
      ]

  close_all-posts :
      (e : OtlpExporter) (g g' : Facade F)
      → g.exporter ≡ some e
      → close_all m c g ≡ some g'
      → SamePosts (stopped e) g'.exporter
  unfolding close_all
  close_all-posts e g g' he h =
      let g0 = cancel_telemetry g.cancel g in
      let shape : close_exporter m c g0.exporter g0 ≡ close_exporter m c (some e) g0 =
        ap (λ o. close_exporter m c o g0) (cancel_telemetry-exporter g.cancel g ∙ he) in
      elim (Option-cases (close_exporter m c (some e) g0)) [
        | inl stuck ↦ absurd (cc (sym (ap (close_logger m) (shape ∙ stuck)) ∙ h))
        | inr (g1, e1) ↦
            let same : with_logger m close g1 ≡ g' =
              some_inj (sym (ap (close_logger m) (shape ∙ e1)) ∙ h) in
            let (x, hx, px) = close_exporter-posts e g0 g1 e1 in
            let (y, hy, py) =
              subst (λ o. Moved (λ e e'. e'.posts ≡ e.posts) o (with_logger m close g1).exporter) hx
                (with_logger-Moved posts-Moves m close g1) in
            (y, sym (ap (λ z. z.exporter) same) ∙ hy, py ∙ px)
      ]
    where
      some_inj : {x y : Facade F} → some x ≡ some y → x ≡ y
      some_inj p = cc p

module _ {F : Type 0} ⦃f : Float64 F⦄ where
  -- After a `Close` that succeeds, exactly these spans and log lines are posted, each once and each kind
  -- in its order: first those that the exporter had posted or held in its batches and its channels
  -- before the run, then those that the calls and the rounds of the run exported, of each call the
  -- first ones, as many as the channel had room for. The run is any sequence of calls that log, count,
  -- measure or trace, or that set the logger or its level, and of rounds of the goroutines. The
  -- surroundings of the exporter's rounds and of `Close` are the same.
  pub close_all-posted :
      (m : Moment F) (c : Surroundings) (vs : List (Moment F × Event F)) (g g1 g2 : Facade F)
      (e : OtlpExporter)
      → PermitsAll (λ c'. c' ≡ c) vs
      → g.exporter ≡ some e
      → run vs g ≡ some g1
      → close_all m c g1 ≡ some g2
      → (e' : OtlpExporter) × (g2.exporter ≡ some e')
        × (posted_spans e'.posts ≡ held_spans c e ++ later_spans c vs g)
        × (posted_logs e'.posts ≡ held_logs c e ++ later_logs c vs g)
  unfolding held_spans held_logs
  close_all-posted m c vs g g1 g2 e p he er ec =
      let (e1, h1, took) =
        subst (λ o. TookAll c (later_spans c vs g) (later_logs c vs g) o g1.exporter) he
          (run-Took c vs g g1 p er) in
      let (e', h', posts) = close_all-posts m c e1 g1 g2 h1 ec in
      let (spans, logs) = stop-held c (record e1 { counted = [] }) in
      (e', h', ap posted_spans posts ∙ spans ∙ took.spans, ap posted_logs posts ∙ logs ∙ took.logs)
