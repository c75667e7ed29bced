-- ===== src/Facade/Counting/Calls.antt =====
-- observability/observability.go: what the calls of the package, and the rounds of its goroutines, add
-- to a counter.
use orkai_observability.Facade.{Facade, Moment, ambient_of, Instance, on_instance}
use orkai_observability.Facade.Background.{
  RuntimeStats, check_auto_pprof, collect_runtime_stats, export_worker, log_worker, telemetry_tick,
  tick_on,
}
use orkai_observability.Facade.Calls.{
  counter, counter_with_labels, end_span, gauge, gauge_with_labels, latency, latency_with_labels,
  log_entry, set_log_level, set_logger, start_span, start_span_nil, log_nil_error, unless_done,
}
use orkai_observability.Facade.Counting.{
  Adds-refl, AddsIn, AddsIn-refl, AddsIn-trans, inc_counter-Adds, inc_counter_with_labels-Adds,
  record_latency-Adds, record_latency_with_labels-Adds, set_gauge-Adds, set_gauge_with_labels-Adds,
  value_in,
}
use orkai_observability.Facade.Counting.Names.{
  async_worker-Named, log-Named, running-Named, set_level-Named,
}
use orkai_observability.Facade.Counting.Parts.{
  IsOwn, Other, end_on-Adds, export_on-AddsIn, latency_on-AddsIn, on_instance-AddsIn, same-AddsIn,
  start_with-AddsIn, with_logger-AddsIn, with_metrics-AddsIn,
}
use orkai_observability.Facade.Schedule.{
  Event, after, calls_counter, calls_counter_with_labels, calls_end_span, calls_gauge,
  calls_gauge_with_labels, calls_latency, calls_latency_with_labels, calls_log, calls_set_log_level,
  calls_set_logger, calls_start_span, calls_start_span_nil, calls_nil_error, exporter_receives_log,
  exporter_receives_span, exporter_ticks, run, then_run, ticks_telemetry, works_logger,
}
use orkai_observability.Float64.{Float64}
use orkai_observability.Logger.Delivery.{async_worker, set_level}
use orkai_observability.Logger.Entries.{log}
use orkai_observability.Metrics.Key.{format_metric_key}
use orkai_observability.Otlp.{on_log, on_span, on_tick}
use orkai_observability.Prelude.{
  ◌+◌, List, Option-cases, [], ap, if◌then◌else◌, inl, inr, refl, some, sym, ℕ, ◌∙◌, ◌∷◌, ◌≡◌,
  Option, none, subst,
}
use orkai_observability.Prelude.Int64.{Int64}
use orkai_observability.Text.{Text, codes, text_eq}

module _ {F : Type 0} ⦃f : Float64 F⦄ where
  -- The calls of `Counter` and `CounterWithLabels` under the key.
  abbrev pub called : Text → Event F → ℕ
  called k (calls_counter name) = if text_eq name k then 1 else 0
  called k (calls_counter_with_labels name labels) =
      if text_eq (format_metric_key name labels) k then 1 else 0
  called k _ = 0

  unfoldable pub called_all : Text → List (Moment F × Event F) → ℕ
  called_all k [] = 0
  called_all k ((m, v) ∷ vs) = called k v + called_all k vs

module _ {F : Type 0} ⦃f : Float64 F⦄ (k : Text) (own : IsOwn k) (m : Moment F) where
  pub gauge-AddsIn :
      (name : Text) (v : F) (g : Facade F) → AddsIn k 0 g.instance_of (gauge m name v g).instance_of
  unfolding gauge
  gauge-AddsIn name v g = with_metrics-AddsIn k own m 0 _ g (set_gauge-Adds m k name v)

  same_instance :
      (op : Instance F → Facade F) (g : Facade F) (i : Option (Instance F))
      → ((inst : Instance F) → (op inst).instance_of ≡ g.instance_of)
      → (on_instance op g i).instance_of ≡ g.instance_of
  same_instance op g none same = refl
  same_instance op g (some inst) same = same inst

  tick_on-AddsIn :
      (stats : RuntimeStats) (g : Facade F) (loops : List Int64)
      → AddsIn k 0 g.instance_of (tick_on m stats g loops).instance_of
  unfolding collect_runtime_stats check_auto_pprof
  tick_on-AddsIn stats g [] = AddsIn-refl k g.instance_of
  tick_on-AddsIn stats g (interval ∷ intervals) =
      let g1 = gauge m (codes "go_goroutines") (f.of_int stats.goroutines) g in
      let g2 = gauge m (codes "go_mem_heap_alloc_bytes") (f.of_int stats.heap_alloc) g1 in
      let g3 = gauge m (codes "go_mem_heap_sys_bytes") (f.of_int stats.heap_sys) g2 in
      let g4 = gauge m (codes "go_gc_completed_count") (f.of_int stats.num_gc) g3 in
      let h2 : AddsIn k 0 g.instance_of g2.instance_of =
        AddsIn-trans k 0 0 g.instance_of g1.instance_of g2.instance_of (gauge-AddsIn _ _ g)
          (gauge-AddsIn _ _ g1) in
      let h4 : AddsIn k 0 g2.instance_of g4.instance_of =
        AddsIn-trans k 0 0 g2.instance_of g3.instance_of g4.instance_of (gauge-AddsIn _ _ g2)
          (gauge-AddsIn _ _ g3) in
      AddsIn-trans k 0 0 g.instance_of g4.instance_of _
        (AddsIn-trans k 0 0 g.instance_of g2.instance_of g4.instance_of h2 h4)
        (ap (value_in k) (same_instance _ g4 g4.instance_of (λ inst. refl))
          ∙ AddsIn-refl k g4.instance_of)

  pub after-AddsIn :
      (v : Event F) (g g' : Facade F)
      → after m v g ≡ some g'
      → AddsIn k (called k v) g.instance_of g'.instance_of
  unfolding after log_entry set_log_level set_logger counter counter_with_labels gauge_with_labels
      latency latency_with_labels start_span start_span_nil log_nil_error end_span telemetry_tick
      log_worker export_worker
  after-AddsIn (calls_log method msg fields) g g' e = same-AddsIn k own m 0 g.instance_of _ g' e (
      with_logger-AddsIn k own m (log (ambient_of m g) method msg fields) g (
        log-Named (Other k own m) own.not_dropped own.not_errors (ambient_of m g) method msg
          fields))
  after-AddsIn (calls_set_log_level level) g g' e = same-AddsIn k own m 0 g.instance_of _ g' e (
      with_logger-AddsIn k own m (set_level level) g
        (set_level-Named (Other k own m) own.not_dropped own.not_errors level))
  after-AddsIn (calls_set_logger l) g g' e =
      same-AddsIn k own m 0 g.instance_of _ g' e
        (on_instance-AddsIn k own m 0 _ g g.instance_of refl (λ inst. Adds-refl k inst.metrics))
  after-AddsIn (calls_counter name) g g' e =
      same-AddsIn k own m _ g.instance_of _ g' e
        (with_metrics-AddsIn k own m _ _ g (inc_counter-Adds m k name))
  after-AddsIn (calls_counter_with_labels name labels) g g' e =
      same-AddsIn k own m _ g.instance_of _ g' e
        (with_metrics-AddsIn k own m _ _ g (inc_counter_with_labels-Adds m k name labels))
  after-AddsIn (calls_gauge name value) g g' e =
      same-AddsIn k own m 0 g.instance_of _ g' e (gauge-AddsIn name value g)
  after-AddsIn (calls_gauge_with_labels name value labels) g g' e =
      same-AddsIn k own m 0 g.instance_of _ g' e
        (with_metrics-AddsIn k own m 0 _ g (set_gauge_with_labels-Adds m k name value labels))
  after-AddsIn (calls_latency name d) g g' e =
      latency_on-AddsIn k own m _ g g' g.instance_of refl (record_latency-Adds m k name d) e
  after-AddsIn (calls_latency_with_labels name d labels) g g' e =
      latency_on-AddsIn k own m _ g g' g.instance_of refl
        (record_latency_with_labels-Adds m k name d labels) e
  after-AddsIn (calls_start_span ctx name) g g' e =
      same-AddsIn k own m 0 g.instance_of _ g' e
        (start_with-AddsIn k own m ctx name g g.instance_of refl)
  after-AddsIn (calls_end_span span) g g' e = same-AddsIn k own m 0 g.instance_of _ g' e (
      on_instance-AddsIn k own m 0 _ g g.instance_of refl
        (λ inst. end_on-Adds k own m span inst g inst.tracer))
  after-AddsIn (calls_start_span_nil instead name) g g' e =
      same-AddsIn k own m 0 g.instance_of _ g' (unless_done _ _ g' e)
        (start_with-AddsIn k own m instead name g g.instance_of refl)
  after-AddsIn calls_nil_error g g' e =
      same-AddsIn k own m 0 g.instance_of g g' (unless_done _ g g' e) (AddsIn-refl k g.instance_of)
  after-AddsIn (ticks_telemetry stats) g g' e =
      same-AddsIn k own m 0 g.instance_of _ g' e (tick_on-AddsIn stats g g.loops)
  after-AddsIn works_logger g g' e = same-AddsIn k own m 0 g.instance_of _ g' e (
      with_logger-AddsIn k own m async_worker g
        (async_worker-Named (Other k own m) own.not_dropped own.not_errors))
  after-AddsIn (exporter_receives_span c) g g' e = same-AddsIn k own m 0 g.instance_of _ g' e (
      export_on-AddsIn k own m c on_span g g.exporter
        (λ x h. (running-Named (Other k own m) own.not_dropped own.not_errors c x h).0))
  after-AddsIn (exporter_receives_log c) g g' e = same-AddsIn k own m 0 g.instance_of _ g' e (
      export_on-AddsIn k own m c on_log g g.exporter
        (λ x h. (running-Named (Other k own m) own.not_dropped own.not_errors c x h).1))
  after-AddsIn (exporter_ticks c) g g' e = same-AddsIn k own m 0 g.instance_of _ g' e (
      export_on-AddsIn k own m c on_tick g g.exporter
        (λ x h. (running-Named (Other k own m) own.not_dropped own.not_errors c x h).2))

module _ {F : Type 0} ⦃f : Float64 F⦄ where
  -- With the in-memory metrics, and for a key that is not one of the two counters of the package's own
  -- failures, the counter grows in any order of the calls and the rounds of the goroutines by exactly
  -- the number of the calls of `Counter` and `CounterWithLabels` under the key, as a 64-bit count: no
  -- log entry, span, latency, gauge or background work changes it.
  pub run-counted :
      (k : Text) (vs : List (Moment F × Event F)) (g g' : Facade F)
      → IsOwn k
      → run vs g ≡ some g'
      → AddsIn k (called_all k vs) g.instance_of g'.instance_of
  unfolding run called_all
  run-counted k [] g g' own e =
      let same : g ≡ g' = cc e in
      subst (λ x. AddsIn k 0 g.instance_of x.instance_of) same (AddsIn-refl k g.instance_of)
  run-counted k ((m, v) ∷ vs) g g' own e = elim (Option-cases (after m v g)) [
    | inl stuck ↦ absurd (cc (sym (ap (λ o. then_run o (run vs)) stuck) ∙ e))
    | inr (g1, e1) ↦
        AddsIn-trans k (called k v) (called_all k vs) g.instance_of g1.instance_of g'.instance_of
          (after-AddsIn k own m v g g1 e1)
          (run-counted k vs g1 g' own (sym (ap (λ o. then_run o (run vs)) e1) ∙ e))
  ]
