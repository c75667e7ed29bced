-- ===== src/Facade/Background.antt =====
-- observability/sys_telemetry.go, and the goroutines that run beside the calls: the telemetry loop, the
-- worker of the logger and the worker of the exporter, one round at a time.
use mathlib.Core.Option
use orkai_observability.Otlp
use orkai_observability.Facade.{Facade, Moment, count_all, with_logger, with_metrics, on_instance}
use orkai_observability.Facade.Calls.{gauge}
use orkai_observability.Float64.{Float64}
use orkai_observability.Logger.Delivery.{async_worker}
use orkai_observability.Otlp.{OtlpExporter}
use orkai_observability.Prelude.{[], if◌then◌else◌, none, some, ◌∷◌, List, Option}
use orkai_observability.Prelude.Int64.{Int64}
use orkai_observability.Profiler.{check_and_trigger}
use orkai_observability.Text.{codes}

-- What `runtime` gives at a tick; the numbers of bytes are below 2 ^ 63.
pub record RuntimeStats : Type 0 where
  pub goroutines : Int64
  pub heap_alloc : Int64
  pub heap_sys : Int64
  pub num_gc : Int64

-- A round of the exporter's worker in one of its cases, as long as it runs.
abbrev pub running : Otlp.Surroundings → Otlp.Case → OtlpExporter → OtlpExporter
running c k e = if e.worker_alive then Otlp.worker c k e else e

module _ {F : Type 0} ⦃f : Float64 F⦄ (m : Moment F) where
  unfoldable pub check_auto_pprof : Int64 → Int64 → Facade F → Facade F
  unfolding check_and_trigger
  check_auto_pprof goroutines heap_alloc g =
      on_instance
        (λ inst. record g {
          profiler =
              Option.map (check_and_trigger inst.config.pprof goroutines heap_alloc m.ambient.now)
                g.profiler;
        })
        g g.instance_of

  unfoldable pub collect_runtime_stats : RuntimeStats → Facade F → Facade F
  unfolding gauge check_auto_pprof
  collect_runtime_stats stats g =
      let g1 = gauge m (codes "go_goroutines") (f.of_int stats.goroutines) g in
      let g2 = gauge m (codes "go_mem_heap_alloc_bytes") (f.of_int stats.heap_alloc) g1 in
      let g3 = gauge m (codes "go_mem_heap_sys_bytes") (f.of_int stats.heap_sys) g2 in
      let g4 = gauge m (codes "go_gc_completed_count") (f.of_int stats.num_gc) g3 in
      check_auto_pprof stats.goroutines stats.heap_alloc g4

  -- A tick of a loop of `runTelemetryLoop`, if one runs.
  abbrev pub tick_on : RuntimeStats → Facade F → List Int64 → Facade F
  tick_on stats g [] = g
  tick_on stats g (interval ∷ intervals) = collect_runtime_stats stats g

  unfoldable pub telemetry_tick : RuntimeStats → Facade F → Facade F
  unfolding collect_runtime_stats
  telemetry_tick stats g = tick_on stats g g.loops

  unfoldable pub log_worker : Facade F → Facade F
  unfolding async_worker
  log_worker g = with_logger m async_worker g

  abbrev pub export_on : Otlp.Surroundings → Otlp.Case → Facade F → Option OtlpExporter → Facade F
  export_on c k g none = g
  export_on c k g (some e) =
      let e' = running c k (record e { counted = [] }) in
      with_metrics (count_all m e'.counted)
        (record g { exporter = some (record e' { counted = [] }) })

  unfoldable pub export_worker : Otlp.Surroundings → Otlp.Case → Facade F → Facade F
  unfolding Otlp.worker
  export_worker c k g = export_on c k g g.exporter
