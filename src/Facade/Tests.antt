-- ===== src/Facade/Tests.antt =====
-- A log entry of the facade at concrete inputs.
use orkai_observability.Facade.{Instance, in_memory, local, empty_facade}
use orkai_observability.Facade.Calls.{log_entry}
use orkai_observability.Facade.Exported.{held, log_entry_exported, placed, queued}
use orkai_observability.Facade.Sample.{config, moment}
use orkai_observability.Float64.{thousandths}
use orkai_observability.Logger.Delivery.{new_json_logger}
use orkai_observability.Logger.Entries.{logs_warn}
use orkai_observability.Metrics.Store.{new_in_memory_metrics}
use orkai_observability.Otlp.{OtlpExporter}
use orkai_observability.Prelude.{[], none, refl, some, true, ℕ, ◌∷◌, ◌≡◌}
use orkai_observability.Text.{Text, codes}
use orkai_observability.Tracer.{new_local_tracer}

-- A logger with room for one line in its channel.
abbrev waiting : Instance ℕ
waiting = record {
  logger = record (new_json_logger true (codes "svc")) {
    level = 1;
    rate_limiter = none;
    async_enabled = true;
    capacity = 1;
  };
  metrics = in_memory (new_in_memory_metrics (codes "svc"));
  tracer = local (new_local_tracer (codes "svc") [] none);
  config = config;
}

abbrev busy_exporter : OtlpExporter
busy_exporter = record {
  endpoint = codes "http://c";
  service_name = codes "svc";
  interval = 5000000000;
  spans_chan = [];
  logs_chan = codes "x" ∷ [];
  spans = [];
  logs = [];
  worker_alive = true;
  posts = [];
  counted = [];
}

log_entry_exported_example :
    let g' =
      log_entry moment logs_warn
        (codes "hi")
        []
        (record empty_facade { instance_of = some waiting; exporter = some busy_exporter }) in
    (line : Text) × (inst' : Instance ℕ) × (e' : OtlpExporter) × (g'.instance_of ≡ some inst')
    × (g'.exporter ≡ some e')
    × (held inst'.logger ≡ placed line waiting.logger)
    × (e'.logs_chan ≡ queued line (codes "x" ∷ []))
    × (e'.spans_chan ≡ [])
log_entry_exported_example =
    log_entry_exported moment logs_warn (codes "hi") [] waiting busy_exporter empty_facade refl refl
