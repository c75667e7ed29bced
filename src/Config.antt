-- ===== src/Config.antt =====
-- observability/config.go: the settings and their validation. The settings that only the middleware or
-- the profiler reads are grouped in the records of those modules. The providers of OpenTelemetry are
-- arguments of what uses them.
use orkai_observability.Middleware.{PayloadConfig}
use orkai_observability.Prelude.{Bool, Option, [], if◌then◌else◌, none, some}
use orkai_observability.Prelude.Int64.{Int64}
use orkai_observability.Profiler.{PprofConfig}
use orkai_observability.Table.{Table}
use orkai_observability.Text.{Text, codes, text_eq}

pub record Config (F : Type 0) : Type 0 where
  pub service_name : Text
  pub environment : Text
  pub log_level : Text
  pub log_file_path : Text
  pub otlp_endpoint : Text
  pub pprof_output_dir : Text
  pub otlp_headers : Table Text
  pub system_telemetry_interval : Int64
  pub slow_query_threshold : Int64
  pub export_interval : Int64
  pub pprof_profile_duration : Int64
  pub log_file_max_size : Int64
  pub rate_limit_burst : Int64
  pub rate_limit_rate : Int64
  pub async_log_channel_size : Int64
  pub log_file_max_backups : Int64
  pub enable_rate_limit : Bool
  pub enable_async_log : Bool
  pub enable_otel : Bool
  pub enable_system_telemetry : Bool
  pub enable_slow_query_alert : Bool
  pub payload : PayloadConfig F
  pub pprof : PprofConfig

module _ {F : Type 0} where
  -- The message of the error; `none` is nil.
  unfoldable pub validate_config : Config F → Option Text
  validate_config cfg =
      if text_eq cfg.service_name []
      then some (codes "ServiceName cannot be empty")
      else if text_eq cfg.environment []
      then some (codes "Environment cannot be empty")
      else none
