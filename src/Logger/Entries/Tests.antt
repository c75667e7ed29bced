-- ===== src/Logger/Entries/Tests.antt =====
-- The methods of the logger at concrete inputs.
use orkai_observability.Float64.{thousandths}
use orkai_observability.Logger.Delivery.{JsonLogger, level_warn}
use orkai_observability.Logger.Entries.{
  Ambient, capture_stack_trace, is_dev, log, logs_error, logs_info, logs_warn,
}
use orkai_observability.Logger.Entries.Levels.{Logged, log-Logged}
use orkai_observability.Logger.Entries.Secrets.{log_hides}
use orkai_observability.Logger.Format.{is_sensitive_key, sensitive_keys}
use orkai_observability.Logger.Format.Masking.{SameShown}
use orkai_observability.Prelude.{List, [], false, inl, none, refl, some, true, ℕ, ◌∷◌, ◌≡◌}
use orkai_observability.Text.{Text, codes, text_eq}
use orkai_observability.Tracer.{get_active_trace_id}
use orkai_observability.Types.{Field}

abbrev ambient : Ambient ℕ
ambient = record {
  seconds = λ d. 0;
  now = 5;
  time_of_day = codes "10:00:00";
  sensitive = sensitive_keys;
  patterns = [];
  trace_stack = codes "ab" ∷ [];
  otel = λ ctx. none;
  frames = (codes "main.f", 7) ∷ ([], 0) ∷ (codes "main.main", 9) ∷ [];
}

-- One token is left.
abbrev limited_logger : JsonLogger ℕ
limited_logger = record {
  writer = [];
  service = codes "svc";
  environment = codes "prod";
  trace_provider = some get_active_trace_id;
  rate_limiter = some (record {
    burst = 1;
    rate = 0;
    tokens = 1000;
    last_refill = 5;
    skipped_count = 0;
    enabled = true;
  });
  level = 1;
  async_enabled = false;
  async_chan = [];
  capacity = 0;
  worker_alive = false;
  counted = [];
  saturation = [];
  is_closer = false;
  writer_closes = 0;
  exported = none;
}

frames_text : capture_stack_trace ambient.frames ≡ codes "main.f:7; main.main:9"
unfolding capture_stack_trace text_eq
frames_text = refl

abbrev login : Text → List Field
login secret =
    record { key = codes "password"; str_value = secret; int_value = 0; is_int = false } ∷ []

first_line :
    (log ambient logs_info (codes "hi") (login (codes "x")) limited_logger).writer
    ≡ codes
        "{\"level\":\"INFO\",\"service\":\"svc\",\"trace_id\":\"ab\",\"msg\":\"hi\",\"password\":\"[MASKED]\"}\n"
      ∷ []
unfolding log get_active_trace_id text_eq
first_line = refl

not_dev : is_dev limited_logger ≡ false
unfolding text_eq
not_dev = refl

same_logins : SameShown sensitive_keys (login (codes "x")) (login (codes "yz"))
unfolding SameShown is_sensitive_key text_eq
same_logins = (refl, inl refl, tt)

log-Logged_example :
    Logged ambient level_warn limited_logger
      (log ambient logs_warn (codes "hi") (login (codes "x")) limited_logger)
log-Logged_example = log-Logged ambient logs_warn (codes "hi") (login (codes "x")) limited_logger

log_hides_example :
    log ambient (logs_error (codes "e")) (codes "hi") (login (codes "x")) limited_logger
    ≡ log ambient (logs_error (codes "e")) (codes "hi") (login (codes "yz")) limited_logger
log_hides_example =
    log_hides ambient (logs_error (codes "e")) (codes "hi") (login (codes "x")) (login (codes "yz"))
      limited_logger not_dev same_logins
