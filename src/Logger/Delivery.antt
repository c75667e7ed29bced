-- ===== src/Logger/Delivery.antt =====
-- observability/logger.go: `JSONLogger`, its level, and the delivery of a formatted entry to the
-- writer, directly or through the buffered channel and its worker. The exporter's channel is the list
-- of the lines handed to it; a call of the facade's `Counter` is recorded by its name.
pub mod Worker
mod Tests
use orkai_observability.Limiter.{LogRateLimiter}
use orkai_observability.Prelude.{
  ◌+◌, ◌++◌, Bool, List, Option, [], if◌then◌else◌, false, length, ltb, none, not, some, true, ℕ,
  ◌∷◌,
}
use orkai_observability.Prelude.Int64.{Int64, sle}
use orkai_observability.Table.{Table, lookup}
use orkai_observability.Text.{Text, codes, to_lower}

pub record JsonLogger (F : Type 0) : Type 0 where
  pub writer : List Text
  pub service : Text
  pub environment : Text
  -- a function of the global stack of active trace IDs; `none` is nil
  pub trace_provider : Option (List Text → Text)
  pub rate_limiter : Option (LogRateLimiter F)
  pub level : ℕ
  pub async_enabled : Bool
  pub async_chan : List Text
  pub capacity : ℕ
  -- the goroutine of `asyncWorker`
  pub worker_alive : Bool
  pub counted : List Text
  -- the values set to the gauge of the channel's saturation, as its length and its capacity
  pub saturation : List (ℕ × ℕ)
  -- whether the writer is an `io.Closer`, and how often it was closed
  pub is_closer : Bool
  pub writer_closes : ℕ
  -- `globalExporter`, with the lines handed to it: `none` is nil
  pub exported : Option (List Text)

abbrev pub level_debug : ℕ
level_debug = 0

abbrev pub level_info : ℕ
level_info = 1

abbrev pub level_warn : ℕ
level_warn = 2

abbrev pub level_error : ℕ
level_error = 3

abbrev pub level_map : Table ℕ
level_map =
    (codes "debug", level_debug)
    ∷ (codes "info", level_info)
    ∷ (codes "warn", level_warn)
    ∷ (codes "error", level_error)
    ∷ []

-- `size` after the default of `ConfigureAsync`.
abbrev pub channel_size : Int64 → ℕ
channel_size size = if sle size 0 then 4096 else size

abbrev pub export_log : Text → Option (List Text) → Option (List Text)
export_log line none = none
export_log line (some lines) = some (lines ++ line ∷ [])

abbrev pub dropped : Text
dropped = codes "observability_dropped_logs_total"

module _ {F : Type 0} where
  unfoldable pub new_json_logger : Bool → Text → JsonLogger F
  new_json_logger is_closer service = record {
    writer = [];
    service = service;
    environment = [];
    trace_provider = none;
    rate_limiter = none;
    level = level_info;
    async_enabled = false;
    async_chan = [];
    capacity = 0;
    worker_alive = false;
    counted = [];
    saturation = [];
    is_closer = is_closer;
    writer_closes = 0;
    exported = none;
  }

  unfoldable pub set_environment : Text → JsonLogger F → JsonLogger F
  set_environment env l = record l { environment = env }

  unfoldable pub set_rate_limiter : Option (LogRateLimiter F) → JsonLogger F → JsonLogger F
  set_rate_limiter limiter l = record l { rate_limiter = limiter }

  unfoldable pub set_trace_provider : Option (List Text → Text) → JsonLogger F → JsonLogger F
  set_trace_provider provider l = record l { trace_provider = provider }

  unfoldable pub set_level : Text → JsonLogger F → JsonLogger F
  unfolding lookup to_lower
  set_level level_str l = elim (lookup (to_lower level_str) level_map) [
    | none ↦ l
    | some val ↦ record l { level = val }
  ]

  unfoldable pub configure_async : Bool → Int64 → JsonLogger F → JsonLogger F
  configure_async enabled size l =
      if enabled
      then record l {
        async_enabled = true;
        async_chan = [];
        capacity = channel_size size;
        worker_alive = true;
      }
      else l

  unfoldable pub deliver_log : Text → JsonLogger F → JsonLogger F
  deliver_log line l =
      let l1 = record l { exported = export_log line l.exported } in
      let l2 = record l1 { saturation = l.saturation ++ (length l.async_chan, l.capacity) ∷ [] } in
      if not l.async_enabled
      then record l1 { writer = l.writer ++ line ∷ [] }
      else if ltb (length l.async_chan) l.capacity
      then record l2 { async_chan = l.async_chan ++ line ∷ [] }
      else record l2 { counted = l.counted ++ dropped ∷ []; writer = l.writer ++ line ∷ [] }

  -- One round of `asyncWorker` that receives a line.
  abbrev pub received : JsonLogger F → List Text → JsonLogger F
  received l [] = l
  received l (line ∷ lines) = record l { async_chan = lines; writer = l.writer ++ line ∷ [] }

  unfoldable pub async_worker : JsonLogger F → JsonLogger F
  async_worker l = if l.worker_alive then received l l.async_chan else l

  -- The worker sees `asyncStop`, writes what is in the channel and ends.
  unfoldable pub flush_chan : JsonLogger F → JsonLogger F
  flush_chan l =
      if l.worker_alive
      then record l { async_chan = []; writer = l.writer ++ l.async_chan; worker_alive = false }
      else l

  -- The last statement of `Close` for the asynchronous part.
  unfoldable pub disable_async : JsonLogger F → JsonLogger F
  disable_async l = record l { async_enabled = false }

  abbrev pub close_writer : JsonLogger F → JsonLogger F
  close_writer l = if l.is_closer then record l { writer_closes = l.writer_closes + 1 } else l

  -- The error of the writer's own `Close` is not modelled.
  unfoldable pub close : JsonLogger F → JsonLogger F
  unfolding flush_chan disable_async
  close l = close_writer (if l.async_enabled then disable_async (flush_chan l) else l)
