-- ===== src/Logger/Entries.antt =====
-- observability/logger.go: the methods that log an entry, from the level check over the rate limiter
-- and the format to the delivery. What a call reads outside the logger is an argument.
pub mod Levels
pub mod Secrets
mod Tests
use orkai_observability.Context.{Context, baggage_from_context, trace_id_from_context}
use orkai_observability.Float64.{Float64}
use orkai_observability.Limiter.{LogRateLimiter, allow}
use orkai_observability.Logger.Delivery.{
  JsonLogger, deliver_log, dropped, level_debug, level_error, level_info, level_warn,
}
use orkai_observability.Logger.Format.{Patterns, format_dev_console, format_json}
use orkai_observability.Prelude.{
  ◌++◌, Bool, List, Option, [], if◌then◌else◌, false, length, ltb, none, some, true, ℕ, ◌∷◌,
}
use orkai_observability.Prelude.Int64.{Int64}
use orkai_observability.Table.{Table}
use orkai_observability.Text.{Text, codes, text_eq}
use orkai_observability.Text.Decimal.{format_int}
use orkai_observability.Types.{Field, new_string_field}

-- What a call reads: the clock of the rate limiter, the time of day, the registered keys and patterns,
-- the global stack of active trace IDs, the OpenTelemetry span of a context, and the frames of
-- `runtime.CallersFrames` with function and line.
pub record Ambient (F : Type 0) : Type 0 where
  pub seconds : Int64 → F
  pub now : ℕ
  pub time_of_day : Text
  pub sensitive : List Text
  pub patterns : Patterns
  pub trace_stack : List Text
  pub otel : Context → Option Text
  pub frames : List (Text × ℕ)

-- The builder so far, and the frames that are left.
abbrev pub stack_text : Text → List (Text × ℕ) → Text
stack_text builder [] = builder
stack_text builder ((function, line) ∷ frames) =
    stack_text
      (if text_eq function []
        then builder
        else (if ltb 0 (length builder) then builder ++ codes "; " else builder)
          ++ (function ++ (codes ":" ++ format_int line)))
      frames

unfoldable pub capture_stack_trace : List (Text × ℕ) → Text
unfolding format_int
capture_stack_trace frames = stack_text [] frames

abbrev pub baggage_fields : Table Text → List Field
baggage_fields [] = []
baggage_fields ((k, v) ∷ bag) = new_string_field (codes "baggage." ++ k) v ∷ baggage_fields bag

unfoldable pub append_baggage_fields : Context → List Field → List Field
unfolding baggage_from_context new_string_field
append_baggage_fields ctx fields = fields ++ baggage_fields (baggage_from_context (some ctx))

-- The fields of `Error` before those of the baggage.
abbrev pub error_fields : Text → List (Text × ℕ) → List Field → List Field
error_fields err frames fields =
    let stack = capture_stack_trace frames in
    let err_fields = fields ++ new_string_field (codes "error") err ∷ [] in
    if text_eq stack []
    then err_fields
    else err_fields ++ new_string_field (codes "stack_trace") stack ∷ []

module _ {F : Type 0} where
  -- if l.traceProvider != nil { traceID = l.traceProvider() }
  abbrev pub provided_trace_id : Ambient F → JsonLogger F → Text
  provided_trace_id a l = elim l.trace_provider [
    | none ↦ []
    | some provider ↦ provider a.trace_stack
  ]

  unfoldable pub resolve_trace_id : Ambient F → Context → JsonLogger F → Text
  unfolding trace_id_from_context
  resolve_trace_id a ctx l =
      let id = trace_id_from_context a.otel (some ctx) in
      if text_eq id [] then provided_trace_id a l else id

  abbrev pub is_dev : JsonLogger F → Bool
  is_dev l = text_eq l.environment (codes "dev")

  unfoldable pub format_entry : Ambient F → Text → Text → Text → List Field → JsonLogger F → Text
  unfolding format_dev_console format_json
  format_entry a level trace_id msg fields l =
      if is_dev l
      then format_dev_console a.patterns a.time_of_day level trace_id msg fields
      else format_json a.sensitive a.patterns level l.service trace_id msg fields

module _ {F : Type 0} ⦃f : Float64 F⦄ where
  abbrev pub deliver_entry :
      Ambient F → Text → Text → Text → List Field → JsonLogger F → JsonLogger F
  deliver_entry a level trace_id msg fields l =
      deliver_log (format_entry a level trace_id msg fields l) l

  -- What `writeEntry` does with the answer of the limiter.
  abbrev pub limited :
      Ambient F → Text → Text → Text → List Field → JsonLogger F → Bool × Bool → JsonLogger F
  limited a level trace_id msg fields l (false, throttled) = record l {
    counted = l.counted ++ dropped ∷ [];
  }
  limited a level trace_id msg fields l (true, true) =
      deliver_entry a level trace_id msg
        (fields ++ new_string_field (codes "log_burst_throttled") (codes "true") ∷ []) l
  limited a level trace_id msg fields l (true, false) = deliver_entry a level trace_id msg fields l

  abbrev pub entry_under :
      Ambient F
      → Text
      → Text
      → Text
      → List Field
      → JsonLogger F
      → Option (LogRateLimiter F)
      → JsonLogger F
  entry_under a level trace_id msg fields l none = deliver_entry a level trace_id msg fields l
  entry_under a level trace_id msg fields l (some limiter) =
      let (answer, limiter') = allow a.seconds a.now limiter in
      limited a level trace_id msg fields (record l { rate_limiter = some limiter' }) answer

  unfoldable pub write_entry :
      Ambient F → Text → Text → Text → List Field → JsonLogger F → JsonLogger F
  unfolding allow format_entry deliver_log
  write_entry a level trace_id msg fields l =
      entry_under a level trace_id msg fields l l.rate_limiter

  unfoldable pub info : Ambient F → Text → List Field → JsonLogger F → JsonLogger F
  unfolding write_entry
  info a msg fields l =
      if ltb level_info l.level
      then l
      else write_entry a (codes "INFO") (provided_trace_id a l) msg fields l

  unfoldable pub debug : Ambient F → Text → List Field → JsonLogger F → JsonLogger F
  unfolding write_entry
  debug a msg fields l =
      if ltb level_debug l.level
      then l
      else write_entry a (codes "DEBUG") (provided_trace_id a l) msg fields l

  unfoldable pub warn : Ambient F → Text → List Field → JsonLogger F → JsonLogger F
  unfolding write_entry
  warn a msg fields l =
      if ltb level_warn l.level
      then l
      else write_entry a (codes "WARN") (provided_trace_id a l) msg fields l

  -- `Error` of an error that is not nil, whose `err.Error()` is given.
  unfoldable pub error_text : Ambient F → Text → Text → List Field → JsonLogger F → JsonLogger F
  unfolding write_entry capture_stack_trace
  error_text a msg err fields l =
      if ltb level_error l.level
      then l
      else write_entry a (codes "ERROR") (provided_trace_id a l) msg
          (error_fields err a.frames fields) l

  unfoldable pub info_context :
      Ambient F → Context → Text → List Field → JsonLogger F → JsonLogger F
  unfolding write_entry resolve_trace_id append_baggage_fields
  info_context a ctx msg fields l =
      if ltb level_info l.level
      then l
      else write_entry a (codes "INFO") (resolve_trace_id a ctx l) msg
          (append_baggage_fields ctx fields) l

  unfoldable pub debug_context :
      Ambient F → Context → Text → List Field → JsonLogger F → JsonLogger F
  unfolding write_entry resolve_trace_id append_baggage_fields
  debug_context a ctx msg fields l =
      if ltb level_debug l.level
      then l
      else write_entry a (codes "DEBUG") (resolve_trace_id a ctx l) msg
          (append_baggage_fields ctx fields) l

  unfoldable pub warn_context :
      Ambient F → Context → Text → List Field → JsonLogger F → JsonLogger F
  unfolding write_entry resolve_trace_id append_baggage_fields
  warn_context a ctx msg fields l =
      if ltb level_warn l.level
      then l
      else write_entry a (codes "WARN") (resolve_trace_id a ctx l) msg
          (append_baggage_fields ctx fields) l

  unfoldable pub error_text_context :
      Ambient F → Context → Text → Text → List Field → JsonLogger F → JsonLogger F
  unfolding write_entry resolve_trace_id append_baggage_fields capture_stack_trace
  error_text_context a ctx msg err fields l =
      if ltb level_error l.level
      then l
      else write_entry a (codes "ERROR") (resolve_trace_id a ctx l) msg
          (append_baggage_fields ctx (error_fields err a.frames fields)) l

-- The eight methods, with an error that is not nil.
pub data Method : Type 0 where
  logs_debug logs_info logs_warn : Method
  logs_error : Text → Method
  logs_debug_context logs_info_context logs_warn_context : Context → Method
  logs_error_context : Context → Text → Method

abbrev pub level_of : Method → ℕ
level_of logs_debug = level_debug
level_of logs_info = level_info
level_of logs_warn = level_warn
level_of (logs_error err) = level_error
level_of (logs_debug_context ctx) = level_debug
level_of (logs_info_context ctx) = level_info
level_of (logs_warn_context ctx) = level_warn
level_of (logs_error_context ctx err) = level_error

module _ {F : Type 0} ⦃f : Float64 F⦄ where
  unfoldable pub log : Ambient F → Method → Text → List Field → JsonLogger F → JsonLogger F
  unfolding debug info warn error_text debug_context info_context warn_context error_text_context
  log a logs_debug msg fields l = debug a msg fields l
  log a logs_info msg fields l = info a msg fields l
  log a logs_warn msg fields l = warn a msg fields l
  log a (logs_error err) msg fields l = error_text a msg err fields l
  log a (logs_debug_context ctx) msg fields l = debug_context a ctx msg fields l
  log a (logs_info_context ctx) msg fields l = info_context a ctx msg fields l
  log a (logs_warn_context ctx) msg fields l = warn_context a ctx msg fields l
  log a (logs_error_context ctx err) msg fields l = error_text_context a ctx msg err fields l

  -- `Error` and `ErrorContext`: where the level lets the entry through, `err.Error()` of a nil error
  -- panics.
  unfoldable pub error :
      Ambient F → Text → Option Text → List Field → JsonLogger F → Option (JsonLogger F)
  unfolding error_text
  error a msg (some err) fields l = some (error_text a msg err fields l)
  error a msg none fields l = if ltb level_error l.level then some l else none

  unfoldable pub error_context :
      Ambient F → Context → Text → Option Text → List Field → JsonLogger F → Option (JsonLogger F)
  unfolding error_text_context
  error_context a ctx msg (some err) fields l = some (error_text_context a ctx msg err fields l)
  error_context a ctx msg none fields l = if ltb level_error l.level then some l else none
