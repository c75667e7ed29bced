-- ===== src/Logger/Entries/Secrets.antt =====
-- observability/logger.go: what an entry in JSON tells of the value of a sensitive field.
use orkai_observability.Float64.{Float64}
use orkai_observability.Limiter.{LogRateLimiter, allow}
use orkai_observability.Logger.Delivery.{JsonLogger, deliver_log}
use orkai_observability.Logger.Entries.{
  Ambient, Method, append_baggage_fields, capture_stack_trace, debug, debug_context, entry_under,
  error_text, error_text_context, error_fields, format_entry, info, info_context, is_dev, limited,
  log, logs_debug, logs_debug_context, logs_error, logs_error_context, logs_info, logs_info_context,
  logs_warn, logs_warn_context, warn, warn_context, write_entry,
}
use orkai_observability.Logger.Format.Masking.{SameShown, format_json_hides}
use orkai_observability.Prelude.{
  ◌++◌, Bool, Bool-cases, List, Option, [], ap, if◌then◌else◌, false, inl, inr, ltb, none, refl,
  some, true, ℕ, ◌∷◌, ◌≡◌,
}
use orkai_observability.Text.{Text, codes, text_eq}
use orkai_observability.Types.{Field, new_string_field}

SameShown-append :
    (sensitive : List Text) (fs gs hs : List Field)
    → SameShown sensitive fs gs
    → SameShown sensitive (fs ++ hs) (gs ++ hs)
unfolding SameShown
SameShown-append sensitive [] [] [] h = tt
SameShown-append sensitive [] [] (x ∷ hs) h =
    (refl, inr refl, SameShown-append sensitive [] [] hs h)
SameShown-append sensitive [] (g ∷ gs) hs h = absurd h
SameShown-append sensitive (f ∷ fs) [] hs h = absurd h
SameShown-append sensitive (f ∷ fs) (g ∷ gs) hs h =
    (h.0, h.1, SameShown-append sensitive fs gs hs h.2)

module _ {F : Type 0} ⦃f : Float64 F⦄ (a : Ambient F) where
  format_entry_hides :
      (level trace_id msg : Text) (fs gs : List Field) (l : JsonLogger F)
      → is_dev l ≡ false
      → SameShown a.sensitive fs gs
      → format_entry a level trace_id msg fs l ≡ format_entry a level trace_id msg gs l
  unfolding format_entry
  format_entry_hides level trace_id msg fs gs l production h =
      rw production (format_json_hides a.sensitive a.patterns level l.service trace_id msg fs gs h)

  limited_hides :
      (level trace_id msg : Text) (fs gs : List Field) (l : JsonLogger F) (answer : Bool × Bool)
      → is_dev l ≡ false
      → SameShown a.sensitive fs gs
      → limited a level trace_id msg fs l answer ≡ limited a level trace_id msg gs l answer
  limited_hides level trace_id msg fs gs l (false, throttled) production h = refl
  limited_hides level trace_id msg fs gs l (true, true) production h =
      let mark : List Field = new_string_field (codes "log_burst_throttled") (codes "true") ∷ [] in
      ap (λ line. deliver_log line l)
        (format_entry_hides level trace_id msg (fs ++ mark) (gs ++ mark) l production
          (SameShown-append a.sensitive fs gs mark h))
  limited_hides level trace_id msg fs gs l (true, false) production h =
      ap (λ line. deliver_log line l) (format_entry_hides level trace_id msg fs gs l production h)

  entry_under_hides :
      (level trace_id msg : Text) (fs gs : List Field) (l : JsonLogger F)
      (limiter : Option (LogRateLimiter F))
      → is_dev l ≡ false
      → SameShown a.sensitive fs gs
      → entry_under a level trace_id msg fs l limiter
        ≡ entry_under a level trace_id msg gs l limiter
  entry_under_hides level trace_id msg fs gs l none production h =
      ap (λ line. deliver_log line l) (format_entry_hides level trace_id msg fs gs l production h)
  entry_under_hides level trace_id msg fs gs l (some limiter) production h =
      let (answer, limiter') = allow a.seconds a.now limiter in
      limited_hides level trace_id msg fs gs (record l { rate_limiter = some limiter' }) answer
        production h

  -- One of the methods, once the level is passed and the fields are complete.
  entry_hides :
      (low : ℕ) (level trace_id msg : Text) (fs gs : List Field) (l : JsonLogger F)
      → is_dev l ≡ false
      → SameShown a.sensitive fs gs
      → (if ltb low l.level then l else write_entry a level trace_id msg fs l)
        ≡ (if ltb low l.level then l else write_entry a level trace_id msg gs l)
  unfolding write_entry
  entry_hides low level trace_id msg fs gs l production h =
      ap (λ r. if ltb low l.level then l else r)
        (entry_under_hides level trace_id msg fs gs l l.rate_limiter production h)

  error_fields-SameShown :
      (err : Text) (fs gs : List Field)
      → SameShown a.sensitive fs gs
      → SameShown a.sensitive (error_fields err a.frames fs) (error_fields err a.frames gs)
  error_fields-SameShown err fs gs h =
      let mark : List Field = new_string_field (codes "error") err ∷ [] in
      let trace : List Field =
        new_string_field (codes "stack_trace") (capture_stack_trace a.frames) ∷ [] in
      let short = SameShown-append a.sensitive fs gs mark h in
      elim (Bool-cases (text_eq (capture_stack_trace a.frames) [])) [
        | inl e ↦ rw e short
        | inr e ↦ rw e (SameShown-append a.sensitive (fs ++ mark) (gs ++ mark) trace short)
      ]

  -- Outside the dev environment, two calls of any of the eight methods whose fields differ only in
  -- the values of sensitive keys leave the logger in the same state: its writer, channel and exporter
  -- have received the same text, and the limiter and the counters have moved alike.
  pub log_hides :
      (m : Method) (msg : Text) (fs gs : List Field) (l : JsonLogger F)
      → is_dev l ≡ false
      → SameShown a.sensitive fs gs
      → log a m msg fs l ≡ log a m msg gs l
  unfolding log debug info warn error_text debug_context info_context warn_context
      error_text_context append_baggage_fields
  log_hides logs_debug msg fs gs l production h = entry_hides _ _ _ msg fs gs l production h
  log_hides logs_info msg fs gs l production h = entry_hides _ _ _ msg fs gs l production h
  log_hides logs_warn msg fs gs l production h = entry_hides _ _ _ msg fs gs l production h
  log_hides (logs_error err) msg fs gs l production h =
      entry_hides _ _ _ msg (error_fields err a.frames fs) (error_fields err a.frames gs) l
        production (error_fields-SameShown err fs gs h)
  log_hides (logs_debug_context ctx) msg fs gs l production h =
      entry_hides _ _ _ msg _ _ l production (SameShown-append a.sensitive fs gs _ h)
  log_hides (logs_info_context ctx) msg fs gs l production h =
      entry_hides _ _ _ msg _ _ l production (SameShown-append a.sensitive fs gs _ h)
  log_hides (logs_warn_context ctx) msg fs gs l production h =
      entry_hides _ _ _ msg _ _ l production (SameShown-append a.sensitive fs gs _ h)
  log_hides (logs_error_context ctx err) msg fs gs l production h =
      entry_hides _ _ _ msg _ _ l production (
        SameShown-append a.sensitive (error_fields err a.frames fs) (error_fields err a.frames gs) _
          (error_fields-SameShown err fs gs h))
