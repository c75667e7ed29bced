-- ===== src/Logger/Entries/Levels.antt =====
-- observability/logger.go: which entries are written, by the level and by the rate limiter.
use orkai_observability.Float64.{Float64}
use orkai_observability.Limiter.{LogRateLimiter, allow}
use orkai_observability.Logger.Delivery.{JsonLogger, deliver_log, dropped}
use orkai_observability.Logger.Entries.{
  Ambient, Method, debug, debug_context, entry_under, error_text, error_text_context, format_entry,
  info, info_context, level_of, limited, log, logs_debug, logs_debug_context, logs_error,
  logs_error_context, logs_info, logs_info_context, logs_warn, logs_warn_context, warn,
  warn_context, write_entry,
}
use orkai_observability.Prelude.{
  ◌+◌, ◌++◌, Bool, Bool-cases, List, Option, [], ap, append-nil, arith, if◌then◌else◌, false, inl,
  inr, length, length-append, ltb, none, refl, some, subst, sym, true, ℕ, ◌∷◌, ◌≡◌, ◌⊎◌, ◌&&◌, not,
}
use orkai_observability.Text.{Text, codes}
use orkai_observability.Types.{Field, new_string_field}

module _ {F : Type 0} where
  -- The lines that the logger has written or holds in its channel.
  abbrev pub lines : JsonLogger F → ℕ
  lines l = length l.writer + length l.async_chan

  -- What a delivery counts: a line that finds the channel full.
  abbrev pub overflow : JsonLogger F → List Text
  overflow l =
      if l.async_enabled && not (ltb (length l.async_chan) l.capacity) then dropped ∷ [] else []

  deliver_log-lines :
      (line : Text) (l : JsonLogger F)
      → (lines (deliver_log line l) ≡ lines l + 1)
        × ((deliver_log line l).level ≡ l.level)
        × ((deliver_log line l).counted ≡ l.counted ++ overflow l)
  unfolding deliver_log
  deliver_log-lines line l = (
    ground (arith, length-append l.writer (line ∷ []), length-append l.async_chan (line ∷ [])),
    ground arith,
    ground (arith, append-nil l.counted),
  )

module _ {F : Type 0} ⦃f : Float64 F⦄ (a : Ambient F) where
  -- The answer of the limiter, if there is one.
  abbrev pub admits : Option (LogRateLimiter F) → Bool
  admits none = true
  admits (some limiter) = (allow a.seconds a.now limiter).0.0

  -- An entry that is admitted adds one line; one that is refused is counted.
  unfoldable pub Accounts : Bool → JsonLogger F → JsonLogger F → Type 0
  Accounts admitted l l' =
      (lines l' ≡ lines l + (if admitted then 1 else 0))
      × (l'.level ≡ l.level)
      × (l'.counted ≡ l.counted ++ (if admitted then overflow l else dropped ∷ []))

  limited-Accounts :
      (level trace_id msg : Text) (fields : List Field) (l : JsonLogger F) (answer : Bool × Bool)
      → Accounts answer.0 l (limited a level trace_id msg fields l answer)
  unfolding Accounts
  limited-Accounts level trace_id msg fields l (false, throttled) = (omega arith, refl, refl)
  limited-Accounts level trace_id msg fields l (true, true) =
      let d =
        deliver_log-lines
          (format_entry a level trace_id msg
            (fields ++ new_string_field (codes "log_burst_throttled") (codes "true") ∷ []) l)
          l in
      d
  limited-Accounts level trace_id msg fields l (true, false) =
      let d = deliver_log-lines (format_entry a level trace_id msg fields l) l in d

  entry_under-Accounts :
      (level trace_id msg : Text) (fields : List Field) (l : JsonLogger F)
      (limiter : Option (LogRateLimiter F))
      → Accounts (admits limiter) l (entry_under a level trace_id msg fields l limiter)
  unfolding Accounts
  entry_under-Accounts level trace_id msg fields l none =
      let d = deliver_log-lines (format_entry a level trace_id msg fields l) l in d
  entry_under-Accounts level trace_id msg fields l (some limiter) =
      let (answer, limiter') = allow a.seconds a.now limiter in
      limited-Accounts level trace_id msg fields (record l { rate_limiter = some limiter' }) answer

  -- What one call does to the logger, by the level of its method.
  unfoldable pub Logged : ℕ → JsonLogger F → JsonLogger F → Type 0
  Logged low l l' =
      ((ltb low l.level ≡ true) × (l' ≡ l))
      ⊎ ((ltb low l.level ≡ false) × Accounts (admits l.rate_limiter) l l')

  gated-Logged :
      (low : ℕ) (level trace_id msg : Text) (fields : List Field) (l : JsonLogger F)
      → Logged low l (if ltb low l.level then l else write_entry a level trace_id msg fields l)
  unfolding Logged write_entry
  gated-Logged low level trace_id msg fields l = elim (Bool-cases (ltb low l.level)) [
    | inl e ↦ inl (e, ap (λ b. if b then l else write_entry a level trace_id msg fields l) e)
    | inr e ↦ inr (
      e,
      subst (Accounts (admits l.rate_limiter) l)
          (sym (ap (λ b. if b then l else write_entry a level trace_id msg fields l) e))
          (entry_under-Accounts level trace_id msg fields l l.rate_limiter),
    )
  ]

  -- Whatever the method, an entry below the level of the logger changes nothing, not even the tokens of
  -- the limiter. Any other adds exactly one line, to the writer or to the channel, if there is no
  -- limiter or the limiter admits it, and counts one dropped entry just if the channel is full; and
  -- if the limiter refuses it, it adds no line and counts one dropped entry.
  pub log-Logged :
      (m : Method) (msg : Text) (fields : List Field) (l : JsonLogger F)
      → Logged (level_of m) l (log a m msg fields l)
  unfolding log debug info warn error_text debug_context info_context warn_context
      error_text_context
  log-Logged logs_debug msg fields l = gated-Logged _ _ _ msg _ l
  log-Logged logs_info msg fields l = gated-Logged _ _ _ msg _ l
  log-Logged logs_warn msg fields l = gated-Logged _ _ _ msg _ l
  log-Logged (logs_error err) msg fields l = gated-Logged _ _ _ msg _ l
  log-Logged (logs_debug_context ctx) msg fields l = gated-Logged _ _ _ msg _ l
  log-Logged (logs_info_context ctx) msg fields l = gated-Logged _ _ _ msg _ l
  log-Logged (logs_warn_context ctx) msg fields l = gated-Logged _ _ _ msg _ l
  log-Logged (logs_error_context ctx err) msg fields l = gated-Logged _ _ _ msg _ l
