-- ===== src/Facade/Counting/Names.antt =====
-- observability/observability.go: the names that the exporter and the logger count by themselves.
use orkai_observability.Otlp
use orkai_observability.Facade.{export_logs, export_spans}
use orkai_observability.Facade.Background.{running}
use orkai_observability.Float64.{Float64}
use orkai_observability.Logger.Delivery.{JsonLogger, async_worker, received, set_level, level_map}
use orkai_observability.Logger.Entries.{Ambient, Method, log}
use orkai_observability.Logger.Entries.Levels.{Logged, admits, log-Logged, overflow, Accounts}
use orkai_observability.Otlp.{
  OtlpExporter, Surroundings, export_log, export_span, flush, is_success, on_log, on_span, on_tick,
  post, receive_log, receive_span, send_logs, send_traces, worker,
}
use orkai_observability.Otlp.Payloads.{ExportedSpan, Payload}
use orkai_observability.Prelude.{
  All, All-append, Bool, List, Option, [], false, if◌then◌else◌, inl, inr, length, ltb, subst, sym,
  true, ◌∷◌, none, some, ℕ,
}
use orkai_observability.Prelude.Int64.{Int64}
use orkai_observability.Table.{lookup}
use orkai_observability.Text.{Text, codes, to_lower}
use orkai_observability.Types.{Field, Span}

abbrev pub internal_errors : Text
internal_errors = codes "observability_internal_errors_total"

either {ℓ} : {A : Type ℓ} (Q : A → Type 0) (b : Bool) (x y : A) → Q x → Q y → Q (if b then x else y)
either Q true x y hx hy = hx
either Q false x y hx hy = hy

module _ (P : Text → Type 0) (of_dropped : P Otlp.dropped) (of_errors : P internal_errors) where
  -- Every name that was counted has the property.
  abbrev pub Named : OtlpExporter → Type 0
  Named e = All P e.counted

  export_log-Named : (line : Text) (e : OtlpExporter) → Named e → Named (export_log line e)
  unfolding export_log
  export_log-Named line e h =
      either Named _ _ _ h (All-append P e.counted (Otlp.dropped ∷ []) h (of_dropped, tt))

  export_span-Named :
      (span : Span) (d : Int64) (e : OtlpExporter) → Named e → Named (export_span span d e)
  unfolding export_span
  export_span-Named span d e h =
      either Named _ _ _ h (All-append P e.counted (Otlp.dropped ∷ []) h (of_dropped, tt))

  pub export_logs-Named :
      (lines : List Text) (e : OtlpExporter) → Named e → Named (export_logs lines e)
  export_logs-Named [] e h = h
  export_logs-Named (line ∷ lines) e h =
      export_logs-Named lines (export_log line e) (export_log-Named line e h)

  pub export_spans-Named :
      (spans : List (Span × Int64)) (e : OtlpExporter) → Named e → Named (export_spans spans e)
  export_spans-Named [] e h = h
  export_spans-Named ((span, d) ∷ spans) e h =
      export_spans-Named spans (export_span span d e) (export_span-Named span d e h)

  module _ (c : Surroundings) where
    post-Named : (url : Text) (p : Payload) (e : OtlpExporter) → Named e → Named (post c url p e)
    unfolding post
    post-Named url p e h =
        either Named _ _ _ h (All-append P e.counted (internal_errors ∷ []) h (of_errors, tt))

    flush-Named :
        (ss : List ExportedSpan) (ls : List Text) (e : OtlpExporter)
        → Named e
        → Named (flush c ss ls e)
    unfolding flush send_traces send_logs
    flush-Named ss ls e h =
        let e1 : OtlpExporter = if ltb 0 (length ss) then send_traces c ss e else e in
        let h1 : Named e1 = either Named _ _ _ (post-Named _ _ e h) h in
        either Named (ltb 0 (length ls)) (send_logs c ls e1) e1 (post-Named _ _ e1 h1) h1

    receive_span-Named :
        (chan : List ExportedSpan) (e : OtlpExporter) → Named e → Named (receive_span c chan e)
    receive_span-Named [] e h = h
    receive_span-Named (s ∷ chan) e h = h

    receive_log-Named :
        (chan : List Text) (e : OtlpExporter) → Named e → Named (receive_log c chan e)
    receive_log-Named [] e h = h
    receive_log-Named (l ∷ chan) e h = h

    -- The rounds of the worker, but for the last.
    pub running-Named :
        (e : OtlpExporter)
        → Named e
        → Named (running c on_span e) × Named (running c on_log e) × Named (running c on_tick e)
    unfolding worker
    running-Named e h = (
      either Named e.worker_alive _ _ (receive_span-Named e.spans_chan e h) h,
      either Named e.worker_alive _ _ (receive_log-Named e.logs_chan e h) h,
      either Named e.worker_alive _ _ (flush-Named e.spans e.logs e h) h,
    )

  module _ {F : Type 0} where
    abbrev pub LoggerNamed : JsonLogger F → Type 0
    LoggerNamed l = All P l.counted

    pub async_worker-Named : (l : JsonLogger F) → LoggerNamed l → LoggerNamed (async_worker l)
    unfolding async_worker
    async_worker-Named l h = either LoggerNamed l.worker_alive _ _ (rest l.async_chan) h
      where
        rest : (chan : List Text) → LoggerNamed (received l chan)
        rest [] = h
        rest (line ∷ lines) = h

    pub set_level-Named :
        (level : Text) (l : JsonLogger F) → LoggerNamed l → LoggerNamed (set_level level l)
    unfolding set_level
    set_level-Named level l h = found (lookup (to_lower level) level_map)
      where
        found :
            (o : Option ℕ) → LoggerNamed (elim o [ none ↦ l | some val ↦ record l { level = val } ])
        found none = h
        found (some val) = h

  module _ {F : Type 0} ⦃f : Float64 F⦄ (a : Ambient F) where
    overflow-Named : (l : JsonLogger F) → All P (overflow l)
    overflow-Named l = either (All P) _ (Otlp.dropped ∷ []) [] (of_dropped, tt) tt

    pub log-Named :
        (method : Method) (msg : Text) (fields : List Field) (l : JsonLogger F)
        → LoggerNamed l
        → LoggerNamed (log a method msg fields l)
    unfolding Logged Accounts
    log-Named method msg fields l h = elim (log-Logged a method msg fields l) [
      | inl (low, same) ↦ subst LoggerNamed (sym same) h
      | inr (high, (lines, level, counted)) ↦ subst (All P) (sym counted) (
          All-append P l.counted _ h (
            either (All P) (admits a l.rate_limiter) (overflow l) (Otlp.dropped ∷ [])
              (overflow-Named l) (of_dropped, tt)))
    ]
