-- ===== src/Facade/Exported.antt =====
-- observability/logger.go and observability/observability.go: a log entry on its way to the writer and to the
-- exporter.
use orkai_observability.Facade.{
  Facade, Instance, Moment, ambient_of, export_logs, recording, settle,
}
use orkai_observability.Facade.Calls.{log_entry}
use orkai_observability.Float64.{Float64}
use orkai_observability.Logger.Delivery.{JsonLogger, deliver_log}
use orkai_observability.Logger.Entries.{
  Ambient, Method, debug, debug_context, error_text, error_text_context, format_entry, info,
  info_context, level_of, log, logs_debug, logs_debug_context, logs_error, logs_error_context,
  logs_info, logs_info_context, logs_warn, logs_warn_context, warn, warn_context, write_entry,
  entry_under,
}
use orkai_observability.Otlp.{OtlpExporter, export_log, channel_capacity}
use orkai_observability.Prelude.{
  List, ap, if◌then◌else◌, false, ltb, none, ℕ, ◌∙◌, ◌≡◌, ◌&&◌, ◌++◌, Bool-cases, [], inl, inr,
  length, refl, some, ◌∷◌,
}
use orkai_observability.Table.{or_zero}
use orkai_observability.Text.{Text}
use orkai_observability.Types.{Field}

-- The channel of the exporter after a line.
abbrev pub queued : Text → List Text → List Text
queued line chan = if ltb (length chan) channel_capacity then chan ++ line ∷ [] else chan

export_log-queued :
    (line : Text) (e : OtlpExporter)
    → ((export_log line e).logs_chan ≡ queued line e.logs_chan)
      × ((export_log line e).spans_chan ≡ e.spans_chan)
unfolding export_log
export_log-queued line e = elim (Bool-cases (ltb (length e.logs_chan) channel_capacity)) [
  | inl h ↦ rw h (refl, refl)
  | inr h ↦ rw h (refl, refl)
]

module _ {F : Type 0} ⦃f : Float64 F⦄ where
  -- An entry that passes the level, without a limiter.
  passes :
      (a : Ambient F) (low : ℕ) (level trace_id msg : Text) (fields : List Field) (l : JsonLogger F)
      → ltb low l.level ≡ false
      → l.rate_limiter ≡ none
      → (if ltb low l.level then l else write_entry a level trace_id msg fields l)
        ≡ deliver_log (format_entry a level trace_id msg fields l) l
  unfolding write_entry
  passes a low level trace_id msg fields l h none_set =
      ap (λ b. if b then l else write_entry a level trace_id msg fields l) h
      ∙ ap (entry_under a level trace_id msg fields l) none_set

  log-delivers :
      (a : Ambient F) (m : Method) (msg : Text) (fields : List Field) (l : JsonLogger F)
      → ltb (level_of m) l.level ≡ false
      → l.rate_limiter ≡ none
      → (line : Text) × (log a m msg fields l ≡ deliver_log line l)
  unfolding log debug info warn error_text debug_context info_context warn_context
      error_text_context
  log-delivers a logs_debug msg fields l h n = (_, passes a _ _ _ msg _ l h n)
  log-delivers a logs_info msg fields l h n = (_, passes a _ _ _ msg _ l h n)
  log-delivers a logs_warn msg fields l h n = (_, passes a _ _ _ msg _ l h n)
  log-delivers a (logs_error err) msg fields l h n = (_, passes a _ _ _ msg _ l h n)
  log-delivers a (logs_debug_context ctx) msg fields l h n = (_, passes a _ _ _ msg _ l h n)
  log-delivers a (logs_info_context ctx) msg fields l h n = (_, passes a _ _ _ msg _ l h n)
  log-delivers a (logs_warn_context ctx) msg fields l h n = (_, passes a _ _ _ msg _ l h n)
  log-delivers a (logs_error_context ctx err) msg fields l h n = (_, passes a _ _ _ msg _ l h n)

  -- The lines in the writer, and those in the channel.
  abbrev pub held : JsonLogger F → List Text × List Text
  held l = (l.writer, l.async_chan)

  -- Where a line goes: to the channel if the logger is asynchronous and it has room, else to the writer.
  abbrev pub placed : Text → JsonLogger F → List Text × List Text
  placed line l =
      if l.async_enabled && ltb (length l.async_chan) l.capacity
      then (l.writer, l.async_chan ++ line ∷ [])
      else (l.writer ++ line ∷ [], l.async_chan)

  deliver_log-placed :
      (line : Text) (e : OtlpExporter) (l : JsonLogger F)
      → let l' = deliver_log line (recording (some e) l) in
        (l'.exported ≡ some (line ∷ [])) × (held l' ≡ placed line l)
  unfolding deliver_log
  deliver_log-placed line e l = elim (Bool-cases l.async_enabled) [
    | inl h ↦ elim (Bool-cases (ltb (length l.async_chan) l.capacity)) [
      | inl h' ↦ rw (h, h') (refl, refl)
      | inr h' ↦ rw (h, h') (refl, refl)
    ]
    | inr h ↦ rw h (refl, refl)
  ]

  settled :
      (m : Moment F) (line : Text) (l : JsonLogger F) (inst : Instance F) (e : OtlpExporter)
      (g : Facade F)
      → l.exported ≡ some (line ∷ [])
      → let g' = settle m l inst (record g { exporter = some e }) in
        (inst' : Instance F) × (e' : OtlpExporter) × (g'.instance_of ≡ some inst')
        × (g'.exporter ≡ some e')
        × (held inst'.logger ≡ held l)
        × (e'.logs_chan ≡ queued line e.logs_chan)
        × (e'.spans_chan ≡ e.spans_chan)
  settled m line l inst e g h =
      let e1 = export_logs (or_zero [] l.exported) (record e { counted = [] }) in
      let same : e1 ≡ export_log line (record e { counted = [] }) =
        ap (λ x. export_logs (or_zero [] x) (record e { counted = [] })) h in
      let (logs, spans) = export_log-queued line (record e { counted = [] }) in
      (
        _,
        record e1 { counted = [] },
        refl,
        refl,
        refl,
        ap (λ x. x.logs_chan) same ∙ logs,
        ap (λ x. x.spans_chan) same ∙ spans,
      )

  -- An entry of the package that passes the level of a logger without a limiter has one line, which goes
  -- once to the channel of the logger or, when that is full or the logger is not asynchronous, to
  -- its writer; and the same line goes once to the channel of the exporter, unless that is full.
  pub log_entry_exported :
      (m : Moment F) (method : Method) (msg : Text) (fields : List Field) (inst : Instance F)
      (e : OtlpExporter) (g : Facade F)
      → ltb (level_of method) inst.logger.level ≡ false
      → inst.logger.rate_limiter ≡ none
      → let g' =
          log_entry m method msg fields (record g { instance_of = some inst; exporter = some e }) in
        (line : Text) × (inst' : Instance F) × (e' : OtlpExporter) × (g'.instance_of ≡ some inst')
        × (g'.exporter ≡ some e')
        × (held inst'.logger ≡ placed line inst.logger)
        × (e'.logs_chan ≡ queued line e.logs_chan)
        × (e'.spans_chan ≡ e.spans_chan)
  unfolding log_entry
  log_entry_exported m method msg fields inst e g h none_set =
      let g0 = record g { instance_of = some inst; exporter = some e } in
      let l0 = recording (some e) inst.logger in
      let l' = log (ambient_of m g0) method msg fields l0 in
      let (line, by_line) = log-delivers (ambient_of m g0) method msg fields l0 h none_set in
      let (exported, place) = deliver_log-placed line e inst.logger in
      let (inst', e', ei, ee, pair, logs, spans) =
        settled m line l' inst e g0 (ap (λ x. x.exported) by_line ∙ exported) in
      (line, inst', e', ei, ee, pair ∙ ap held by_line ∙ place, logs, spans)
