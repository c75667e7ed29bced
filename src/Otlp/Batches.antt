-- ===== src/Otlp/Batches.antt =====
-- observability/otlp_exporter.go: what a flush of the batches posts.
use orkai_observability.Otlp.{OtlpExporter, Surroundings, post, flush, send_logs, send_traces}
use orkai_observability.Otlp.Payloads.{
  ExportedSpan, OtlpLogRecord, OtlpSpan, Payload, Unmarshal, body_of, trace_id_of,
  build_logs_payload, build_records, build_spans, build_traces_payload, logs_payload,
  traces_payload,
}
use orkai_observability.Prelude.{
  ◌+◌, ◌++◌, List, [], ap, append-nil, append_assoc, arith, map, refl, sym, ℕ, ◌∙◌, ◌∷◌, ◌≡◌, Bool,
  if◌then◌else◌, length, ltb, subst, suc, true,
}
use orkai_observability.Prelude.Int64.{add}
use orkai_observability.Text.{Text, codes}
use orkai_observability.Text.Decimal.{format_int}

-- What is seen of a span: its trace ID and its name, and its start and its end in decimal.
abbrev pub SpanView : Type 0
SpanView = Text × Text × Text × Text

abbrev pub shown : ExportedSpan → SpanView
shown s = (
  s.span.trace_id,
  s.span.name,
  format_int s.span.start_time,
  format_int (add s.span.start_time s.duration),
)

-- What is seen of a log record: its body and its trace ID.
abbrev pub LogView : Type 0
LogView = Text × Text

abbrev shown_spans : List OtlpSpan → List SpanView
shown_spans = map (λ s. (s.trace_id, s.name, s.start_time_unix_nano, s.end_time_unix_nano))

abbrev shown_records : List OtlpLogRecord → List LogView
shown_records = map (λ r. (r.body.string_value, r.trace_id))

-- The lists of all elements, one after the other.
abbrev flat {ℓ κ} : {A : Type ℓ} {B : Type κ} → (A → List B) → List A → List B
flat f [] = []
flat f (x ∷ xs) = f x ++ flat f xs

-- All spans, and all log records, of a payload: of each scope of each resource.
abbrev spans_of : Payload → List SpanView
spans_of (traces_payload p) =
    flat (λ r. flat (λ sc. shown_spans sc.spans) r.scope_spans) p.resource_spans
spans_of (logs_payload p) = []

abbrev pub records_of : Payload → List LogView
records_of (traces_payload p) = []
records_of (logs_payload p) =
    flat (λ r. flat (λ sc. shown_records sc.log_records) r.scope_logs) p.resource_logs

-- All spans, and all log records, that were posted, in their order.
abbrev pub posted_spans : List (Text × Payload) → List SpanView
posted_spans [] = []
posted_spans ((url, p) ∷ ps) = spans_of p ++ posted_spans ps

abbrev pub posted_logs : List (Text × Payload) → List LogView
posted_logs [] = []
posted_logs ((url, p) ∷ ps) = records_of p ++ posted_logs ps

posted_spans-append :
    (ps : List (Text × Payload)) (url : Text) (p : Payload)
    → posted_spans (ps ++ (url, p) ∷ []) ≡ posted_spans ps ++ spans_of p
posted_spans-append [] url p = append-nil (spans_of p)
posted_spans-append ((u, q) ∷ ps) url p =
    ap (◌++◌ (spans_of q)) (posted_spans-append ps url p)
    ∙ sym (append_assoc (spans_of q) (posted_spans ps) (spans_of p))

posted_logs-append :
    (ps : List (Text × Payload)) (url : Text) (p : Payload)
    → posted_logs (ps ++ (url, p) ∷ []) ≡ posted_logs ps ++ records_of p
posted_logs-append [] url p = append-nil (records_of p)
posted_logs-append ((u, q) ∷ ps) url p =
    ap (◌++◌ (records_of q)) (posted_logs-append ps url p)
    ∙ sym (append_assoc (records_of q) (posted_logs ps) (records_of p))

shown-build_spans :
    (random : ℕ → List ℕ) (k : ℕ) (ss : List ExportedSpan)
    → shown_spans (build_spans random k ss) ≡ map shown ss
unfolding build_spans
shown-build_spans random k [] = refl
shown-build_spans random k (s ∷ ss) = ap (◌∷◌ (shown s)) (shown-build_spans random (k + 1) ss)

shown-build_records :
    (unmarshal : Unmarshal) (now : ℕ → ℕ) (k : ℕ) (logs : List Text)
    → shown_records (build_records unmarshal now k logs)
      ≡ map (λ l. (body_of l (unmarshal l), trace_id_of (unmarshal l))) logs
unfolding build_records
shown-build_records unmarshal now k [] = refl
shown-build_records unmarshal now k (l ∷ logs) =
    ap (◌∷◌ (body_of l (unmarshal l), trace_id_of (unmarshal l)))
      (shown-build_records unmarshal now (k + 1) logs)

-- The payload of a batch of spans has the spans of the batch, in one scope of one resource.
spans_of-build_traces_payload :
    (service : Text) (random : ℕ → List ℕ) (ss : List ExportedSpan)
    → spans_of (traces_payload (build_traces_payload service random ss)) ≡ map shown ss
unfolding build_traces_payload
spans_of-build_traces_payload service random ss =
    let views : List SpanView = shown_spans (build_spans random 0 ss) in
    append-nil (views ++ []) ∙ append-nil views ∙ shown-build_spans random 0 ss

-- Likewise for the lines, decoded.
pub records_of-build_logs_payload :
    (service : Text) (unmarshal : Unmarshal) (now : ℕ → ℕ) (logs : List Text)
    → records_of (logs_payload (build_logs_payload service unmarshal now logs))
      ≡ map (λ l. (body_of l (unmarshal l), trace_id_of (unmarshal l))) logs
unfolding build_logs_payload
records_of-build_logs_payload service unmarshal now logs =
    let views : List LogView = shown_records (build_records unmarshal now 0 logs) in
    append-nil (views ++ []) ∙ append-nil views ∙ shown-build_records unmarshal now 0 logs

-- What a post leaves alone.
pub record Idle (e e' : OtlpExporter) : Type 0 where
  pub same_spans_chan : e'.spans_chan ≡ e.spans_chan
  pub same_logs_chan : e'.logs_chan ≡ e.logs_chan
  pub same_alive : e'.worker_alive ≡ e.worker_alive

module _ (c : Surroundings) where
  post-posts :
      (url : Text) (p : Payload) (e : OtlpExporter)
      → (post c url p e).posts ≡ e.posts ++ (url, p) ∷ []
  unfolding post
  post-posts url p e = ground arith

  post-Idle : (url : Text) (p : Payload) (e : OtlpExporter) → Idle e (post c url p e)
  unfolding post
  post-Idle url p e = record {
    same_spans_chan = ground arith;
    same_logs_chan = ground arith;
    same_alive = ground arith;
  }

  abbrev pub shown_line : Text → LogView
  shown_line l = (body_of l (c.unmarshal l), trace_id_of (c.unmarshal l))

  -- From `e` to `e'` the spans and the lines are posted, and no others.
  pub record Sent (ss : List ExportedSpan) (ls : List Text) (e e' : OtlpExporter) : Type 0 where
    pub spans_sent : posted_spans e'.posts ≡ posted_spans e.posts ++ map shown ss
    pub logs_sent : posted_logs e'.posts ≡ posted_logs e.posts ++ map shown_line ls
    pub idle : Idle e e'

  nothing-Sent : (e : OtlpExporter) → Sent [] [] e e
  nothing-Sent e = record {
    spans_sent = sym (append-nil (posted_spans e.posts));
    logs_sent = sym (append-nil (posted_logs e.posts));
    idle = record { same_spans_chan = refl; same_logs_chan = refl; same_alive = refl };
  }

  send_traces-Sent : (ss : List ExportedSpan) (e : OtlpExporter) → Sent ss [] e (send_traces c ss e)
  unfolding send_traces
  send_traces-Sent ss e =
      let url : Text = e.endpoint ++ codes "/v1/traces" in
      let random : ℕ → List ℕ = c.random (length e.posts) in
      let p : Payload = traces_payload (build_traces_payload e.service_name random ss) in
      record {
        spans_sent =
            ap posted_spans (post-posts url p e)
            ∙ posted_spans-append e.posts url p
            ∙ ap (◌++◌ (posted_spans e.posts))
                (spans_of-build_traces_payload e.service_name random ss);
        logs_sent = ap posted_logs (post-posts url p e) ∙ posted_logs-append e.posts url p;
        idle = post-Idle url p e;
      }

  send_logs-Sent : (ls : List Text) (e : OtlpExporter) → Sent [] ls e (send_logs c ls e)
  unfolding send_logs
  send_logs-Sent ls e =
      let url : Text = e.endpoint ++ codes "/v1/logs" in
      let now : ℕ → ℕ = c.now (length e.posts) in
      let p : Payload = logs_payload (build_logs_payload e.service_name c.unmarshal now ls) in
      record {
        spans_sent = ap posted_spans (post-posts url p e) ∙ posted_spans-append e.posts url p;
        logs_sent =
            ap posted_logs (post-posts url p e)
            ∙ posted_logs-append e.posts url p
            ∙ ap (◌++◌ (posted_logs e.posts))
                (records_of-build_logs_payload e.service_name c.unmarshal now ls);
        idle = post-Idle url p e;
      }

  then-Sent :
      (ss : List ExportedSpan) (ls : List Text) (e e1 e2 : OtlpExporter)
      → Sent ss [] e e1
      → Sent [] ls e1 e2
      → Sent ss ls e e2
  then-Sent ss ls e e1 e2 h g = record {
    spans_sent = g.spans_sent ∙ append-nil (posted_spans e1.posts) ∙ h.spans_sent;
    logs_sent =
        g.logs_sent
        ∙ ap (λ t. t ++ map shown_line ls) (h.logs_sent ∙ append-nil (posted_logs e.posts));
    idle = record {
      same_spans_chan = g.idle.same_spans_chan ∙ h.idle.same_spans_chan;
      same_logs_chan = g.idle.same_logs_chan ∙ h.idle.same_logs_chan;
      same_alive = g.idle.same_alive ∙ h.idle.same_alive;
    };
  }

  some-Sent :
      (ss : List ExportedSpan) (e : OtlpExporter)
      → Sent ss [] e (if ltb 0 (length ss) then send_traces c ss e else e)
  some-Sent [] e = nothing-Sent e
  some-Sent (s ∷ ss) e =
      let b : ltb 0 (suc (length ss)) ≡ true = ground arith in
      subst (λ (t : Bool). Sent (s ∷ ss) [] e (if t then send_traces c (s ∷ ss) e else e)) (sym b)
        (send_traces-Sent (s ∷ ss) e)

  rest-Sent :
      (ls : List Text) (e : OtlpExporter)
      → Sent [] ls e (if ltb 0 (length ls) then send_logs c ls e else e)
  rest-Sent [] e = nothing-Sent e
  rest-Sent (l ∷ ls) e =
      let b : ltb 0 (suc (length ls)) ≡ true = ground arith in
      subst (λ (t : Bool). Sent [] (l ∷ ls) e (if t then send_logs c (l ∷ ls) e else e)) (sym b)
        (send_logs-Sent (l ∷ ls) e)

  pub flush-Sent :
      (ss : List ExportedSpan) (ls : List Text) (e : OtlpExporter) → Sent ss ls e (flush c ss ls e)
  unfolding flush
  flush-Sent ss ls e =
      let e1 : OtlpExporter = if ltb 0 (length ss) then send_traces c ss e else e in
      then-Sent ss ls e e1 (flush c ss ls e) (some-Sent ss e) (rest-Sent ls e1)
