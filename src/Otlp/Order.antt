-- ===== src/Otlp/Order.antt =====
-- observability/otlp_exporter.go: interleavings of the callers and the worker, up to `Close`.
use orkai_observability.Otlp.{
  OtlpExporter, Surroundings, channel_capacity, export_log, export_span, on_log, on_span, on_tick,
  worker, close, drain, new_otlp_exporter, receive_log, receive_span, on_stop,
}
use orkai_observability.Otlp.Payloads.{ExportedSpan}
use orkai_observability.Otlp.Batches.{
  LogView, SpanView, shown_line, flush-Sent, posted_logs, posted_spans, shown,
}
use orkai_observability.Prelude.{
  ◌++◌, List, [], ap, append_assoc, if◌then◌else◌, length, ltb, map, refl, ◌∷◌, ◌≡◌, Bool-cases,
  append-nil, ap₂, inl, inr, some, sym, true, ◌∙◌, Bool, map-append, arith, none,
}
use orkai_observability.Prelude.Int64.{Int64}
use orkai_observability.Text.{Text}
use orkai_observability.Types.{Span}

-- What can happen while the exporter is open: a caller exports a span or a line, and the worker takes
-- a round in a case other than the stop.
pub data Event : Type 0 where
  exports_span : Span → Int64 → Event
  exports_log : Text → Event
  receives_span receives_log ticks : Event

-- What is posted, in the batch and in the channel, in this order.
abbrev total {ℓ κ} : {A : Type ℓ} {B : Type κ} → (A → B) → List B → List A → List A → List B
total f posted batch chan = posted ++ (map f batch ++ map f chan)

total-send {ℓ κ} :
    {A : Type ℓ} {B : Type κ} (f : A → B) (p : List B) (xs ys : List A) (y : A)
    → total f p xs (ys ++ y ∷ []) ≡ total f p xs ys ++ f y ∷ []
total-send f p xs ys y = simp (map-append, append_assoc)

total-receive {ℓ κ} :
    {A : Type ℓ} {B : Type κ} (f : A → B) (p : List B) (xs ys : List A) (y : A)
    → total f p (xs ++ y ∷ []) ys ≡ total f p xs (y ∷ ys)
total-receive f p xs ys y = simp (map-append, append_assoc)

total-flush {ℓ κ} :
    {A : Type ℓ} {B : Type κ} (f : A → B) (p : List B) (xs ys : List A)
    → total f (p ++ map f xs) [] ys ≡ total f p xs ys
total-flush f p xs ys = append_assoc p (map f xs) (map f ys)

total-drain {ℓ κ} :
    {A : Type ℓ} {B : Type κ} (f : A → B) (p : List B) (xs ys : List A)
    → p ++ map f (xs ++ ys) ≡ total f p xs ys
total-drain f p xs ys = ap (◌++◌ p) (map-append f xs ys)

module _ (c : Surroundings) where
  abbrev pub after : OtlpExporter → Event → OtlpExporter
  after e (exports_span span duration) = export_span span duration e
  after e (exports_log log_str) = export_log log_str e
  after e receives_span = worker c on_span e
  after e receives_log = worker c on_log e
  after e ticks = worker c on_tick e

  unfoldable pub after_all : OtlpExporter → List Event → OtlpExporter
  after_all e [] = e
  after_all e (v ∷ vs) = after_all (after e v) vs

  -- The spans and the lines that the exporter holds or has posted.
  unfoldable pub held_spans : OtlpExporter → List SpanView
  held_spans e = total shown (posted_spans e.posts) e.spans e.spans_chan

  unfoldable pub held_logs : OtlpExporter → List LogView
  held_logs e = total (shown_line c) (posted_logs e.posts) e.logs e.logs_chan

  -- What an event adds, if there is room for it in the channel.
  abbrev pub new_spans : Event → OtlpExporter → List SpanView
  new_spans (exports_span span duration) e =
      if ltb (length e.spans_chan) channel_capacity
      then shown (record { span = span; duration = duration }) ∷ []
      else []
  new_spans _ e = []

  abbrev pub new_logs : Event → OtlpExporter → List LogView
  new_logs (exports_log log_str) e =
      if ltb (length e.logs_chan) channel_capacity then shown_line c log_str ∷ [] else []
  new_logs _ e = []

  unfoldable pub accepted_spans : List Event → OtlpExporter → List SpanView
  accepted_spans [] e = []
  accepted_spans (v ∷ vs) e = new_spans v e ++ accepted_spans vs (after e v)

  unfoldable pub accepted_logs : List Event → OtlpExporter → List LogView
  accepted_logs [] e = []
  accepted_logs (v ∷ vs) e = new_logs v e ++ accepted_logs vs (after e v)

  abbrev pub Step : OtlpExporter → Event → OtlpExporter → Type 0
  Step e v e' =
      (held_spans e' ≡ held_spans e ++ new_spans v e)
      × (held_logs e' ≡ held_logs e ++ new_logs v e)
      × (e'.worker_alive ≡ e.worker_alive)

  export_span-Step :
      (e : OtlpExporter) (span : Span) (duration : Int64)
      → Step e (exports_span span duration) (export_span span duration e)
  unfolding held_spans held_logs export_span
  export_span-Step e span duration =
      elim (Bool-cases (ltb (length e.spans_chan) channel_capacity)) [
        | inl room ↦ rw room (
          total-send shown (posted_spans e.posts) e.spans e.spans_chan
              (record { span = span; duration = duration }),
          sym (append-nil (held_logs e)),
          refl,
        )
        | inr full ↦ rw full (sym (append-nil (held_spans e)), sym (append-nil (held_logs e)), refl)
      ]

  export_log-Step :
      (e : OtlpExporter) (log_str : Text) → Step e (exports_log log_str) (export_log log_str e)
  unfolding held_spans held_logs export_log
  export_log-Step e log_str = elim (Bool-cases (ltb (length e.logs_chan) channel_capacity)) [
    | inl room ↦ rw room (
      sym (append-nil (held_spans e)),
      total-send (shown_line c) (posted_logs e.posts) e.logs e.logs_chan log_str,
      refl,
    )
    | inr full ↦ rw full (sym (append-nil (held_spans e)), sym (append-nil (held_logs e)), refl)
  ]

  receive_span-Step :
      (e : OtlpExporter) (chan : List ExportedSpan)
      → e.spans_chan ≡ chan
      → Step e receives_span (receive_span c chan e)
  unfolding held_spans held_logs
  receive_span-Step e [] h = (sym (append-nil (held_spans e)), sym (append-nil (held_logs e)), refl)
  receive_span-Step e (s ∷ rest) h = (
    total-receive shown (posted_spans e.posts) e.spans rest s
        ∙ ap (total shown (posted_spans e.posts) e.spans) (sym h)
        ∙ sym (append-nil (held_spans e)),
    sym (append-nil (held_logs e)),
    refl,
  )

  receive_log-Step :
      (e : OtlpExporter) (chan : List Text)
      → e.logs_chan ≡ chan
      → Step e receives_log (receive_log c chan e)
  unfolding held_spans held_logs
  receive_log-Step e [] h = (sym (append-nil (held_spans e)), sym (append-nil (held_logs e)), refl)
  receive_log-Step e (l ∷ rest) h = (
    sym (append-nil (held_spans e)),
    total-receive (shown_line c) (posted_logs e.posts) e.logs rest l
        ∙ ap (total (shown_line c) (posted_logs e.posts) e.logs) (sym h)
        ∙ sym (append-nil (held_logs e)),
    refl,
  )

  ticks-Step : (e : OtlpExporter) → Step e ticks (worker c on_tick e)
  unfolding held_spans held_logs worker
  ticks-Step e =
      let g = flush-Sent c e.spans e.logs e in
      (
        ap₂ (λ p ch. total shown p [] ch) g.spans_sent g.idle.same_spans_chan
            ∙ total-flush shown (posted_spans e.posts) e.spans e.spans_chan
            ∙ sym (append-nil (held_spans e)),
        ap₂ (λ p ch. total (shown_line c) p [] ch) g.logs_sent g.idle.same_logs_chan
            ∙ total-flush (shown_line c) (posted_logs e.posts) e.logs e.logs_chan
            ∙ sym (append-nil (held_logs e)),
        g.idle.same_alive,
      )

  pub after-Step : (e : OtlpExporter) (v : Event) → Step e v (after e v)
  unfolding worker
  after-Step e (exports_span span duration) = export_span-Step e span duration
  after-Step e (exports_log log_str) = export_log-Step e log_str
  after-Step e receives_span = receive_span-Step e e.spans_chan refl
  after-Step e receives_log = receive_log-Step e e.logs_chan refl
  after-Step e ticks = ticks-Step e

  after_all-held :
      (e : OtlpExporter) (vs : List Event)
      → (held_spans (after_all e vs) ≡ held_spans e ++ accepted_spans vs e)
        × (held_logs (after_all e vs) ≡ held_logs e ++ accepted_logs vs e)
        × ((after_all e vs).worker_alive ≡ e.worker_alive)
  unfolding after_all accepted_spans accepted_logs
  after_all-held e [] = (sym (append-nil (held_spans e)), sym (append-nil (held_logs e)), refl)
  after_all-held e (v ∷ vs) =
      let one = after-Step e v in
      let rest = after_all-held (after e v) vs in
      (
        rest.0
            ∙ ap (λ h. h ++ accepted_spans vs (after e v)) one.0
            ∙ append_assoc (held_spans e) (new_spans v e) (accepted_spans vs (after e v)),
        rest.1
            ∙ ap (λ h. h ++ accepted_logs vs (after e v)) one.1
            ∙ append_assoc (held_logs e) (new_logs v e) (accepted_logs vs (after e v)),
        rest.2 ∙ one.2,
      )

  close_running : (e : OtlpExporter) → e.worker_alive ≡ true → close c e ≡ some (worker c on_stop e)
  unfolding close
  close_running e alive = ap (λ (b : Bool). if b then some (worker c on_stop e) else none) alive

  pub stop-held :
      (e : OtlpExporter)
      → (posted_spans (worker c on_stop e).posts ≡ held_spans e)
        × (posted_logs (worker c on_stop e).posts ≡ held_logs e)
  unfolding worker drain held_spans held_logs
  stop-held e =
      let g =
        flush-Sent c (e.spans ++ e.spans_chan) (e.logs ++ e.logs_chan)
          (record e { spans_chan = []; logs_chan = [] }) in
      (
        g.spans_sent ∙ total-drain shown (posted_spans e.posts) e.spans e.spans_chan,
        g.logs_sent ∙ total-drain (shown_line c) (posted_logs e.posts) e.logs e.logs_chan,
      )

  new-held :
      (endpoint service_name : Text) (interval : Int64) (e : OtlpExporter)
      → new_otlp_exporter endpoint service_name interval ≡ some e
      → (held_spans e ≡ []) × (held_logs e ≡ []) × (e.worker_alive ≡ true)
  unfolding new_otlp_exporter held_spans held_logs
  new-held endpoint service_name interval e h = ground arith

  -- From a new exporter, under every interleaving of exports with the rounds of the worker, and
  -- whatever the collector answers, closing the exporter does not panic, and has handed every span
  -- and every log line that found room in its channel to a post, exactly once, and each kind in the
  -- order of the exports.
  pub close-posts_all :
      (endpoint service_name : Text) (interval : Int64) (e : OtlpExporter) (vs : List Event)
      → new_otlp_exporter endpoint service_name interval ≡ some e
      → (closed : OtlpExporter) × (close c (after_all e vs) ≡ some closed)
        × (posted_spans closed.posts ≡ accepted_spans vs e)
        × (posted_logs closed.posts ≡ accepted_logs vs e)
  close-posts_all endpoint service_name interval e vs h =
      let fresh = new-held endpoint service_name interval e h in
      let runs = after_all-held e vs in
      let shut = stop-held (after_all e vs) in
      (
        worker c on_stop (after_all e vs),
        close_running (after_all e vs) (runs.2 ∙ fresh.2),
        shut.0 ∙ runs.0 ∙ ap (λ t. t ++ accepted_spans vs e) fresh.0,
        shut.1 ∙ runs.1 ∙ ap (λ t. t ++ accepted_logs vs e) fresh.1,
      )
