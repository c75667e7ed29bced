-- ===== src/Requests/Received.antt =====
-- observability/transport.go and observability/middleware.go: a request from one service to another.
use orkai_observability.Context.{
  Context, baggage_from_context, baggage_value, context_with_baggage, trace_id_value,
}
use orkai_observability.Facade.{Facade, Moment}
use orkai_observability.Float64.{Float64}
use orkai_observability.Prelude.{[], false, map, refl, ◌∙◌, ◌∷◌, ◌≡◌, List, ap, some, ℕ}
use orkai_observability.Propagation.{
  Header, canonical, extract_trace_id, get, inject_baggage, pair_of, set_header, extract_baggage,
  inject_trace_id,
}
use orkai_observability.Propagation.Baggage.{AllPlain, Distinct, extract-inject_baggage}
use orkai_observability.Propagation.TraceId.{get-set_header, extract-inject}
use orkai_observability.Requests.{Request, incoming, resume_trace, round_trip}
use orkai_observability.Table.{Table}
use orkai_observability.Text.{Text, codes, join, text_eq}
use orkai_observability.Text.Split.{Lacks}
use orkai_observability.Tracer.{get_active_trace_id, push_active_trace_id}
use orkai_observability.Tracer.Nesting.{pop-push}

-- The baggage header is none of those with the trace ID.
get_beside :
    (name value : Text) (h : Header)
    → text_eq (canonical (codes "baggage")) (canonical name) ≡ false
    → get (set_header (codes "baggage") value h) name ≡ get h name
get_beside name value h e = get-set_header (codes "baggage") name value h ∙ (rw e refl)

extract_trace_id-inject_baggage :
    (b : Table Text) (h : Header) → extract_trace_id (inject_baggage b h) ≡ extract_trace_id h
unfolding extract_trace_id inject_baggage canonical text_eq
extract_trace_id-inject_baggage [] h = refl
extract_trace_id-inject_baggage (kv ∷ b) h =
    let value = join (map pair_of (kv ∷ b)) (codes ",") in
    rw
      (
        get_beside (codes "traceparent") value h refl,
        get_beside (codes "b3") value h refl,
        get_beside (codes "X-B3-TraceId") value h refl,
        get_beside (codes "X-Trace-ID") value h refl,
      )
      refl

module _ (id k v : Text) (b : Table Text) (some_id : text_eq id [] ≡ false)
    (no_dash : Lacks b'-' id) (plain : AllPlain ((k, v) ∷ b))
    (distinct : Distinct ((k, v) ∷ b)) where
  round_trip-header :
      (stack : List Text) (sent : Request)
      → baggage_from_context (some sent.context) ≡ (k, v) ∷ b
      → (round_trip (push_active_trace_id id stack) sent).header
        ≡ inject_baggage ((k, v) ∷ b) (inject_trace_id id sent.header)
  unfolding round_trip
  round_trip-header stack sent e = rw ((pop-push id stack).0, e, some_id) refl

  module _ {F : Type 0} ⦃f : Float64 F⦄ (clock : ℕ → Moment F) where
    incoming-resumes :
        (req : Request) (g : Facade F)
        → extract_trace_id req.header ≡ id
        → extract_baggage req.header ≡ (k, v) ∷ b
        → let (r, g') = incoming clock req g in
          (r.1.trace_id ≡ id)
          × (trace_id_value r.0 ≡ some id)
          × (baggage_from_context (some r.0) ≡ (k, v) ∷ b)
          × (get_active_trace_id g'.trace_stack ≡ id)
    unfolding incoming resume_trace context_with_baggage baggage_from_context trace_id_value
        baggage_value
    incoming-resumes req g ei eb =
        rw (ei, eb, some_id) (refl, refl, refl, (pop-push id g.trace_stack).0)

    -- A request that is sent while a trace ID is active, with baggage in its context, is received with
    -- both: the span of the receiving service has the sender's trace ID, its context has the ID and
    -- the baggage, and the ID is the active one. The ID is not empty and has no dash, the keys of the
    -- baggage are distinct, and its keys and values hold no white space, comma or equals sign. The
    -- headers that were set before, the sender's stack below the ID and the state of the receiver do
    -- not matter.
    pub round_trip_received :
        (stack : List Text) (sent : Request) (ctx : Context) (g : Facade F)
        → baggage_from_context (some sent.context) ≡ (k, v) ∷ b
        → let arrived = record (round_trip (push_active_trace_id id stack) sent) {
          context = ctx;
        } in
          let (r, g') = incoming clock arrived g in
          (r.1.trace_id ≡ id)
          × (trace_id_value r.0 ≡ some id)
          × (baggage_from_context (some r.0) ≡ (k, v) ∷ b)
          × (get_active_trace_id g'.trace_stack ≡ id)
    round_trip_received stack sent ctx g e =
        let h = inject_trace_id id sent.header in
        let same = round_trip-header stack sent e in
        incoming-resumes
          (record (round_trip (push_active_trace_id id stack) sent) { context = ctx }) g
          (ap extract_trace_id same
            ∙ extract_trace_id-inject_baggage ((k, v) ∷ b) h
            ∙ extract-inject id sent.header some_id no_dash)
          (ap extract_baggage same ∙ extract-inject_baggage k v b h plain distinct)
