-- ===== src/Otel/Tracing.antt =====
-- observability/otel_bridge.go: spans of the bridge, and a trace that is resumed from a request.
use orkai_observability.Context.{Context}
use orkai_observability.Otel.{OtelTracer, end_trace, span_key, start_trace}
use orkai_observability.Prelude.{
  ◌++◌, [], ap, arith, ℕ, ◌∙◌, ◌∷◌, ◌≡◌, ◌-◌, Bool-cases, List, get_elem?-append_length, inl, inr,
  length, length-append, ltb, lt→ltb, refl, take-append_length, true,
}
use orkai_observability.Table.{at, insert, lookup-insert, lookup-insert_self}
use orkai_observability.Text.{Text, text_eq}
use orkai_observability.Text.Equality.{text_eq_iff}
use orkai_observability.Tracer.{get_active_trace_id, push_active_trace_id}
use orkai_observability.Tracer.Nesting.{pop-push}
use orkai_observability.Types.{Span}

-- Starting a span and ending it restores the stack of active trace IDs, ends just that span of the
-- SDK, and keeps the open spans of every key.
pub end-start :
    (ctx : Context) (id : Text) (otel_span now : ℕ) (name : Text) (o : OtelTracer) (k : Text)
    → let (r, o1) = start_trace ctx id otel_span now name o in
      let o2 = end_trace r.1 o1 in
      (o2.trace_stack ≡ o.trace_stack)
      × (o2.ended ≡ o.ended ++ otel_span ∷ [])
      × (at [] k o2.spans ≡ at [] k o.spans)
unfolding start_trace end_trace
end-start ctx id otel_span now name o k =
    rw (lookup-insert_self key (old ++ otel_span ∷ []) o.spans) (
      rw
        (
          some_open,
          one_less,
          take-append_length old (otel_span ∷ []),
          get_elem?-append_length old [] otel_span,
        )
        ((pop-push id o.trace_stack).1, refl, restored))
  where
    key : Text
    key = span_key id name

    old : List ℕ
    old = at [] key o.spans

    some_open : ltb 0 (length (old ++ otel_span ∷ [])) ≡ true
    some_open = lt→ltb 0 _ (omega (arith, length-append old (otel_span ∷ [])))

    one_less : length (old ++ otel_span ∷ []) - 1 ≡ length old
    one_less = omega (arith, length-append old (otel_span ∷ []))

    restored :
        at [] k (insert key old (insert key (old ++ otel_span ∷ []) o.spans)) ≡ at [] k o.spans
    restored =
        rw
          (
            lookup-insert key k old (insert key (old ++ otel_span ∷ []) o.spans),
            lookup-insert key k (old ++ otel_span ∷ []) o.spans,
          )
          (elim (Bool-cases (text_eq key k)) [
            | inl e ↦ rw e (ap (λ (t : Text). at [] t o.spans) ((text_eq_iff key k).0 e))
            | inr e ↦ rw e refl
          ])

-- A span that the bridge did not start, such as the one of a trace that the middleware resumes from
-- a request's headers, is not ended: the trace ID that was pushed for it stays on the stack.
pub resumed_span_stays :
    (span : Span) (o : OtelTracer)
    → at [] (span_key span.trace_id span.name) o.spans ≡ []
    → let pushed = record o { trace_stack = push_active_trace_id span.trace_id o.trace_stack } in
      (end_trace span pushed ≡ pushed)
      × (get_active_trace_id (end_trace span pushed).trace_stack ≡ span.trace_id)
unfolding end_trace
resumed_span_stays span o none_open =
    let stays : end_trace span
          (record o { trace_stack = push_active_trace_id span.trace_id o.trace_stack })
        ≡ record o { trace_stack = push_active_trace_id span.trace_id o.trace_stack } =
      ground (arith, none_open) in
    (
      stays,
      ap (λ (t : OtelTracer). get_active_trace_id t.trace_stack) stays
          ∙ (pop-push span.trace_id o.trace_stack).0,
    )
