-- ===== src/Tracer/Nesting.antt =====
-- observability/tracer.go: sequences of spans on the stack of active trace IDs.
use orkai_observability.Context.{Context, trace_id_value}
use orkai_observability.Prelude.{
  List, [], refl, ℕ, ◌∷◌, ◌≡◌, ◌*◌, ◌+◌, ◌++◌, ◌-◌, ap, arith, get_elem?-append_length, length,
  length-append, some, suc, take-append_length, ◌∙◌,
}
use orkai_observability.Prelude.Int64.{Int64}
use orkai_observability.Text.{Text}
use orkai_observability.Tracer.{
  Tracer, end_trace, get_active_trace_id, pop_active_trace_id, push_active_trace_id, start_trace,
  generate_random_hex,
}
use orkai_observability.Types.{Span}

-- Pushing an ID makes it the active one, and popping it restores the stack.
pub pop-push :
    (id : Text) (stack : List Text)
    → (get_active_trace_id (push_active_trace_id id stack) ≡ id)
      × (pop_active_trace_id (push_active_trace_id id stack) ≡ stack)
unfolding get_active_trace_id pop_active_trace_id push_active_trace_id
pop-push id stack = (
  ground
      (arith, length-append stack (id ∷ []), get_elem?-append_length stack [] id, minus_one stack),
  ground
      (arith, length-append stack (id ∷ []), take-append_length stack (id ∷ []), minus_one stack),
)
  where
    minus_one : (xs : List Text) → length (xs ++ id ∷ []) - 1 ≡ length xs
    minus_one xs = omega (arith, length-append xs (id ∷ []))

-- A program that starts and ends spans: a call of `StartTrace` with its random bytes, time, context
-- and name, what runs within the span, the time of the matching call of `EndTrace`, and what runs
-- after it.
pub data Spans : Type 0 where
  done : Spans
  spanning : List ℕ → ℕ → Context → Text → Spans → ℕ → Spans → Spans

pub run : (Int64 → Text) → Spans → Tracer → Tracer
run show done t = t
run show (spanning random started ctx name inner ended after) t =
    let (r, t1) = start_trace random started ctx name t in
    run show after (end_trace show ended r.1 (run show inner t1))

pub count : Spans → ℕ
count done = 0
count (spanning random started ctx name inner ended after) = suc (count inner + count after)

start_trace-stack :
    (random : List ℕ) (now : ℕ) (ctx : Context) (name : Text) (t : Tracer)
    → (start_trace random now ctx name t).1.trace_stack
      ≡ push_active_trace_id (generate_random_hex random) t.trace_stack
unfolding start_trace
start_trace-stack random now ctx name t = refl

start_trace-writer :
    (random : List ℕ) (now : ℕ) (ctx : Context) (name : Text) (t : Tracer)
    → length (start_trace random now ctx name t).1.writer ≡ length t.writer + 1
unfolding start_trace
start_trace-writer random now ctx name t = length-append t.writer _

end_trace-writer :
    (show : Int64 → Text) (now : ℕ) (s : Span) (t : Tracer)
    → length (end_trace show now s t).writer ≡ length t.writer + 1
unfolding end_trace
end_trace-writer show now s t = length-append t.writer _

end_trace-stack :
    (show : Int64 → Text) (now : ℕ) (s : Span) (t : Tracer)
    → (end_trace show now s t).trace_stack ≡ pop_active_trace_id t.trace_stack
unfolding end_trace
end_trace-stack show now s t = refl

-- A program of properly nested spans leaves the stack of active trace IDs as it found it, whatever
-- the spans are and however deep they nest, and has written two lines for each span.
pub nested_spans_restore :
    (show : Int64 → Text) (p : Spans) (t : Tracer)
    → ((run show p t).trace_stack ≡ t.trace_stack)
      × (length (run show p t).writer ≡ length t.writer + 2 * count p)
unfolding run count
nested_spans_restore show done t = (refl, omega arith)
nested_spans_restore show (spanning random started ctx name inner ended after) t =
    let t1 = (start_trace random started ctx name t).1 in
    let s = (start_trace random started ctx name t).0.1 in
    let t2 = run show inner t1 in
    let (stack_in, lines_in) = nested_spans_restore show inner t1 in
    let (stack_after, lines_after) = nested_spans_restore show after (end_trace show ended s t2) in
    (
      stack_after
          ∙ end_trace-stack show ended s t2
          ∙ ap pop_active_trace_id stack_in
          ∙ ap pop_active_trace_id (start_trace-stack random started ctx name t)
          ∙ (pop-push (generate_random_hex random) t.trace_stack).1,
      omega (
        arith,
        lines_in,
        lines_after,
        start_trace-writer random started ctx name t,
        end_trace-writer show ended s t2,
      ),
    )

-- Within a span, before and after any nested spans, the active trace ID is the one that `StartTrace`
-- generated, and it is the ID in the returned context and span.
pub active_within_span :
    (show : Int64 → Text) (random : List ℕ) (now : ℕ) (ctx : Context) (name : Text) (p : Spans)
    (t : Tracer)
    → let (r, t1) = start_trace random now ctx name t in
      (get_active_trace_id (run show p t1).trace_stack ≡ r.1.trace_id)
      × (trace_id_value r.0 ≡ some r.1.trace_id)
unfolding start_trace trace_id_value
active_within_span show random now ctx name p t =
    let t1 = (start_trace random now ctx name t).1 in
    (
      ap get_active_trace_id (nested_spans_restore show p t1).0
          ∙ (pop-push (generate_random_hex random) t.trace_stack).0,
      refl,
    )

-- `EndTrace` pops whatever ID is on top. If a span ends before a span that was started after it,
-- the ID that stays active is the one of the span that has ended.
pub end_out_of_order :
    (show : Int64 → Text) (r r' : List ℕ) (now now' ended : ℕ) (ctx ctx' : Context)
    (name name' : Text) (t : Tracer)
    → let (first, t1) = start_trace r now ctx name t in
      let t2 = (start_trace r' now' ctx' name' t1).1 in
      get_active_trace_id (end_trace show ended first.1 t2).trace_stack ≡ first.1.trace_id
unfolding start_trace end_trace
end_out_of_order show r r' now now' ended ctx ctx' name name' t =
    ap get_active_trace_id
      (pop-push (generate_random_hex r')
        (push_active_trace_id (generate_random_hex r) t.trace_stack)).1
    ∙ (pop-push (generate_random_hex r) t.trace_stack).0
