-- ===== src/Tracer.antt =====
-- observability/tracer.go: the stack of active trace IDs and the local tracer. The stack is a Go
-- slice: its top is the last element. The state holds the global stack and exporter beside the
-- tracer's own writer; what is written is the list of the strings.
pub mod Nesting
mod Tests
use orkai_observability.Context.{Context, with_trace_id}
use orkai_observability.Prelude.{
  ◌%◌, ◌+◌, ◌++◌, ◌-◌, ◌/◌, List, Option, [], if◌then◌else◌, get_elem?, length, ltb, none, some,
  take, ℕ, ◌∷◌,
}
use orkai_observability.Prelude.Int64.{Int64}
use orkai_observability.Table.{or_zero}
use orkai_observability.Text.{Text, codes}
use orkai_observability.Types.{Span, since}

pub record Tracer : Type 0 where
  pub writer : List Text
  pub service : Text
  pub trace_stack : List Text
  -- `globalExporter`, with the spans that were handed to it: `none` is nil.
  pub exporter : Option (List (Span × Int64))

unfoldable pub new_local_tracer : Text → List Text → Option (List (Span × Int64)) → Tracer
new_local_tracer service stack exporter = record {
  writer = [];
  service = service;
  trace_stack = stack;
  exporter = exporter;
}

-- A new writer, to which nothing was written yet.
unfoldable pub set_writer : Tracer → Tracer
set_writer t = record t { writer = [] }

unfoldable pub push_active_trace_id : Text → List Text → List Text
push_active_trace_id id stack = stack ++ id ∷ []

unfoldable pub pop_active_trace_id : List Text → List Text
pop_active_trace_id stack = if ltb 0 (length stack) then take (length stack - 1) stack else stack

unfoldable pub get_active_trace_id : List Text → Text
get_active_trace_id stack =
    if ltb 0 (length stack) then or_zero [] (get_elem? stack (length stack - 1)) else []

-- hex.EncodeToString
hex_digit : ℕ → ℕ
hex_digit n = if ltb n 10 then n + b'0' else n + 87

pub hex_encode : List ℕ → Text
unfolding hex_digit
hex_encode [] = []
hex_encode (b ∷ bs) = hex_digit (b / 16) ∷ hex_digit (b % 16) ∷ hex_encode bs

-- `random` gives the bytes that `rand.Read` fills in.
unfoldable pub generate_random_hex : List ℕ → Text
unfolding hex_encode
generate_random_hex random = hex_encode random

unfoldable pub print_start : Span → List Text → List Text
print_start span out =
    out
    ++ (codes "[TRACE] Start "
        ++ (span.name ++ (codes " trace_id=" ++ (span.trace_id ++ codes "\n"))))
      ∷ []

-- `random` stands for the 8 random bytes, `now` for the clock.
unfoldable pub start_trace : List ℕ → ℕ → Context → Text → Tracer → (Context × Span) × Tracer
unfolding generate_random_hex push_active_trace_id print_start
start_trace random now ctx name t =
    let trace_id = generate_random_hex random in
    let span : Span = record { trace_id = trace_id; name = name; start_time = now } in
    (
      (with_trace_id ctx trace_id, span),
      record t {
        trace_stack = push_active_trace_id trace_id t.trace_stack;
        writer = print_start span t.writer;
      },
    )

abbrev export_span : Span → Int64 → Option (List (Span × Int64)) → Option (List (Span × Int64))
export_span span duration none = none
export_span span duration (some sent) = some (sent ++ (span, duration) ∷ [])

-- `show` is `time.Duration.String`.
unfoldable pub end_trace : (Int64 → Text) → ℕ → Span → Tracer → Tracer
unfolding pop_active_trace_id since
end_trace show now span t =
    let duration = since now span.start_time in
    record t {
      exporter = export_span span duration t.exporter;
      writer =
          t.writer
          ++ (codes "[TRACE] End "
              ++ (span.name ++ (codes " duration=" ++ (show duration ++ codes "\n"))))
            ∷ [];
      trace_stack = pop_active_trace_id t.trace_stack;
    }
