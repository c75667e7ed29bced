-- ===== src/Propagation/Tests.antt =====
-- The laws of the headers at concrete inputs.
use orkai_observability.Prelude.{[], refl, ◌∷◌, ◌≡◌}
use orkai_observability.Propagation.{extract_trace_id, parse_baggage_header}
use orkai_observability.Table.{insert, lookup}
use orkai_observability.Text.{codes, text_eq}

extract_runs :
    extract_trace_id
      ((codes "Traceparent", codes "00-4bf92f3577b34da6a3ce929d0e0e4736-00f067aa0ba902b7-01") ∷ [])
    ≡ codes "4bf92f3577b34da6a3ce929d0e0e4736"
unfolding extract_trace_id lookup text_eq
extract_runs = refl

parse_runs :
    parse_baggage_header (codes "user=alice, x, n=1=2")
    ≡ (codes "user", codes "alice") ∷ (codes "n", codes "1=2") ∷ []
unfolding parse_baggage_header insert text_eq
parse_runs = refl
