-- ===== src/Otlp/Tests.antt =====
-- Witness for the exporter of spans and logs.
use orkai_observability.Logger.Format.{is_sensitive_key, mask_pii, sensitive_keys}
use orkai_observability.Logger.Format.Json.{read}
use orkai_observability.Logger.Format.Scanning.{all-IsPlain}
use mathlib.Core.Option
use orkai_observability.Otlp.{OtlpExporter, Surroundings, close, new_otlp_exporter}
use orkai_observability.Otlp.Batches.{posted_logs, posted_spans, records_of}
use orkai_observability.Otlp.Decoding.{
  Decodes, Entry, IsDecodable, line_of, posted_records, text_at,
}
use orkai_observability.Otlp.Order.{
  Event, accepted_logs, accepted_spans, after_all, close-posts_all, exports_log, exports_span,
  receives_span, ticks,
}
use orkai_observability.Otlp.Payloads.{Unmarshal, build_logs_payload, logs_payload}
use orkai_observability.Prelude.{List, [], arith, none, refl, some, true, ◌∷◌, ◌≡◌, ap, false, map}
use orkai_observability.Text.{codes, text_eq}
use orkai_observability.Types.{Span}

abbrev collector : Surroundings
collector = record {
  random = λ post item. item ∷ [];
  now = λ post item. item;
  unmarshal = λ line. none;
  respond = λ post. some 200;
}

abbrev fresh_exporter : OtlpExporter
fresh_exporter = record {
  endpoint = codes "http://c";
  service_name = codes "svc";
  interval = 5000000000;
  spans_chan = [];
  logs_chan = [];
  spans = [];
  logs = [];
  worker_alive = true;
  posts = [];
  counted = [];
}

fresh_exporter_lem : new_otlp_exporter (codes "http://c") (codes "svc") 0 ≡ some fresh_exporter
unfolding new_otlp_exporter text_eq
fresh_exporter_lem = refl

abbrev a_span : Span
a_span = record { trace_id = codes "ab"; name = codes "work"; start_time = 5 }

-- Two spans, one of which is sent before the close, and a line.
abbrev some_events : List Event
some_events =
    exports_span a_span 7
    ∷ receives_span
    ∷ ticks
    ∷ exports_log (codes "x")
    ∷ exports_span a_span 9
    ∷ []

close-posts_all_example :
    (closed : OtlpExporter) × (close collector (after_all collector fresh_exporter some_events)
      ≡ some closed)
    × (posted_spans closed.posts ≡ accepted_spans collector some_events fresh_exporter)
    × (posted_logs closed.posts ≡ accepted_logs collector some_events fresh_exporter)
close-posts_all_example =
    close-posts_all collector (codes "http://c") (codes "svc") 0 fresh_exporter some_events
      fresh_exporter_lem

-- A decoder of the lines that the reader reads.
abbrev decode : Unmarshal
decode line =
    Option.map (λ ms. (text_at (codes "msg") ms, text_at (codes "trace_id") ms)) (read line)

decode-Decodes : Decodes decode
decode-Decodes line ms h short =
    ap (Option.map (λ ms. (text_at (codes "msg") ms, text_at (codes "trace_id") ms))) h

abbrev hello : Entry
hello = record {
  level = codes "INFO";
  trace_id = codes "db3b";
  msg = codes "hello";
  fields =
      record { key = codes "user"; str_value = codes "al"; int_value = 0; is_int = false } ∷ [];
}

hello-IsDecodable : IsDecodable sensitive_keys [] (codes "svc") hello
unfolding mask_pii text_eq is_sensitive_key
hello-IsDecodable = record {
  plain_level = all-IsPlain (codes "INFO") refl;
  plain_trace_id = all-IsPlain (codes "db3b") refl;
  plain_msg = all-IsPlain (codes "hello") refl;
  plain_fields = ((all-IsPlain (codes "user") refl, all-IsPlain (codes "al") refl), tt);
  other_fields = ((refl, refl), tt);
  small_fields = (omega arith, tt);
}

posted_records_example :
    records_of (
      logs_payload (
        build_logs_payload
          (codes "svc")
          decode
          (λ n. n)
          (map (line_of sensitive_keys [] (codes "svc")) (hello ∷ []))))
    ≡ (codes "hello", codes "db3b") ∷ []
posted_records_example =
    posted_records sensitive_keys [] (codes "svc") decode (λ n. n) (hello ∷ []) decode-Decodes
      (all-IsPlain (codes "svc") refl) (hello-IsDecodable, tt)
