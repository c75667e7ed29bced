-- ===== src/Exporter/Handler.antt =====
-- observability/exporter.go: the HTTP handler of the metrics. `format` is the value of the query
-- parameter of that name, and `encode` is the JSON encoder.
use mathlib.Core.Option
use orkai_observability.Exporter.{write_prometheus_metrics, header}
use orkai_observability.Facade.{Facade, Instance}
use orkai_observability.Facade.Calls.{get_summary}
use orkai_observability.Float64.{Float64}
use orkai_observability.Metrics.Store.{MetricsSummary}
use orkai_observability.Prelude.{Bool, List, Option, [], if◌then◌else◌, none, some, ◌||◌, ◌∷◌}
use orkai_observability.Prelude.Int64.{Int64}
use orkai_observability.Propagation.{Header, get}
use orkai_observability.Text.{Text, codes, contains, text_eq}

pub record Reply : Type 0 where
  pub content_type : Text
  pub status : Int64
  pub body : List Text

unfoldable pub requests_prometheus : Header → Text → Bool
unfolding get
requests_prometheus header format =
    let accept = get header (codes "Accept") in
    text_eq format (codes "prometheus") || contains accept (codes "text/plain")

abbrev pub text_reply : List Text → Reply
text_reply lines = record {
  content_type = codes "text/plain; version=0.0.4; charset=utf-8";
  status = 200;
  body = lines;
}

module _ {F : Type 0} ⦃f : Float64 F⦄ (show : F → Text) (encode : MetricsSummary F → Text) where
  -- The answer of the handler: 503 without an instance; `none` is a panic.
  unfoldable pub reply_to : Bool → MetricsSummary F → Option (Instance F) → Option Reply
  unfolding write_prometheus_metrics
  reply_to prometheus summary none = some (record {
    content_type = codes "text/plain; charset=utf-8";
    status = 503;
    body = codes "observability package is not initialized\n" ∷ [];
  })
  reply_to prometheus summary (some inst) =
      if prometheus
      then Option.map text_reply (write_prometheus_metrics show summary)
      else some (record {
        content_type = codes "application/json";
        status = 200;
        body = encode summary ∷ [];
      })

  unfoldable pub metrics_http_handler : Header → Text → Facade F → Option Reply
  unfolding requests_prometheus get_summary reply_to
  metrics_http_handler header format g =
      reply_to (requests_prometheus header format) (get_summary g) g.instance_of
