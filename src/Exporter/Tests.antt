-- ===== src/Exporter/Tests.antt =====
-- Witness for the labels of an exported metric.
use orkai_observability.Exporter.{merge_labels_with_le, parse_metric_key}
use orkai_observability.Exporter.Handler.{metrics_http_handler, requests_prometheus}
use orkai_observability.Exporter.Labels.{block, bucket_block, exported_labels}
use orkai_observability.Exporter.Scrape.{any_lone_brace, metrics_http_handler_answers}
use orkai_observability.Facade.{local, Facade, empty_facade, in_memory}
use orkai_observability.Facade.Calls.{get_summary}
use orkai_observability.Facade.Sample.{config}
use orkai_observability.Float64.{thousandths}
use orkai_observability.Logger.Delivery.{new_json_logger}
use orkai_observability.Metrics.Key.{format_metric_key}
use orkai_observability.Metrics.Store.{MetricsSummary, new_in_memory_metrics}
use orkai_observability.Prelude.{[], some, ◌∷◌, ◌≡◌, arith, ◌&&◌, is_some, none, not, refl, true, ℕ}
use orkai_observability.Table.{insert, Table}
use orkai_observability.Text.{Text, codes, text_eq}
use orkai_observability.Tracer.{new_local_tracer}

abbrev route : Table Text
route = (codes "path", codes "/a") ∷ (codes "method", codes "GET") ∷ []

exported_labels_example :
    let (base, ls) = parse_metric_key (format_metric_key (codes "hits") route) in
    (base ≡ codes "hits")
    × (ls ≡ block route)
    × (merge_labels_with_le ls (codes "50") ≡ some (bucket_block route (codes "50")))
exported_labels_example = exported_labels (codes "hits") route (codes "50") (omega arith)

abbrev never : ℕ → Text
never x = []

abbrev no_json : MetricsSummary ℕ → Text
no_json s = []

-- After `Latency` with the name `x{`.
abbrev braced : Facade ℕ
braced = record (empty_facade {F = ℕ}) {
  instance_of = some (record {
    logger = new_json_logger true (codes "svc");
    metrics = in_memory (record (new_in_memory_metrics (codes "svc")) {
      latency_reservoirs = (codes "x{", record { samples = 7 ∷ []; max_size = 2000 }) ∷ [];
    });
    tracer = local (new_local_tracer (codes "svc") [] none);
    config = config;
  });
}

scrape_panics : metrics_http_handler never no_json [] (codes "prometheus") braced ≡ none
unfolding metrics_http_handler text_eq insert
scrape_panics = refl

metrics_http_handler_answers_example :
    is_some (metrics_http_handler never no_json [] (codes "prometheus") braced)
    ≡ not (
        is_some braced.instance_of
        && (requests_prometheus [] (codes "prometheus")
            && any_lone_brace (get_summary braced).histograms))
metrics_http_handler_answers_example =
    metrics_http_handler_answers never no_json [] (codes "prometheus") braced
