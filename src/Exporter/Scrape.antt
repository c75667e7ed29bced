-- ===== src/Exporter/Scrape.antt =====
-- observability/exporter.go: which scrapes of the metrics panic.
use mathlib.Core.Option
use orkai_observability.Exporter.{
  merge_labels_with_le, parse_metric_key, write_buckets, write_histograms, write_histogram_buckets,
  write_prometheus_metrics, ◌>>=◌, bucket_limits,
}
use orkai_observability.Exporter.Handler.{
  metrics_http_handler, requests_prometheus, text_reply, reply_to,
}
use orkai_observability.Facade.{Facade, Instance}
use orkai_observability.Facade.Calls.{get_summary}
use orkai_observability.Float64.{Float64}
use orkai_observability.Metrics.Store.{MetricsSummary}
use orkai_observability.Prelude.{
  ◌==◌, Bool, Option, [], arith, false, length, none, not, refl, some, true, ◌||◌, ◌∷◌, ◌≡◌, List,
  ap, inl, inr, sym, ◌∙◌, ◌&&◌, Bool-cases, is_some,
}
use orkai_observability.Prelude.Int64.{Int64}
use orkai_observability.Propagation.{Header}
use orkai_observability.Table.{Table}
use orkai_observability.Text.{Text, codes}

-- The labels of the key are a brace alone.
abbrev pub has_lone_brace : Text → Bool
has_lone_brace key = length (parse_metric_key key).1 == 1

abbrev pub any_lone_brace : Table (Table Int64) → Bool
any_lone_brace [] = false
any_lone_brace ((name, bs) ∷ t) = has_lone_brace name || any_lone_brace t

is_some-merge :
    (labels le : Text) → is_some (merge_labels_with_le labels le) ≡ not (length labels == 1)
unfolding merge_labels_with_le
is_some-merge [] le = refl
is_some-merge (x ∷ []) le = refl
is_some-merge (x ∷ y ∷ labels) le = ground arith

is_some-bind :
    {A B : Type 0} (o : Option A) (k : A → Option B)
    → ((a : A) → is_some (k a) ≡ true)
    → is_some (o >>= k) ≡ is_some o
is_some-bind none k h = refl
is_some-bind (some a) k h = h a

is_some-whole :
    (base labels : Text) (bs : Table Int64) (les : List Text)
    → (length labels == 1) ≡ false
    → is_some (write_buckets les base labels bs) ≡ true
unfolding write_buckets
is_some-whole base labels bs [] h = refl
is_some-whole base labels bs (le ∷ les) h =
    is_some-bind (merge_labels_with_le labels le) _ (λ t.
      is_some-bind (write_buckets les base labels bs) _ (λ lines. refl)
      ∙ is_some-whole base labels bs les h)
    ∙ is_some-merge labels le
    ∙ ap not h

bind-none :
    {A B : Type 0} (o : Option A) (k : A → Option B) → is_some o ≡ false → is_some (o >>= k) ≡ false
bind-none none k h = refl
bind-none (some a) k h = absurd (cc)

is_some-buckets :
    (base labels : Text) (bs : Table Int64)
    → is_some (write_histogram_buckets base labels bs) ≡ not (length labels == 1)
unfolding write_histogram_buckets write_buckets
is_some-buckets base labels bs = elim (Bool-cases (length labels == 1)) [
  | inl h ↦
      bind-none (merge_labels_with_le labels (codes "5")) _
        (is_some-merge labels (codes "5") ∙ ap not h)
      ∙ sym (ap not h)
  | inr h ↦ is_some-whole base labels bs bucket_limits h ∙ sym (ap not h)
]

module _ {F : Type 0} ⦃f : Float64 F⦄ (show : F → Text) where
  is_some-histograms :
      (latencies : Table F) (hs : Table (Table Int64))
      → is_some (write_histograms show latencies hs) ≡ not (any_lone_brace hs)
  unfolding write_histograms
  is_some-histograms latencies [] = refl
  is_some-histograms latencies ((name, bs) ∷ hs) =
      let (base, labels) = parse_metric_key name in
      elim (Bool-cases (has_lone_brace name)) [
        | inl h ↦
            bind-none (write_histogram_buckets base labels bs) _
              (is_some-buckets base labels bs ∙ ap not h)
            ∙ sym (ap (λ b. not (b || any_lone_brace hs)) h)
        | inr h ↦
            later (write_histogram_buckets base labels bs) (write_histograms show latencies hs) _
              (is_some-buckets base labels bs ∙ ap not h) (λ lines rest. refl)
            ∙ is_some-histograms latencies hs
            ∙ sym (ap (λ b. not (b || any_lone_brace hs)) h)
      ]
    where
      later :
          {A B C : Type 0} (o : Option A) (p : Option B) (k : A → B → Option C)
          → is_some o ≡ true
          → ((a : A) (b : B) → is_some (k a b) ≡ true)
          → is_some (o >>= (λ a. p >>= k a)) ≡ is_some p
      later none p k e h = absurd (cc)
      later (some a) p k e h = is_some-bind p (k a) (h a)

  is_some-prometheus :
      (s : MetricsSummary F)
      → is_some (Option.map text_reply (write_prometheus_metrics show s))
        ≡ not (any_lone_brace s.histograms)
  unfolding write_prometheus_metrics
  is_some-prometheus s =
      is_some-map (write_histograms show s.latencies s.histograms) _ text_reply
      ∙ is_some-histograms s.latencies s.histograms
    where
      is_some-map :
          {A B C : Type 0} (o : Option A) (k : A → B) (h : B → C)
          → is_some (Option.map h (o >>= (λ a. some (k a)))) ≡ is_some o
      is_some-map none k h = refl
      is_some-map (some a) k h = refl

  replies :
      (encode : MetricsSummary F → Text) (p : Bool) (s : MetricsSummary F) (i : Option (Instance F))
      → is_some (reply_to show encode p s i) ≡ not (is_some i && (p && any_lone_brace s.histograms))
  unfolding reply_to
  replies encode p s none = refl
  replies encode true s (some inst) = is_some-prometheus s
  replies encode false s (some inst) = refl

  -- A request for the metrics is answered unless it asks for the Prometheus format and there is a
  -- histogram whose key is a name that ends in its first opening brace; then the handler panics.
  pub metrics_http_handler_answers :
      (encode : MetricsSummary F → Text) (h : Header) (format : Text) (g : Facade F)
      → is_some (metrics_http_handler show encode h format g)
        ≡ not (
            is_some g.instance_of
            && (requests_prometheus h format && any_lone_brace (get_summary g).histograms))
  unfolding metrics_http_handler
  metrics_http_handler_answers encode h format g =
      replies encode (requests_prometheus h format) (get_summary g) g.instance_of
