-- ===== src/Sql.antt =====
-- observability/sql_tracer.go: a span around a query, whose duration is recorded and which is reported when it
-- is slow. The callback that `TraceSQL` returns is a record of what it captures.
pub mod Callback
mod Tests
use orkai_observability.Context.{Context}
use orkai_observability.Facade.{Facade, Moment, on_instance}
use orkai_observability.Facade.Calls.{end_span, latency_with_labels, log_entry, start_span}
use orkai_observability.Float64.{Float64}
use orkai_observability.Logger.Entries.{logs_warn_context}
use orkai_observability.Metrics.Store.{milliseconds}
use orkai_observability.Prelude.{Option, ℕ, none, some, ◌∷◌, [], if◌then◌else◌, not, ◌++◌, ◌||◌}
use orkai_observability.Prelude.Int64.{Int64, slt}
use orkai_observability.Table.{Table}
use orkai_observability.Text.{Text, codes}
use orkai_observability.Types.{Span, since, new_string_field, new_int_field}

-- What `endFunc` captures.
pub record Query : Type 0 where
  pub op : Text
  pub table : Text
  pub new_ctx : Context
  pub span : Span
  pub start : ℕ

abbrev pub labels_of : Query → Table Text
labels_of q = (codes "query_type", q.op) ∷ (codes "table", q.table) ∷ []

module _ {F : Type 0} ⦃f : Float64 F⦄ (m : Moment F) where
  unfoldable pub trace_sql : Context → Text → Text → Facade F → (Context × Query) × Facade F
  unfolding start_span
  trace_sql ctx op table g =
      let (r, g') = start_span m ctx (codes "SQL:" ++ (op ++ (codes ":" ++ table))) g in
      (
        (r.0, record { op = op; table = table; new_ctx = r.0; span = r.1; start = m.ambient.now }),
        g',
      )

  unfoldable pub log_slow_query : Context → Text → Text → Int64 → Facade F → Facade F
  unfolding log_entry new_string_field new_int_field
  log_slow_query ctx op table dur g =
      log_entry m (logs_warn_context ctx) (codes "slow SQL query detected")
        (new_string_field (codes "query_type") op
          ∷ new_string_field (codes "table") table
          ∷ new_int_field (codes "duration_ms") (milliseconds dur)
          ∷ [])
        g

  unfoldable pub check_slow_query : Context → Text → Text → Int64 → Facade F → Facade F
  unfolding log_slow_query
  check_slow_query ctx op table dur g =
      on_instance
        (λ inst.
          if not inst.config.enable_slow_query_alert || slt dur inst.config.slow_query_threshold
          then g
          else log_slow_query ctx op table dur g)
        g g.instance_of

module _ {F : Type 0} ⦃f : Float64 F⦄ (clock : ℕ → Moment F) where
  -- The end of `endFunc`; `none` is a panic in `LatencyWithLabels`.
  abbrev pub ended : Query → Int64 → Option (Facade F) → Option (Facade F)
  ended q dur none = none
  ended q dur (some g) =
      some (end_span (clock 2) q.span (check_slow_query (clock 1) q.new_ctx q.op q.table dur g))

  unfoldable pub end_func : Query → Facade F → Option (Facade F)
  unfolding latency_with_labels check_slow_query end_span since
  end_func q g =
      let dur = since (clock 0).ambient.now q.start in
      ended q dur (latency_with_labels (clock 0) (codes "db_query_duration_ms") dur (labels_of q) g)
