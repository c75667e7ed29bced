-- ===== src/Sql/Callback.antt =====
-- observability/sql_tracer.go: a query from `TraceSQL` to the call of its callback.
use orkai_observability.Context.{Context}
use orkai_observability.Facade.{Facade, Instance, Moment, on_instance}
use orkai_observability.Facade.Calls.{end_span}
use orkai_observability.Facade.Frame.{
  Framed, Framed-trans, is_local, end_span-pops, latency_with_labels-Framed, log_entry-Framed,
  start_span-pushes,
}
use orkai_observability.Facade.Schedule.{after, calls_latency_with_labels}
use orkai_observability.Facade.Schedule.Calls.{end_span-Holds, log_entry-Holds, start_span-Holds}
use orkai_observability.Facade.Schedule.Safety.{after-Holds}
use orkai_observability.Facade.Soundness.{Holds}
use orkai_observability.Float64.{Float64}
use orkai_observability.Logger.Entries.{logs_warn_context}
use orkai_observability.Metrics.Store.{milliseconds}
use orkai_observability.Prelude.{
  ◌++◌, Bool, List, Option, [], ap, if◌then◌else◌, false, none, not, refl, some, true, ◌||◌, ℕ, ◌∙◌,
  ◌∷◌, ◌≡◌,
}
use orkai_observability.Prelude.Int64.{Int64, slt}
use orkai_observability.Sql.{
  check_slow_query, end_func, ended, labels_of, log_slow_query, trace_sql,
}
use orkai_observability.Text.{Text, codes}
use orkai_observability.Tracer.{pop_active_trace_id}
use orkai_observability.Tracer.Nesting.{pop-push}
use orkai_observability.Types.{Field, new_int_field, new_string_field, since}

module _ {F : Type 0} ⦃f : Float64 F⦄ (m : Moment F) where
  -- The alert is a log entry or nothing.
  check_slow_query-Keeps :
      (ctx : Context) (op table : Text) (dur : Int64) (g : Facade F)
      → Framed g (check_slow_query m ctx op table dur g)
        × (Holds g.instance_of → Holds (check_slow_query m ctx op table dur g).instance_of)
  unfolding check_slow_query log_slow_query
  check_slow_query-Keeps ctx op table dur g = on_inst g.instance_of
    where
      fields : List Field
      fields =
          new_string_field (codes "query_type") op
          ∷ new_string_field (codes "table") table
          ∷ new_int_field (codes "duration_ms") (milliseconds dur)
          ∷ []

      alert : Instance F → Facade F
      alert inst =
          if not inst.config.enable_slow_query_alert || slt dur inst.config.slow_query_threshold
          then g
          else log_slow_query m ctx op table dur g

      Kept : Facade F → Type 0
      Kept g' = Framed g g' × (Holds g.instance_of → Holds g'.instance_of)

      chosen : (b : Bool) → Kept (if b then g else log_slow_query m ctx op table dur g)
      chosen true = ((refl, refl), λ h. h)
      chosen false = (
        log_entry-Framed m (logs_warn_context ctx) (codes "slow SQL query detected") fields g,
        log_entry-Holds m (logs_warn_context ctx) (codes "slow SQL query detected") fields g,
      )

      on_inst : (i : Option (Instance F)) → Kept (on_instance alert g i)
      on_inst none = ((refl, refl), λ h. h)
      on_inst (some inst) = chosen _

module _ {F : Type 0} ⦃f : Float64 F⦄ (m : Moment F) (clock : ℕ → Moment F) where
  -- With the local tracer and valid metrics, a query that leaves the stack of active trace IDs, the kind
  -- of the tracer and the validity of the metrics as they were ends without a panic, slow or not,
  -- and then the stack is as it was before `TraceSQL` and the metrics are valid.
  pub end_func-trace_sql :
      (ctx : Context) (op table : Text) (query : Facade F → Facade F) (g : Facade F)
      → ((g' : Facade F) → Framed g' (query g'))
      → ((g' : Facade F) → Holds g'.instance_of → Holds (query g').instance_of)
      → is_local g.instance_of ≡ true
      → Holds g.instance_of
      → let (r, g1) = trace_sql m ctx op table g in
        (g' : Facade F) × (end_func clock r.1 (query g1) ≡ some g')
        × (g'.trace_stack ≡ g.trace_stack)
        × Holds g'.instance_of
  unfolding trace_sql end_func after
  end_func-trace_sql ctx op table query g framed holds at_start sound =
      let name = codes "SQL:" ++ (op ++ (codes ":" ++ table)) in
      let (r, g1) = trace_sql m ctx op table g in
      let q = r.1 in
      let (pushed, kind) = start_span-pushes m ctx name g at_start in
      let g2 = query g1 in
      let dur = since (clock 0).ambient.now q.start in
      let (g3, e3, h3) =
        after-Holds (clock 0)
          (calls_latency_with_labels (codes "db_query_duration_ms") dur (labels_of q)) g2 refl
          (holds g1 (start_span-Holds m ctx name g sound)) in
      let g4 = check_slow_query (clock 1) q.new_ctx op table dur g3 in
      let (frame4, keep4) = check_slow_query-Keeps (clock 1) q.new_ctx op table dur g3 in
      let frame = Framed-trans g1 g2 g4 (framed g1) (
        Framed-trans g2 g3 g4
          (latency_with_labels-Framed (clock 0) (codes "db_query_duration_ms") dur (labels_of q) g2
            g3 e3)
          frame4) in
      let (popped, _) = end_span-pops (clock 2) q.span g4 (frame.1 ∙ kind) in
      (
        end_span (clock 2) q.span g4,
        ap (ended clock q dur) e3,
        popped
            ∙ ap pop_active_trace_id (frame.0 ∙ pushed)
            ∙ (pop-push q.span.trace_id g.trace_stack).1,
        end_span-Holds (clock 2) q.span g4 (keep4 h3),
      )
