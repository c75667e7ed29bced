-- ===== src/Example/Laws.antt =====
-- cmd/api/main.go: what a simulated request leaves.
use orkai_observability.Context.{Context, background}
use orkai_observability.Example.{
  attempt_fields, config, ended, mock_database_call, simulate_request,
}
use orkai_observability.Facade.{Facade, Moment, empty_facade}
use orkai_observability.Facade.Calls.{counter, end_span, latency, log_entry, start_span}
use orkai_observability.Facade.Counting.{AddsIn, AddsIn-trans, value_in}
use orkai_observability.Facade.Counting.Parts.{IsOwn}
use orkai_observability.Facade.Counting.Singles.{
  counter-AddsIn, end_span-AddsIn, latency-AddsIn, log_entry-AddsIn, start_span-AddsIn,
}
use orkai_observability.Facade.Frame.{
  Framed, Framed-trans, counter-Framed, end_span-pops, is_local, latency-Framed, log_entry-Framed,
  start_span-pushes,
}
use orkai_observability.Facade.Lifecycle.{init}
use orkai_observability.Facade.Lifecycle.Opening.{init-instance}
use orkai_observability.Facade.Sample.{clock}
use orkai_observability.Facade.Schedule.Calls.{
  counter-Holds, end_span-Holds, latency-Holds, log_entry-Holds, start_span-Holds,
}
use orkai_observability.Facade.Soundness.{Holds}
use orkai_observability.Float64.{Float64}
use orkai_observability.Logger.Entries.{Method, logs_info_context}
use orkai_observability.Prelude.{
  ◌+◌, ap, if◌then◌else◌, refl, some, sym, true, ℕ, ◌∙◌, ◌≡◌, List, [], ◌∷◌,
}
use orkai_observability.Prelude.Int64.{Int64}
use orkai_observability.RotatingFile.{Files, SystemCalls}
use orkai_observability.Text.{Text, codes, text_eq}
use orkai_observability.Tracer.{pop_active_trace_id}
use orkai_observability.Tracer.Nesting.{pop-push}
use orkai_observability.Types.{since, Field, new_string_field}

abbrev pub db_queries : Text
db_queries = codes "db_queries_total"

abbrev pub login_requests : Text
login_requests = codes "login_requests_total"

db_queries-IsOwn : IsOwn db_queries
unfolding text_eq
db_queries-IsOwn = record { not_dropped = refl; not_errors = refl }

login_requests-IsOwn : IsOwn login_requests
unfolding text_eq
login_requests-IsOwn = record { not_dropped = refl; not_errors = refl }

module _ {F : Type 0} ⦃f : Float64 F⦄ where
  -- The stack of active trace IDs is as before, valid metrics stay valid, and the two counters of the
  -- program have grown.
  pub record Leaves (logins queries : ℕ) (g g' : Facade F) : Type 0 where
    pub framed : Framed g g'
    pub valid : Holds g.instance_of → Holds g'.instance_of
    pub logins_more : AddsIn login_requests logins g.instance_of g'.instance_of
    pub queries_more : AddsIn db_queries queries g.instance_of g'.instance_of

  Leaves-trans :
      (a b a' b' : ℕ) (g g' g'' : Facade F)
      → Leaves a b g g'
      → Leaves a' b' g' g''
      → Leaves (a + a') (b + b') g g''
  Leaves-trans a b a' b' g g' g'' h h' = record {
    framed = Framed-trans g g' g'' h.framed h'.framed;
    valid = λ v. h'.valid (h.valid v);
    logins_more =
        AddsIn-trans login_requests a a' g.instance_of g'.instance_of g''.instance_of h.logins_more
          h'.logins_more;
    queries_more =
        AddsIn-trans db_queries b b' g.instance_of g'.instance_of g''.instance_of h.queries_more
          h'.queries_more;
  }

  module _ (m : Moment F) where
    logs-Leaves :
        (method : Method) (msg : Text) (fields : List Field) (g : Facade F)
        → Leaves 0 0 g (log_entry m method msg fields g)
    logs-Leaves method msg fields g = record {
      framed = log_entry-Framed m method msg fields g;
      valid = log_entry-Holds m method msg fields g;
      logins_more = log_entry-AddsIn login_requests login_requests-IsOwn m method msg fields g;
      queries_more = log_entry-AddsIn db_queries db_queries-IsOwn m method msg fields g;
    }

    counter-Leaves :
        (name : Text) (g : Facade F)
        → Leaves
            (if text_eq name login_requests then 1 else 0)
            (if text_eq name db_queries then 1 else 0)
            g
            (counter m name g)
    counter-Leaves name g = record {
      framed = counter-Framed m name g;
      valid = counter-Holds m name g;
      logins_more = counter-AddsIn login_requests login_requests-IsOwn m name g;
      queries_more = counter-AddsIn db_queries db_queries-IsOwn m name g;
    }

    latency-Leaves :
        (name : Text) (d : Int64) (g : Facade F)
        → Holds g.instance_of
        → (g' : Facade F) × (latency m name d g ≡ some g') × Leaves 0 0 g g'
    latency-Leaves name d g v =
        let (g', e, v') = latency-Holds m name d g v in
        (
          g',
          e,
          record {
            framed = latency-Framed m name d g g' e;
            valid = λ h. v';
            logins_more = latency-AddsIn login_requests login_requests-IsOwn m name d g g' e;
            queries_more = latency-AddsIn db_queries db_queries-IsOwn m name d g g' e;
          },
        )

  -- A span around calls, with the local tracer.
  span-Leaves :
      (a b : ℕ) (m m' : Moment F) (ctx : Context) (name : Text) (g g2 : Facade F)
      → is_local g.instance_of ≡ true
      → let (r, g1) = start_span m ctx name g in
        Leaves a b g1 g2 → Leaves (0 + a + 0) (0 + b + 0) g (end_span m' r.1 g2)
  span-Leaves a b m m' ctx name g g2 local' h =
      let (r, g1) = start_span m ctx name g in
      let g3 = end_span m' r.1 g2 in
      let (pushed, at_start) = start_span-pushes m ctx name g local' in
      let (stack, at_end) = end_span-pops m' r.1 g2 (h.framed.1 ∙ at_start) in
      record {
        framed = (
          stack
              ∙ ap pop_active_trace_id (h.framed.0 ∙ pushed)
              ∙ (pop-push r.1.trace_id g.trace_stack).1,
          at_end ∙ sym local',
        );
        valid = λ v. end_span-Holds m' r.1 g2 (h.valid (start_span-Holds m ctx name g v));
        logins_more =
            AddsIn-trans login_requests (0 + a) 0 g.instance_of g2.instance_of g3.instance_of
              (AddsIn-trans login_requests 0 a g.instance_of g1.instance_of g2.instance_of
                (start_span-AddsIn login_requests login_requests-IsOwn m ctx name g) h.logins_more)
              (end_span-AddsIn login_requests login_requests-IsOwn m' r.1 g2);
        queries_more =
            AddsIn-trans db_queries (0 + b) 0 g.instance_of g2.instance_of g3.instance_of
              (AddsIn-trans db_queries 0 b g.instance_of g1.instance_of g2.instance_of
                (start_span-AddsIn db_queries db_queries-IsOwn m ctx name g) h.queries_more)
              (end_span-AddsIn db_queries db_queries-IsOwn m' r.1 g2);
      }

  module _ (clock : ℕ → Moment F) where
    mock-Leaves :
        (ctx : Context) (g : Facade F)
        → is_local g.instance_of ≡ true
        → Leaves 0 1 g (mock_database_call clock ctx g)
    unfolding mock_database_call text_eq
    mock-Leaves ctx g local' =
        let ((db_ctx, span), g1) = start_span (clock 4) ctx (codes "DatabaseQuery") g in
        let fields : List Field = new_string_field (codes "table") (codes "users") ∷ [] in
        let g2 =
          log_entry (clock 5) (logs_info_context db_ctx) (codes "executing select user query")
            fields g1 in
        span-Leaves 0 1 (clock 4) (clock 7) ctx (codes "DatabaseQuery") g
          (counter (clock 6) (codes "db_queries_total") g2) local'
          (Leaves-trans 0 0 0 1 g1 g2 (counter (clock 6) (codes "db_queries_total") g2)
            (logs-Leaves (clock 5) (logs_info_context db_ctx) (codes "executing select user query")
              fields g1)
            (counter-Leaves (clock 6) (codes "db_queries_total") g2))

    -- A simulated request does not panic with valid metrics and the local tracer, whatever the moments of
    -- its calls: it leaves the stack of active trace IDs as it was and the metrics valid, and with the
    -- in-memory metrics it counts one login request and one database query.
    pub simulate_request-Leaves :
        (g : Facade F)
        → is_local g.instance_of ≡ true
        → Holds g.instance_of
        → (g' : Facade F) × (simulate_request clock g ≡ some g') × Leaves 1 1 g g'
    unfolding simulate_request text_eq
    simulate_request-Leaves g local' v =
        let ((ctx, span), g1) = start_span (clock 1) background (codes "LoginHandler") g in
        let attempt = codes "user login attempt" in
        let success = codes "user authenticated successfully" in
        let role : List Field = new_string_field (codes "role") (codes "admin") ∷ [] in
        let g2 =
          log_entry (clock 2) (logs_info_context ctx) (codes "login request received") [] g1 in
        let g3 = log_entry (clock 3) (logs_info_context ctx) attempt attempt_fields g2 in
        let g4 = mock_database_call clock ctx g3 in
        let g5 = log_entry (clock 8) (logs_info_context ctx) success role g4 in
        let g6 = counter (clock 9) (codes "login_requests_total") g5 in
        let at_start : is_local g1.instance_of ≡ true =
          (start_span-pushes (clock 1) background (codes "LoginHandler") g local').1 in
        let h3 : Leaves 0 0 g1 g3 =
          Leaves-trans 0 0 0 0 g1 g2 g3
            (logs-Leaves (clock 2) (logs_info_context ctx) (codes "login request received") [] g1)
            (logs-Leaves (clock 3) (logs_info_context ctx) attempt attempt_fields g2) in
        let h4 : Leaves 0 1 g1 g4 =
          Leaves-trans 0 0 0 1 g1 g3 g4 h3 (mock-Leaves ctx g3 (h3.framed.1 ∙ at_start)) in
        let h5 : Leaves 0 1 g1 g5 =
          Leaves-trans 0 1 0 0 g1 g4 g5 h4
            (logs-Leaves (clock 8) (logs_info_context ctx) success role g4) in
        let h6 : Leaves 1 1 g1 g6 =
          Leaves-trans 0 1 1 0 g1 g5 g6 h5
            (counter-Leaves (clock 9) (codes "login_requests_total") g5) in
        let d = since (clock 10).ambient.now (clock 13).ambient.now in
        let v1 = start_span-Holds (clock 1) background (codes "LoginHandler") g v in
        let (g7, e, h7) = latency-Leaves (clock 10) (codes "login_duration") d g6 (h6.valid v1) in
        (
          end_span (clock 11) span g7,
          ap (ended clock span) e,
          span-Leaves 1 1 (clock 1) (clock 11) background (codes "LoginHandler") g g7 local'
              (Leaves-trans 1 1 0 0 g1 g6 g7 h6 h7),
        )

  -- From `Init` on, the program's simulated request does not panic, whatever the moments of its calls;
  -- then no trace ID is active, one login request and one database query are counted.
  pub main_simulates :
      (clock : ℕ → Moment F) (c : SystemCalls) (files : Files)
      → let g = (init (clock 0) c files config empty_facade).1 in
        (g' : Facade F) × (simulate_request clock g ≡ some g')
        × (g'.trace_stack ≡ [])
        × (value_in login_requests g'.instance_of ≡ some 1)
        × (value_in db_queries g'.instance_of ≡ some 1)
  unfolding init text_eq
  main_simulates clock c files =
      let g = (init (clock 0) c files config empty_facade).1 in
      let valid = (init-instance (clock 0) c files config refl).0 in
      let (g', e, h) = simulate_request-Leaves clock g refl valid in
      (g', e, h.framed.0, h.logins_more, h.queries_more)
