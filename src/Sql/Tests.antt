-- ===== src/Sql/Tests.antt =====
-- A query at concrete inputs.
use orkai_observability.Context.{background}
use orkai_observability.Facade.{Facade}
use orkai_observability.Facade.Sample.{clock, moment, started}
use orkai_observability.Facade.Soundness.{Holds}
use orkai_observability.Float64.{thousandths}
use orkai_observability.Metrics.Store.Validity.{new-IsValid}
use orkai_observability.Prelude.{[], refl, some, ℕ, ◌≡◌}
use orkai_observability.Sql.{end_func, trace_sql}
use orkai_observability.Sql.Callback.{end_func-trace_sql}
use orkai_observability.Text.{codes}

started-Holds : Holds started.instance_of
started-Holds = new-IsValid (codes "svc")

end_func-trace_sql_example :
    let (r, g1) = trace_sql moment background (codes "SELECT") (codes "users") started in
    (g' : Facade ℕ) × (end_func clock r.1 g1 ≡ some g')
    × (g'.trace_stack ≡ [])
    × Holds g'.instance_of
end_func-trace_sql_example =
    end_func-trace_sql moment clock background (codes "SELECT") (codes "users") (λ g. g) started
      (λ g. (refl, refl)) (λ g h. h) refl started-Holds
