-- ===== src/Facade/Counting/Tests.antt =====
-- A counter of the facade at concrete inputs.
use orkai_observability.Facade.{Facade, Moment, empty_facade, count_all, gauge_all}
use orkai_observability.Facade.Counting.{AddsIn}
use orkai_observability.Facade.Counting.Calls.{called_all, run-counted}
use orkai_observability.Facade.Counting.Parts.{IsOwn}
use orkai_observability.Facade.Sample.{moment, started, events}
use orkai_observability.Facade.Schedule.{
  Event, run, after, calls_counter, calls_counter_with_labels,
}
use orkai_observability.Float64.{thousandths}
use orkai_observability.Logger.Delivery.{new_json_logger}
use orkai_observability.Metrics.Key.{format_metric_key}
use orkai_observability.Metrics.Store.{new_in_memory_metrics}
use orkai_observability.Prelude.{List, [], refl, some, ℕ, ◌∷◌, ◌≡◌, ◌++◌}
use orkai_observability.Table.{or_zero}
use orkai_observability.Text.{Text, codes, text_eq}

abbrev jobs : Text
jobs = codes "jobs"

jobs-IsOwn : IsOwn jobs
unfolding text_eq
jobs-IsOwn = record { not_dropped = refl; not_errors = refl }

abbrev job_events : List (Moment ℕ × Event ℕ)
job_events =
    (moment, calls_counter jobs)
    ∷ (events
        ++ (moment, calls_counter_with_labels jobs []) ∷ (moment, calls_counter (codes "x")) ∷ [])

abbrev after_jobs : Facade ℕ
after_jobs = or_zero empty_facade (run job_events started)

after_jobs_lem : run job_events started ≡ some after_jobs
unfolding run after text_eq count_all new_json_logger gauge_all new_in_memory_metrics
after_jobs_lem = refl

-- The two calls under the name.
two_calls : called_all jobs job_events ≡ 2
unfolding called_all text_eq format_metric_key
two_calls = refl

run-counted_example :
    AddsIn jobs (called_all jobs job_events) started.instance_of after_jobs.instance_of
run-counted_example = run-counted jobs job_events started after_jobs jobs-IsOwn after_jobs_lem
