-- ===== src/Facade/Schedule/Tests.antt =====
-- The calls of the package before `Init`, at a concrete sequence of events.
use orkai_observability.Facade.{empty_facade}
use orkai_observability.Facade.Sample.{events}
use orkai_observability.Facade.Schedule.{run}
use orkai_observability.Facade.Schedule.Uninitialised.{run_nothing}
use orkai_observability.Float64.{thousandths}
use orkai_observability.Prelude.{some, ◌≡◌}

events_do_nothing : run events empty_facade ≡ some empty_facade
events_do_nothing = run_nothing events
