-- ===== src/Facade/Lifecycle/Tests.antt =====
-- `Init` and `Close` at concrete inputs.
use orkai_observability.Otlp
use orkai_observability.Facade.{Facade, Moment, empty_facade}
use orkai_observability.Facade.Background.{export_worker}
use orkai_observability.Facade.Calls.{counter, log_entry}
use orkai_observability.Facade.Lifecycle.{close_all, init}
use orkai_observability.Facade.Lifecycle.Afterwards.{close_all-quiet}
use orkai_observability.Facade.Lifecycle.Opening.{init-instance}
use orkai_observability.Facade.Lifecycle.Closing.{close_all-again, close_all-run}
use orkai_observability.Facade.Lifecycle.Ending.{close_all-loops}
use orkai_observability.Facade.Lifecycle.Posting.{close_all-posted}
use orkai_observability.Facade.Sample.{calls, collector, config, events, moment, no_files}
use orkai_observability.Facade.Schedule.{
  Event, after, run, calls_counter, calls_log, exporter_receives_log,
}
use orkai_observability.Float64.{thousandths}
use orkai_observability.Facade.Lifecycle.Accepting.{later_logs, later_spans}
use orkai_observability.Logger.Entries.{log, logs_info}
use orkai_observability.Otlp.Batches.{posted_logs, posted_spans}
use orkai_observability.Otlp.Order.{held_logs, held_spans}
use orkai_observability.Prelude.{
  false, [], is_some, none, not, refl, some, true, ℕ, ◌∷◌, ◌≡◌, ◌++◌, List, length,
}
use orkai_observability.Table.{or_zero}
use orkai_observability.Text.{codes, text_eq}

initialised : (init moment calls no_files config empty_facade).0 ≡ none
unfolding init text_eq
initialised = refl

close_all-run_example :
    (g : Facade ℕ) × (run events (init moment calls no_files config empty_facade).1 ≡ some g)
    × (is_some (close_all moment collector g) ≡ true)
close_all-run_example =
    close_all-run moment moment calls no_files config collector events initialised refl

-- An exporter with a line in its channel.
abbrev open_exporter : Otlp.OtlpExporter
open_exporter = record {
  endpoint = codes "http://c";
  service_name = codes "svc";
  interval = 5000000000;
  spans_chan = [];
  logs_chan = codes "x" ∷ [];
  spans = [];
  logs = [];
  worker_alive = true;
  posts = [];
  counted = [];
}

abbrev with_exporter_only : Facade ℕ
with_exporter_only = record (empty_facade {F = ℕ}) { exporter = some open_exporter }

abbrev closed : Facade ℕ
closed = record (empty_facade {F = ℕ}) {
  exporter = some (record (Otlp.worker collector Otlp.Case.on_stop open_exporter) { counted = [] });
}

closes : close_all moment collector with_exporter_only ≡ some closed
unfolding close_all Otlp.close
closes = refl

second_close :
    is_some (close_all moment collector closed) ≡ not (is_some with_exporter_only.exporter)
second_close = close_all-again moment moment collector collector with_exporter_only closed closes

-- A second `Init`: the loop of the first one runs.
abbrev running_facade : Facade ℕ
running_facade = record (empty_facade {F = ℕ}) { loops = 7 ∷ []; cancel = some true }

abbrev initialised_twice : Facade ℕ
initialised_twice = (init moment calls no_files config running_facade).1

abbrev used : Facade ℕ
used = counter moment (codes "x") initialised_twice

abbrev closed_after : Facade ℕ
closed_after = or_zero empty_facade (close_all moment collector used)

again : (init moment calls no_files config running_facade).0 ≡ none
unfolding init text_eq
again = refl

used_lem : run ((moment, calls_counter (codes "x")) ∷ []) initialised_twice ≡ some used
unfolding run after
used_lem = refl

closed_lem : close_all moment collector used ≡ some closed_after
unfolding close_all Otlp.close counter init text_eq
closed_lem = refl

close_all-loops_example : closed_after.loops ≡ 7 ∷ []
close_all-loops_example =
    close_all-loops moment moment calls no_files config collector
      ((moment, calls_counter (codes "x")) ∷ []) running_facade used closed_after refl again
      used_lem closed_lem

-- An initialised package with an exporter.
abbrev in_use : Facade ℕ
in_use = record (init moment calls no_files config empty_facade).1 { exporter = some open_exporter }

abbrev in_use_closed : Facade ℕ
in_use_closed = or_zero empty_facade (close_all moment collector in_use)

in_use_closed_lem : close_all moment collector in_use ≡ some in_use_closed
unfolding close_all Otlp.close init text_eq
in_use_closed_lem = refl

-- The worker receives the line of the exporter, an entry is logged, and the package is closed.
abbrev in_use_events : List (Moment ℕ × Event ℕ)
in_use_events =
    (moment, exporter_receives_log collector)
    ∷ (moment, calls_log logs_info (codes "hello") [])
    ∷ []

abbrev used_more : Facade ℕ
used_more = or_zero empty_facade (run in_use_events in_use)

abbrev posted : Facade ℕ
posted = or_zero empty_facade (close_all moment collector used_more)

used_more_lem : run in_use_events in_use ≡ some used_more
unfolding run after
used_more_lem = refl

posted_lem : close_all moment collector used_more ≡ some posted
unfolding close_all Otlp.close run after export_worker Otlp.worker log_entry log init text_eq
    Otlp.export_log
posted_lem = refl

close_all-posted_example :
    (e' : Otlp.OtlpExporter) × (posted.exporter ≡ some e')
    × (posted_spans e'.posts
        ≡ held_spans collector open_exporter ++ later_spans collector in_use_events in_use)
    × (posted_logs e'.posts
        ≡ held_logs collector open_exporter ++ later_logs collector in_use_events in_use)
close_all-posted_example =
    close_all-posted moment collector in_use_events in_use used_more posted open_exporter
      (refl, (tt, tt)) refl used_more_lem posted_lem

-- The line of the entry is among them.
one_more_line : length (later_logs collector in_use_events in_use) ≡ 1
unfolding later_logs after export_worker log_entry log init text_eq
one_more_line = refl

close_all-quiet_example :
    (g2 : Facade ℕ) × (e1 : Otlp.OtlpExporter) × (e2 : Otlp.OtlpExporter) × (run events
        in_use_closed
      ≡ some g2)
    × (in_use_closed.exporter ≡ some e1)
    × (g2.exporter ≡ some e2)
    × (e2.posts ≡ e1.posts)
    × (is_some (close_all moment collector g2) ≡ false)
close_all-quiet_example =
    close_all-quiet moment collector events in_use in_use_closed open_exporter refl
      (init-instance moment calls no_files config initialised).0 refl in_use_closed_lem
