-- ===== src/Example/Tests.antt =====
-- The example program at concrete inputs.
use orkai_observability.Example.{attempt_fields, config, simulate_request}
use orkai_observability.Example.Laws.{db_queries, login_requests, main_simulates}
use orkai_observability.Facade.{Facade, empty_facade}
use orkai_observability.Facade.Counting.{value_in}
use orkai_observability.Facade.Lifecycle.{init}
use orkai_observability.Facade.Sample.{calls, clock, no_files}
use orkai_observability.Float64.{thousandths}
use orkai_observability.Logger.Format.{format_dev_console}
use orkai_observability.Prelude.{[], refl, some, true, ℕ, ◌≡◌}
use orkai_observability.Text.{codes, contains, text_eq}
use orkai_observability.Types.{new_string_field}

main_simulates_example :
    let g = (init (clock 0) calls no_files config empty_facade).1 in
    (g' : Facade ℕ) × (simulate_request clock g ≡ some g')
    × (g'.trace_stack ≡ [])
    × (value_in login_requests g'.instance_of ≡ some 1)
    × (value_in db_queries g'.instance_of ≡ some 1)
main_simulates_example = main_simulates clock calls no_files

-- The program runs in the environment `dev`, whose console shows the password.
password_shown :
    contains
      (format_dev_console []
        (codes "10:00:00")
        (codes "INFO")
        (codes "db3b")
        (codes "user login attempt")
        attempt_fields)
      (codes "super-secret-123")
    ≡ true
unfolding format_dev_console contains text_eq new_string_field
password_shown = refl
