-- ===== src/Facade/Schedule/Calls.antt =====
-- observability/observability.go: the calls one by one, which keep the metrics valid.
use orkai_observability.Context.{Context}
use orkai_observability.Facade.{Facade, Moment}
use orkai_observability.Facade.Calls.{counter, end_span, latency, log_entry, start_span}
use orkai_observability.Facade.Schedule.{
  after, calls_counter, calls_end_span, calls_latency, calls_log, calls_start_span,
}
use orkai_observability.Facade.Schedule.Safety.{after-Holds, after-keeps}
use orkai_observability.Facade.Soundness.{Holds}
use orkai_observability.Float64.{Float64}
use orkai_observability.Logger.Entries.{Method}
use orkai_observability.Prelude.{List, refl, some, ◌≡◌}
use orkai_observability.Prelude.Int64.{Int64}
use orkai_observability.Text.{Text}
use orkai_observability.Types.{Field, Span}

module _ {F : Type 0} ⦃f : Float64 F⦄ (m : Moment F) where
  pub log_entry-Holds :
      (method : Method) (msg : Text) (fields : List Field) (g : Facade F)
      → Holds g.instance_of
      → Holds (log_entry m method msg fields g).instance_of
  unfolding after
  log_entry-Holds method msg fields g h =
      after-keeps m (calls_log method msg fields) g (log_entry m method msg fields g) refl h

  pub counter-Holds :
      (name : Text) (g : Facade F) → Holds g.instance_of → Holds (counter m name g).instance_of
  unfolding after
  counter-Holds name g h = after-keeps m (calls_counter name) g (counter m name g) refl h

  pub start_span-Holds :
      (ctx : Context) (name : Text) (g : Facade F)
      → Holds g.instance_of
      → Holds (start_span m ctx name g).1.instance_of
  unfolding after
  start_span-Holds ctx name g h =
      after-keeps m (calls_start_span ctx name) g (start_span m ctx name g).1 refl h

  pub end_span-Holds :
      (span : Span) (g : Facade F) → Holds g.instance_of → Holds (end_span m span g).instance_of
  unfolding after
  end_span-Holds span g h = after-keeps m (calls_end_span span) g (end_span m span g) refl h

  pub latency-Holds :
      (name : Text) (d : Int64) (g : Facade F)
      → Holds g.instance_of
      → (g' : Facade F) × (latency m name d g ≡ some g') × Holds g'.instance_of
  unfolding after
  latency-Holds name d g h = after-Holds m (calls_latency name d) g refl h
