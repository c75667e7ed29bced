-- ===== src/Facade/Counting/Singles.antt =====
-- observability/observability.go: the calls one by one, and what they add to a counter.
use orkai_observability.Context.{Context}
use orkai_observability.Facade.{Facade, Moment}
use orkai_observability.Facade.Calls.{counter, end_span, latency, log_entry, start_span}
use orkai_observability.Facade.Counting.{AddsIn}
use orkai_observability.Facade.Counting.Calls.{after-AddsIn}
use orkai_observability.Facade.Counting.Parts.{IsOwn}
use orkai_observability.Facade.Schedule.{
  after, calls_counter, calls_end_span, calls_latency, calls_log, calls_start_span,
}
use orkai_observability.Float64.{Float64}
use orkai_observability.Logger.Entries.{Method}
use orkai_observability.Prelude.{List, if◌then◌else◌, refl, some, ◌≡◌}
use orkai_observability.Prelude.Int64.{Int64}
use orkai_observability.Text.{Text, text_eq}
use orkai_observability.Types.{Field, Span}

module _ {F : Type 0} ⦃f : Float64 F⦄ (k : Text) (own : IsOwn k) (m : Moment F) where
  pub log_entry-AddsIn :
      (method : Method) (msg : Text) (fields : List Field) (g : Facade F)
      → AddsIn k 0 g.instance_of (log_entry m method msg fields g).instance_of
  unfolding after
  log_entry-AddsIn method msg fields g =
      after-AddsIn k own m (calls_log method msg fields) g (log_entry m method msg fields g) refl

  pub counter-AddsIn :
      (name : Text) (g : Facade F)
      → AddsIn k (if text_eq name k then 1 else 0) g.instance_of (counter m name g).instance_of
  unfolding after
  counter-AddsIn name g = after-AddsIn k own m (calls_counter name) g (counter m name g) refl

  pub start_span-AddsIn :
      (ctx : Context) (name : Text) (g : Facade F)
      → AddsIn k 0 g.instance_of (start_span m ctx name g).1.instance_of
  unfolding after
  start_span-AddsIn ctx name g =
      after-AddsIn k own m (calls_start_span ctx name) g (start_span m ctx name g).1 refl

  pub end_span-AddsIn :
      (span : Span) (g : Facade F) → AddsIn k 0 g.instance_of (end_span m span g).instance_of
  unfolding after
  end_span-AddsIn span g = after-AddsIn k own m (calls_end_span span) g (end_span m span g) refl

  pub latency-AddsIn :
      (name : Text) (d : Int64) (g g' : Facade F)
      → latency m name d g ≡ some g'
      → AddsIn k 0 g.instance_of g'.instance_of
  unfolding after
  latency-AddsIn name d g g' e = after-AddsIn k own m (calls_latency name d) g g' e
