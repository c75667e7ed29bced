-- ===== src/Facade/Schedule/Open.antt =====
-- observability/observability.go: the worker of the exporter while the facade is in use.
use orkai_observability.Facade.{Facade, Moment, export_logs, export_spans}
use orkai_observability.Facade.Schedule.{
  Event, exporter_receives_log, exporter_receives_span, exporter_ticks, run,
}
use orkai_observability.Facade.Schedule.Moves.{Moved, Moves, Permits, PermitsAll}
use orkai_observability.Facade.Schedule.Moving.{run-Moved}
use orkai_observability.Float64.{Float64}
use orkai_observability.Otlp.{
  export_log, OtlpExporter, Surroundings, export_span, on_log, on_span, on_tick, receive_log,
  receive_span, worker,
}
use orkai_observability.Otlp.Batches.{flush-Sent}
use orkai_observability.Otlp.Payloads.{ExportedSpan}
use orkai_observability.Prelude.{
  List, Option, [], arith, none, refl, some, true, ◌∙◌, ◌∷◌, ◌≡◌, Bool, ap, if◌then◌else◌, false,
}
use orkai_observability.Prelude.Int64.{Int64}
use orkai_observability.Text.{Text}
use orkai_observability.Types.{Span}

-- The worker runs, if there is an exporter.
abbrev pub is_open : Option OtlpExporter → Bool
is_open none = true
is_open (some e) = e.worker_alive

abbrev pub IsOpen : Option OtlpExporter → Type 0
IsOpen e = is_open e ≡ true

export_log-alive :
    (line : Text) (e : OtlpExporter) → (export_log line e).worker_alive ≡ e.worker_alive
unfolding export_log
export_log-alive line e = ground arith

pub export_logs-alive :
    (lines : List Text) (e : OtlpExporter) → (export_logs lines e).worker_alive ≡ e.worker_alive
export_logs-alive [] e = refl
export_logs-alive (line ∷ lines) e =
    export_logs-alive lines (export_log line e) ∙ export_log-alive line e

export_span-alive :
    (span : Span) (d : Int64) (e : OtlpExporter)
    → (export_span span d e).worker_alive ≡ e.worker_alive
unfolding export_span
export_span-alive span d e = ground arith

export_spans-alive :
    (spans : List (Span × Int64)) (e : OtlpExporter)
    → (export_spans spans e).worker_alive ≡ e.worker_alive
export_spans-alive [] e = refl
export_spans-alive ((span, d) ∷ spans) e =
    export_spans-alive spans (export_span span d e) ∙ export_span-alive span d e

receive_span-alive :
    (c : Surroundings) (chan : List ExportedSpan) (e : OtlpExporter)
    → (receive_span c chan e).worker_alive ≡ e.worker_alive
receive_span-alive c [] e = refl
receive_span-alive c (s ∷ chan) e = refl

receive_log-alive :
    (c : Surroundings) (chan : List Text) (e : OtlpExporter)
    → (receive_log c chan e).worker_alive ≡ e.worker_alive
receive_log-alive c [] e = refl
receive_log-alive c (s ∷ chan) e = refl

worker-alive :
    (c : Surroundings) (e : OtlpExporter)
    → ((worker c on_span e).worker_alive ≡ e.worker_alive)
      × ((worker c on_log e).worker_alive ≡ e.worker_alive)
      × ((worker c on_tick e).worker_alive ≡ e.worker_alive)
unfolding worker
worker-alive c e = (
  receive_span-alive c e.spans_chan e,
  receive_log-alive c e.logs_chan e,
  (flush-Sent c e.spans e.logs e).idle.same_alive,
)

chosen :
    (b b' : Bool) (x y : OtlpExporter)
    → x.worker_alive ≡ b'
    → y.worker_alive ≡ b'
    → (if b then x else y).worker_alive ≡ b'
chosen true b' x y hx hy = hx
chosen false b' x y hx hy = hy

-- No step but `Close` starts or ends the worker.
alive-Moves : Moves (λ c. Unit) (λ e e'. e'.worker_alive ≡ e.worker_alive)
alive-Moves = record {
  stays = λ e. refl;
  joins = λ e e' e'' h h'. h' ∙ h;
  resets = λ e. refl;
  takes_log = export_log-alive;
  takes_span = export_span-alive;
  rounds = λ c p e.
      let (on_spans, on_logs, on_ticks) = worker-alive c e in
      (
        chosen e.worker_alive e.worker_alive (worker c on_span e) e on_spans refl,
        chosen e.worker_alive e.worker_alive (worker c on_log e) e on_logs refl,
        chosen e.worker_alive e.worker_alive (worker c on_tick e) e on_ticks refl,
      );
}

IsOpen-Moved :
    (o o' : Option OtlpExporter)
    → Moved (λ e e'. e'.worker_alive ≡ e.worker_alive) o o'
    → IsOpen o
    → IsOpen o'
IsOpen-Moved none o' h hi = ap is_open h
IsOpen-Moved (some e) o' (e', eq, h) hi = ap is_open eq ∙ h ∙ hi

module _ {F : Type 0} ⦃f : Float64 F⦄ where
  Permits-any : (v : Event F) → Permits (λ c. Unit) v
  Permits-any (exporter_receives_span c) = tt
  Permits-any (exporter_receives_log c) = tt
  Permits-any (exporter_ticks c) = tt
  Permits-any _ = tt

  pub PermitsAll-any : (vs : List (Moment F × Event F)) → PermitsAll (λ c. Unit) vs
  PermitsAll-any [] = tt
  PermitsAll-any ((m, v) ∷ vs) = (Permits-any v, PermitsAll-any vs)

  pub run-IsOpen :
      (vs : List (Moment F × Event F)) (g g' : Facade F)
      → run vs g ≡ some g'
      → IsOpen g.exporter
      → IsOpen g'.exporter
  run-IsOpen vs g g' e h =
      IsOpen-Moved g.exporter g'.exporter (run-Moved alive-Moves vs g g' (PermitsAll-any vs) e) h
