-- ===== src/Facade/Frame.antt =====
-- observability/observability.go: what the calls leave of the stack of active trace IDs and of the kind of
-- the tracer.
use orkai_observability.Context.{Context}
use orkai_observability.Facade.{
  Facade, Instance, Metering, Moment, Tracing, local, spanned, on_instance,
}
use orkai_observability.Facade.Calls.{
  counter, end_on, end_span, latency, latency_with_labels, log_entry, start_span, start_on,
  start_with, latency_on, store_metrics,
}
use orkai_observability.Float64.{Float64}
use orkai_observability.Logger.Entries.{Method}
use orkai_observability.Prelude.{
  Bool, List, Option, ap, false, none, refl, some, sym, true, ◌∙◌, ◌≡◌,
}
use orkai_observability.Prelude.Int64.{Int64}
use orkai_observability.Table.{Table}
use orkai_observability.Text.{Text}
use orkai_observability.Tracer.{pop_active_trace_id, push_active_trace_id}
use orkai_observability.Types.{Field, Span}

abbrev pub is_local_tracer : Tracing → Bool
is_local_tracer (local t) = true
is_local_tracer (spanned o) = false

module _ {F : Type 0} where
  -- Whether there is an instance, with the local tracer.
  abbrev pub is_local : Option (Instance F) → Bool
  is_local none = false
  is_local (some inst) = is_local_tracer inst.tracer

  -- The stack of active trace IDs and the kind of the tracer are as before.
  abbrev pub Framed : Facade F → Facade F → Type 0
  Framed g g' =
      (g'.trace_stack ≡ g.trace_stack) × (is_local g'.instance_of ≡ is_local g.instance_of)

  pub Framed-trans : (g g' g'' : Facade F) → Framed g g' → Framed g' g'' → Framed g g''
  Framed-trans g g' g'' h h' = (h'.0 ∙ h.0, h'.1 ∙ h.1)

  on_instance-Framed :
      (op : Instance F → Facade F) (g : Facade F) (i : Option (Instance F))
      → g.instance_of ≡ i
      → ((inst : Instance F)
          → ((op inst).trace_stack ≡ g.trace_stack)
            × (is_local (op inst).instance_of ≡ is_local_tracer inst.tracer))
      → Framed g (on_instance op g i)
  on_instance-Framed op g none e keep = (refl, refl)
  on_instance-Framed op g (some inst) e keep =
      let (stack, kind) = keep inst in (stack, kind ∙ sym (ap is_local e))

  latency_on-Framed :
      (op : Metering F → Option (Metering F)) (g g' : Facade F) (i : Option (Instance F))
      → g.instance_of ≡ i
      → latency_on op g i ≡ some g'
      → Framed g g'
  latency_on-Framed op g g' none ei e =
      let e' : g ≡ g' = cc in
      (ap (λ x. x.trace_stack) (sym e'), ap (λ x. is_local x.instance_of) (sym e'))
  latency_on-Framed op g g' (some inst) ei e = stored (op inst.metrics) e
    where
      stored : (o : Option (Metering F)) → store_metrics inst g o ≡ some g' → Framed g g'
      stored none e = absurd (cc)
      stored (some s) e =
          let e' : record g { instance_of = some (record inst { metrics = s }) } ≡ g' = cc in
          (
            ap (λ x. x.trace_stack) (sym e'),
            ap (λ x. is_local x.instance_of) (sym e') ∙ sym (ap is_local ei),
          )

module _ {F : Type 0} ⦃f : Float64 F⦄ (m : Moment F) where
  pub log_entry-Framed :
      (method : Method) (msg : Text) (fields : List Field) (g : Facade F)
      → Framed g (log_entry m method msg fields g)
  unfolding log_entry
  log_entry-Framed method msg fields g =
      on_instance-Framed _ g g.instance_of refl (λ inst. (refl, refl))

  pub counter-Framed : (name : Text) (g : Facade F) → Framed g (counter m name g)
  unfolding counter
  counter-Framed name g = on_instance-Framed _ g g.instance_of refl (λ inst. (refl, refl))

  pub latency-Framed :
      (name : Text) (d : Int64) (g g' : Facade F) → latency m name d g ≡ some g' → Framed g g'
  unfolding latency
  latency-Framed name d g g' e = latency_on-Framed _ g g' g.instance_of refl e

  pub latency_with_labels-Framed :
      (name : Text) (d : Int64) (labels : Table Text) (g g' : Facade F)
      → latency_with_labels m name d labels g ≡ some g'
      → Framed g g'
  unfolding latency_with_labels
  latency_with_labels-Framed name d labels g g' e = latency_on-Framed _ g g' g.instance_of refl e

  -- With the local tracer, `StartSpan` pushes the trace ID of the span.
  pub start_span-pushes :
      (ctx : Context) (name : Text) (g : Facade F)
      → is_local g.instance_of ≡ true
      → let (r, g') = start_span m ctx name g in
        (g'.trace_stack ≡ push_active_trace_id r.1.trace_id g.trace_stack)
        × (is_local g'.instance_of ≡ true)
  unfolding start_span
  start_span-pushes ctx name g h = started g.instance_of h
    where
      on_tracer :
          (inst : Instance F) (t : Tracing)
          → is_local_tracer t ≡ true
          → let (r, g') = start_on m ctx name inst g t in
            (g'.trace_stack ≡ push_active_trace_id r.1.trace_id g.trace_stack)
            × (is_local g'.instance_of ≡ true)
      on_tracer inst (local t) h = (refl, refl)
      on_tracer inst (spanned o) h = absurd (cc)

      started :
          (i : Option (Instance F))
          → is_local i ≡ true
          → let (r, g') = start_with m ctx name g i in
            (g'.trace_stack ≡ push_active_trace_id r.1.trace_id g.trace_stack)
            × (is_local g'.instance_of ≡ true)
      started none h = absurd (cc)
      started (some inst) h = on_tracer inst inst.tracer h

  -- With the local tracer, `EndSpan` pops a trace ID.
  pub end_span-pops :
      (span : Span) (g : Facade F)
      → is_local g.instance_of ≡ true
      → ((end_span m span g).trace_stack ≡ pop_active_trace_id g.trace_stack)
        × (is_local (end_span m span g).instance_of ≡ true)
  unfolding end_span
  end_span-pops span g h = ended g.instance_of h
    where
      on_tracer :
          (inst : Instance F) (t : Tracing)
          → is_local_tracer t ≡ true
          → ((end_on m span inst g t).trace_stack ≡ pop_active_trace_id g.trace_stack)
            × (is_local (end_on m span inst g t).instance_of ≡ true)
      on_tracer inst (local t) h = (refl, refl)
      on_tracer inst (spanned o) h = absurd (cc)

      ended :
          (i : Option (Instance F))
          → is_local i ≡ true
          → ((on_instance (λ inst. end_on m span inst g inst.tracer) g i).trace_stack
              ≡ pop_active_trace_id g.trace_stack)
            × (is_local (on_instance (λ inst. end_on m span inst g inst.tracer) g i).instance_of
                ≡ true)
      ended none h = absurd (cc)
      ended (some inst) h = on_tracer inst inst.tracer h
