-- ===== src/Requests/Panics.antt =====
-- observability/panic_middleware.go: the counter of panics.
use orkai_observability.Facade.{Facade, Moment}
use orkai_observability.Facade.Calls.{counter, log_entry}
use orkai_observability.Facade.Counting.{AddsIn, AddsIn-refl, AddsIn-trans, AddsIn-as}
use orkai_observability.Facade.Counting.Parts.{IsOwn}
use orkai_observability.Facade.Counting.Singles.{counter-AddsIn, log_entry-AddsIn}
use orkai_observability.Float64.{Float64}
use orkai_observability.Logger.Entries.{logs_error_context}
use orkai_observability.Prelude.{
  ◌≡◌, ◌&&◌, ◌++◌, Option, [], ap, if◌then◌else◌, is_some, none, refl, some, ℕ, ◌+◌, arith, ◌∙◌,
}
use orkai_observability.Requests.{
  Answer, Request, recover, Handler, Writer, panic_recovery_middleware,
}
use orkai_observability.Text.{Text, codes, text_eq}

abbrev pub requests_total : Text
requests_total = codes "http_requests_total"

abbrev pub panics_total : Text
panics_total = codes "http_panics_total"

module _ {F : Type 0} ⦃f : Float64 F⦄ (k : Text) (own : IsOwn k) (m : Moment F) where
  -- `runRecovery` counts a panic.
  recover-AddsIn :
      (req : Request) (a : Answer F) (panic : Option Text)
      → AddsIn k
          (if is_some panic && text_eq panics_total k then 1 else 0)
          a.facade.instance_of
          (recover m req a panic).facade.instance_of
  recover-AddsIn req a none = AddsIn-refl k a.facade.instance_of
  recover-AddsIn req a (some r) =
      let g1 =
        log_entry m (logs_error_context req.context (codes "panic: " ++ r))
          (codes "panic in http handler") [] a.facade in
      let n : ℕ = if text_eq panics_total k then 1 else 0 in
      let g2 = counter m panics_total g1 in
      let i = a.facade.instance_of in
      AddsIn-as k (0 + n) n i g2.instance_of (omega arith) (
        AddsIn-trans k 0 n i g1.instance_of g2.instance_of
          (log_entry-AddsIn k own m _ _ [] a.facade) (counter-AddsIn k own m panics_total g1))

pub requests_IsOwn : IsOwn requests_total
unfolding text_eq
requests_IsOwn = record { not_dropped = refl; not_errors = refl }

pub panics_IsOwn : IsOwn panics_total
unfolding text_eq
panics_IsOwn = record { not_dropped = refl; not_errors = refl }

-- What a panic of the handler adds.
abbrev pub by_panic : Text → Option Text → ℕ
by_panic k panic = if is_some panic && text_eq panics_total k then 1 else 0

pub by_panic-requests : (panic : Option Text) → by_panic requests_total panic ≡ 0
unfolding text_eq
by_panic-requests none = refl
by_panic-requests (some r) = refl

pub by_panic-panics :
    (panic : Option Text) → by_panic panics_total panic ≡ (if is_some panic then 1 else 0)
unfolding text_eq
by_panic-panics none = refl
by_panic-panics (some r) = refl

pub recovery-AddsIn :
    {F : Type 0} ⦃f : Float64 F⦄ (k : Text) (own : IsOwn k) (m : Moment F) (next : Handler F)
    (panic : Option Text) (req : Request) (w : Writer) (g : Facade F)
    → (next req w g).panic ≡ panic
    → AddsIn k 0 g.instance_of (next req w g).facade.instance_of
    → AddsIn k
        (by_panic k panic)
        g.instance_of
        (panic_recovery_middleware m next req w g).facade.instance_of
unfolding panic_recovery_middleware
recovery-AddsIn k own m next panic req w g ends alone =
    let a = next req w g in
    let b = recover m req a a.panic in
    let n : ℕ = by_panic k a.panic in
    AddsIn-as k (0 + n) (by_panic k panic) g.instance_of b.facade.instance_of
      (omega arith ∙ ap (by_panic k) ends)
      (AddsIn-trans k 0 n g.instance_of a.facade.instance_of b.facade.instance_of alone
        (recover-AddsIn k own m req a a.panic))
