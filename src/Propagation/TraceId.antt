-- ===== src/Propagation/TraceId.antt =====
-- observability/propagation.go: the headers of a trace ID, written and read.
use orkai_observability.Prelude.{
  ◌++◌, ◌==◌, Bool-cases, List, Option, [], ap, arith, if◌then◌else◌, false, inl, inr, length, refl,
  some, ℕ, ◌∙◌, ◌∷◌, ◌≡◌,
}
use orkai_observability.Propagation.{
  Header, canonical, extract_trace_id, from_b3, get, inject_trace_id, set_header, span_id_of,
}
use orkai_observability.Table.{lookup, lookup-insert, or_zero}
use orkai_observability.Text.{Text, codes, split, text_eq}
use orkai_observability.Text.Split.{Lacks, cut_at-append, split-append, split_cases}

pub get-set_header :
    (name name' value : Text) (h : Header)
    → get (set_header name value h) name'
      ≡ (if text_eq (canonical name) (canonical name') then value else get h name')
unfolding get set_header
get-set_header name name' value h =
    ap (or_zero []) (lookup-insert (canonical name) (canonical name') value h) ∙ pushed
  where
    pushed :
        or_zero [] (
          if text_eq (canonical name) (canonical name')
          then some value
          else lookup (canonical name') h)
        ≡ (if text_eq (canonical name) (canonical name')
            then value
            else or_zero [] (lookup (canonical name') h))
    pushed = ground arith

pub text_eq-append_nil : (s t : Text) (c : ℕ) → text_eq (s ++ c ∷ t) [] ≡ false
unfolding text_eq
text_eq-append_nil [] t c = refl
text_eq-append_nil (x ∷ s) t c = refl

module _ (id : Text) (h : Header) (some_id : text_eq id [] ≡ false) (no_dash : Lacks b'-' id) where
  abbrev rest : Text
  rest = span_id_of id ++ codes "-01"

  get_traceparent :
      get (inject_trace_id id h) (codes "traceparent") ≡ codes "00-" ++ (id ++ b'-' ∷ rest)
  unfolding inject_trace_id canonical text_eq
  get_traceparent = rw some_id (
      get-set_header (codes "X-Trace-ID") (codes "traceparent") _ _
      ∙ get-set_header (codes "b3") (codes "traceparent") _ _
      ∙ get-set_header (codes "traceparent") (codes "traceparent") _ h)

  get_b3 : get (inject_trace_id id h) (codes "b3") ≡ id ++ b'-' ∷ (span_id_of id ++ codes "-1")
  unfolding inject_trace_id canonical text_eq
  get_b3 = rw some_id (
      get-set_header (codes "X-Trace-ID") (codes "b3") _ _
      ∙ get-set_header (codes "b3") (codes "b3") _ _)

  from_b3_id : from_b3 (inject_trace_id id h) ≡ id
  from_b3_id =
      rw (get_b3, text_eq-append_nil id (span_id_of id ++ codes "-1") b'-')
        (ap (λ (r : Text × Option Text). r.0)
          (cut_at-append b'-' id (span_id_of id ++ codes "-1") no_dash))

  split_traceparent :
      (q : Text) × (qs : List Text) × (split (codes "00-" ++ (id ++ b'-' ∷ rest)) b'-'
        ≡ codes "00" ∷ id ∷ q ∷ qs)
  split_traceparent =
      let (q, qs, e) = split_cases b'-' rest in
      (
        q,
        qs,
        split-append b'-' (codes "00") (id ++ b'-' ∷ rest) (omega arith, (omega arith, tt))
            ∙ ap (◌∷◌ (codes "00")) (split-append b'-' id rest no_dash ∙ ap (◌∷◌ id) e),
      )

  -- Every trace ID that is not empty and holds no dash, of whatever length, is extracted from the
  -- headers into which it was injected, whatever headers were there before: through `traceparent` if
  -- it has 32 bytes, and through `b3` otherwise.
  pub extract-inject : extract_trace_id (inject_trace_id id h) ≡ id
  unfolding extract_trace_id
  extract-inject =
      let (q, qs, e) = split_traceparent in
      rw (get_traceparent, e)
        (elim (Bool-cases (length id == 32)) [
          | inl full ↦ unfold text_eq in rw full refl
          | inr short ↦ unfold text_eq in rw short from_b3_id
        ])

-- Nothing is injected for an empty trace ID.
pub inject_nothing : (h : Header) → inject_trace_id [] h ≡ h
unfolding inject_trace_id text_eq
inject_nothing h = refl
