-- ===== src/Facade/Lifecycle/Taking.antt =====
-- observability/otlp_exporter.go: several exports one after the other.
use orkai_observability.Facade.{export_logs, export_spans}
use orkai_observability.Otlp.{OtlpExporter, Surroundings, channel_capacity, export_log, export_span}
use orkai_observability.Otlp.Batches.{LogView, SpanView, shown, shown_line}
use orkai_observability.Otlp.Order.{
  after-Step, exports_log, exports_span, held_logs, held_spans, new_logs, new_spans,
}
use orkai_observability.Prelude.{
  ◌++◌, ◌-◌, ◌+◌, Bool-cases, List, [], ap, append-nil, append_assoc, arith, inl, inr, length,
  length-append, ltb, map, refl, subst, suc, sym, take, zero, ℕ, ◌∙◌, ◌∷◌, ◌≡◌, if◌then◌else◌,
}
use orkai_observability.Prelude.Int64.{Int64}
use orkai_observability.Text.{Text}
use orkai_observability.Types.{Span}

abbrev pub shown_pair : Span × Int64 → SpanView
shown_pair (span, d) = shown (record { span = span; duration = d })

-- What a channel with `held` items takes of the items that are sent to it.
abbrev pub fitting {ℓ} : {A : Type ℓ} → ℕ → List A → List A
fitting held items = take (channel_capacity - held) items

take-nil {ℓ} : {A : Type ℓ} (n : ℕ) → take {A = A} n [] ≡ []
take-nil zero = refl
take-nil (suc n) = refl

-- One more item, for which there is room or not.
fits {ℓ κ} :
    {A : Type ℓ} {B : Type κ} (f : A → B) (n n' : ℕ) (y : A) (xs : List A)
    → n' ≡ (if ltb n channel_capacity then n + 1 else n)
    → (if ltb n channel_capacity then f y ∷ [] else []) ++ map f (fitting n' xs)
      ≡ map f (fitting n (y ∷ xs))
fits f n n' y xs h = elim (Bool-cases (ltb n channel_capacity)) [
  | inl room ↦
      let one : channel_capacity - n ≡ suc (channel_capacity - n') = ground (arith, room, h) in
      rw room (sym (ap (λ k. map f (take k (y ∷ xs))) one))
  | inr full ↦
      let before : channel_capacity - n ≡ 0 = ground (arith, full) in
      let later : channel_capacity - n' ≡ 0 = ground (arith, full, h) in
      rw full (ap (λ k. map f (take k xs)) later ∙ sym (ap (λ k. map f (take k (y ∷ xs))) before))
]

module _ (c : Surroundings) where
  -- An exporter that has taken these spans and lines, in this order, behind all others.
  pub record Took (ss : List SpanView) (ls : List LogView) (e e' : OtlpExporter) : Type 0 where
    pub spans : held_spans c e' ≡ held_spans c e ++ ss
    pub logs : held_logs c e' ≡ held_logs c e ++ ls

  pub Took-refl : (e : OtlpExporter) → Took [] [] e e
  Took-refl e = record {
    spans = sym (append-nil (held_spans c e));
    logs = sym (append-nil (held_logs c e));
  }

  pub Took-trans :
      (ss ss' : List SpanView) (ls ls' : List LogView) (e e' e'' : OtlpExporter)
      → Took ss ls e e'
      → Took ss' ls' e' e''
      → Took (ss ++ ss') (ls ++ ls') e e''
  Took-trans ss ss' ls ls' e e' e'' h h' = record {
    spans = h'.spans ∙ ap (λ t. t ++ ss') h.spans ∙ append_assoc (held_spans c e) ss ss';
    logs = h'.logs ∙ ap (λ t. t ++ ls') h.logs ∙ append_assoc (held_logs c e) ls ls';
  }

  pub none-fits_spans : (e : OtlpExporter) → map shown_pair (fitting (length e.spans_chan) []) ≡ []
  none-fits_spans e = ap (map shown_pair) (take-nil (channel_capacity - length e.spans_chan))

  pub none-fits_logs :
      (e : OtlpExporter) → map (shown_line c) (fitting (length e.logs_chan) []) ≡ []
  none-fits_logs e = ap (map (shown_line c)) (take-nil (channel_capacity - length e.logs_chan))

  export_span-chan :
      (span : Span) (d : Int64) (e : OtlpExporter)
      → length (export_span span d e).spans_chan ≡ (
          if ltb (length e.spans_chan) channel_capacity
          then length e.spans_chan + 1
          else length e.spans_chan)
  unfolding export_span
  export_span-chan span d e = elim (Bool-cases (ltb (length e.spans_chan) channel_capacity)) [
    | inl room ↦ rw room (length-append e.spans_chan (record { span = span; duration = d } ∷ []))
    | inr full ↦ rw full refl
  ]

  export_log-chan :
      (line : Text) (e : OtlpExporter)
      → length (export_log line e).logs_chan ≡ (
          if ltb (length e.logs_chan) channel_capacity
          then length e.logs_chan + 1
          else length e.logs_chan)
  unfolding export_log
  export_log-chan line e = elim (Bool-cases (ltb (length e.logs_chan) channel_capacity)) [
    | inl room ↦ rw room (length-append e.logs_chan (line ∷ []))
    | inr full ↦ rw full refl
  ]

  pub export_spans-Took :
      (spans : List (Span × Int64)) (e : OtlpExporter)
      → Took (map shown_pair (fitting (length e.spans_chan) spans)) [] e (export_spans spans e)
  export_spans-Took [] e = subst (λ ss. Took ss [] e e) (sym (none-fits_spans e)) (Took-refl e)
  export_spans-Took ((span, d) ∷ spans) e =
      let e1 = export_span span d e in
      let (held, kept, _) = after-Step c e (exports_span span d) in
      let rest = map shown_pair (fitting (length e1.spans_chan) spans) in
      let new = new_spans c (exports_span span d) e in
      let one : Took new [] e e1 = record { spans = held; logs = kept } in
      subst (λ ss. Took ss [] e (export_spans spans e1))
        (fits shown_pair (length e.spans_chan) (length e1.spans_chan) (span, d) spans
          (export_span-chan span d e))
        (Took-trans new rest [] [] e e1 (export_spans spans e1) one (export_spans-Took spans e1))

  pub export_logs-Took :
      (lines : List Text) (e : OtlpExporter)
      → Took [] (map (shown_line c) (fitting (length e.logs_chan) lines)) e (export_logs lines e)
  export_logs-Took [] e = subst (λ ls. Took [] ls e e) (sym (none-fits_logs e)) (Took-refl e)
  export_logs-Took (line ∷ lines) e =
      let e1 = export_log line e in
      let (kept, held, _) = after-Step c e (exports_log line) in
      let rest = map (shown_line c) (fitting (length e1.logs_chan) lines) in
      let new = new_logs c (exports_log line) e in
      let one : Took [] new e e1 = record { spans = kept; logs = held } in
      subst (λ ls. Took [] ls e (export_logs lines e1))
        (fits (shown_line c) (length e.logs_chan) (length e1.logs_chan) line lines
          (export_log-chan line e))
        (Took-trans [] [] new rest e e1 (export_logs lines e1) one (export_logs-Took lines e1))
