-- ===== src/Otlp/Decoding.antt =====
-- observability/logger.go and observability/otlp_exporter.go: what the exporter posts of the lines that the
-- logger writes. `json.Unmarshal` decodes a line; of members with one name it keeps the last.
use orkai_observability.Logger.Format.{Patterns, format_json, is_sensitive_key}
use orkai_observability.Logger.Format.Json.{Member, Value, number, read, text}
use orkai_observability.Logger.Format.Reading.{IsPlainField, document, read-format_json, member}
use orkai_observability.Logger.Format.Scanning.{IsPlain}
use orkai_observability.Otlp.Batches.{LogView, records_of, records_of-build_logs_payload}
use orkai_observability.Otlp.Payloads.{
  Unmarshal, body_of, build_logs_payload, logs_payload, trace_id_of,
}
use orkai_observability.Prelude.{
  length, ◌<◌, ◌≤◌, All, List, Option, [], ap, false, if◌then◌else◌, map, none, refl, some, sym, ℕ,
  ◌∙◌, ◌∷◌, ◌≡◌, Bool-cases, ap₂, inl, inr,
}
use orkai_observability.Prelude.Int64.{word}
use orkai_observability.Table.{or_zero}
use orkai_observability.Text.{Text, codes, text_eq}
use orkai_observability.Text.Decimal.{format_int-length}
use orkai_observability.Text.Equality.{text_eq_iff}
use orkai_observability.Types.{Field}

-- The value of the last member with the name, or the one found before.
abbrev last_of : Text → Option Value → List Member → Option Value
last_of k found [] = found
last_of k found ((j, v) ∷ ms) = last_of k (if text_eq j k then some v else found) ms

-- The text of a value, as the type assertion finds it.
abbrev as_text : Option Value → Option Text
as_text none = none
as_text (some (text t)) = some t
as_text (some (number t)) = none

abbrev pub text_at : Text → List Member → Option Text
text_at k ms = as_text (last_of k none ms)

-- A numeral of at most 21 bytes, which a float64 has room for.
abbrev pub IsShort : Member → Type 0
IsShort (k, text t) = Unit
IsShort (k, number t) = length t ≤ 21

-- What `json.Unmarshal` does with an object of plain strings and short integers, and one line end.
abbrev pub Decodes : Unmarshal → Type 0
Decodes unmarshal =
    (line : Text) (ms : List Member)
    → read line ≡ some ms
    → All IsShort ms
    → unmarshal line ≡ some (text_at (codes "msg") ms, text_at (codes "trace_id") ms)

-- What the logger writes as one line.
pub record Entry : Type 0 where
  pub level : Text
  pub trace_id : Text
  pub msg : Text
  pub fields : List Field

module _ (sensitive : List Text) (patterns : Patterns) (service : Text) where
  abbrev pub line_of : Entry → Text
  line_of e = format_json sensitive patterns e.level service e.trace_id e.msg e.fields

  -- No field takes the name of a member that the exporter looks for.
  abbrev IsOther : Field → Type 0
  IsOther f = (text_eq f.key (codes "msg") ≡ false) × (text_eq f.key (codes "trace_id") ≡ false)

  pub record IsDecodable (e : Entry) : Type 0 where
    pub plain_level : IsPlain e.level
    pub plain_trace_id : IsPlain e.trace_id
    pub plain_msg : IsPlain e.msg
    pub plain_fields : All (IsPlainField sensitive patterns) e.fields
    pub other_fields : All IsOther e.fields
    pub small_fields : All (λ f. f.int_value < word) e.fields

  fields_keep :
      (k : Text) (found : Option Value) (fs : List Field)
      → All (λ f. text_eq f.key k ≡ false) fs
      → last_of k found (map (member sensitive patterns) fs) ≡ found
  fields_keep k found [] h = refl
  fields_keep k found (f ∷ fs) h =
      let same : (if text_eq f.key k then some (member sensitive patterns f).1 else found) ≡ found =
        ap (λ b. if b then some (member sensitive patterns f).1 else found) h.0 in
      ap (λ o. last_of k o (map (member sensitive patterns) fs)) same ∙ fields_keep k found fs h.1

  others :
      (fs : List Field)
      → All IsOther fs
      → All (λ f. text_eq f.key (codes "msg") ≡ false) fs
        × All (λ f. text_eq f.key (codes "trace_id") ≡ false) fs
  others [] h = (tt, tt)
  others (f ∷ fs) h = let q = others fs h.1 in ((h.0.0, q.0), (h.0.1, q.1))

  abbrev members : Entry → List Member
  members e = document sensitive patterns e.level service e.trace_id e.msg e.fields

  member-IsShort : (f : Field) → f.int_value < word → IsShort (member sensitive patterns f)
  member-IsShort f h = elim (Bool-cases (is_sensitive_key sensitive f.key)) [
    | inl e ↦ rw e tt
    | inr e ↦ elim (Bool-cases f.is_int) [
      | inl e' ↦ rw (e, e') (format_int-length f.int_value h)
      | inr e' ↦ rw (e, e') tt
    ]
  ]

  fields-IsShort :
      (fs : List Field)
      → All (λ f. f.int_value < word) fs
      → All IsShort (map (member sensitive patterns) fs)
  fields-IsShort [] h = tt
  fields-IsShort (f ∷ fs) h = (member-IsShort f h.0, fields-IsShort fs h.1)

  members-IsShort : (e : Entry) → IsDecodable e → All IsShort (members e)
  members-IsShort e h =
      let fields = fields-IsShort e.fields h.small_fields in
      elim (Bool-cases (text_eq e.trace_id [])) [
        | inl x ↦ rw x (tt, (tt, (tt, fields)))
        | inr x ↦ rw x (tt, (tt, (tt, (tt, fields))))
      ]

  msg_found : (e : Entry) → IsDecodable e → text_at (codes "msg") (members e) ≡ some e.msg
  unfolding text_eq
  msg_found e h =
      let keep =
        fields_keep (codes "msg") (some (text e.msg)) e.fields (others e.fields h.other_fields).0 in
      elim (Bool-cases (text_eq e.trace_id [])) [
        | inl x ↦ rw x (ap as_text keep)
        | inr x ↦ rw x (ap as_text keep)
      ]

  trace_id_found :
      (e : Entry) → IsDecodable e → or_zero [] (text_at (codes "trace_id") (members e)) ≡ e.trace_id
  unfolding text_eq
  trace_id_found e h =
      let keep = λ (o : Option Value).
        fields_keep (codes "trace_id") o e.fields (others e.fields h.other_fields).1 in
      elim (Bool-cases (text_eq e.trace_id [])) [
        | inl x ↦
            rw x
              (ap (λ o. or_zero [] (as_text o)) (keep none) ∙ sym ((text_eq_iff e.trace_id []).0 x))
        | inr x ↦ rw x (ap (λ o. or_zero [] (as_text o)) (keep (some (text e.trace_id))))
      ]

  abbrev pub shown_entry : Entry → LogView
  shown_entry e = (e.msg, e.trace_id)

  decoded :
      (unmarshal : Unmarshal) (e : Entry)
      → Decodes unmarshal
      → IsPlain service
      → IsDecodable e
      → let l = unmarshal (line_of e) in
        (body_of (line_of e) l ≡ e.msg) × (trace_id_of l ≡ e.trace_id)
  decoded unmarshal e decodes plain h =
      let ms : List Member = members e in
      let found : unmarshal (line_of e)
          ≡ some (text_at (codes "msg") ms, text_at (codes "trace_id") ms) =
        decodes (line_of e) ms
          (read-format_json sensitive patterns e.level service e.trace_id e.msg e.fields
            h.plain_level plain h.plain_trace_id h.plain_msg h.plain_fields)
          (members-IsShort e h) in
      (
        ap (body_of (line_of e)) found ∙ ap (or_zero []) (msg_found e h),
        ap trace_id_of found ∙ trace_id_found e h,
      )

  -- The log records that the exporter posts for a batch of lines of the JSON format have the messages
  -- of the entries and their trace IDs, in their order; if `json.Unmarshal` decodes objects of plain
  -- strings and short integers, every text that is written is ASCII without a quote, a backslash or a
  -- control byte, and no field is named `msg` or `trace_id`.
  pub posted_records :
      (unmarshal : Unmarshal) (now : ℕ → ℕ) (entries : List Entry)
      → Decodes unmarshal
      → IsPlain service
      → All IsDecodable entries
      → records_of (logs_payload (build_logs_payload service unmarshal now (map line_of entries)))
        ≡ map shown_entry entries
  posted_records unmarshal now entries decodes plain h =
      records_of-build_logs_payload service unmarshal now (map line_of entries) ∙ each entries h
    where
      each :
          (es : List Entry)
          → All IsDecodable es
          → map (λ l. (body_of l (unmarshal l), trace_id_of (unmarshal l))) (map line_of es)
            ≡ map shown_entry es
      each [] h = refl
      each (e ∷ es) h =
          let q = decoded unmarshal e decodes plain h.0 in
          ap₂ ◌∷◌ (ap₂ (λ (b t : Text). (b, t)) q.0 q.1) (each es h.1)
