-- ===== src/Logger/Format/Reading.antt =====
-- observability/logger.go: what a reader of JSON finds in a line of the JSON format.
use orkai_observability.Logger.Format.{
  Patterns, field_value, format_json, is_sensitive_key, mask_pii, write_fields,
}
use orkai_observability.Logger.Format.Json.{
  Member, Value, State, after_value, before_key, before_value, ended, in_text, members_of, number,
  read, scan, text,
}
use orkai_observability.Logger.Format.Scanning.{
  IsPlain, IsReady, integer_read, key_ends, scan-append, text_ends,
}
use orkai_observability.Prelude.{
  ◌++◌, All, Bool-cases, List, [], ap, append-nil, append_assoc, if◌then◌else◌, inl, inr, map, refl,
  some, subst, sym, ◌∙◌, ◌∷◌, ◌≡◌,
}
use orkai_observability.Text.{Text, codes, text_eq}
use orkai_observability.Text.Decimal.{format_int}
use orkai_observability.Types.{Field}

abbrev pub IsPlainValue : Value → Type 0
IsPlainValue (text t) = IsPlain t
IsPlainValue (number t) = Unit

module _ (sensitive : List Text) (patterns : Patterns) where
  -- The member of a field, masked.
  abbrev pub member : Field → Member
  member f = (
    f.key,
    if is_sensitive_key sensitive f.key
        then text (codes "[MASKED]")
        else if f.is_int
        then number (format_int f.int_value)
        else text (mask_pii patterns f.str_value),
  )

  -- Its key and its value, as they are written.
  abbrev pub IsPlainField : Field → Type 0
  IsPlainField f = IsPlain f.key × IsPlainValue (member f).1

  value_read :
      (ms : List Member) (f : Field)
      → IsPlainField f
      → IsReady
          (ms ++ member f ∷ [])
          (scan (before_value ms f.key) (field_value sensitive patterns f))
  value_read ms f h = elim (Bool-cases (is_sensitive_key sensitive f.key)) [
    | inl e ↦ rw e (record { comma = refl; brace = refl })
    | inr e ↦ elim (Bool-cases f.is_int) [
      | inl e' ↦ rw (e, e') (integer_read ms f.key f.int_value)
      | inr e' ↦
          rw (e, e', text_ends ms f.key [] (mask_pii patterns f.str_value) [] (rw (e, e') at h.1))
            (record { comma = refl; brace = refl })
    ]
  ]

  fields_read :
      (ms : List Member) (fs : List Field) (s : State)
      → All IsPlainField fs
      → IsReady ms s
      → IsReady (ms ++ map member fs) (scan s (write_fields sensitive patterns fs))
  unfolding write_fields
  fields_read ms [] s h r = subst (λ t. IsReady t s) (sym (append-nil ms)) r
  fields_read ms (f ∷ fs) s h r =
      let v : Text = field_value sensitive patterns f in
      let rest : Text = write_fields sensitive patterns fs in
      let s1 : State = scan (before_value ms f.key) v in
      let opens : scan s (write_fields sensitive patterns (f ∷ fs)) ≡ scan s1 rest =
        ap (λ x. scan x (b'"' ∷ (f.key ++ (b'"' ∷ b':' ∷ (v ++ rest))))) r.comma
        ∙ key_ends ms [] f.key (b':' ∷ (v ++ rest)) h.0.0
        ∙ scan-append (before_value ms f.key) v rest in
      subst (λ x. IsReady (ms ++ member f ∷ map member fs) x) (sym opens)
        (subst (λ t. IsReady t (scan s1 rest)) (append_assoc ms (member f ∷ []) (map member fs))
          (fields_read (ms ++ member f ∷ []) fs s1 h.1 (value_read ms f h.0)))

  -- From the message to the end of the line.
  abbrev tail_of : Text → List Field → Text
  tail_of msg fields =
      codes "\"msg\":\""
      ++ (msg ++ (codes "\"" ++ (write_fields sensitive patterns fields ++ codes "}\n")))

  abbrev message : Text → Member
  message msg = (codes "msg", text msg)

  tail_read :
      (ms : List Member) (msg : Text) (fields : List Field)
      → IsPlain msg
      → All IsPlainField fields
      → scan (before_key ms) (tail_of msg fields) ≡ ended (ms ++ message msg ∷ map member fields)
  tail_read ms msg fields h hs =
      let written : Text = write_fields sensitive patterns fields in
      let ms1 : List Member = ms ++ message msg ∷ [] in
      let r : IsReady (ms1 ++ map member fields) (scan (after_value ms1) written) =
        fields_read ms1 fields (after_value ms1) hs (record { comma = refl; brace = refl }) in
      text_ends ms (codes "msg") [] msg (written ++ codes "}\n") h
      ∙ scan-append (after_value ms1) written (codes "}\n")
      ∙ ap (λ x. scan x (codes "\n")) r.brace
      ∙ ap ended (append_assoc ms (message msg ∷ []) (map member fields))

  -- The member of the trace ID, if it is not empty.
  abbrev traced : Text → List Member
  traced trace_id = if text_eq trace_id [] then [] else (codes "trace_id", text trace_id) ∷ []

  abbrev id_part : Text → Text
  id_part trace_id =
      if text_eq trace_id [] then [] else codes "\"trace_id\":\"" ++ (trace_id ++ codes "\",")

  traced_read :
      (ms : List Member) (trace_id msg : Text) (fields : List Field)
      → IsPlain trace_id
      → IsPlain msg
      → All IsPlainField fields
      → scan (before_key ms) (id_part trace_id ++ tail_of msg fields)
        ≡ ended (ms ++ (traced trace_id ++ message msg ∷ map member fields))
  traced_read ms trace_id msg fields ht h hs = elim (Bool-cases (text_eq trace_id [])) [
    | inl e ↦ rw e (tail_read ms msg fields h hs)
    | inr e ↦ rw e (
        ap (λ t. scan (in_text ms (codes "trace_id") []) t)
          (append_assoc trace_id (codes "\",") (tail_of msg fields))
        ∙ text_ends ms (codes "trace_id") [] trace_id (b',' ∷ tail_of msg fields) ht
        ∙ tail_read (ms ++ (codes "trace_id", text trace_id) ∷ []) msg fields h hs
        ∙ ap ended (
            append_assoc ms ((codes "trace_id", text trace_id) ∷ [])
              (message msg ∷ map member fields)))
  ]

  -- The members of a line, in their order.
  abbrev pub document : Text → Text → Text → Text → List Field → List Member
  document level service trace_id msg fields =
      (codes "level", text level)
      ∷ (codes "service", text service)
      ∷ (traced trace_id ++ message msg ∷ map member fields)

  -- A line of the JSON format is one JSON object and one end of the line, with the level, the service,
  -- the trace ID if it is not empty, the message, and the fields in their order, masked; if every
  -- text that is written is ASCII without a quote, a backslash or a control byte.
  pub read-format_json :
      (level service trace_id msg : Text) (fields : List Field)
      → IsPlain level
      → IsPlain service
      → IsPlain trace_id
      → IsPlain msg
      → All IsPlainField fields
      → read (format_json sensitive patterns level service trace_id msg fields)
        ≡ some (document level service trace_id msg fields)
  unfolding read format_json
  read-format_json level service trace_id msg fields hl hs ht hm hf =
      let rest : Text = id_part trace_id ++ tail_of msg fields in
      let l : Member = (codes "level", text level) in
      let s : Member = (codes "service", text service) in
      ap members_of (
        text_ends [] (codes "level") [] level
          (codes ",\"service\":\"" ++ (service ++ (codes "\"," ++ rest))) hl
        ∙ text_ends (l ∷ []) (codes "service") [] service (codes "," ++ rest) hs
        ∙ traced_read (l ∷ s ∷ []) trace_id msg fields ht hm hf)
