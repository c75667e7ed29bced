-- ===== src/Logger/Format/Tests.antt =====
-- The format of log entries at concrete inputs.
use orkai_observability.Logger.Format.{format_json, is_sensitive_key, sensitive_keys, mask_pii}
use orkai_observability.Logger.Format.Json.{read}
use orkai_observability.Logger.Format.Masking.{SameShown}
use orkai_observability.Logger.Format.Reading.{IsPlainField, document, read-format_json}
use orkai_observability.Logger.Format.Scanning.{all-IsPlain}
use orkai_observability.Prelude.{List, [], false, inl, refl, ◌∷◌, ◌≡◌, ◌-◌, All, none, some}
use orkai_observability.Prelude.Int64.{word}
use orkai_observability.Text.{Text, codes, text_eq}
use orkai_observability.Types.{Field, new_int_field, new_string_field}

abbrev login : Text → List Field
login secret =
    record { key = codes "userToken"; str_value = secret; int_value = 0; is_int = false } ∷ []

json_runs :
    format_json sensitive_keys []
      (codes "INFO")
      (codes "api")
      (codes "db3b")
      (codes "hi")
      (login (codes "x"))
    ≡ codes
        "{\"level\":\"INFO\",\"service\":\"api\",\"trace_id\":\"db3b\",\"msg\":\"hi\",\"userToken\":\"[MASKED]\"}\n"
unfolding format_json text_eq
json_runs = refl

login-SameShown : SameShown sensitive_keys (login (codes "x")) (login (codes "y"))
unfolding SameShown is_sensitive_key
login-SameShown = (refl, inl refl, tt)

abbrev fields : List Field
fields =
    new_string_field (codes "user") (codes "al")
    ∷ new_int_field (codes "n") (word - 42)
    ∷ new_string_field (codes "password") (codes "p")
    ∷ []

fields_plain : All (IsPlainField sensitive_keys []) fields
unfolding mask_pii new_string_field new_int_field is_sensitive_key
fields_plain = (
  (all-IsPlain (codes "user") refl, all-IsPlain (codes "al") refl),
  (
    (all-IsPlain (codes "n") refl, tt),
    ((all-IsPlain (codes "password") refl, all-IsPlain (codes "[MASKED]") refl), tt),
  ),
)

-- The line of these fields, and its members.
line_of_fields :
    format_json sensitive_keys [] (codes "INFO") (codes "svc") [] (codes "hi") fields
    ≡ codes
        "{\"level\":\"INFO\",\"service\":\"svc\",\"msg\":\"hi\",\"user\":\"al\",\"n\":-42,\"password\":\"[MASKED]\"}\n"
unfolding format_json text_eq new_string_field new_int_field
line_of_fields = refl

read-format_json_example :
    read (
      format_json sensitive_keys [] (codes "INFO") (codes "svc") (codes "db3b") (codes "hi") fields)
    ≡ some
        (document sensitive_keys [] (codes "INFO") (codes "svc") (codes "db3b") (codes "hi") fields)
read-format_json_example =
    read-format_json sensitive_keys [] (codes "INFO") (codes "svc") (codes "db3b") (codes "hi")
      fields (all-IsPlain (codes "INFO") refl) (all-IsPlain (codes "svc") refl)
      (all-IsPlain (codes "db3b") refl) (all-IsPlain (codes "hi") refl) fields_plain

-- A quote in the message is not escaped, and the line is no JSON.
quote_breaks_line :
    read (format_json sensitive_keys [] (codes "INFO") (codes "svc") [] (codes "say \"hi\"") [])
    ≡ none
unfolding read format_json text_eq
quote_breaks_line = refl
