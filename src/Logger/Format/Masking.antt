-- ===== src/Logger/Format/Masking.antt =====
-- observability/logger.go: what an entry shows of the value of a sensitive field.
use orkai_observability.Logger.Format.{
  Patterns, field_value, format_dev_fields, format_json, is_sensitive_key, mask_pii, write_fields,
}
use orkai_observability.Prelude.{
  ◌++◌, List, [], ap₂, false, inl, inr, refl, subst, true, ◌∷◌, ◌≡◌, ◌⊎◌,
}
use orkai_observability.Text.{Text, codes, text_eq}
use orkai_observability.Types.{Field, new_string_field}

-- The fields agree on their keys, and on their values where the key is not sensitive.
unfoldable pub SameShown : List Text → List Field → List Field → Type 0
SameShown sensitive [] [] = Unit
SameShown sensitive [] (g ∷ gs) = ⊥
SameShown sensitive (f ∷ fs) [] = ⊥
SameShown sensitive (f ∷ fs) (g ∷ gs) =
    (f.key ≡ g.key)
    × ((is_sensitive_key sensitive f.key ≡ true) ⊎ (f ≡ g))
    × SameShown sensitive fs gs

write_fields_hide :
    (sensitive : List Text) (patterns : Patterns) (fs gs : List Field)
    → SameShown sensitive fs gs
    → write_fields sensitive patterns fs ≡ write_fields sensitive patterns gs
unfolding write_fields SameShown
write_fields_hide sensitive patterns [] [] h = refl
write_fields_hide sensitive patterns [] (g ∷ gs) h = absurd h
write_fields_hide sensitive patterns (f ∷ fs) [] h = absurd h
write_fields_hide sensitive patterns (f ∷ fs) (g ∷ gs) h = elim h.1 [
  | inl e ↦
      let e' : is_sensitive_key sensitive g.key ≡ true =
        subst (λ k. is_sensitive_key sensitive k ≡ true) h.0 e in
      rw (e, e', h.0, write_fields_hide sensitive patterns fs gs h.2) refl
  | inr e ↦
      ap₂
        (λ (x : Field) (t : Text).
          codes ","
          ++ (codes "\"" ++ (x.key ++ (codes "\":" ++ (field_value sensitive patterns x ++ t)))))
        e (write_fields_hide sensitive patterns fs gs h.2)
]

-- Two entries whose fields differ only in the values of sensitive keys have the same JSON text,
-- whatever the level, the service, the trace ID and the message.
pub format_json_hides :
    (sensitive : List Text) (patterns : Patterns) (level service trace_id msg : Text)
    (fs gs : List Field)
    → SameShown sensitive fs gs
    → format_json sensitive patterns level service trace_id msg fs
      ≡ format_json sensitive patterns level service trace_id msg gs
unfolding format_json
format_json_hides sensitive patterns level service trace_id msg fs gs h =
    rw (write_fields_hide sensitive patterns fs gs h) refl

-- In the console format of the development environment the value of a text field is shown as far as
-- the patterns leave it, also under a sensitive key.
pub dev_fields_show :
    (patterns : Patterns) (key value : Text)
    → text_eq key (codes "stack_trace") ≡ false
    → format_dev_fields patterns (new_string_field key value ∷ [])
      ≡ (codes " | " ++ (key ++ (codes "=" ++ mask_pii patterns value)), [])
unfolding format_dev_fields new_string_field
dev_fields_show patterns key value h = rw h refl
