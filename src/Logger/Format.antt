-- ===== src/Logger/Format.antt =====
-- observability/logger.go: the text of a log entry. The registered PII patterns are compiled regular
-- expressions of package `regexp`: each is given as its `ReplaceAllString` with the mask, in the
-- order in which `range` meets them.
pub mod Masking
pub mod Json
pub mod Scanning
pub mod Reading
mod Tests
use orkai_observability.Prelude.{
  ◌++◌, Bool, List, String, [], any, if◌then◌else◌, length, ltb, take, ◌∷◌,
}
use orkai_observability.Table.{Table, insert}
use orkai_observability.Text.{Text, codes, contains, join, text_eq, to_lower}
use orkai_observability.Text.Decimal.{format_int}
use orkai_observability.Types.{Field}

abbrev pub Patterns : Type 0
Patterns = List (Text → Text)

-- AddSensitiveKeys
unfoldable pub add_sensitive_keys : List Text → List Text → List Text
add_sensitive_keys [] sensitive = sensitive
add_sensitive_keys (key ∷ keys) sensitive = add_sensitive_keys keys (sensitive ++ to_lower key ∷ [])

abbrev pub sensitive_keys : List Text
sensitive_keys =
    codes "password"
    ∷ codes "token"
    ∷ codes "secret"
    ∷ codes "cvv"
    ∷ codes "card"
    ∷ codes "cpf"
    ∷ codes "email"
    ∷ []

-- On the map of names to patterns; a name that is registered again gets the new pattern.
unfoldable pub register_pii_pattern :
    Text → (Text → Text) → Table (Text → Text) → Table (Text → Text)
register_pii_pattern name pattern patterns = insert name pattern patterns

unfoldable pub mask_pii : Patterns → Text → Text
mask_pii [] res = res
mask_pii (re ∷ patterns) res = mask_pii patterns (re res)

unfoldable pub is_sensitive_key : List Text → Text → Bool
unfolding to_lower contains
is_sensitive_key sensitive key = any (λ k. contains (to_lower key) k) sensitive

module _ (sensitive : List Text) (patterns : Patterns) where
  abbrev pub field_value : Field → Text
  field_value f =
      if is_sensitive_key sensitive f.key
      then codes "\"[MASKED]\""
      else if f.is_int
      then format_int f.int_value
      else codes "\"" ++ (mask_pii patterns f.str_value ++ codes "\"")

  unfoldable pub write_fields : List Field → Text
  unfolding is_sensitive_key mask_pii format_int
  write_fields [] = []
  write_fields (f ∷ fields) =
      codes ","
      ++ (codes "\"" ++ (f.key ++ (codes "\":" ++ (field_value f ++ write_fields fields))))

  unfoldable pub format_json : Text → Text → Text → Text → List Field → Text
  unfolding write_fields
  format_json level service trace_id msg fields =
      codes "{\"level\":\""
      ++ (level
          ++ (codes "\","
              ++ (codes "\"service\":\""
                  ++ (service
                      ++ (codes "\","
                          ++ ((if text_eq trace_id []
                                then []
                                else codes "\"trace_id\":\"" ++ (trace_id ++ codes "\","))
                              ++ (codes "\"msg\":\""
                                  ++ (msg
                                      ++ (codes "\""
                                          ++ (write_fields fields ++ codes "}\n"))))))))))

module _ (patterns : Patterns) where
  unfoldable pub get_field_value_str : Field → Text
  unfolding mask_pii format_int
  get_field_value_str f = if f.is_int then format_int f.int_value else mask_pii patterns f.str_value

  -- The loop of `formatDevFields`: the parts, and the last stack trace.
  abbrev pub dev_fields : List Field → List Text → Text → List Text × Text
  dev_fields [] extra stack = (extra, stack)
  dev_fields (f ∷ fields) extra stack =
      if text_eq f.key (codes "stack_trace")
      then dev_fields fields extra f.str_value
      else dev_fields fields (extra ++ (f.key ++ (codes "=" ++ get_field_value_str f)) ∷ []) stack

  abbrev pub fields_part : List Text → Text
  fields_part [] = []
  fields_part (p ∷ ps) = codes " | " ++ join (p ∷ ps) (codes " ")

  unfoldable pub format_dev_fields : List Field → Text × Text
  unfolding get_field_value_str join
  format_dev_fields fields =
      let (extra, stack) = dev_fields fields [] [] in (fields_part extra, stack)

-- The escape byte of the console, then the text.
abbrev esc : String → Text
esc s = 27 ∷ codes s

unfoldable pub get_color_for_level : Text → Text × Text
get_color_for_level level =
    let reset = esc "[0m" in
    if text_eq level (codes "DEBUG")
    then (esc "[90m", reset)
    else if text_eq level (codes "INFO")
    then (esc "[32m", reset)
    else if text_eq level (codes "WARN")
    then (esc "[33m", reset)
    else if text_eq level (codes "ERROR")
    then (esc "[31m", reset)
    else (reset, reset)

unfoldable pub format_trace_id : Text → Text
format_trace_id trace_id =
    let short_id = (if ltb 7 (length trace_id) then take 7 trace_id else trace_id) in
    if text_eq trace_id []
    then []
    else codes " " ++ (esc "[36m[trace_id: " ++ (short_id ++ (codes "]" ++ esc "[0m")))

-- `ts` is the time of day.
unfoldable pub format_dev_console : Patterns → Text → Text → Text → Text → List Field → Text
unfolding get_color_for_level format_trace_id format_dev_fields
format_dev_console patterns ts level trace_id msg fields =
    let (color, reset) = get_color_for_level level in
    let (part, stack) = format_dev_fields patterns fields in
    let line =
      ts
      ++ (codes " "
          ++ (color
              ++ (codes "["
                  ++ (level
                      ++ (codes "]"
                          ++ (reset
                              ++ (format_trace_id trace_id ++ (codes " " ++ (msg ++ part))))))))) in
    (if text_eq stack []
      then line
      else line ++ (codes "\n\t" ++ (esc "[31mStack Trace: " ++ (stack ++ esc "[0m"))))
    ++ codes "\n"
