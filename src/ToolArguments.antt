-- ===== src/ToolArguments.antt =====
-- backend/app/services/tool_executor.py, `_validate_arguments`: the checks of a tool's arguments before
-- the JSON Schema validator, which is a library, runs.
pub mod Checks
pub mod Demands
pub mod Types
use Prim.Native.Char.{code}
use agent_demo.Prelude.{
  String, Bool, true, false, not, ◌&&◌, ◌||◌, List, [], ◌∷◌, ◌++◌, ◌==◌, if◌then◌else◌, str_eq,
  strip, contains, concat,
}
use agent_demo.Json.{
  Json, null, bool, number, text, arr, obj, Items, nil, cons, Fields, end, field, get, is_null,
}
use agent_demo.Outcome.{http, wrong_type, Result, ok, err, ◌>>=◌, ◌>>◌, guard}

-- `name in fields`
unfoldable pub has_key : String → Fields → Bool
has_key name end = false
has_key name (field k v rest) = str_eq k name || has_key name rest

abbrev is_word : String → Json → Bool
is_word w (text s) = str_eq s w
is_word w _ = false

abbrev pub fields_of : Json → Fields
fields_of (obj fields) = fields
fields_of _ = end

-- A printed number is an `int` if it has no point and no exponent and is no `nan` or `inf`.
abbrev is_integer : String → Bool
is_integer n = not (contains "." n || contains "e" n || contains "n" n)

-- The name of a value's Python type.
unfoldable type_name : Json → String
type_name null = "NoneType"
type_name (bool b) = "bool"
type_name (number n) = if is_integer n then "int" else "float"
type_name (text s) = "str"
type_name (arr items) = "list"
type_name (obj fields) = "dict"

abbrev pub characters : String → Items
characters String.[] = nil
characters (String.◌∷◌ c rest) = cons (text (String.◌∷◌ c String.[])) (characters rest)

abbrev pub keys_of : Fields → Items
keys_of end = nil
keys_of (field key value rest) = cons (text key) (keys_of rest)

-- The names that a `required` of any form gives when it is iterated.
unfoldable pub names_of : Json → Result Items
unfolding type_name
names_of (arr items) = ok items
names_of (text s) = ok (characters s)
names_of (obj fields) = ok (keys_of fields)
names_of other = err (wrong_type (concat ("'" ∷ type_name other ∷ "' object is not iterable" ∷ [])))

-- `schema.get("required", [])`, iterated
unfoldable pub required_names : Fields → Result Items
unfolding names_of has_key
required_names schema =
    if has_key "required" schema then names_of (get "required" schema) else ok nil

abbrev with_missing : Bool → Json → Items → Items
with_missing true name rest = rest
with_missing false name rest = cons name rest

-- `[name for name in required if name not in arguments]`; a list or a dict is no key.
unfoldable pub missing_names : Items → Fields → Result Items
unfolding has_key
missing_names nil arguments = ok nil
missing_names (cons (text name) names) arguments = do
  rest ← missing_names names arguments
  ok (with_missing (has_key name arguments) (text name) rest)
missing_names (cons (arr items) names) arguments = err (wrong_type "unhashable type: 'list'")
missing_names (cons (obj fields) names) arguments = err (wrong_type "unhashable type: 'dict'")
missing_names (cons other names) arguments = do
  rest ← missing_names names arguments
  ok (cons other rest)

-- `schema.get("properties", {})`
unfoldable pub properties_of : Fields → Json
unfolding has_key
properties_of schema = if has_key "properties" schema then get "properties" schema else obj end

abbrev holds_text : String → Items → Bool
holds_text name nil = false
holds_text name (cons item items) = is_word name item || holds_text name items

-- `name in properties`, for properties of any form
unfoldable is_known : Json → String → Result Bool
unfolding type_name has_key contains
is_known (obj properties) name = ok (has_key name properties)
is_known (arr items) name = ok (holds_text name items)
is_known (text s) name = ok (contains name s)
is_known other name =
    err (wrong_type (concat ("argument of type '" ∷ type_name other ∷ "' is not iterable" ∷ [])))

abbrev with_unknown : Bool → String → List String → List String
with_unknown true name rest = rest
with_unknown false name rest = name ∷ rest

-- The argument names outside of `properties`, before they are sorted.
unfoldable pub unknown_names : Json → Fields → Result (List String)
unfolding is_known
unknown_names properties end = ok []
unknown_names properties (field name v rest) = do
  known ← is_known properties name
  others ← unknown_names properties rest
  ok (with_unknown known name others)

abbrev is_string : Json → Bool
is_string (text s) = true
is_string _ = false

abbrev is_int : Json → Bool
is_int (number n) = is_integer n
is_int _ = false

abbrev is_number : Json → Bool
is_number (number n) = true
is_number _ = false

abbrev is_boolean : Json → Bool
is_boolean (bool b) = true
is_boolean _ = false

abbrev is_object : Json → Bool
is_object (obj fs) = true
is_object _ = false

abbrev is_array : Json → Bool
is_array (arr xs) = true
is_array _ = false

-- `_matches_schema_type` at one type name.
unfoldable pub matches_type : Json → String → Bool
matches_type value expected =
    if str_eq expected "string"
    then is_string value
    else if str_eq expected "integer"
    then is_int value
    else if str_eq expected "number"
    then is_number value
    else if str_eq expected "boolean"
    then is_boolean value
    else if str_eq expected "object"
    then is_object value
    else if str_eq expected "array"
    then is_array value
    else if str_eq expected "null"
    then is_null value
    else true

-- `_matches_schema_type`: a list of types is a choice, a type that is no text is not checked.
unfoldable mutual
  pub matches_schema_type : Json → Json → Bool
  matches_schema_type value (text expected) = matches_type value expected
  matches_schema_type value (arr choices) = matches_any value choices
  matches_schema_type value null = true
  matches_schema_type value (bool b) = true
  matches_schema_type value (number n) = true
  matches_schema_type value (obj fs) = true

  matches_any : Json → Items → Bool
  matches_any value nil = false
  matches_any value (cons choice choices) =
      matches_schema_type value choice || matches_any value choices

-- `"\x00" in value`
has_nul : String → Bool
has_nul String.[] = false
has_nul (String.◌∷◌ c rest) = code c == 0 || has_nul rest

-- `is_uuid` is the success of `UUID(value)`.
unfoldable pub matches_format : (String → Bool) → Json → Json → Bool
unfolding has_nul
matches_format is_uuid (text value) (text fmt) =
    if str_eq fmt "path"
    then not (str_eq (strip value) "") && not (has_nul value)
    else if str_eq fmt "uuid"
    then is_uuid value
    else true
matches_format is_uuid _ _ = true

join_choices : (Json → String) → Items → String
join_choices str nil = ""
join_choices str (cons choice nil) = str choice
join_choices str (cons choice choices) =
    concat (str choice ∷ " or " ∷ join_choices str choices ∷ [])

-- `_type_label`
type_label : (Json → String) → Json → String
unfolding join_choices
type_label str (arr choices) = join_choices str choices
type_label str expected = str expected

module _ (is_uuid : String → Bool) (str : Json → String) where
  -- The error of one argument under its property schema, if any.
  property_error : String → Json → Json → List String
  unfolding type_label
  property_error name value (obj property) =
      if not (is_null (get "type" property))
        && not (matches_schema_type value (get "type" property))
      then concat (name ∷ " must be " ∷ type_label str (get "type" property) ∷ []) ∷ []
      else if not (is_null (get "format" property))
          && not (matches_format is_uuid value (get "format" property))
      then concat (name ∷ " must match format " ∷ str (get "format" property) ∷ []) ∷ []
      else []
  property_error name value _ = []

  unfoldable pub errors_of : Fields → Fields → List String
  unfolding property_error
  errors_of properties end = []
  errors_of properties (field name value rest) =
      property_error name value (get name properties) ++ errors_of properties rest

  -- The loop over the arguments, with `properties` of any form.
  unfoldable pub argument_errors : Json → Fields → Result (List String)
  unfolding errors_of type_name
  argument_errors properties end = ok []
  argument_errors (obj properties) arguments = ok (errors_of properties arguments)
  argument_errors other (field name value rest) =
      err (wrong_type (concat ("'" ∷ type_name other ∷ "' object has no attribute 'get'" ∷ [])))

abbrev no_items : Items → Bool
no_items nil = true
no_items (cons x xs) = false

abbrev no_texts : List String → Bool
no_texts [] = true
no_texts (t ∷ ts) = false

abbrev pub is_false : Json → Bool
is_false (bool false) = true
is_false _ = false

-- `"; ".join(errors)`
join_errors : List String → String
join_errors [] = ""
join_errors (e ∷ []) = e
join_errors (e ∷ es) = concat (e ∷ "; " ∷ join_errors es ∷ [])

-- `schema.get("type", "object") != "object"`
abbrev pub is_object_type : Fields → Bool
is_object_type schema = if has_key "type" schema then is_word "object" (get "type" schema) else true

-- `list` is what Python prints for a list of names (sorted for the unknown ones), `conforms` the
-- verdict of the JSON Schema validator.
module _ (is_uuid : String → Bool) (str : Json → String) (list : Items → String)
    (sorted : List String → String) (conforms : Fields → Fields → Result (Unit {0})) where
  check_unknown : Fields → Fields → Result (Unit {0})
  check_unknown schema arguments = do
    unknown ← unknown_names (properties_of schema) arguments
    guard (no_texts unknown) (http 422 (concat ("Unknown arguments: " ∷ sorted unknown ∷ [])))

  check_fields : Fields → Fields → Result (Unit {0})
  unfolding join_errors check_unknown
  check_fields schema arguments = do
    names ← required_names schema
    missing ← missing_names names arguments
    guard (no_items missing)
        (http 422 (concat ("Missing required arguments: " ∷ list missing ∷ [])))
    if is_false (get "additionalProperties" schema) then check_unknown schema arguments else ok tt
    errors ← argument_errors is_uuid str (properties_of schema) arguments
    guard (no_texts errors) (http 422 (join_errors errors))
    conforms schema arguments

  -- `_validate_arguments`
  unfoldable pub validate_arguments : Fields → Json → Result (Unit {0})
  unfolding check_fields
  validate_arguments schema (obj arguments) =
      if not (is_object_type schema)
      then err (http 500 "Tool parameter schema must be an object")
      else check_fields schema arguments
  validate_arguments schema _ =
      if not (is_object_type schema)
      then err (http 500 "Tool parameter schema must be an object")
      else err (http 422 "Tool arguments must be an object")
