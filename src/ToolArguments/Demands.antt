-- ===== src/ToolArguments/Demands.antt =====
-- What a tool's schema demands of the arguments, described directly.
use Prim.Native.Char.{code}
use agent_demo.Prelude.{
  String, Bool, true, false, not, ◌&&◌, ◌||◌, List, [], ◌∷◌, ◌==◌, if◌then◌else◌, str_eq, strip,
  contains,
}
use agent_demo.Json.{
  Json, null, bool, number, text, arr, obj, Items, nil, cons, Fields, end, field, get, is_null,
}
use agent_demo.ToolArguments.{has_key, characters, keys_of}

-- Every name of the list is given.
abbrev pub all_given : Items → Fields → Bool
all_given nil arguments = true
all_given (cons (text name) names) arguments = has_key name arguments && all_given names arguments
all_given (cons other names) arguments = false

-- Every name that `required`, where it is there, gives: those of a list, the characters of a text, or
-- the keys of an object. Nothing else meets the demand.
abbrev pub gives_all : Json → Fields → Bool
gives_all (arr names) arguments = all_given names arguments
gives_all (text s) arguments = all_given (characters s) arguments
gives_all (obj fields) arguments = all_given (keys_of fields) arguments
gives_all other arguments = false

abbrev pub gives_required : Fields → Fields → Bool
gives_required schema arguments =
    if has_key "required" schema then gives_all (get "required" schema) arguments else true

-- Every given name is a property.
abbrev pub all_known : Fields → Fields → Bool
all_known properties end = true
all_known properties (field name value rest) = has_key name properties && all_known properties rest

abbrev pub one_of : String → List String → Bool
one_of name [] = false
one_of name (other ∷ others) = str_eq name other || one_of name others

-- The JSON Schema types of a value. A number is an integer where its printed form has no point, no
-- exponent and is no `nan` or `inf`.
abbrev types_of : Json → List String
types_of null = "null" ∷ []
types_of (bool b) = "boolean" ∷ []
types_of (number n) =
    if contains "." n || contains "e" n || contains "n" n
    then "number" ∷ []
    else "integer" ∷ "number" ∷ []
types_of (text s) = "string" ∷ []
types_of (arr items) = "array" ∷ []
types_of (obj fields) = "object" ∷ []

abbrev pub type_names : List String
type_names = "string" ∷ "integer" ∷ "number" ∷ "boolean" ∷ "object" ∷ "array" ∷ "null" ∷ []

-- The value has the type, or there is no such type.
abbrev pub has_type : Json → String → Bool
has_type value name = one_of name (types_of value) || not (one_of name type_names)

-- A list of types is a choice, and what is neither a text nor a list demands nothing.
abbrev mutual
  pub is_of_type : Json → Json → Bool
  is_of_type value (text name) = has_type value name
  is_of_type value (arr choices) = is_of_some value choices
  is_of_type value other = true

  pub is_of_some : Json → Items → Bool
  is_of_some value nil = false
  is_of_some value (cons choice choices) = is_of_type value choice || is_of_some value choices

unfoldable pub no_nul : String → Bool
no_nul String.[] = true
no_nul (String.◌∷◌ c rest) = not (code c == 0) && no_nul rest

-- A text under "path" has a character that is no blank, and no NUL; one under "uuid" is a UUID.
unfoldable pub has_format : (String → Bool) → Json → Json → Bool
unfolding no_nul strip
has_format is_uuid (text value) (text fmt) =
    (not (str_eq fmt "path") || not (str_eq (strip value) "") && no_nul value)
    && (not (str_eq fmt "uuid") || is_uuid value)
has_format is_uuid value fmt = true

abbrev pub fits_property : (String → Bool) → Json → Json → Bool
fits_property is_uuid value (obj property) =
    (is_null (get "type" property) || is_of_type value (get "type" property))
    && (is_null (get "format" property) || has_format is_uuid value (get "format" property))
fits_property is_uuid value other = true

abbrev pub all_fit : (String → Bool) → Fields → Fields → Bool
all_fit is_uuid properties end = true
all_fit is_uuid properties (field name value rest) =
    fits_property is_uuid value (get name properties) && all_fit is_uuid properties rest

-- The demands of `properties`, which are none where it is missing. Where it is no object, there may be
-- no argument at all.
abbrev pub fits_all : (String → Bool) → Bool → Json → Fields → Bool
fits_all is_uuid closed (obj properties) arguments =
    (not closed || all_known properties arguments) && all_fit is_uuid properties arguments
fits_all is_uuid closed other end = true
fits_all is_uuid closed other (field name value rest) = false

-- The schema forbids other names than its properties.
abbrev pub is_closed : Json → Bool
is_closed (bool allowed) = not allowed
is_closed other = false

abbrev is_object_name : Json → Bool
is_object_name (text name) = one_of name ("object" ∷ [])
is_object_name other = false

-- The schema is one of an object, as it is where it names no type.
abbrev pub describes_object : Fields → Bool
describes_object schema = not (has_key "type" schema) || is_object_name (get "type" schema)

abbrev pub fits_properties : (String → Bool) → Fields → Fields → Bool
fits_properties is_uuid schema arguments =
    fits_all is_uuid (is_closed (get "additionalProperties" schema))
      (if has_key "properties" schema then get "properties" schema else obj end) arguments
