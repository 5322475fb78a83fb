-- ===== src/ToolArguments/Checks.antt =====
-- Which arguments pass, against a direct description of the schema's demands.
use agent_demo.Prelude.{
  ◌≡◌, refl, sym, arith, inl, inr, Bool-cases, String, Bool, true, false, false, not, ◌&&◌, ◌||◌,
  List, [], ◌∷◌, ◌++◌,
}
use agent_demo.Json.{
  Json, null, bool, number, text, arr, obj, Items, nil, cons, Fields, end, field, get,
}
use agent_demo.Outcome.{Result, ok, err, is_ok, Result-cases}
use agent_demo.ToolArguments.{
  has_key, missing_names, unknown_names, required_names, names_of, properties_of, property_error,
  errors_of, argument_errors, no_items, no_texts, is_false, is_object_type, check_unknown,
  check_fields, validate_arguments,
}
use agent_demo.ToolArguments.Demands.{
  is_closed, describes_object, all_given, gives_all, gives_required, all_known, fits_property,
  all_fit, fits_all, fits_properties,
}
use agent_demo.ToolArguments.Types.{matches_schema_type-eq, matches_format-eq}

-- Whether a result is a value that passes a test.
abbrev passes {ℓ} : {A : Type ℓ} → (A → Bool) → Result A → Bool
passes test (ok a) = test a
passes test (err e) = false

none_missing :
    (names : Items) (arguments : Fields)
    → passes no_items (missing_names names arguments) ≡ all_given names arguments
unfolding missing_names
none_missing nil arguments = refl
none_missing (cons (text name) names) arguments =
    elim (Result-cases (missing_names names arguments)) [
      | inl (rest, e) ↦ ground (arith, e, none_missing names arguments)
      | inr (error, e) ↦ ground (arith, e, none_missing names arguments)
    ]
none_missing (cons null names) arguments = elim (Result-cases (missing_names names arguments)) [
  | inl (rest, e) ↦ rw e refl
  | inr (error, e) ↦ rw e refl
]
none_missing (cons (bool b) names) arguments = elim (Result-cases (missing_names names arguments)) [
  | inl (rest, e) ↦ rw e refl
  | inr (error, e) ↦ rw e refl
]
none_missing (cons (number n) names) arguments =
    elim (Result-cases (missing_names names arguments)) [
      | inl (rest, e) ↦ rw e refl
      | inr (error, e) ↦ rw e refl
    ]
none_missing (cons (arr items) names) arguments = refl
none_missing (cons (obj fields) names) arguments = refl

names_given :
    (required : Json) (arguments : Fields)
    → passes (λ names. passes no_items (missing_names names arguments)) (names_of required)
      ≡ gives_all required arguments
unfolding names_of
names_given null arguments = refl
names_given (bool b) arguments = refl
names_given (number n) arguments = refl
names_given (text s) arguments = none_missing _ arguments
names_given (arr names) arguments = none_missing names arguments
names_given (obj fields) arguments = none_missing _ arguments

required_given :
    (schema arguments : Fields)
    → passes (λ names. passes no_items (missing_names names arguments)) (required_names schema)
      ≡ gives_required schema arguments
unfolding required_names missing_names
required_given schema arguments = elim (Bool-cases (has_key "required" schema)) [
  | inl e ↦ rw e (names_given (get "required" schema) arguments)
  | inr e ↦ rw e refl
]

none_unknown :
    (properties arguments : Fields)
    → passes no_texts (unknown_names (obj properties) arguments) ≡ all_known properties arguments
unfolding unknown_names
none_unknown properties end = refl
none_unknown properties (field name value rest) =
    elim (Result-cases (unknown_names (obj properties) rest)) [
      | inl (others, e) ↦ ground (arith, e, none_unknown properties rest)
      | inr (error, e) ↦ ground (arith, e, none_unknown properties rest)
    ]

module _ (is_uuid : String → Bool) (str : Json → String) where
  no_property_error :
      (name : String) (value property : Json)
      → no_texts (property_error is_uuid str name value property)
        ≡ fits_property is_uuid value property
  unfolding property_error
  no_property_error name value null = refl
  no_property_error name value (bool b) = refl
  no_property_error name value (number n) = refl
  no_property_error name value (text s) = refl
  no_property_error name value (arr xs) = refl
  no_property_error name value (obj property) =
      rw
        (
          sym (matches_schema_type-eq value (get "type" property)),
          sym (matches_format-eq is_uuid value (get "format" property)),
        )
        (ground arith)

  joined : (xs ys : List String) → no_texts (xs ++ ys) ≡ (no_texts xs && no_texts ys)
  joined [] ys = refl
  joined (x ∷ xs) ys = refl

  none_wrong :
      (properties arguments : Fields)
      → no_texts (errors_of is_uuid str properties arguments) ≡ all_fit is_uuid properties arguments
  unfolding errors_of
  none_wrong properties end = refl
  none_wrong properties (field name value rest) = ground (
    arith,
    joined (property_error is_uuid str name value (get name properties))
        (errors_of is_uuid str properties rest),
    no_property_error name value (get name properties),
    none_wrong properties rest,
  )

  wrong_in_object :
      (properties arguments : Fields)
      → passes no_texts (argument_errors is_uuid str (obj properties) arguments)
        ≡ all_fit is_uuid properties arguments
  unfolding argument_errors
  wrong_in_object properties end = refl
  wrong_in_object properties (field name value rest) = none_wrong properties (field name value rest)

  -- The two checks on `properties`, which is a value of any form.
  properties_fit :
      (closed : Bool) (properties : Json) (arguments : Fields)
      → ((not closed || passes no_texts (unknown_names properties arguments))
          && passes no_texts (argument_errors is_uuid str properties arguments))
        ≡ fits_all is_uuid closed properties arguments
  unfolding argument_errors unknown_names
  properties_fit closed (obj properties) arguments =
      rw (none_unknown properties arguments, wrong_in_object properties arguments) refl
  properties_fit closed null end = ground arith
  properties_fit closed (bool b) end = ground arith
  properties_fit closed (number n) end = ground arith
  properties_fit closed (text s) end = ground arith
  properties_fit closed (arr items) end = ground arith
  properties_fit closed null (field name value rest) = ground arith
  properties_fit closed (bool b) (field name value rest) = ground arith
  properties_fit closed (number n) (field name value rest) = ground arith
  properties_fit closed (text s) (field name value rest) = ground arith
  properties_fit closed (arr items) (field name value rest) = ground arith

module _ (is_uuid : String → Bool) (str : Json → String) (list : Items → String)
    (sorted : List String → String) (conforms : Fields → Fields → Result (Unit {0})) where
  unknown_allowed :
      (schema arguments : Fields)
      → is_ok (check_unknown is_uuid str list sorted conforms schema arguments)
        ≡ passes no_texts (unknown_names (properties_of schema) arguments)
  unfolding check_unknown
  unknown_allowed schema arguments =
      elim (Result-cases (unknown_names (properties_of schema) arguments)) [
        | inl (unknown, e) ↦ ground (arith, e)
        | inr (error, e) ↦ rw e refl
      ]

  check_fields-ok :
      (schema arguments : Fields)
      → is_ok (check_fields is_uuid str list sorted conforms schema arguments) ≡ (
          passes (λ names. passes no_items (missing_names names arguments)) (required_names schema)
          && (not (is_false (get "additionalProperties" schema))
              || passes no_texts (unknown_names (properties_of schema) arguments))
          && passes no_texts (argument_errors is_uuid str (properties_of schema) arguments)
          && is_ok (conforms schema arguments))
  unfolding check_fields
  check_fields-ok schema arguments = elim (Result-cases (required_names schema)) [
    | inr (error, e) ↦ rw e refl
    | inl (names, e) ↦ elim (Result-cases (missing_names names arguments)) [
      | inr (error, m) ↦ rw (e, m) refl
      | inl (missing, m) ↦
          elim (Result-cases (argument_errors is_uuid str (properties_of schema) arguments)) [
            | inr (error, w) ↦ ground (arith, e, m, w, unknown_allowed schema arguments)
            | inl (errors, w) ↦ ground (arith, e, m, w, unknown_allowed schema arguments)
          ]
    ]
  ]

closed_when : (value : Json) → is_false value ≡ is_closed value
closed_when null = refl
closed_when (bool true) = refl
closed_when (bool false) = refl
closed_when (number n) = refl
closed_when (text s) = refl
closed_when (arr items) = refl
closed_when (obj fields) = refl

object_when : (schema : Fields) → is_object_type schema ≡ describes_object schema
object_when schema = ground arith

-- Arguments pass exactly when the schema is one of an object, every required name is given, no name is
-- unknown where the schema forbids others, every value has its property's type and format, and the JSON
-- Schema validator accepts them. A `required` that cannot be iterated, or `properties` that are no
-- object where there is an argument, let nothing pass.
pub validate_arguments-ok_iff :
    (is_uuid : String → Bool) (str : Json → String) (list : Items → String)
    (sorted : List String → String) (conforms : Fields → Fields → Result (Unit {0}))
    (schema arguments : Fields)
    → is_ok (validate_arguments is_uuid str list sorted conforms schema (obj arguments)) ≡ (
        describes_object schema
        && gives_required schema arguments
        && fits_properties is_uuid schema arguments
        && is_ok (conforms schema arguments))
unfolding validate_arguments properties_of
validate_arguments-ok_iff is_uuid str list sorted conforms schema arguments = ground (
  arith,
  object_when schema,
  closed_when (get "additionalProperties" schema),
  check_fields-ok is_uuid str list sorted conforms schema arguments,
  required_given schema arguments,
  properties_fit is_uuid str (is_false (get "additionalProperties" schema)) (properties_of schema)
      arguments,
)
