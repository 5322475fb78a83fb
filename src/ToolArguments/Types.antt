-- ===== src/ToolArguments/Types.antt =====
-- The types and formats of values, against their direct description.
use mathlib.Core.Path.{subst}
use agent_demo.Prelude.{
  ◌≡◌, refl, sym, arith, inl, inr, String, Bool, true, false, not, Bool-cases, str_eq, eq_iff,
}
use agent_demo.Json.{Json, null, bool, number, text, arr, obj, Items, nil, cons}
use agent_demo.ToolArguments.{
  matches_type, matches_schema_type, matches_any, matches_format, has_nul,
}
use agent_demo.ToolArguments.Demands.{
  has_type, is_of_type, is_of_some, no_nul, has_format, one_of, type_names,
}

-- The two agree on a type name.
abbrev SameVerdict : Json → String → Type 0
SameVerdict value name = matches_type value name ≡ has_type value name

verdict_if :
    (value : Json) (name literal : String)
    → str_eq name literal ≡ true
    → SameVerdict value literal
    → SameVerdict value name
verdict_if value name literal e a =
    subst (λ (s : String). SameVerdict value s) (sym ((eq_iff name literal).0 e)) a

on_string : (value : Json) → SameVerdict value "string"
unfolding matches_type
on_string value = ground arith

on_integer : (value : Json) → SameVerdict value "integer"
unfolding matches_type
on_integer value = ground arith

on_number : (value : Json) → SameVerdict value "number"
unfolding matches_type
on_number value = ground arith

on_boolean : (value : Json) → SameVerdict value "boolean"
unfolding matches_type
on_boolean value = ground arith

on_object : (value : Json) → SameVerdict value "object"
unfolding matches_type
on_object value = ground arith

on_array : (value : Json) → SameVerdict value "array"
unfolding matches_type
on_array value = ground arith

on_null : (value : Json) → SameVerdict value "null"
unfolding matches_type
on_null value = ground arith

-- A name that is none of the types demands nothing.
on_unknown :
    (value : Json) (name : String) → one_of name type_names ≡ false → SameVerdict value name
unfolding matches_type
on_unknown value name h = ground arith

matches_type-eq : (value : Json) (name : String) → SameVerdict value name
matches_type-eq value name = elim (Bool-cases (str_eq name "string")) [
  | inl a ↦ verdict_if value name "string" a (on_string value)
  | inr a ↦ elim (Bool-cases (str_eq name "integer")) [
    | inl b ↦ verdict_if value name "integer" b (on_integer value)
    | inr b ↦ elim (Bool-cases (str_eq name "number")) [
      | inl c ↦ verdict_if value name "number" c (on_number value)
      | inr c ↦ elim (Bool-cases (str_eq name "boolean")) [
        | inl d ↦ verdict_if value name "boolean" d (on_boolean value)
        | inr d ↦ elim (Bool-cases (str_eq name "object")) [
          | inl e ↦ verdict_if value name "object" e (on_object value)
          | inr e ↦ elim (Bool-cases (str_eq name "array")) [
            | inl f ↦ verdict_if value name "array" f (on_array value)
            | inr f ↦ elim (Bool-cases (str_eq name "null")) [
              | inl g ↦ verdict_if value name "null" g (on_null value)
              | inr g ↦ on_unknown value name (rw (a, b, c, d, e, f, g) refl)
            ]
          ]
        ]
      ]
    ]
  ]
]

mutual
  unfolding matches_schema_type matches_any

  pub matches_schema_type-eq :
      (value expected : Json) → matches_schema_type value expected ≡ is_of_type value expected
  matches_schema_type-eq value (text name) = matches_type-eq value name
  matches_schema_type-eq value (arr choices) = matches_any-eq value choices
  matches_schema_type-eq value null = refl
  matches_schema_type-eq value (bool b) = refl
  matches_schema_type-eq value (number n) = refl
  matches_schema_type-eq value (obj fields) = refl

  matches_any-eq :
      (value : Json) (choices : Items) → matches_any value choices ≡ is_of_some value choices
  matches_any-eq value nil = refl
  matches_any-eq value (cons choice choices) =
      rw (matches_schema_type-eq value choice, matches_any-eq value choices) refl

no_nul-eq : (s : String) → not (has_nul s) ≡ no_nul s
unfolding has_nul no_nul
no_nul-eq String.[] = refl
no_nul-eq (String.◌∷◌ c rest) = ground (arith, no_nul-eq rest)

pub matches_format-eq :
    (is_uuid : String → Bool) (value fmt : Json)
    → matches_format is_uuid value fmt ≡ has_format is_uuid value fmt
unfolding matches_format has_format
matches_format-eq is_uuid (text value) (text fmt) = elim (Bool-cases (str_eq fmt "path")) [
  | inl a ↦
      subst
        (λ (s : String).
          matches_format is_uuid (text value) (text s) ≡ has_format is_uuid (text value) (text s))
        (sym ((eq_iff fmt "path").0 a)) (ground (arith, no_nul-eq value))
  | inr a ↦ ground (arith, a)
]
matches_format-eq is_uuid (text value) null = refl
matches_format-eq is_uuid (text value) (bool b) = refl
matches_format-eq is_uuid (text value) (number n) = refl
matches_format-eq is_uuid (text value) (arr items) = refl
matches_format-eq is_uuid (text value) (obj fields) = refl
matches_format-eq is_uuid null fmt = refl
matches_format-eq is_uuid (bool b) fmt = refl
matches_format-eq is_uuid (number n) fmt = refl
matches_format-eq is_uuid (arr items) fmt = refl
matches_format-eq is_uuid (obj fields) fmt = refl
