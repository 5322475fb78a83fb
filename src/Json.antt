-- ===== src/Json.antt =====
-- JSON values as the Python code sees them after `json.loads`, and what the code asks of them.
-- A number is kept by its printed form.
use agent_demo.Prelude.{String, Bool, true, false, not, [], ◌∷◌, member, str_eq, if◌then◌else◌}

mutual
  pub data Json : Type 0 where
    null : Json
    bool : Bool → Json
    number : String → Json
    text : String → Json
    arr : Items → Json
    obj : Fields → Json

  pub data Items : Type 0 where
    nil : Items
    cons : Json → Items → Items

  pub data Fields : Type 0 where
    end : Fields
    field : String → Json → Fields → Fields

-- `d.get(key)`, with `null` for a missing key
unfoldable pub get : String → Fields → Json
get key end = null
get key (field k v rest) = if str_eq k key then v else get key rest

-- Python's truth value
abbrev pub truthy : Json → Bool
truthy null = false
truthy (bool b) = b
truthy (number n) = not (member n ("0" ∷ "0.0" ∷ "-0.0" ∷ []))
truthy (text s) = not (str_eq s "")
truthy (arr nil) = false
truthy (arr (cons x xs)) = true
truthy (obj end) = false
truthy (obj (field k v rest)) = true

abbrev pub is_null : Json → Bool
is_null null = true
is_null (bool b) = false
is_null (number n) = false
is_null (text s) = false
is_null (arr xs) = false
is_null (obj fs) = false

-- `str(value)`; `container` is what Python prints for a list or a dict
abbrev pub str : (Json → String) → Json → String
str container null = "None"
str container (bool true) = "True"
str container (bool false) = "False"
str container (number n) = n
str container (text s) = s
str container (arr xs) = container (arr xs)
str container (obj fs) = container (obj fs)

-- `str(value or default)`
abbrev pub str_or : (Json → String) → Json → String → String
str_or container v default = if truthy v then str container v else default
