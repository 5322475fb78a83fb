-- ===== src/Examples/Arguments.antt =====
-- A call of a tool with one required text argument, and a name that its schema does not have.
use agent_demo.Prelude.{◌≡◌, String, Bool, false, ◌&&◌, List}
use agent_demo.Json.{bool, text, arr, obj, Items, nil, cons, Fields, end, field}
use agent_demo.Outcome.{Result, ok, is_ok}
use agent_demo.ToolArguments.{validate_arguments}
use agent_demo.ToolArguments.Demands.{describes_object, gives_required, fits_properties}
use agent_demo.ToolArguments.Checks.{validate_arguments-ok_iff}
use agent_demo.Examples.{container}

abbrev schema : Fields
schema = field "required" (arr (cons (text "path") nil)) (
    field "additionalProperties" (bool false)
      (field "properties" (obj (field "path" (obj (field "type" (text "string") end)) end)) end))

abbrev given : Fields
given = field "path" (text "notes.md") (field "mode" (text "append") end)

abbrev no_uuid : String → Bool
no_uuid s = false

abbrev list : Items → String
list names = "[...]"

abbrev sorted : List String → String
sorted names = "[...]"

abbrev conforms : Fields → Fields → Result (Unit {0})
conforms rules arguments = ok tt

validate_arguments-ok_iff_example :
    is_ok (validate_arguments no_uuid container list sorted conforms schema (obj given)) ≡ (
      describes_object schema
      && gives_required schema given
      && fits_properties no_uuid schema given
      && is_ok (conforms schema given))
validate_arguments-ok_iff_example =
    validate_arguments-ok_iff no_uuid container list sorted conforms schema given
