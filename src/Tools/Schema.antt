-- ===== src/Tools/Schema.antt =====
-- The JSON schemas that the tools declare for their arguments and results: what they have in common.
use ai_dev_project.Prelude.{String, false, List}
use ai_dev_project.Json.{Value, str, obj, arr, bool, strs, Fields, end, field}

-- `{"type": name}`
abbrev pub of_type : String → Value
of_type name = obj (field "type" (str name) end)

abbrev pub object_schema : List String → Fields → Fields → Fields
object_schema required properties rest =
    field "type" (str "object")
      (field "required" (arr (strs required)) (field "properties" (obj properties) rest))

abbrev pub closed : Fields
closed = field "additionalProperties" (bool false) end
