-- ===== src/McpResult.antt =====
-- backend/app/mcp/tools.py, `normalize_mcp_tool_result`: the text of an MCP result's content, without
-- binary media.
use agent_demo.Prelude.{
  String, Bool, false, ◌&&◌, ◌||◌, List, [], ◌∷◌, ◌++◌, if◌then◌else◌, str_eq, concat,
}
use agent_demo.Json.{Json, text, arr, obj, Items, nil, cons, Fields, end, field, get, truthy, str}
use agent_demo.ToolArguments.{has_key}
use agent_demo.ToolOutput.{put}

abbrev pub is_word : String → Json → Bool
is_word w (text s) = str_eq s w
is_word w _ = false

without : String → Fields → Fields
without key end = end
without key (field k v rest) =
    let others = without key rest in if str_eq k key then others else field k v others

-- The "resource" of a resource item, without its blob.
safe_resource : Fields → Json → Fields
unfolding without put
safe_resource item (obj resource) = put "resource" (obj (without "blob" resource)) item
safe_resource item _ = item

unfoldable pub safe_content : Fields → Json
unfolding safe_resource
safe_content item =
    if is_word "image" (get "type" item) || is_word "audio" (get "type" item)
    then obj (
        field "type" (get "type" item)
          (field "mimeType" (get "mimeType" item) (field "omitted" (text "binary media") end)))
    else if is_word "resource" (get "type" item)
    then obj (safe_resource item (get "resource" item))
    else obj item

-- `container` is what Python prints for a list or a dict.
module _ (container : Json → String) where
  -- The text of an embedded resource, under a line that names its URI.
  resource_text : Json → List String
  resource_text (obj resource) = elim (get "text" resource) [
    | text body ↦
        if str_eq body ""
        then []
        else if truthy (get "uri" resource)
        then concat ("Resource: " ∷ str container (get "uri" resource) ∷ "\n" ∷ body ∷ []) ∷ []
        else body ∷ []
    | _ ↦ []
  ]
  resource_text _ = []

  item_text : Json → List String
  unfolding resource_text
  item_text (obj item) =
      if is_word "text" (get "type" item) && truthy (get "text" item)
      then str container (get "text" item) ∷ []
      else if is_word "resource" (get "type" item)
      then resource_text (get "resource" item)
      else []
  item_text _ = []

  text_parts : Items → List String
  unfolding item_text
  text_parts nil = []
  text_parts (cons x xs) = item_text x ++ text_parts xs

-- `[_safe_content(item) for item in content if isinstance(item, dict)]`
safe_items : Items → Items
safe_items nil = nil
safe_items (cons (obj item) xs) = cons (safe_content item) (safe_items xs)
safe_items (cons _ xs) = safe_items xs

-- The same for the items whose type is not "text".
attachments : Items → Items
attachments nil = nil
attachments (cons (obj item) xs) =
    let rest = attachments xs in
    if is_word "text" (get "type" item) then rest else cons (safe_content item) rest
attachments (cons _ xs) = attachments xs

-- `"\n".join(parts)`
unfoldable pub join_lines : List String → String
join_lines [] = ""
join_lines (p ∷ []) = p
join_lines (p ∷ ps) = concat (p ∷ "\n" ∷ join_lines ps ∷ [])

copy_key : String → Fields → Fields → Fields
copy_key key source target = if has_key key source then put key (get key source) target else target

with_attachments : Items → Fields → Fields
with_attachments nil fields = fields
with_attachments items fields = put "attachments" (arr items) fields

normalize_content : Fields → Items → List String → Json
unfolding safe_items attachments join_lines copy_key with_attachments
normalize_content result content [] = obj (put "content" (arr (safe_items content)) result)
normalize_content result content parts = obj (
    with_attachments (attachments content) (
      copy_key "structuredContent" result (
        copy_key "url" result
          (copy_key "isError" result (field "content" (text (join_lines parts)) end)))))

normalize_fields : (Json → String) → Fields → Json → Json
unfolding normalize_content text_parts
normalize_fields container result (arr content) =
    normalize_content result content (text_parts container content)
normalize_fields container result _ = obj result

unfoldable pub normalize_mcp_tool_result : (Json → String) → Json → Json
unfolding normalize_fields
normalize_mcp_tool_result container (obj result) =
    normalize_fields container result (get "content" result)
normalize_mcp_tool_result container result = result
