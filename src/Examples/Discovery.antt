-- ===== src/Examples/Discovery.antt =====
-- A server that lists two tools on two pages.
use agent_demo.Prelude.{refl, String, Bool, false, [], ◌∷◌, str_eq, if◌then◌else◌}
use agent_demo.Json.{Json, Fields, text, arr, obj, nil, cons, end, field}
use agent_demo.McpClient.{Reply, replies, tools, Limits, pages, identity_of}
use agent_demo.McpClient.Catalog.{IsCatalog, pages-IsCatalog}

abbrev same : Json → Json → Bool
same (text a) (text b) = str_eq a b
same _ _ = false

abbrev limits : Limits
limits = record { discovery_max_pages = 20; discovery_max_items = 2 }

abbrev tool : String → Json
tool name = obj (field "name" (text name) end)

abbrev page : String → Reply Fields
page cursor =
    if str_eq cursor ""
    then replies (field "tools" (arr (cons (tool "read") nil)) (field "nextCursor" (text "2") end))
    else replies (field "tools" (arr (cons (tool "write") nil)) end)

abbrev capabilities : Fields
capabilities = field "tools" (obj end) end

abbrev small : Fields → Bool
small fields = false

pages-IsCatalog_example : IsCatalog same limits tools (tool "read" ∷ tool "write" ∷ [])
unfolding pages identity_of
pages-IsCatalog_example =
    pages-IsCatalog same limits tools capabilities small page (tool "read" ∷ tool "write" ∷ []) refl
