-- ===== src/Examples/Servers.antt =====
-- A server that lists a tool under another server's name, and a call of that tool.
use agent_demo.Prelude.{◌≡◌, refl, String, Bool, true, false, none, List, [], ◌∷◌}
use agent_demo.Json.{Json, text, obj, end, field}
use agent_demo.McpClient.{McpFailure, Reply, replies, tools}
use agent_demo.McpClient.Calls.{McpServer, McpRequest, get_server, catalog, list_catalog}
use agent_demo.McpClient.Requests.{calls, perform, IsAllowed, perform-IsAllowed}
use agent_demo.McpClient.Routing.{AllRouted}
use agent_demo.McpClient.Listing.{invalidated, after_listing, list_catalog-AllRouted}

abbrev files : McpServer
files = record {
  name = "files";
  transport = "stdio";
  command = "npx";
  url = "";
  enabled = true;
  discovery_cache_time = 60;
  tools = [];
  resources = [];
  prompts = [];
}

abbrev old_search : McpServer
old_search = record {
  name = "search";
  transport = "sse";
  command = "";
  url = "https://search.example";
  enabled = false;
  discovery_cache_time = 60;
  tools = [];
  resources = [];
  prompts = [];
}

abbrev servers : List McpServer
servers = files ∷ old_search ∷ []

abbrev describe : McpServer → McpFailure → String
describe server failure = "MCP server failed"

abbrev small : McpServer → Json → Bool
small server result = false

abbrev answer : McpRequest → Reply Json
answer request = replies (text "done")

abbrev forged : Json
forged = obj (
    field "name" (text "read")
      (field "server_name" (text "search") (field "transport" (text "stdio") end)))

abbrev listed : Json
listed = obj (
    field "name" (text "read")
      (field "server_name" (text "files") (field "transport" (text "stdio") end)))

list_catalog-AllRouted_example :
    (get_server "files" servers ≡ replies files) × AllRouted files (listed ∷ [])
unfolding get_server catalog list_catalog
list_catalog-AllRouted_example =
    list_catalog-AllRouted describe servers "files" files tools 30 30 (replies [])
      ((list_catalog describe files tools 0 1 (replies (forged ∷ [])) none).1) (listed ∷ []) refl
      (after_listing 0 1 (replies (forged ∷ [])) none invalidated) refl

abbrev request : McpRequest
request = record {
  server = files;
  method = "tools/call";
  params = field "name" (text "read") (field "arguments" (obj end) end);
}

perform-IsAllowed_example : IsAllowed servers "files" (calls "read" (obj end)) request
unfolding perform
perform-IsAllowed_example =
    perform-IsAllowed describe small answer servers (calls "read" (obj end)) "files" request refl
