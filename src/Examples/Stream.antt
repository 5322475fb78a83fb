-- ===== src/Examples/Stream.antt =====
-- A stream whose first attempt is refused with status 503, and an embedding response out of order.
use agent_demo.Prelude.{
  ◌≡◌, ◌≤◌, refl, arith, ℕ, zero, suc, true, String, Option, none, some, List, [], ◌∷◌, ◌++◌, map,
  CodePoints, concat,
}
use agent_demo.Json.{Json, text, arr, obj, nil, cons, end, field}
use agent_demo.ModelGateway.{Settings, Attempt, closed, yield, http_status, auth_headers}
use agent_demo.ModelGateway.Events.{sse_data}
use agent_demo.ModelGateway.Events.Printing.{print_events, data_line, yields, sse_data-print_events}
use agent_demo.ModelGateway.Reply.{stream_reply, attempt_tokens, reply_key, done_mark}
use agent_demo.ModelGateway.Reply.OneAttempt.{
  Answered, is_marked, stream_reply_once, stream_reply_complete,
}

abbrev pub settings : Settings
settings = record {
  llm_provider = "deepseek";
  llm_api_key = "";
  deepseek_api_key = "key";
  openai_api_key = "key";
  llm_api_key_required = true;
  llm_max_retries = 2;
  embedding_dimensions = 2;
  embedding_batch_size = 2;
}

-- "Hi", which stands for a chunk with that text
abbrev hi : CodePoints
hi = 72 ∷ 105 ∷ []

abbrev events : List (List CodePoints)
events = (hi ∷ []) ∷ (hi ∷ hi ∷ []) ∷ (done_mark ∷ []) ∷ []

sse_data-print_events_example :
    sse_data (record { lines = print_events events ++ map data_line (hi ∷ []); broken = none })
    ≡ yields events closed
sse_data-print_events_example =
    sse_data-print_events events (hi ∷ []) (omega arith, (omega arith, (omega arith, tt)))
      (omega arith)

abbrev delta_hi : Json
delta_hi = obj (field "delta" (obj (field "content" (text "Hi") end)) end)

abbrev loads : CodePoints → Option Json
loads body = some (obj (field "choices" (arr (cons delta_hi nil)) end))

abbrev answers : Option String → ℕ → Attempt
answers header zero = record { lines = []; broken = some (http_status 503) }
answers header (suc attempt) = record {
  lines = print_events ((hi ∷ []) ∷ (done_mark ∷ []) ∷ []);
  broken = none;
}

streamed : stream_reply loads settings answers ≡ yield "Hi" closed
unfolding stream_reply auth_headers reply_key
streamed = refl

stream_reply_once_example :
    Answered loads 2 (answers (some "Bearer key")) 0 (stream_reply loads settings answers)
unfolding auth_headers reply_key concat
stream_reply_once_example = stream_reply_once loads settings (some "Bearer key") answers refl

stream_reply_complete_example :
    (n : ℕ) × (n ≤ 2)
    × (stream_reply loads settings answers ≡ attempt_tokens loads (answers (some "Bearer key")) n)
    × (is_marked loads (sse_data (answers (some "Bearer key") n)) ≡ true)
unfolding auth_headers reply_key stream_reply concat
stream_reply_complete_example =
    stream_reply_complete loads settings (some "Bearer key") answers refl refl
