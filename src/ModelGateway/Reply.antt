-- ===== src/ModelGateway/Reply.antt =====
-- backend/app/services/model_gateway.py: stream_reply, which streams one answer over its attempts.
pub mod OneAttempt
use agent_demo.Prelude.{
  ℕ, zero, suc, ◌+◌, Bool, true, false, not, ◌&&◌, String, Option, none, some, List, [], ◌∷◌,
  str_eq, if◌then◌else◌, CodePoints, same_text,
}
use agent_demo.Json.{
  Json, Items, Fields, null, bool, number, text, arr, obj, nil, cons, end, field, get, truthy,
  is_null,
}
use agent_demo.Outcome.{Error, Result, ok, err, ◌>>=◌}
use agent_demo.ModelGateway.{
  Failure, raised, Stream, closed, failed, yield, Attempt, Settings, response_error, is_caught,
  should_retry, parse_object, auth_headers,
}
use agent_demo.ModelGateway.Events.{sse_data}

-- The datum that ends a stream.
abbrev pub done_mark : CodePoints
done_mark = 91 ∷ 68 ∷ 79 ∷ 78 ∷ 69 ∷ 93 ∷ []

abbrev bad_choices : Error
bad_choices = response_error "Model provider returned invalid stream choices"

-- `content or ""`
abbrev content_of : Json → Result String
content_of null = ok ""
content_of (text s) = ok s
content_of _ = err (response_error "Model provider returned non-text response content")

-- Whether there is a finish_reason, once it is known to be "stop" or missing.
abbrev finished_of : Json → Result Bool
finished_of null = ok false
finished_of (text reason) =
    if str_eq reason "stop"
    then ok true
    else if str_eq reason "length"
    then err (response_error "Model output reached its token limit before completion")
    else err (response_error "Model provider did not complete the requested text response")
finished_of _ = err (response_error "Model provider did not complete the requested text response")

abbrev fields_of : Json → Result Fields
fields_of (obj fields) = ok fields
fields_of _ = err (response_error "Model provider returned an invalid stream delta")

-- `choice.get("delta") or {}`
abbrev delta_of : Json → Result Fields
delta_of value = if truthy value then fields_of value else ok end

unfoldable pub choice_delta : Fields → Result (String × Bool)
unfolding get
choice_delta choice = delta_of (get "delta" choice) >>= λ delta.
    content_of (get "content" delta) >>= λ content.
    finished_of (get "finish_reason" choice) >>= λ finished. ok (content, finished)

abbrev first_choice : Json → Result (String × Bool)
unfolding choice_delta
first_choice (arr nil) = ok ("", false)
first_choice (arr (cons (obj choice) more)) = choice_delta choice
first_choice _ = err bad_choices

unfoldable pub stream_delta : Fields → Result (String × Bool)
unfolding first_choice get
stream_delta chunk = first_choice (get "choices" chunk)

-- `if token: yield token`
abbrev pub yield_token : String → Stream String → Stream String
yield_token token rest = if str_eq token "" then rest else yield token rest

abbrev pub read_delta : Result (String × Bool) → Stream String → Stream String
read_delta (err error) rest = failed (raised error)
read_delta (ok (token, finished)) rest = yield_token token (if finished then closed else rest)

-- `emitted` is whether a token was yielded, and `again` what the next round of the loop gives.
unfoldable pub or_again : ℕ → ℕ → Bool → Stream String → Stream String → Stream String
unfolding should_retry
or_again max_retries attempt emitted again closed = closed
or_again max_retries attempt emitted again (failed failure) =
    if is_caught failure && (not emitted && should_retry max_retries failure attempt)
    then again
    else failed failure
or_again max_retries attempt emitted again (yield token rest) =
    yield token (or_again max_retries attempt true again rest)

-- The key of the provider, where another one stands in for an empty one.
unfoldable pub reply_key : Settings → String
reply_key settings =
    if str_eq settings.llm_api_key "" && str_eq settings.llm_provider "deepseek"
    then settings.deepseek_api_key
    else settings.llm_api_key

module _ (loads : CodePoints → Option Json) where
  unfoldable pub delta : CodePoints → Result (String × Bool)
  unfolding parse_object stream_delta
  delta body = parse_object loads body >>= stream_delta

  -- The loop over the events of one attempt.
  unfoldable pub tokens_of : Stream CodePoints → Stream String
  unfolding delta same_text
  tokens_of closed =
      failed (raised (response_error "Model stream ended before a completion marker"))
  tokens_of (failed failure) = failed failure
  tokens_of (yield body events) =
      let rest = tokens_of events in
      if same_text body done_mark then closed else read_delta (delta body) rest

  unfoldable pub attempt_tokens : (ℕ → Attempt) → ℕ → Stream String
  unfolding tokens_of sse_data
  attempt_tokens answers attempt = tokens_of (sse_data (answers attempt))

  -- The rounds of `range(max_retries + 1)` that are left; `emitted` is false where a round begins.
  unfoldable pub reply_from : ℕ → (ℕ → Attempt) → ℕ → ℕ → Stream String
  unfolding or_again attempt_tokens
  reply_from max_retries answers zero attempt = closed
  reply_from max_retries answers (suc left) attempt =
      let again = reply_from max_retries answers left (suc attempt) in
      or_again max_retries attempt false again (attempt_tokens answers attempt)

  abbrev pub reply_with :
      Settings → (Option String → ℕ → Attempt) → Result (Option String) → Stream String
  unfolding reply_from
  reply_with settings answers (err error) = failed (raised error)
  reply_with settings answers (ok header) =
      reply_from settings.llm_max_retries (answers header) (suc settings.llm_max_retries) 0

  -- `answers` gives what comes in on each attempt.
  unfoldable pub stream_reply : Settings → (Option String → ℕ → Attempt) → Stream String
  unfolding reply_with
  stream_reply settings answers =
      reply_with settings answers (auth_headers (reply_key settings) settings.llm_api_key_required)
