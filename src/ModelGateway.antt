-- ===== src/ModelGateway.antt =====
-- backend/app/services/model_gateway.py: what the requests to a model share. What httpx does with a
-- request is given as an attempt: the lines that came in, and how they ended.
pub mod Events
pub mod Reply
pub mod Embeddings
use agent_demo.Prelude.{
  ℕ, Bool, true, false, String, Option, none, some, List, [], ◌∷◌, ◌++◌, ◌==◌, ◌||◌, ltb,
  if◌then◌else◌, CodePoints, str_eq, concat,
}
use agent_demo.Json.{Json, Fields, null, bool, number, text, arr, obj, get, is_null}
use agent_demo.Outcome.{Error, Result, ok, err, runtime_error}

-- An exception. `raised` is one that httpx does not define; ModelResponseError is a RuntimeError.
-- `out_of_time` is the TimeoutError of the request's total deadline.
pub data Failure : Type 0 where
  raised : Error → Failure
  out_of_time : Failure
  http_status : ℕ → Failure
  timed_out : Failure
  network : Failure
  remote_protocol : Failure
  other_transport : Failure
  key_error : Failure
  assertion_error : Failure

-- What an asynchronous generator yields, and how it ends.
pub data Stream {ℓ} (A : Type ℓ) : Type ℓ where
  closed : Stream A
  failed : Failure → Stream A
  yield : A → Stream A → Stream A

pub record Attempt : Type 0 where
  pub lines : List CodePoints
  pub broken : Option Failure

pub record Settings : Type 0 where
  pub llm_provider : String
  pub llm_api_key : String
  pub deepseek_api_key : String
  pub openai_api_key : String
  pub llm_api_key_required : Bool
  pub llm_max_retries : ℕ
  pub embedding_dimensions : ℕ
  pub embedding_batch_size : ℕ

abbrev pub max_sse_event_chars : ℕ
max_sse_event_chars = 1000000

abbrev pub retryable_status : ℕ → Bool
retryable_status code =
    code == 408 || code == 429 || code == 500 || code == 502 || code == 503 || code == 504

-- The exceptions that the retry loops catch.
abbrev pub is_caught : Failure → Bool
is_caught (raised raised_error) = false
is_caught out_of_time = false
is_caught key_error = false
is_caught assertion_error = false
is_caught (http_status code) = true
is_caught timed_out = true
is_caught network = true
is_caught remote_protocol = true
is_caught other_transport = true

abbrev pub is_passing : Failure → Bool
is_passing (raised raised_error) = false
is_passing out_of_time = false
is_passing key_error = false
is_passing assertion_error = false
is_passing (http_status code) = retryable_status code
is_passing timed_out = true
is_passing network = true
is_passing remote_protocol = true
is_passing other_transport = false

unfoldable pub should_retry : ℕ → Failure → ℕ → Bool
should_retry max_retries failure attempt =
    if ltb attempt max_retries then is_passing failure else false

abbrev pub response_error : String → Error
response_error message = runtime_error message

-- The object itself, where it reports no error.
abbrev without_error : Fields → Json → Result Fields
without_error fields reported =
    if is_null reported
    then ok fields
    else err (response_error "Model provider returned an error response")

abbrev object_of : Option Json → Result Fields
object_of none = err (response_error "Model provider returned invalid JSON")
object_of (some (obj fields)) = without_error fields (get "error" fields)
object_of (some _) = err (response_error "Model provider returned an invalid response object")

-- `loads` is json.loads, which gives nothing for a text that is not JSON.
unfoldable pub parse_object : (CodePoints → Option Json) → CodePoints → Result Fields
unfolding get
parse_object loads body = object_of (loads body)

-- The value of the header "Authorization", where there is one.
unfoldable pub auth_headers : String → Bool → Result (Option String)
auth_headers api_key required =
    if str_eq api_key ""
    then if required then err (runtime_error "Missing API key for model provider") else ok none
    else ok (some (concat ("Bearer " ∷ api_key ∷ [])))
