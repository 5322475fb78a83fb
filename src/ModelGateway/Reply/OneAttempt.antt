-- ===== src/ModelGateway/Reply/OneAttempt.antt =====
-- backend/app/services/model_gateway.py: from which attempt the tokens of a reply come.
use mathlib.Core.Path.{subst}
use agent_demo.Prelude.{
  str_eq, sym, ltb→lt, ltb, ◌⊎◌, ℕ, zero, suc, ◌+◌, ◌≤◌, ◌<◌, ◌≡◌, refl, ap, ◌∙◌, arith, inl, inr,
  Bool, true, false, ◌||◌, String, Option, Bool-cases, CodePoints, same_text,
}
use agent_demo.Json.{Json}
use agent_demo.Outcome.{Result, ok, err}
use agent_demo.ModelGateway.{
  auth_headers, Settings, Failure, Stream, closed, failed, yield, Attempt, is_caught, is_passing,
  should_retry,
}
use agent_demo.ModelGateway.Events.{sse_data}
use agent_demo.ModelGateway.Reply.{
  reply_with, done_mark, yield_token, read_delta, reply_key, stream_reply, or_again, attempt_tokens,
  reply_from, tokens_of, delta,
}

-- An attempt that yields nothing and fails in a way that passes.
pub record Fails (loads : CodePoints → Option Json) (answers : ℕ → Attempt) (attempt : ℕ)
    : Type 0 where
  pub failure : Failure
  pub no_token : attempt_tokens loads answers attempt ≡ failed failure
  pub passing : is_passing failure ≡ true

pub data AllFail (loads : CodePoints → Option Json) (answers : ℕ → Attempt) : ℕ → ℕ → Type 0 where
  no_attempt : {attempt : ℕ} → AllFail loads answers attempt attempt
  fails_then :
      {attempt n : ℕ}
      → Fails loads answers attempt
      → AllFail loads answers (suc attempt) n
      → AllFail loads answers attempt n

pub record Answered (loads : CodePoints → Option Json) (max_retries : ℕ) (answers : ℕ → Attempt)
    (attempt : ℕ) (reply : Stream String) : Type 0 where
  pub answering : ℕ
  pub in_range : answering ≤ max_retries
  pub before : AllFail loads answers attempt answering
  pub same : reply ≡ attempt_tokens loads answers answering

after_token :
    (max_retries attempt : ℕ) (again rest : Stream String)
    → or_again max_retries attempt true again rest ≡ rest
unfolding or_again
after_token max_retries attempt again closed = refl
after_token max_retries attempt again (failed failure) = elim (Bool-cases (is_caught failure)) [
  | inl e ↦ rw e refl
  | inr e ↦ rw e refl
]
after_token max_retries attempt again (yield token rest) =
    ap (λ r. yield token r) (after_token max_retries attempt again rest)

retries_if :
    (max_retries attempt : ℕ) (failure : Failure)
    → should_retry max_retries failure attempt ≡ true
    → (is_passing failure ≡ true) × (attempt < max_retries)
unfolding should_retry
retries_if max_retries attempt failure h = elim (Bool-cases (ltb attempt max_retries)) [
  | inr late ↦ absurd (grind (arith, h, late))
  | inl early ↦ (rw early at h, ltb→lt attempt max_retries early)
]

-- The end of an attempt that has yielded nothing.
again_if :
    (max_retries attempt : ℕ) (again : Stream String) (failure : Failure)
    → ((or_again max_retries attempt false again (failed failure) ≡ again)
        × (is_passing failure ≡ true)
        × (attempt < max_retries))
      ⊎ (or_again max_retries attempt false again (failed failure) ≡ failed failure)
unfolding or_again
again_if max_retries attempt again failure = elim (Bool-cases (is_caught failure)) [
  | inr not_caught ↦ inr (rw not_caught refl)
  | inl caught ↦ elim (Bool-cases (should_retry max_retries failure attempt)) [
    | inr last_one ↦ inr (rw (caught, last_one) refl)
    | inl again_now ↦
        let r = retries_if max_retries attempt failure again_now in
        inl (rw (caught, again_now) refl, r.0, r.1)
  ]
]

-- A round: its attempt answers, or the attempt fails in a passing way and the next round answers.
round_answers :
    (loads : CodePoints → Option Json) (max_retries : ℕ) (answers : ℕ → Attempt) (left attempt : ℕ)
    (tokens : Stream String)
    → attempt_tokens loads answers attempt ≡ tokens
    → left + attempt ≡ max_retries
    → (attempt < max_retries
        → Answered loads max_retries answers
            (suc attempt)
            (reply_from loads max_retries answers left (suc attempt)))
    → Answered loads max_retries answers attempt (
        or_again max_retries attempt false
          (reply_from loads max_retries answers left (suc attempt))
          tokens)
unfolding or_again
round_answers loads max_retries answers left attempt closed e h next = record {
  answering = attempt;
  in_range = omega arith;
  before = no_attempt;
  same = sym e;
}
round_answers loads max_retries answers left attempt (yield token rest) e h next = record {
  answering = attempt;
  in_range = omega arith;
  before = no_attempt;
  same = ap (λ r. yield token r) (after_token max_retries attempt _ rest) ∙ sym e;
}
round_answers loads max_retries answers left attempt (failed failure) e h next =
    elim (again_if max_retries attempt (reply_from loads max_retries answers left (suc attempt))
      failure) [
        | inr ends ↦ record {
          answering = attempt;
          in_range = omega arith;
          before = no_attempt;
          same = ends ∙ sym e;
        }
        | inl (goes_on, passing, early) ↦
            let a = next early in
            record {
              answering = a.answering;
              in_range = a.in_range;
              before =
                  fails_then (record { failure = failure; no_token = e; passing = passing })
                    a.before;
              same = goes_on ∙ a.same;
            }
      ]

reply_from-Answered :
    (loads : CodePoints → Option Json) (max_retries : ℕ) (answers : ℕ → Attempt) (left attempt : ℕ)
    → left + attempt ≡ max_retries
    → Answered loads max_retries answers attempt
        (reply_from loads max_retries answers (suc left) attempt)
unfolding reply_from
reply_from-Answered loads max_retries answers zero attempt h =
    round_answers loads max_retries answers zero attempt _ refl h (λ early. absurd (omega arith))
reply_from-Answered loads max_retries answers (suc left) attempt h =
    round_answers loads max_retries answers (suc left) attempt _ refl h
      (λ early. reply_from-Answered loads max_retries answers left (suc attempt) (omega arith))

-- A reply whose key is there comes from one attempt, whose tokens it streams and whose end is its end.
-- Every attempt before yielded no token and failed in a way that passes: no partial answer is replayed.
pub stream_reply_once :
    (loads : CodePoints → Option Json) (settings : Settings) (header : Option String)
    (answers : Option String → ℕ → Attempt)
    → auth_headers (reply_key settings) settings.llm_api_key_required ≡ ok header
    → Answered loads settings.llm_max_retries
        (answers header)
        0
        (stream_reply loads settings answers)
unfolding stream_reply reply_with
stream_reply_once loads settings header answers h =
    subst
      (λ r.
        Answered loads settings.llm_max_retries (answers header) 0
          (reply_with loads settings answers r))
      (sym h)
      (reply_from-Answered loads settings.llm_max_retries (answers header) settings.llm_max_retries
        0 (omega arith))

-- Whether a stream ends without an exception.
abbrev pub ends {ℓ} : {A : Type ℓ} → Stream A → Bool
ends closed = true
ends (failed failure) = false
ends (yield a rest) = ends rest

abbrev is_finish : Result (String × Bool) → Bool
is_finish (err error) = false
is_finish (ok (token, finished)) = finished

-- Whether one of the events is the end mark or says that the model has finished.
abbrev pub is_marked : (CodePoints → Option Json) → Stream CodePoints → Bool
unfolding same_text delta
is_marked loads closed = false
is_marked loads (failed failure) = false
is_marked loads (yield body events) =
    same_text body done_mark || (is_finish (delta loads body) || is_marked loads events)

ends-yield_token :
    (token : String) (rest : Stream String) → ends (yield_token token rest) ≡ ends rest
ends-yield_token token rest = elim (Bool-cases (str_eq token "")) [
  | inl e ↦ rw e refl
  | inr e ↦ rw e refl
]

finish_or_rest :
    (read : Result (String × Bool)) (rest : Stream String)
    → ends (read_delta read rest) ≡ true
    → (is_finish read || ends rest) ≡ true
finish_or_rest (err error) rest h = absurd (grind (arith, h))
finish_or_rest (ok (token, true)) rest h = refl
finish_or_rest (ok (token, false)) rest h = sym (ends-yield_token token rest) ∙ h

marked_if_ends :
    (loads : CodePoints → Option Json) (events : Stream CodePoints)
    → ends (tokens_of loads events) ≡ true
    → is_marked loads events ≡ true
unfolding tokens_of same_text delta
marked_if_ends loads closed h = absurd (grind (arith, h))
marked_if_ends loads (failed failure) h = absurd (grind (arith, h))
marked_if_ends loads (yield body events) h = elim (Bool-cases (same_text body done_mark)) [
  | inl e ↦ rw e refl
  | inr e ↦
      let step = finish_or_rest (delta loads body) (tokens_of loads events) (rw e at h) in
      elim (Bool-cases (is_finish (delta loads body))) [
        | inl f ↦ rw (e, f) refl
        | inr f ↦ rw (e, f) (marked_if_ends loads events (rw f at step))
      ]
]

-- A reply that ends without an exception streams an attempt in which the model marked its answer as
-- complete: a stream that breaks off is never taken for a whole answer.
pub stream_reply_complete :
    (loads : CodePoints → Option Json) (settings : Settings) (header : Option String)
    (answers : Option String → ℕ → Attempt)
    → auth_headers (reply_key settings) settings.llm_api_key_required ≡ ok header
    → ends (stream_reply loads settings answers) ≡ true
    → (n : ℕ) × (n ≤ settings.llm_max_retries)
      × (stream_reply loads settings answers ≡ attempt_tokens loads (answers header) n)
      × (is_marked loads (sse_data (answers header n)) ≡ true)
unfolding attempt_tokens
stream_reply_complete loads settings header answers h e =
    let a = stream_reply_once loads settings header answers h in
    (
      a.answering,
      a.in_range,
      a.same,
      marked_if_ends loads (sse_data (answers header a.answering)) (sym (ap ends a.same) ∙ e),
    )
