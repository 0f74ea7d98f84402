-- ===== src/Provider/Tests.antt =====
-- Calls that are tried again, and streams of a few lines: backend/internal/llm/openai_compat.go and
-- anthropic_provider.go.
use Prim.Native.String.{◌++◌ as append}
use anynote.Base.{
  zero, suc, ◌<◌, ℕ, ◌≡◌, refl, true, false, none, some, Option, [], ◌∷◌, String, str_eq, Result,
  ok, lookup, ◌==◌, if◌then◌else◌, arith,
}
use anynote.AiProxy.Jobs.{collect}
use anynote.AiProxy.Jobs.Results.{join}
use anynote.AiProxy.Tests.{job_state}
use anynote.Provider.Json.{Json, str, obj, field, end, equal_fold}
use anynote.Provider.Retry.{
  is_retriable, Parsers, Answer, network_error, response, World, ProviderError, retry_loop,
}
use anynote.Provider.Attempts.{is_transient, verdict}
use anynote.Provider.Calls.{retry_loop_decides}
use anynote.Provider.OpenAi as OpenAi
use anynote.Provider.OpenAi.{Decoder, Stream, event_data}
use anynote.Provider.Anthropic as Anthropic
use anynote.Provider.Streams.{is_orderly, stream_chunks-is_orderly}
use anynote.Provider.Lost.{without_text, anthropic_text_lost}

abbrev parsers : Parsers
parsers = record { atoi = λ t. none; is_http_time = λ t. false }

-- No response at first, then a full server, then an answer.
abbrev answer_at : ℕ → Answer
answer_at i =
    if i == 0 then network_error else if i == 1 then response 503 "" "" else response 200 "" "hello"

abbrev world : World
world = record { request_fails = false; is_done = λ i. false; answer = answer_at }

abbrev decode : String → Result ProviderError String
decode body = ok body

busy_before : (i : ℕ) → i < 2 → is_transient (answer_at i) ≡ true
unfolding is_retriable
busy_before zero h = refl
busy_before (suc zero) h = refl
busy_before (suc (suc i)) h = absurd (omega arith)

retry_loop_decides_example :
    ((retry_loop parsers decode world 3 0).result ≡ verdict parsers decode world (answer_at 2))
    × ((retry_loop parsers decode world 3 0).requests ≡ 3)
unfolding is_retriable
retry_loop_decides_example =
    retry_loop_decides parsers decode world 3 0 2 refl (omega arith) busy_before
      (λ i h. ground arith) refl

abbrev decoder : Decoder
decoder = record {
  chat_response = λ t. none;
  stream_response = λ t. some (record { content = "hel"; finish_reason = "" } ∷ []);
}

abbrev text_event : Json
text_event = obj (
    field "type" (str "content_block_delta")
      (field "delta" (obj (field "type" (str "text_delta") (field "text" (str "hel") end))) end))

abbrev stream : Stream
stream = record {
  lines =
      (false, "event: message") ∷ (false, "data: {}") ∷ (false, "") ∷ (false, "data: [DONE]") ∷ [];
  scan_error = some "unexpected EOF";
  done_at_end = false;
}

stream_chunks-is_orderly_example :
    (is_orderly (OpenAi.stream_chunks decoder stream) ≡ true)
    × (is_orderly (Anthropic.stream_chunks (λ t. some text_event) stream) ≡ true)
stream_chunks-is_orderly_example = stream_chunks-is_orderly decoder (λ t. some text_event) stream

abbrev delta_line : String
delta_line =
    "{\"type\":\"content_block_delta\",\"delta\":{\"type\":\"text_delta\",\"text\":\"hel\"}}"

-- The parser on the texts of the stream below.
abbrev parse_lines : String → Option Json
parse_lines t =
    if str_eq t delta_line
    then some text_event
    else if str_eq t "{\"type\":\"message_stop\"}"
    then some (obj (field "type" (str "message_stop") end))
    else none

abbrev spoken_stream : Stream
spoken_stream = record {
  lines =
      (false, "event: content_block_delta")
      ∷ (false, append "data: " delta_line)
      ∷ (false, "")
      ∷ (false, "data: {\"type\":\"message_stop\"}")
      ∷ [];
  scan_error = none;
  done_at_end = false;
}

anthropic_text_lost_example :
    (join "" (Anthropic.stream_chunks parse_lines spoken_stream) ≡ "")
    × (lookup "job"
          (collect false "job" ""
            (Anthropic.stream_chunks parse_lines spoken_stream)
            job_state).results
        ≡ some (without_text (Anthropic.stream_chunks parse_lines spoken_stream)))
unfolding event_data equal_fold
anthropic_text_lost_example =
    anthropic_text_lost parse_lines spoken_stream "job" job_state (tt, (refl, (tt, (tt, tt))))
