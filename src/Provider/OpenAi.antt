-- ===== src/Provider/OpenAi.antt =====
-- The client of the OpenAI-compatible providers, backend/internal/llm/openai_compat.go. Decoding a JSON
-- body into the response structs is an argument, with the failures of json.Unmarshal.
use Prim.Native.String.{slice, len}
use anynote.Base.{
  ℕ, Bool, true, false, Option, none, some, List, [], ◌∷◌, ◌++◌, String, str_eq, Result, ok, err,
  if◌then◌else◌,
}
use anynote.Gateway.{ChatRequest}
use anynote.AiProxy.Jobs.{StreamChunk}
use anynote.Provider.Retry.{
  Parsers, World, Run, ProviderError, bad_url, create_request, send_failed, unread_body,
  status_error, request_timeout, parse_failed, no_choices, retry_loop, stop,
}

pub record Usage : Type 0 where
  pub prompt_tokens : ℕ
  pub completion_tokens : ℕ
  pub total_tokens : ℕ

pub record ChatResponse : Type 0 where
  pub content : String
  pub model : String
  pub usage : Usage

-- The contents of the choices of a response.
pub record OpenaiChatResponse : Type 0 where
  pub model : String
  pub choices : List String
  pub usage : Usage

-- The first choice of a chunk: its content and its finish_reason.
pub record OpenaiStreamDelta : Type 0 where
  pub content : String
  pub finish_reason : String

abbrev pub OpenaiStreamResponse : Type 0
OpenaiStreamResponse = List OpenaiStreamDelta

pub record Decoder : Type 0 where
  pub chat_response : String → Option OpenaiChatResponse
  pub stream_response : String → Option OpenaiStreamResponse

unfoldable pub decode_response : Decoder → String → Result ProviderError ChatResponse
decode_response d body = elim (d.chat_response body) [
  | none ↦ err parse_failed
  | some r ↦ elim r.choices [
    | [] ↦ err no_choices
    | content ∷ _ ↦ ok (record { content = content; model = r.model; usage = r.usage })
  ]
]

-- `Chat`, where `url_ok` is what validateBaseURL says of the base URL, and `w` what the server does with a
-- request under a timeout.
unfoldable pub chat :
    Parsers → Decoder → (ℕ → ChatRequest → World) → Bool → ChatRequest → Run ChatResponse
chat p d w url_ok req =
    if url_ok
    then retry_loop p (decode_response d)
        (w (request_timeout req.timeout) (record req { stream = false })) req.max_retries
        req.retry_base_delay
    else stop (err bad_url)

abbrev pub content_chunk : String → StreamChunk
content_chunk text = record { content = text; done = false; error = "" }

abbrev pub done_chunk : StreamChunk
done_chunk = record { content = ""; done = true; error = "" }

abbrev pub error_chunk : String → StreamChunk
error_chunk message = record { content = ""; done = false; error = message }

-- The lines of a response's body, each with whether the context is done when it is read, and the end: an
-- error of the scanner, and whether the context is done then.
pub record Stream : Type 0 where
  pub lines : List (Bool × String)
  pub scan_error : Option String
  pub done_at_end : Bool

abbrev pub end_of_stream : Option String → Bool → List StreamChunk
end_of_stream none done = []
end_of_stream (some message) true = []
end_of_stream (some message) false = error_chunk message ∷ []

-- The data of an event; `none` for a line that has not the prefix.
unfoldable pub event_data : String → Option String
event_data line = if str_eq (slice line 0 6) "data: " then some (slice line 6 (len line)) else none

-- What an event sends, and whether it ends the stream.
pub data Event : Type 0 where
  sends : List StreamChunk → Event
  ends : List StreamChunk → Event

abbrev content_of : String → List StreamChunk
content_of text = if str_eq text "" then [] else content_chunk text ∷ []

unfoldable pub read_event : Decoder → String → Event
read_event d text =
    if str_eq text "[DONE]" then ends (done_chunk ∷ []) else elim (d.stream_response text) [
      | none ↦ sends []
      | some [] ↦ sends []
      | some (c ∷ _) ↦
          if str_eq c.finish_reason "stop"
          then ends (content_of c.content ++ done_chunk ∷ [])
          else sends (content_of c.content)
    ]

abbrev pub event_of : (String → Event) → Option String → Event
event_of read none = sends []
event_of read (some text) = read text

-- The goroutine's loop over the lines; both clients have it.
unfoldable pub read_lines :
    (String → Event) → Option String → Bool → List (Bool × String) → List StreamChunk
read_lines read scan_error done [] = end_of_stream scan_error done
read_lines read scan_error done ((cancelled, line) ∷ lines) =
    let rest = read_lines read scan_error done lines in
    if cancelled then [] else elim (event_of read (event_data line)) [
      | ends chunks ↦ chunks
      | sends chunks ↦ chunks ++ rest
    ]

unfoldable pub stream_chunks : Decoder → Stream → List StreamChunk
stream_chunks d s = read_lines (read_event d) s.scan_error s.done_at_end s.lines

-- How a streaming request is answered: it cannot be built or sent, or a status that is not 200 and whether
-- its body cannot be read, or a stream.
pub data Opening : Type 0 where
  unbuilt unsent : Opening
  closed : ℕ → Bool → Opening
  opened : Stream → Opening

-- The end of `ChatStream` of both clients, from the request on.
unfoldable pub open_stream :
    (Stream → List StreamChunk) → Opening → Result ProviderError (List StreamChunk)
open_stream read unbuilt = err create_request
open_stream read unsent = err send_failed
open_stream read (closed status unreadable) =
    err (if unreadable then unread_body else status_error status)
open_stream read (opened s) = ok (read s)

-- `ChatStream`, with the chunks that the channel carries.
unfoldable pub chat_stream :
    Decoder
    → (ℕ → ChatRequest → Opening)
    → Bool
    → ChatRequest
    → Result ProviderError (List StreamChunk)
chat_stream d w url_ok req =
    if url_ok
    then open_stream (stream_chunks d)
        (w (request_timeout req.timeout) (record req { stream = true }))
    else err bad_url
