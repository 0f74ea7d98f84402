-- ===== src/Provider/Anthropic.antt =====
-- The client of the Anthropic Messages API, backend/internal/llm/anthropic_provider.go. `parse_json` parses
-- a text as JSON.
use Prim.Native.String.{◌++◌ as append}
use anynote.Base.{
  true, false, ℕ, ◌+◌, Bool, ◌||◌, Option, none, some, List, [], ◌∷◌, String, str_eq, Result, ok,
  err, ltb, if◌then◌else◌,
}
use anynote.Gateway.{ChatMessage, ChatRequest}
use anynote.AiProxy.Jobs.{StreamChunk}
use anynote.Provider.Json.{Json, obj, get_field, text_or_empty, read_nested}
use anynote.Provider.Retry.{
  request_timeout, Parsers, World, Run, ProviderError, bad_url, parse_failed, retry_loop, stop,
  second,
}
use anynote.Provider.OpenAi.{
  Opening, open_stream, ChatResponse, Stream, Event, sends, ends, read_lines, content_chunk,
  done_chunk, error_chunk,
}

pub record AnthropicMessage : Type 0 where
  pub role : String
  pub content : String

pub record AnthropicRequest : Type 0 where
  pub model : String
  pub max_tokens : ℕ
  pub system : String
  pub messages : List AnthropicMessage
  pub stream : Bool

unfoldable pub system_parts : List ChatMessage → List String
system_parts [] = []
system_parts (m ∷ msgs) =
    if str_eq m.role "system" then m.content ∷ system_parts msgs else system_parts msgs

unfoldable pub spoken : List ChatMessage → List AnthropicMessage
spoken [] = []
spoken (m ∷ msgs) =
    if str_eq m.role "user" || str_eq m.role "assistant"
    then record { role = m.role; content = m.content } ∷ spoken msgs
    else spoken msgs

-- `strings.Join(parts, "\n")`
unfoldable pub join_lines : List String → String
join_lines [] = ""
join_lines (part ∷ []) = part
join_lines (part ∷ next ∷ parts) = append part (append "\n" (join_lines (next ∷ parts)))

unfoldable pub to_anthropic_messages : List ChatMessage → String × List AnthropicMessage
to_anthropic_messages msgs = (join_lines (system_parts msgs), spoken msgs)

abbrev tokens_or : ℕ → Option ℕ → ℕ
tokens_or default none = default
tokens_or default (some n) = if ltb 0 n then n else default

unfoldable pub to_anthropic_request : Bool → ChatRequest → AnthropicRequest
to_anthropic_request stream req =
    let (system, messages) = to_anthropic_messages req.messages in
    record {
      model = req.model;
      max_tokens = tokens_or 4096 req.max_tokens;
      system = system;
      messages = messages;
      stream = stream;
    }

-- The texts of the content blocks.
pub record AnthropicResponse : Type 0 where
  pub model : String
  pub content : List String
  pub input_tokens : ℕ
  pub output_tokens : ℕ

unfoldable pub decode_response :
    (String → Option AnthropicResponse) → String → Result ProviderError ChatResponse
decode_response decode body = elim (decode body) [
  | none ↦ err parse_failed
  | some r ↦ ok (record {
    content = elim r.content [ [] ↦ "" | text ∷ _ ↦ text ];
    model = r.model;
    usage = record {
      prompt_tokens = r.input_tokens;
      completion_tokens = r.output_tokens;
      total_tokens = r.input_tokens + r.output_tokens;
    };
  })
]

-- `Chat`, with the number of retries and the base delay that it has built in; `w` is what the server does
-- with a request under a timeout.
unfoldable pub chat :
    Parsers
    → (String → Option AnthropicResponse)
    → (ℕ → AnthropicRequest → World)
    → Bool
    → ChatRequest
    → Run ChatResponse
chat p decode w url_ok req =
    if url_ok
    then retry_loop p (decode_response decode)
        (w (request_timeout req.timeout) (to_anthropic_request false req)) 3 second
    else stop (err bad_url)

-- The text of a content_block_delta: the event's delta is read into a struct with a field `delta` of its own.
unfoldable pub delta_text : Option Json → String
unfolding read_nested
delta_text (some (obj fields)) = read_nested "delta" "text" fields ""
delta_text _ = ""

abbrev content_chunks : String → List StreamChunk
content_chunks text = if str_eq text "" then [] else content_chunk text ∷ []

-- Data that is no object is passed over.
unfoldable pub read_event : (String → Option Json) → String → Event
unfolding read_nested
read_event parse_json text = elim (parse_json text) [
  | some (obj evt) ↦
      let type = text_or_empty (get_field "type" evt) in
      if str_eq type "content_block_delta"
      then sends (content_chunks (delta_text (get_field "delta" evt)))
      else if str_eq type "message_stop"
      then ends (done_chunk ∷ [])
      else if str_eq type "error"
      then ends (error_chunk (read_nested "error" "message" evt "") ∷ [])
      else sends []
  | _ ↦ sends []
]

unfoldable pub stream_chunks : (String → Option Json) → Stream → List StreamChunk
stream_chunks parse_json s = read_lines (read_event parse_json) s.scan_error s.done_at_end s.lines

-- `ChatStream`, with the chunks that the channel carries.
unfoldable pub chat_stream :
    (String → Option Json)
    → (ℕ → AnthropicRequest → Opening)
    → Bool
    → ChatRequest
    → Result ProviderError (List StreamChunk)
chat_stream parse_json w url_ok req =
    if url_ok
    then open_stream (stream_chunks parse_json)
        (w (request_timeout req.timeout) (to_anthropic_request true req))
    else err bad_url
