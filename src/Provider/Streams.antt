-- ===== src/Provider/Streams.antt =====
-- What a client's stream sends, and what an AI job makes of it: ChatStream of
-- backend/internal/llm/openai_compat.go and anthropic_provider.go, and the consumer of the stream in
-- backend/internal/queue/ai_job_handler.go.
use anynote.Base.{
  ◌⊎◌, ◌≡◌, refl, Bool, true, false, ◌&&◌, not, Option, none, some, List, [], ◌∷◌, ◌++◌, String,
  str_eq, inl, inr, arith, Bool-cases, Option-cases, if◌then◌else◌,
}
use anynote.AiProxy.Jobs.{StreamChunk}
use anynote.Provider.Json.{Json, obj}
use anynote.Provider.OpenAi.{
  Decoder, Stream, Event, sends, ends, event_of, event_data, read_lines, end_of_stream,
  content_chunk, done_chunk, error_chunk, OpenaiStreamDelta,
}
use anynote.Provider.OpenAi as OpenAi
use anynote.Provider.Anthropic as Anthropic

-- A piece of text.
abbrev pub is_content : StreamChunk → Bool
is_content c = not (str_eq c.content "") && not c.done && str_eq c.error ""

abbrev is_empty : List StreamChunk → Bool
is_empty [] = true
is_empty (_ ∷ _) = false

-- Pieces of text, and then nothing or one chunk of another kind.
abbrev pub is_orderly : List StreamChunk → Bool
is_orderly [] = true
is_orderly (c ∷ cs) = if is_content c then is_orderly cs else is_empty cs

abbrev all_content : List StreamChunk → Bool
all_content [] = true
all_content (c ∷ cs) = is_content c && all_content cs

abbrev is_orderly_event : Event → Bool
is_orderly_event (sends cs) = all_content cs
is_orderly_event (ends cs) = is_orderly cs

orderly-append :
    (cs ds : List StreamChunk)
    → all_content cs ≡ true
    → is_orderly ds ≡ true
    → is_orderly (cs ++ ds) ≡ true
orderly-append [] ds h k = k
orderly-append (c ∷ cs) ds h k = ground (arith, h, orderly-append cs ds)

Event-cases :
    (e : Event)
    → ((cs : List StreamChunk) × (e ≡ sends cs)) ⊎ ((cs : List StreamChunk) × (e ≡ ends cs))
Event-cases (sends cs) = inl (cs, refl)
Event-cases (ends cs) = inr (cs, refl)

read_lines-is_orderly :
    (read : String → Event) (scan_error : Option String) (done : Bool)
    (lines : List (Bool × String))
    → ((text : String) → is_orderly_event (read text) ≡ true)
    → is_orderly (read_lines read scan_error done lines) ≡ true
unfolding read_lines
read_lines-is_orderly read none done [] h = refl
read_lines-is_orderly read (some message) true [] h = refl
read_lines-is_orderly read (some message) false [] h = refl
read_lines-is_orderly read scan_error done ((true, line) ∷ lines) h = refl
read_lines-is_orderly read scan_error done ((false, line) ∷ lines) h =
    let rest = read_lines-is_orderly read scan_error done lines h in
    elim (Option-cases (event_data line)) [
      | inl e ↦ rw (read_lines, e) rest
      | inr (text, e) ↦
          let good = h text in
          elim (Event-cases (read text)) [
            | inl (cs, e') ↦
                rw (read_lines, e, e')
                  (orderly-append cs (read_lines read scan_error done lines) (rw e' at good) rest)
            | inr (cs, e') ↦ rw (read_lines, e, e') (rw e' at good)
          ]
    ]

orderly-content :
    (text : String) → all_content (if str_eq text "" then [] else content_chunk text ∷ []) ≡ true
orderly-content text = ground arith

openai-event : (d : Decoder) (text : String) → is_orderly_event (OpenAi.read_event d text) ≡ true
unfolding OpenAi.read_event
openai-event d text = elim (Bool-cases (str_eq text "[DONE]")) [
  | inl e ↦ rw (OpenAi.read_event, e) refl
  | inr e ↦ elim (Option-cases (d.stream_response text)) [
    | inl e' ↦ rw (OpenAi.read_event, e, e') refl
    | inr ([], e') ↦ rw (OpenAi.read_event, e, e') refl
    | inr (c ∷ _, e') ↦ rw (OpenAi.read_event, e, e') (ground arith)
  ]
]

anthropic-event :
    (parse_json : String → Option Json) (text : String)
    → is_orderly_event (Anthropic.read_event parse_json text) ≡ true
unfolding Anthropic.read_event
anthropic-event parse_json text = elim (Option-cases (parse_json text)) [
  | inl e ↦ rw (Anthropic.read_event, e) refl
  | inr (obj evt, e) ↦ rw (Anthropic.read_event, e) (ground arith)
  | inr (j, e) ↦ rw (Anthropic.read_event, e) refl
]

-- Each of the two clients sends pieces of text first, none of them empty, and then at most one
-- chunk of another kind, whatever the server sends, whenever the context is done, and however the
-- body ends.
pub stream_chunks-is_orderly :
    (d : Decoder) (parse_json : String → Option Json) (s : Stream)
    → (is_orderly (OpenAi.stream_chunks d s) ≡ true)
      × (is_orderly (Anthropic.stream_chunks parse_json s) ≡ true)
unfolding OpenAi.stream_chunks Anthropic.stream_chunks
stream_chunks-is_orderly d parse_json s = (
  read_lines-is_orderly (OpenAi.read_event d) s.scan_error s.done_at_end s.lines (openai-event d),
  read_lines-is_orderly (Anthropic.read_event parse_json) s.scan_error s.done_at_end s.lines
      (anthropic-event parse_json),
)
