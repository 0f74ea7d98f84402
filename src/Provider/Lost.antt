-- ===== src/Provider/Lost.antt =====
-- The texts of Anthropic's streams, backend/internal/llm/anthropic_provider.go, and the AI job that reads one,
-- backend/internal/queue/ai_job_handler.go.
use anynote.Base.{
  ◌≡◌, refl, ap, ◌∙◌, Bool, true, false, Option, none, some, List, [], ◌∷◌, ◌++◌, String, str_eq,
  All, lookup, inl, inr, arith, Bool-cases, Option-cases, if◌then◌else◌,
}
use anynote.AiProxy.Jobs.{StreamChunk, JobState, JobResult, job_completed, job_error, collect}
use anynote.AiProxy.Jobs.Results.{join, first_error, outcome, collect-outcome}
use anynote.Provider.Json.{
  Json, null, bool, num, str, arr, obj, Fields, end, field, get_field, equal_fold, text_or_empty,
  read_nested,
}
use anynote.Provider.OpenAi.{Stream, Event, sends, ends, event_data, event_of, read_lines}
use anynote.Provider.Anthropic.{read_event, stream_chunks, delta_text}

-- No key of the object reads as `delta`, as in {"type":"text_delta","text":"..."}.
abbrev pub has_inner : Fields → Bool
has_inner end = false
has_inner (field k v fields) = if equal_fold k "delta" then true else has_inner fields

abbrev pub HasNoInner : Option Json → Type 0
HasNoInner (some (obj fields)) = has_inner fields ≡ false
HasNoInner _ = Unit {0}

-- An event whose delta is as the Messages API documents it.
abbrev pub IsDocumented : Option Json → Type 0
IsDocumented (some (obj evt)) = HasNoInner (get_field "delta" evt)
IsDocumented _ = Unit {0}

-- What a line of a stream has as its event: nothing, or such an event.
abbrev pub IsDocumentedData : (String → Option Json) → Option String → Type 0
IsDocumentedData parse_json none = Unit {0}
IsDocumentedData parse_json (some text) = IsDocumented (parse_json text)

abbrev pub IsDocumentedLine : (String → Option Json) → Bool × String → Type 0
IsDocumentedLine parse_json l = IsDocumentedData parse_json (event_data l.1)

abbrev AreEmpty : List StreamChunk → Type 0
AreEmpty = All (λ c. c.content ≡ "")

abbrev chunks_of : Event → List StreamChunk
chunks_of (sends cs) = cs
chunks_of (ends cs) = cs

read_nested-none :
    (name current : String) (fields : Fields)
    → has_inner fields ≡ false
    → read_nested "delta" name fields current ≡ current
unfolding read_nested
read_nested-none name current end h = refl
read_nested-none name current (field k v fields) h = elim (Bool-cases (equal_fold k "delta")) [
  | inl e ↦ ground (arith, e, h)
  | inr e ↦ rw (read_nested, e) (read_nested-none name current fields (ground (arith, e, h)))
]

delta_text-documented : (raw : Option Json) → HasNoInner raw → delta_text raw ≡ ""
unfolding delta_text
delta_text-documented none h = refl
delta_text-documented (some null) h = refl
delta_text-documented (some (bool b)) h = refl
delta_text-documented (some (num n)) h = refl
delta_text-documented (some (str s)) h = refl
delta_text-documented (some (arr items)) h = refl
delta_text-documented (some (obj fields)) h = read_nested-none "text" "" fields h

event-AreEmpty :
    (parse_json : String → Option Json) (text : String)
    → IsDocumented (parse_json text)
    → AreEmpty (chunks_of (read_event parse_json text))
unfolding read_event
event-AreEmpty parse_json text h = elim (Option-cases (parse_json text)) [
  | inl e ↦ rw (read_event, e) tt
  | inr (obj evt, e) ↦
      let nothing = delta_text-documented (get_field "delta" evt) (rw e at h) in
      elim (Bool-cases (str_eq (text_or_empty (get_field "type" evt)) "content_block_delta")) [
        | inl t ↦ rw (read_event, e, t, nothing) tt
        | inr t ↦ elim (Bool-cases (str_eq (text_or_empty (get_field "type" evt)) "message_stop")) [
          | inl t' ↦ rw (read_event, e, t, t') (refl, tt)
          | inr t' ↦ elim (Bool-cases (str_eq (text_or_empty (get_field "type" evt)) "error")) [
            | inl t'' ↦ rw (read_event, e, t, t', t'') (refl, tt)
            | inr t'' ↦ rw (read_event, e, t, t', t'') tt
          ]
        ]
      ]
  | inr (j, e) ↦ rw (read_event, e) tt
]

append-AreEmpty : (cs ds : List StreamChunk) → AreEmpty cs → AreEmpty ds → AreEmpty (cs ++ ds)
append-AreEmpty [] ds h k = k
append-AreEmpty (c ∷ cs) ds h k = (h.0, append-AreEmpty cs ds h.1 k)

module _ (parse_json : String → Option Json) where
  data-AreEmpty :
      (d : Option String)
      → IsDocumentedData parse_json d
      → AreEmpty (chunks_of (event_of (read_event parse_json) d))
  data-AreEmpty none h = tt
  data-AreEmpty (some text) h = event-AreEmpty parse_json text h

  lines-AreEmpty :
      (scan_error : Option String) (done : Bool) (lines : List (Bool × String))
      → All (IsDocumentedLine parse_json) lines
      → AreEmpty (read_lines (read_event parse_json) scan_error done lines)
  unfolding read_lines
  lines-AreEmpty none done [] h = tt
  lines-AreEmpty (some message) true [] h = tt
  lines-AreEmpty (some message) false [] h = (refl, tt)
  lines-AreEmpty scan_error done ((true, line) ∷ lines) h = tt
  lines-AreEmpty scan_error done ((false, line) ∷ lines) h =
      after (event_of (read_event parse_json) (event_data line))
        (data-AreEmpty (event_data line) h.0) (lines-AreEmpty scan_error done lines h.1)
    where
      after :
          (e : Event)
          → AreEmpty (chunks_of e)
          → AreEmpty (read_lines (read_event parse_json) scan_error done lines)
          → AreEmpty (elim e [
            | ends chunks ↦ chunks
            | sends chunks ↦ chunks ++ read_lines (read_event parse_json) scan_error done lines
          ])
      after (sends cs) k rest =
          append-AreEmpty cs (read_lines (read_event parse_json) scan_error done lines) k rest
      after (ends cs) k rest = k

join-AreEmpty : (cs : List StreamChunk) → AreEmpty cs → join "" cs ≡ ""
unfolding join
join-AreEmpty [] h = refl
join-AreEmpty (c ∷ cs) h = rw h.0 (join-AreEmpty cs h.1)

-- What a job is left with whose stream has no text: an error of the stream, or the empty text.
abbrev pub without_text : List StreamChunk → JobResult
without_text cs = elim (first_error cs) [ none ↦ job_completed "" | some e ↦ job_error e ]

-- Where every event of the stream has its delta as the Messages API documents it, no text of
-- it is sent on: whatever the stream holds, the AI job that collects it ends with the stream's
-- error or with the empty text as its completed answer.
pub anthropic_text_lost :
    (parse_json : String → Option Json) (s : Stream) (job : String) (jobs : JobState)
    → All (IsDocumentedLine parse_json) s.lines
    → (join "" (stream_chunks parse_json s) ≡ "")
      × (lookup job (collect false job "" (stream_chunks parse_json s) jobs).results
          ≡ some (without_text (stream_chunks parse_json s)))
unfolding stream_chunks
anthropic_text_lost parse_json s job jobs documented =
    let cs = read_lines (read_event parse_json) s.scan_error s.done_at_end s.lines in
    let empty =
      join-AreEmpty cs (lines-AreEmpty parse_json s.scan_error s.done_at_end s.lines documented) in
    (empty, collect-outcome job "" cs jobs ∙ ap some (ended cs empty))
  where
    ended : (cs : List StreamChunk) → join "" cs ≡ "" → outcome "" cs ≡ without_text cs
    ended cs e = ground (arith, e)
