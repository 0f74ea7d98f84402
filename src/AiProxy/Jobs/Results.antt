-- ===== src/AiProxy/Jobs/Results.antt =====
-- What a client finds for its AI job, backend/internal/queue/ai_job_handler.go (HandleTask).
use Prim.Native.String.{◌++◌ as append}
use anynote.Base.{
  ◌≡◌, refl, inl, inr, false, not, Option, none, some, List, [], ◌∷◌, String, str_eq, lookup,
  lookup-insert_self, arith, Bool-cases, Option-cases, Result-cases, if◌then◌else◌,
}
use anynote.Gateway.{GatewayConfig, ChatRequest, chat, chat_stream}
use anynote.AiProxy.{ProxyFaults, ProxyTimes}
use anynote.AiProxy.Jobs.{
  StreamChunk, JobResult, job_error, job_completed, job_streaming, AiJobPayload, JobState,
  JobService, store_result, collect, chunks_of, content_of, handle_chat, handle_stream,
  resolve_config, run_task, handle_task,
}

-- The contents of the chunks, one after the other.
unfoldable pub join : String → List StreamChunk → String
join text [] = text
join text (c ∷ cs) = join (append text c.content) cs

unfoldable pub first_error : List StreamChunk → Option String
first_error [] = none
first_error (c ∷ cs) =
    let rest = first_error cs in if not (str_eq c.error "") then some c.error else rest

-- What a stream comes to: its first error, or all of its text.
abbrev pub outcome : String → List StreamChunk → JobResult
outcome text cs = elim (first_error cs) [
  | none ↦ job_completed (join text cs)
  | some e ↦ job_error e
]

-- A result that no later write replaces.
pub data IsFinal : JobResult → Type 0 where
  error_final : (text : String) → IsFinal (job_error text)
  completed_final : (text : String) → IsFinal (job_completed text)

stored :
    (job : String) (r : JobResult) (s : JobState)
    → lookup job (store_result false job r s).results ≡ some r
unfolding store_result
stored job r s = lookup-insert_self job r s.results

-- Where the writes work, a stream leaves its first error, or else the whole of its text.
pub collect-outcome :
    (job text : String) (cs : List StreamChunk) (s : JobState)
    → lookup job (collect false job text cs s).results ≡ some (outcome text cs)
unfolding collect first_error join
collect-outcome job text [] s = stored job (job_completed text) s
collect-outcome job text (c ∷ cs) s = elim (Bool-cases (not (str_eq c.error ""))) [
  | inl bad ↦ ground (arith, bad, stored job (job_error c.error) s)
  | inr good ↦
      let rest =
        collect-outcome job (append text c.content) cs
          (store_result false job (job_streaming (append text c.content) c.done) s) in
      ground (arith, good, rest)
]

outcome-IsFinal : (text : String) (cs : List StreamChunk) → IsFinal (outcome text cs)
outcome-IsFinal text cs = elim (Option-cases (first_error cs)) [
  | inl e ↦ rw (outcome, e) (completed_final (join text cs))
  | inr (bad, e) ↦ rw (outcome, e) (error_final bad)
]

-- The result under a job's id is there, and final.
abbrev pub HasResult : String → JobState → Type 0
HasResult job s = (r : JobResult) × (lookup job s.results ≡ some r) × IsFinal r

module _ (svc : JobService) (t : ProxyTimes) (job : String) where
  handle_stream-HasResult :
      (cfg : GatewayConfig) (req : ChatRequest) (s : JobState)
      → HasResult job (handle_stream svc false t job cfg req s)
  unfolding handle_stream
  handle_stream-HasResult cfg req s =
      elim (Result-cases (chat_stream cfg req t.called_at t.answered_at s.proxy.gateway).1) [
        | inr (e, x) ↦
            rw (handle_stream, x)
              (
                job_error (svc.gateway_text e),
                stored job (job_error (svc.gateway_text e)) _,
                error_final (svc.gateway_text e),
              )
        | inl (a, x) ↦
            rw (handle_stream, x)
              (
                outcome "" (chunks_of a),
                collect-outcome job "" (chunks_of a) _,
                outcome-IsFinal "" (chunks_of a),
              )
      ]

  handle_chat-HasResult :
      (cfg : GatewayConfig) (req : ChatRequest) (s : JobState)
      → HasResult job (handle_chat svc false t job cfg req s)
  unfolding handle_chat
  handle_chat-HasResult cfg req s =
      elim (Result-cases (chat cfg req t.called_at t.answered_at s.proxy.gateway).1) [
        | inr (e, x) ↦
            rw (handle_chat, x)
              (
                job_error (svc.gateway_text e),
                stored job (job_error (svc.gateway_text e)) _,
                error_final (svc.gateway_text e),
              )
        | inl (a, x) ↦
            rw (handle_chat, x)
              (
                job_completed (content_of a),
                stored job (job_completed (content_of a)) _,
                completed_final (content_of a),
              )
      ]

run_task-HasResult :
    (svc : JobService) (f : ProxyFaults) (t : ProxyTimes) (payload : AiJobPayload) (s : JobState)
    → HasResult payload.job_id (run_task svc f false t payload s)
unfolding run_task
run_task-HasResult svc f t payload s = elim (Option-cases (svc.parse_uuid payload.user_id)) [
  | inl e ↦
      rw (run_task, e)
        (
          job_error "invalid user ID",
          stored payload.job_id (job_error "invalid user ID") s,
          error_final "invalid user ID",
        )
  | inr (uid, e) ↦
      let p = (resolve_config svc f t uid payload.request s.proxy).0 in
      let s' : JobState = record s { proxy = p } in
      elim (Result-cases (resolve_config svc f t uid payload.request s.proxy).1) [
        | inr (bad, x) ↦
            rw (run_task, e, x)
              (
                job_error (svc.quota_text bad),
                stored payload.job_id (job_error (svc.quota_text bad)) s',
                error_final (svc.quota_text bad),
              )
        | inl ((cfg, req), x) ↦ elim (Bool-cases payload.stream) [
          | inl streams ↦
              rw (run_task, e, x, streams) (handle_stream-HasResult svc t payload.job_id cfg req s')
          | inr plain ↦
              rw (run_task, e, x, plain) (handle_chat-HasResult svc t payload.job_id cfg req s')
        ]
      ]
]

-- Where the writes to Redis work, every task whose payload unmarshals leaves a final result for its job, an
-- error or a completed text, and is not tried again, whatever text stands for the user's id, and whatever the
-- configurations, the limiter, the quota, the breaker and the provider answer.
pub handle_task-HasResult :
    (svc : JobService) (f : ProxyFaults) (t : ProxyTimes) (payload : AiJobPayload) (s : JobState)
    → HasResult payload.job_id (handle_task svc f false t (some payload) s).0
      × ((handle_task svc f false t (some payload) s).1 ≡ false)
unfolding handle_task
handle_task-HasResult svc f t payload s = (run_task-HasResult svc f t payload s, refl)
