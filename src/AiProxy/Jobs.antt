-- ===== src/AiProxy/Jobs.antt =====
-- The queue's side of the AI proxy: backend/internal/queue/ai_job_handler.go. Redis is a map from job ids
-- to results, whose writes may fail; `marshal` of JSON does not fail on these results. A stream is the
-- list of its chunks.
pub mod Results
use anynote.Base.{
  ℕ, Bool, true, false, not, Option, none, some, List, [], ◌∷◌, String, str_eq, Result, ok, err,
  insert, if◌then◌else◌,
}
use Prim.Native.String.{◌++◌ as append}
use anynote.Gateway.{
  ChatMessage, ChatRequest, GatewayConfig, Gateway, GatewayError, chat, chat_stream,
}
use anynote.Quota.{QuotaError}
use anynote.LlmConfig.Resolver.{user_llm_config, resolve_chat_model}
use anynote.AiProxy.{
  AiProxyRequest, AiProxyService, ProxyState, ProxyFaults, ProxyTimes, check_shared_mode_quota,
}

pub record StreamChunk : Type 0 where
  pub content : String
  pub done : Bool
  pub error : String

-- What a provider answers: a stream, or a response with its content and model.
pub data Answer : Type 0 where
  streamed : List StreamChunk → Answer
  responded : String → String → Answer

pub data JobResult : Type 0 where
  job_error : String → JobResult
  job_completed : String → JobResult
  job_streaming : String → Bool → JobResult

pub record AiJobPayload : Type 0 where
  pub user_id : String
  pub request : AiProxyRequest
  pub job_id : String
  pub stream : Bool

pub record JobState : Type 0 where
  pub proxy : ProxyState Answer
  pub results : List (String × JobResult)

-- The text of an error, and `uuid.Parse`.
pub record JobService : Type 0 where
  pub service : AiProxyService
  pub parse_uuid : String → Option String
  pub quota_text : QuotaError → String
  pub gateway_text : GatewayError → String

-- `redis.Set`, which may fail.
unfoldable pub store_result : Bool → String → JobResult → JobState → JobState
store_result fails job r s = if fails then s else record s { results = insert job r s.results }

abbrev pub request_of : AiProxyRequest → GatewayConfig → ChatRequest
request_of req cfg = record {
  model = resolve_chat_model req.model cfg;
  messages = req.messages;
  temperature = req.temperature;
  max_tokens = req.max_tokens;
  stream = req.stream;
  timeout = 0;
  max_retries = 0;
  retry_base_delay = 0;
}

-- `resolveConfig`. The system messages of a request are kept in both modes.
unfoldable pub resolve_config :
    JobService
    → ProxyFaults
    → ProxyTimes
    → String
    → AiProxyRequest
    → ProxyState Answer
    → ProxyState Answer × Result QuotaError (GatewayConfig × ChatRequest)
resolve_config svc f t uid req s =
    elim (user_llm_config svc.service.cipher f.default_fails f.list_fails uid s.configs) [
      | some cfg ↦ (s, ok (cfg, request_of req cfg))
      | none ↦
          let (s', checked) = check_shared_mode_quota f t uid uid s in
          elim checked [
            | err e ↦ (s', err e)
            | ok _ ↦ (s', ok (svc.service.default_cfg, request_of req svc.service.default_cfg))
          ]
    ]

-- The loop over the chunks, after `text`; the first error ends it.
unfoldable pub collect : Bool → String → String → List StreamChunk → JobState → JobState
collect fails job text [] s = store_result fails job (job_completed text) s
collect fails job text (c ∷ chunks) s =
    let text' = append text c.content in
    let rest =
      collect fails job text' chunks (store_result fails job (job_streaming text' c.done) s) in
    if not (str_eq c.error "") then store_result fails job (job_error c.error) s else rest

-- The end of `handleChat` and of `handleStream`: what the gateway answered is stored.
abbrev chunks_of : Answer → List StreamChunk
chunks_of (streamed cs) = cs
chunks_of (responded _ _) = []

abbrev content_of : Answer → String
content_of (streamed _) = ""
content_of (responded content _) = content

unfoldable pub handle_chat :
    JobService → Bool → ProxyTimes → String → GatewayConfig → ChatRequest → JobState → JobState
handle_chat svc fails t job cfg req s =
    let (gateway', answer) = chat cfg req t.called_at t.answered_at s.proxy.gateway in
    let s' = record s { proxy = record s.proxy { gateway = gateway' } } in
    elim answer [
      | err e ↦ store_result fails job (job_error (svc.gateway_text e)) s'
      | ok a ↦ store_result fails job (job_completed (content_of a)) s'
    ]

unfoldable pub handle_stream :
    JobService → Bool → ProxyTimes → String → GatewayConfig → ChatRequest → JobState → JobState
handle_stream svc fails t job cfg req s =
    let (gateway', answer) = chat_stream cfg req t.called_at t.answered_at s.proxy.gateway in
    let s' = record s { proxy = record s.proxy { gateway = gateway' } } in
    elim answer [
      | err e ↦ store_result fails job (job_error (svc.gateway_text e)) s'
      | ok a ↦ collect fails job "" (chunks_of a) s'
    ]

-- The task of a payload that was read, which never asks for another try.
unfoldable pub run_task :
    JobService → ProxyFaults → Bool → ProxyTimes → AiJobPayload → JobState → JobState
run_task svc f fails t payload s = elim (svc.parse_uuid payload.user_id) [
  | none ↦ store_result fails payload.job_id (job_error "invalid user ID") s
  | some uid ↦
      let (p, resolved) = resolve_config svc f t uid payload.request s.proxy in
      let s' = record s { proxy = p } in
      elim resolved [
        | err e ↦ store_result fails payload.job_id (job_error (svc.quota_text e)) s'
        | ok (cfg, req) ↦
            if payload.stream
            then handle_stream svc fails t payload.job_id cfg req s'
            else handle_chat svc fails t payload.job_id cfg req s'
      ]
]

-- `HandleTask`, and whether it returns an error: none is a payload that does not unmarshal.
unfoldable pub handle_task :
    JobService → ProxyFaults → Bool → ProxyTimes → Option AiJobPayload → JobState → JobState × Bool
handle_task svc f fails t none s = (s, true)
handle_task svc f fails t (some payload) s = (run_task svc f fails t payload s, false)
