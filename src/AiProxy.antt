-- ===== src/AiProxy.antt =====
-- The AI proxy: backend/internal/service/ai_proxy_service.go, with CheckSharedModeQuota of
-- backend/internal/service/llm_config_resolver.go. It puts the rate limiter, the quota and the users'
-- configurations in front of the gateway; an answer of a provider is an `R`.
pub mod Modes
pub mod Usage
pub mod Jobs
pub mod Tests
use anynote.Base.{
  ℕ, Bool, true, false, not, Option, none, some, List, [], ◌∷◌, String, str_eq, Result, ok, err,
  select, if◌then◌else◌,
}
use anynote.Gateway.{
  ChatMessage, ChatRequest, GatewayConfig, Gateway, GatewayError, circuit_open,
  unsupported_provider, provider_failed, chat_stream,
}
use anynote.Quota.{QuotaService, QuotaError, Faults, quota_exceeded, increment_usage}
use anynote.RateLimiter.{RateLimiter, allow}
use anynote.LlmConfig.Tables.{LlmConfig}
use anynote.LlmConfig.Resolver.{user_llm_config}
use anynote.LlmConfig.Crypto.{Cipher}

-- The temperature is in thousandths.
pub record AiProxyRequest : Type 0 where
  pub model : String
  pub messages : List ChatMessage
  pub temperature : Option ℕ
  pub max_tokens : Option ℕ
  pub stream : Bool

-- `uuid.Parse` gives the nil id for a text that is none.
pub record AiProxyService : Type 0 where
  pub default_cfg : GatewayConfig
  pub fallback_cfg : Option GatewayConfig
  pub cipher : Cipher
  pub parse_uuid : String → String

pub data ProxyError : Type 0 where
  refused : QuotaError → ProxyError
  gateway_failed unavailable : GatewayError → ProxyError
  both_failed : GatewayError → GatewayError → ProxyError

pub record ProxyState (R : Type 0) : Type 0 where
  pub gateway : Gateway R
  pub quota : QuotaService
  pub limiter : RateLimiter
  pub configs : List LlmConfig

abbrev failed : GatewayError → ProxyError
failed circuit_open = unavailable circuit_open
failed unsupported_provider = gateway_failed unsupported_provider
failed provider_failed = gateway_failed provider_failed

-- The queries of one request that fail.
pub record ProxyFaults : Type 0 where
  pub default_fails : Bool
  pub list_fails : Bool
  pub quota : Faults

-- The times of one request's steps, and the limiter's order of windows then.
pub record ProxyTimes : Type 0 where
  pub limited_at : ℕ
  pub order : List String
  pub counted_at : ℕ
  pub called_at : ℕ
  pub answered_at : ℕ
  pub fallback_at : ℕ
  pub fallback_answered_at : ℕ

abbrev pub is_system : ChatMessage → Bool
is_system m = str_eq m.role "system"

unfoldable pub strip_system_messages : List ChatMessage → List ChatMessage
strip_system_messages messages = select (λ m. not (is_system m)) messages

-- What `Proxy` does to the messages in shared mode.
abbrev pub stripped : AiProxyRequest → AiProxyRequest
stripped req = record req { messages = strip_system_messages req.messages }

unfoldable pub to_chat_request : AiProxyRequest → GatewayConfig → ChatRequest
to_chat_request req cfg = record {
  model = if str_eq req.model "" then cfg.model else req.model;
  messages = req.messages;
  temperature = req.temperature;
  max_tokens = req.max_tokens;
  stream = req.stream;
  timeout = 0;
  max_retries = 0;
  retry_base_delay = 0;
}

module _ {R : Type 0} where
  -- The limiter goes by the text of the user's id, and the quota by the id.
  unfoldable pub check_shared_mode_quota :
      ProxyFaults
      → ProxyTimes
      → String
      → String
      → ProxyState R
      → ProxyState R × Result QuotaError (Unit {0})
  check_shared_mode_quota f t uid user s =
      let (limiter', allowed) = allow user t.limited_at t.order s.limiter in
      let s' = record s { limiter = limiter' } in
      if not allowed
      then (s', err quota_exceeded)
      else let (quota', r) = increment_usage f.quota uid t.counted_at s.quota in
        (record s' { quota = quota' }, r)

  -- The two calls of the gateway in shared mode: the server's provider, and then the fallback.
  unfoldable pub call_fallback :
      AiProxyService
      → ProxyTimes
      → AiProxyRequest
      → GatewayError
      → ProxyState R
      → ProxyState R × Result ProxyError R
  call_fallback svc t req e s = elim svc.fallback_cfg [
    | none ↦ (s, err (failed e))
    | some cfg ↦
        let (gateway', answer) =
          chat_stream cfg (to_chat_request req cfg) t.fallback_at t.fallback_answered_at
            s.gateway in
        let s' = record s { gateway = gateway' } in
        elim answer [ err e' ↦ (s', err (both_failed e e')) | ok ch ↦ (s', ok ch) ]
  ]

  unfoldable pub call_default :
      AiProxyService
      → ProxyTimes
      → AiProxyRequest
      → ProxyState R
      → ProxyState R × Result ProxyError R
  call_default svc t req s =
      let (gateway', answer) =
        chat_stream svc.default_cfg (to_chat_request req svc.default_cfg) t.called_at t.answered_at
          s.gateway in
      let s' = record s { gateway = gateway' } in
      elim answer [ err e ↦ call_fallback svc t req e s' | ok ch ↦ (s', ok ch) ]

  -- `Proxy` in shared mode, on the stripped request.
  unfoldable pub proxy_shared :
      AiProxyService
      → ProxyFaults
      → ProxyTimes
      → String
      → AiProxyRequest
      → ProxyState R
      → ProxyState R × Result ProxyError R
  proxy_shared svc f t user req s =
      let (s', checked) = check_shared_mode_quota f t (svc.parse_uuid user) user s in
      elim checked [ err e ↦ (s', err (refused e)) | ok _ ↦ call_default svc t req s' ]

  unfoldable pub proxy_dedicated :
      GatewayConfig
      → ProxyTimes
      → AiProxyRequest
      → ProxyState R
      → ProxyState R × Result ProxyError R
  proxy_dedicated cfg t req s =
      let (gateway', answer) =
        chat_stream cfg (to_chat_request req cfg) t.called_at t.answered_at s.gateway in
      let s' = record s { gateway = gateway' } in
      elim answer [ err e ↦ (s', err (gateway_failed e)) | ok ch ↦ (s', ok ch) ]

  unfoldable pub proxy :
      AiProxyService
      → ProxyFaults
      → ProxyTimes
      → String
      → AiProxyRequest
      → ProxyState R
      → ProxyState R × Result ProxyError R
  proxy svc f t user req s =
      elim (user_llm_config svc.cipher f.default_fails f.list_fails (svc.parse_uuid user)
        s.configs) [
          | some cfg ↦ proxy_dedicated cfg t req s
          | none ↦ proxy_shared svc f t user (stripped req) s
        ]
