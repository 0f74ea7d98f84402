-- ===== src/Gateway.antt =====
-- The LLM gateway of backend/internal/llm/gateway.go: providers by name, each behind a circuit
-- breaker of its own. What a provider's API answers is not under this program's control: the
-- functions `stream` and `complete` of a provider stand for its two calls over the network, and
-- `answered` is the time at which the call returns and its outcome is recorded.
pub mod Laws
pub mod Streams
pub mod Outage
mod Tests
use anynote.Base.{
  ℕ, ◌+◌, ◌*◌, Bool, true, false, Option, none, some, List, [], ◌∷◌, String, str_eq, Result, ok,
  err, lookup, insert, ltb, ◌==◌, if◌then◌else◌,
}
use anynote.Breaker.{
  CircuitBreaker, CircuitBreakerOption, State, state_closed, with_failure_threshold,
  with_success_threshold, with_open_timeout, with_half_open_max_requests, new_circuit_breaker,
  allow, record_success, record_failure, second,
}

pub record ChatMessage : Type 0 where
  pub role : String
  pub content : String

-- `none` is the nil pointer; durations are in nanoseconds, and the temperature is in thousandths.
pub record ChatRequest : Type 0 where
  pub model : String
  pub messages : List ChatMessage
  pub temperature : Option ℕ
  pub max_tokens : Option ℕ
  pub stream : Bool
  pub timeout : ℕ
  pub max_retries : ℕ
  pub retry_base_delay : ℕ

pub record GatewayConfig : Type 0 where
  pub provider : String
  pub base_url : String
  pub api_key : String
  pub model : String
  pub max_tokens : ℕ
  pub temperature : ℕ
  pub timeout : ℕ
  pub max_retries : ℕ
  pub retry_base_delay : ℕ

pub data GatewayError : Type 0 where
  unsupported_provider circuit_open provider_failed : GatewayError

-- A registered provider: the outcome of its streaming and of its plain call. `R` stands for a
-- stream of chunks or a response.
pub record Provider (R : Type 0) : Type 0 where
  pub stream : String → String → ChatRequest → Option R
  pub complete : String → String → ChatRequest → Option R

pub record Gateway (R : Type 0) : Type 0 where
  pub providers : List (String × Provider R)
  pub circuit_breakers : List (String × CircuitBreaker)

abbrev pub gateway_circuit_breaker_opts : List CircuitBreakerOption
gateway_circuit_breaker_opts =
    with_failure_threshold 5
    ∷ with_success_threshold 3
    ∷ with_open_timeout (30 * second)
    ∷ with_half_open_max_requests 1
    ∷ []

abbrev or_default : String → String → String
or_default value default = if str_eq value "" then default else value

abbrev or_some : Option ℕ → ℕ → Option ℕ
or_some (some v) d = some v
or_some none d = some d

abbrev if_zero : ℕ → ℕ → ℕ
if_zero n d = if n == 0 then d else n

abbrev stream_request : GatewayConfig → ChatRequest → ChatRequest
stream_request cfg req = record req {
  model = or_default req.model cfg.model;
  temperature = or_some req.temperature cfg.temperature;
  max_tokens = or_some req.max_tokens cfg.max_tokens;
  timeout = if_zero req.timeout cfg.timeout;
  stream = true;
}

abbrev chat_request : GatewayConfig → ChatRequest → ChatRequest
chat_request cfg req = record req {
  model = or_default req.model cfg.model;
  stream = false;
  max_retries = if_zero (if_zero req.max_retries cfg.max_retries) 3;
  retry_base_delay = if_zero (if_zero req.retry_base_delay cfg.retry_base_delay) second;
}

module _ {R : Type 0} where
  abbrev pub register : String → Provider R → Gateway R → Gateway R
  register name p g = record {
    providers = insert name p g.providers;
    circuit_breakers =
        insert name (new_circuit_breaker gateway_circuit_breaker_opts) g.circuit_breakers;
  }

  -- `NewGateway`, with the OpenAI-compatible provider and Anthropic's.
  pub new_gateway : Provider R → Provider R → Gateway R
  new_gateway compat anthropic = register "anthropic" anthropic (
      register "custom" compat (
        register "qwen" compat (
          register "deepseek" compat
            (register "openai" compat (record { providers = []; circuit_breakers = [] })))))

  pub circuit_breaker_state : String → Gateway R → State
  circuit_breaker_state name g = elim (lookup name g.circuit_breakers) [
    | some cb ↦ cb.state
    | none ↦ state_closed
  ]

  abbrev set_breaker : String → CircuitBreaker → Gateway R → Gateway R
  set_breaker name cb g = record g { circuit_breakers = insert name cb g.circuit_breakers }

  -- `if cb, ok := ...; ok { cb.Allow() }`
  pub admit : String → ℕ → Gateway R → Gateway R × Bool
  admit name now g = elim (lookup name g.circuit_breakers) [
    | none ↦ (g, true)
    | some cb ↦ let (cb', allowed) = allow now cb in (set_breaker name cb' g, allowed)
  ]

  pub note_success : String → Gateway R → Gateway R
  note_success name g = elim (lookup name g.circuit_breakers) [
    | none ↦ g
    | some cb ↦ set_breaker name (record_success cb) g
  ]

  pub note_failure : String → ℕ → Gateway R → Gateway R
  note_failure name now g = elim (lookup name g.circuit_breakers) [
    | none ↦ g
    | some cb ↦ set_breaker name (record_failure now cb) g
  ]

  abbrev dispatch_stream :
      GatewayConfig
      → ChatRequest
      → ℕ
      → Provider R
      → Gateway R × Bool
      → Gateway R × Result GatewayError R
  dispatch_stream cfg req answered p (g, false) = (g, err circuit_open)
  dispatch_stream cfg req answered p (g, true) =
      elim (p.stream cfg.api_key cfg.base_url (stream_request cfg req)) [
        | some ch ↦ (g, ok ch)
        | none ↦ (note_failure cfg.provider answered g, err provider_failed)
      ]

  unfoldable pub chat_stream :
      GatewayConfig → ChatRequest → ℕ → ℕ → Gateway R → Gateway R × Result GatewayError R
  unfolding admit note_failure
  chat_stream cfg req now answered g = elim (lookup cfg.provider g.providers) [
    | none ↦ (g, err unsupported_provider)
    | some p ↦ dispatch_stream cfg req answered p (admit cfg.provider now g)
  ]

  abbrev dispatch_chat :
      GatewayConfig
      → ChatRequest
      → ℕ
      → Provider R
      → Gateway R × Bool
      → Gateway R × Result GatewayError R
  dispatch_chat cfg req answered p (g, false) = (g, err circuit_open)
  dispatch_chat cfg req answered p (g, true) =
      elim (p.complete cfg.api_key cfg.base_url (chat_request cfg req)) [
        | some resp ↦ (note_success cfg.provider g, ok resp)
        | none ↦ (note_failure cfg.provider answered g, err provider_failed)
      ]

  unfoldable pub chat :
      GatewayConfig → ChatRequest → ℕ → ℕ → Gateway R → Gateway R × Result GatewayError R
  unfolding admit note_failure note_success
  chat cfg req now answered g = elim (lookup cfg.provider g.providers) [
    | none ↦ (g, err unsupported_provider)
    | some p ↦ dispatch_chat cfg req answered p (admit cfg.provider now g)
  ]
