-- ===== src/Gateway/Tests.antt =====
-- A gateway with one provider, backend/internal/llm/gateway.go.
use anynote.Base.{ℕ, ◌≡◌, refl, none, some, true, false, [], ◌∷◌, ok, err, arith}
use anynote.Breaker.{CircuitBreaker, state_open, state_closed}
use anynote.Gateway.{
  ChatRequest, GatewayConfig, Gateway, Provider, circuit_open, circuit_breaker_state,
}
use anynote.Gateway.Streams.{GatewayCall, call, run_calls, stream_probe_wedges}
use anynote.Gateway.Outage.{outage_trips}

abbrev request : ChatRequest
request = record {
  model = "";
  messages = [];
  temperature = none;
  max_tokens = none;
  stream = false;
  timeout = 0;
  max_retries = 0;
  retry_base_delay = 0;
}

abbrev config : GatewayConfig
config = record {
  provider = "openai";
  base_url = "";
  api_key = "key";
  model = "small";
  max_tokens = 100;
  temperature = 700;
  timeout = 10;
  max_retries = 1;
  retry_base_delay = 10;
}

-- Answers with the number 1, or not at all.
abbrev answering : Provider ℕ
answering = record { stream = λ k b r. some 1; complete = λ k b r. some 1 }

abbrev silent : Provider ℕ
silent = record { stream = λ k b r. none; complete = λ k b r. none }

abbrev closed : CircuitBreaker
closed = record {
  state = state_closed;
  failures = 0;
  successes = 0;
  last_failure_time = 0;
  failure_threshold = 2;
  success_threshold = 2;
  open_timeout = 100;
  half_open_max_reqs = 1;
  half_open_reqs = 0;
  changes = [];
}

abbrev tripped : CircuitBreaker
tripped = record closed { state = state_open; failures = 2; last_failure_time = 5 }

abbrev gateway_of : Provider ℕ → CircuitBreaker → Gateway ℕ
gateway_of p cb = record {
  providers = ("openai", p) ∷ ("anthropic", p) ∷ [];
  circuit_breakers = ("openai", cb) ∷ ("anthropic", closed) ∷ [];
}

abbrev streaming_at : ℕ → GatewayCall
streaming_at now = record { streaming = true; req = request; now = now; answered = now }

abbrev plain_at : ℕ → GatewayCall
plain_at now = record (streaming_at now) { streaming = false }

stream_probe_wedges_example :
    ((call config (streaming_at 200) (gateway_of answering tripped)).1 ≡ ok 1)
    × (call config (plain_at 900) (
          run_calls config
            (plain_at 300 ∷ [])
            (call config (streaming_at 200) (gateway_of answering tripped)).0)
        ≡ ((call config (streaming_at 200) (gateway_of answering tripped)).0, err circuit_open))
stream_probe_wedges_example =
    stream_probe_wedges config (gateway_of answering tripped) tripped answering 1 (streaming_at 200)
      (plain_at 300 ∷ []) (plain_at 900) refl refl refl refl (omega arith) (omega arith) refl

outage_trips_example :
    circuit_breaker_state "openai" (
      run_calls config (plain_at 1 ∷ streaming_at 2 ∷ plain_at 300 ∷ []) (gateway_of silent closed))
    ≡ state_open
outage_trips_example =
    outage_trips config silent (λ k b r. refl) (λ k b r. refl)
      (plain_at 1 ∷ streaming_at 2 ∷ plain_at 300 ∷ []) (gateway_of silent closed) closed
      (refl, refl) refl (omega arith)
