-- ===== src/Gateway/Outage.antt =====
-- The gateway over a provider that answers nothing, backend/internal/llm/gateway.go.
use anynote.Base.{
  ℕ, suc, ◌+◌, ◌<◌, ◌≡◌, ◌⊎◌, inl, inr, none, some, List, [], ◌∷◌, String, length, arith, ltb,
  le→ltb_false, lookup, insert, lookup-insert_self, insert-lookup, if◌then◌else◌,
}
use anynote.Breaker.{CircuitBreaker, state_closed, state_open, allow, record_failure}
use anynote.Gateway.{
  Gateway, GatewayConfig, ChatRequest, Provider, stream_request, chat_request, chat_stream, chat,
  circuit_breaker_state,
}
use anynote.Gateway.Streams.{GatewayCall, call, run_calls}

module _ {R : Type 0} (cfg : GatewayConfig) (p : Provider R)
    (no_stream : (k b : String) (r : ChatRequest) → p.stream k b r ≡ none)
    (no_answer : (k b : String) (r : ChatRequest) → p.complete k b r ≡ none) where
  abbrev pub Guards : Gateway R → CircuitBreaker → Type 0
  Guards g cb =
      (lookup cfg.provider g.providers ≡ some p)
      × (lookup cfg.provider g.circuit_breakers ≡ some cb)

  call_closed :
      (c : GatewayCall) (g : Gateway R) (cb : CircuitBreaker)
      → Guards g cb
      → cb.state ≡ state_closed
      → Guards (call cfg c g).0 (record_failure c.answered cb)
  unfolding call chat_stream chat allow
  call_closed c g cb w s = ground (
    arith,
    lookup-insert_self cfg.provider cb g.circuit_breakers,
    lookup-insert_self cfg.provider (record_failure c.answered cb)
        (insert cfg.provider cb g.circuit_breakers),
    no_stream cfg.api_key cfg.base_url (stream_request cfg c.req),
    no_answer cfg.api_key cfg.base_url (chat_request cfg c.req),
  )

  -- The breaker after a call that it may admit as a probe.
  abbrev after_open : GatewayCall → CircuitBreaker → CircuitBreaker
  after_open c cb = if (allow c.now cb).1 then record_failure c.answered (allow c.now cb).0 else cb

  call_open :
      (c : GatewayCall) (g : Gateway R) (cb : CircuitBreaker)
      → Guards g cb
      → cb.state ≡ state_open
      → Guards (call cfg c g).0 (after_open c cb) × ((after_open c cb).state ≡ state_open)
  unfolding call chat_stream chat allow record_failure
  call_open c g cb w s = ground (
    arith,
    insert-lookup cfg.provider cb g.circuit_breakers,
    lookup-insert_self cfg.provider (allow c.now cb).0 g.circuit_breakers,
    lookup-insert_self cfg.provider (after_open c cb)
        (insert cfg.provider (allow c.now cb).0 g.circuit_breakers),
    no_stream cfg.api_key cfg.base_url (stream_request cfg c.req),
    no_answer cfg.api_key cfg.base_url (chat_request cfg c.req),
  )

  run_open :
      (cs : List GatewayCall) (g : Gateway R) (cb : CircuitBreaker)
      → Guards g cb
      → cb.state ≡ state_open
      → circuit_breaker_state cfg.provider (run_calls cfg cs g) ≡ state_open
  unfolding run_calls circuit_breaker_state
  run_open [] g cb w s = ground arith
  run_open (c ∷ cs) g cb w s =
      let (w', s') = call_open c g cb w s in run_open cs (call cfg c g).0 (after_open c cb) w' s'

  failure_closed :
      (now : ℕ) (cb : CircuitBreaker)
      → cb.state ≡ state_closed
      → cb.failures < cb.failure_threshold
      → let cb' = record_failure now cb in
        ((cb'.state ≡ state_closed)
          × (cb'.failures ≡ suc cb.failures)
          × (cb'.failure_threshold ≡ cb.failure_threshold)
          × (suc cb.failures < cb.failure_threshold))
        ⊎ ((cb'.state ≡ state_open) × (cb.failure_threshold ≡ suc cb.failures))
  unfolding record_failure
  failure_closed now cb s h = ground arith

  -- A provider that fails every call is cut off after exactly as many calls as its closed breaker
  -- has failures left to its threshold, streaming and plain ones counted alike, and from there on
  -- its breaker is open after every call, whatever probes are admitted.
  pub outage_trips :
      (cs : List GatewayCall) (g : Gateway R) (cb : CircuitBreaker)
      → Guards g cb
      → cb.state ≡ state_closed
      → cb.failures < cb.failure_threshold
      → circuit_breaker_state cfg.provider (run_calls cfg cs g)
        ≡ (if ltb (cb.failures + length cs) cb.failure_threshold then state_closed else state_open)
  unfolding run_calls circuit_breaker_state
  outage_trips [] g cb w s h = ground arith
  outage_trips (c ∷ cs) g cb w s h =
      let w' = call_closed c g cb w s in
      elim (failure_closed c.answered cb s h) [
        | inl below ↦
            ground (arith, outage_trips cs (call cfg c g).0 (record_failure c.answered cb) w')
        | inr at_threshold ↦
            rw (le→ltb_false (cb.failures + length (c ∷ cs)) cb.failure_threshold (omega arith))
              (run_open cs (call cfg c g).0 (record_failure c.answered cb) w' at_threshold.0)
      ]
