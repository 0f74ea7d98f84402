-- ===== src/Gateway/Streams.antt =====
-- A half-open breaker after a streaming probe, backend/internal/llm/gateway.go: `ChatStream`
-- takes a probe slot and, where the stream starts, reports no success that would give it back.
use anynote.Base.{
  ℕ, ◌+◌, ◌≤◌, ◌<◌, ◌≡◌, refl, Bool, some, List, [], ◌∷◌, true, Result, ok, err, arith, lookup,
  lookup-insert_self, insert-lookup, if◌then◌else◌,
}
use anynote.Breaker.{CircuitBreaker, state_open, state_half_open, allow}
use anynote.Gateway.{
  Gateway, GatewayConfig, ChatRequest, Provider, circuit_open, stream_request, chat_stream, chat,
  GatewayError,
}

-- A call for a provider: streaming or plain, when it is made and when its outcome is recorded.
pub record GatewayCall : Type 0 where
  pub streaming : Bool
  pub req : ChatRequest
  pub now : ℕ
  pub answered : ℕ

module _ {R : Type 0} (cfg : GatewayConfig) where
  unfoldable pub call : GatewayCall → Gateway R → Gateway R × Result GatewayError R
  call c g =
      if c.streaming
      then chat_stream cfg c.req c.now c.answered g
      else chat cfg c.req c.now c.answered g

  -- Calls made one after the other, each answered before the next.
  unfoldable pub run_calls : List GatewayCall → Gateway R → Gateway R
  run_calls [] g = g
  run_calls (c ∷ cs) g = run_calls cs (call c g).0

  -- The provider's breaker is half-open with every probe slot taken.
  abbrev pub IsWedged : Gateway R → CircuitBreaker → Provider R → Type 0
  IsWedged g cb p =
      (lookup cfg.provider g.providers ≡ some p)
      × (lookup cfg.provider g.circuit_breakers ≡ some cb)
      × (cb.state ≡ state_half_open)
      × (cb.half_open_max_reqs ≤ cb.half_open_reqs)

  wedged_rejects :
      (c : GatewayCall) (g : Gateway R) (cb : CircuitBreaker) (p : Provider R)
      → IsWedged g cb p
      → call c g ≡ (g, err circuit_open)
  unfolding call chat_stream chat allow
  wedged_rejects c g cb p w = ground (arith, insert-lookup cfg.provider cb g.circuit_breakers)

  run_calls-wedged :
      (cs : List GatewayCall) (g : Gateway R) (cb : CircuitBreaker) (p : Provider R)
      → IsWedged g cb p
      → run_calls cs g ≡ g
  unfolding run_calls
  run_calls-wedged [] g cb p w = refl
  run_calls-wedged (c ∷ cs) g cb p w = rw (wedged_rejects c g cb p w) (run_calls-wedged cs g cb p w)

  module _ (g : Gateway R) (cb : CircuitBreaker) (p : Provider R) (ch : R) where
    probe_wedges :
        (c : GatewayCall)
        → c.streaming ≡ true
        → lookup cfg.provider g.providers ≡ some p
        → lookup cfg.provider g.circuit_breakers ≡ some cb
        → cb.state ≡ state_open
        → cb.last_failure_time + cb.open_timeout < c.now
        → cb.half_open_max_reqs ≤ 1
        → p.stream cfg.api_key cfg.base_url (stream_request cfg c.req) ≡ some ch
        → ((call c g).1 ≡ ok ch) × IsWedged (call c g).0 (allow c.now cb).0 p
    unfolding call chat_stream allow
    probe_wedges c st hp hb o t m s =
        ground (arith, lookup-insert_self cfg.provider (allow c.now cb).0 g.circuit_breakers)

    -- Where an open breaker with at most one probe slot admits a streaming call as its probe and the
    -- stream starts, the call succeeds, and every later call to that provider, streaming or plain,
    -- is rejected and changes nothing, after any number of others and however late it is made.
    pub stream_probe_wedges :
        (c : GatewayCall) (cs : List GatewayCall) (last : GatewayCall)
        → c.streaming ≡ true
        → lookup cfg.provider g.providers ≡ some p
        → lookup cfg.provider g.circuit_breakers ≡ some cb
        → cb.state ≡ state_open
        → cb.last_failure_time + cb.open_timeout < c.now
        → cb.half_open_max_reqs ≤ 1
        → p.stream cfg.api_key cfg.base_url (stream_request cfg c.req) ≡ some ch
        → ((call c g).1 ≡ ok ch)
          × (call last (run_calls cs (call c g).0) ≡ ((call c g).0, err circuit_open))
    stream_probe_wedges c cs last st hp hb o t m s =
        let (e, w) = probe_wedges c st hp hb o t m s in
        (e, rw (run_calls-wedged cs _ _ p w) (wedged_rejects last _ _ p w))
