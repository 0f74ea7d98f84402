-- ===== src/Gateway/Laws.antt =====
-- What the breakers make of the gateway's calls, backend/internal/llm/gateway.go.
use anynote.Base.{ℕ, ◌≡◌, ◌≢◌, String, lookup, arith, Bool-cases, inl, inr, lookup-insert_ne}
use anynote.Gateway.{Gateway, GatewayConfig, ChatRequest, chat_stream, chat}
use anynote.Gateway.Streams.{GatewayCall, call}

module _ {R : Type 0} (cfg : GatewayConfig) where
  -- Two gateways with the same providers and the same breaker under a name.
  abbrev pub AgreesOn : String → Gateway R → Gateway R → Type 0
  AgreesOn name g g' =
      (lookup name g'.circuit_breakers ≡ lookup name g.circuit_breakers)
      × (g'.providers ≡ g.providers)

  chat_stream_others :
      (req : ChatRequest) (now answered : ℕ) (g : Gateway R) (name : String)
      → name ≢ cfg.provider
      → AgreesOn name g (chat_stream cfg req now answered g).0
  unfolding chat_stream
  chat_stream_others req now answered g name h = grind (arith, lookup-insert_ne)

  chat_others :
      (req : ChatRequest) (now answered : ℕ) (g : Gateway R) (name : String)
      → name ≢ cfg.provider
      → AgreesOn name g (chat cfg req now answered g).0
  unfolding chat
  chat_others req now answered g name h = grind (arith, lookup-insert_ne)

  -- A call for one provider, streaming or plain and whatever its outcome, leaves every other
  -- provider's breaker as it was, and the providers too.
  pub call_others :
      (c : GatewayCall) (g : Gateway R) (name : String)
      → name ≢ cfg.provider
      → AgreesOn name g (call cfg c g).0
  unfolding call
  call_others c g name h = elim (Bool-cases c.streaming) [
    | inl streams ↦ rw streams (chat_stream_others c.req c.now c.answered g name h)
    | inr plain ↦ rw plain (chat_others c.req c.now c.answered g name h)
  ]
