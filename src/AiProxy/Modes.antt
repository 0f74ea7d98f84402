-- ===== src/AiProxy/Modes.antt =====
-- What the two modes of the proxy may touch, backend/internal/service/ai_proxy_service.go (Proxy).
use anynote.Base.{
  ◌≡◌, refl, ap, inl, inr, true, false, none, some, List, [], ◌∷◌, String, eq_iff, is_ok, arith,
  Bool-cases, Result-cases, if◌then◌else◌,
}
use anynote.Gateway.{ChatMessage, GatewayConfig}
use anynote.Quota.{increment_usage}
use anynote.RateLimiter.{allow}
use anynote.LlmConfig.Resolver.{user_llm_config}
use anynote.AiProxy.{
  AiProxyRequest, AiProxyService, ProxyState, ProxyFaults, ProxyTimes, stripped,
  strip_system_messages, check_shared_mode_quota, call_default, call_fallback, proxy_shared,
  proxy_dedicated, proxy,
}

-- Two conversations that are the same but for messages of the role "system", wherever they stand.
pub data AreSameButSystem : List ChatMessage → List ChatMessage → Type 0 where
  both_end : AreSameButSystem [] []
  both_have :
      (m : ChatMessage) (ms ns : List ChatMessage)
      → AreSameButSystem ms ns
      → AreSameButSystem (m ∷ ms) (m ∷ ns)
  left_has :
      (m : ChatMessage) (ms ns : List ChatMessage)
      → m.role ≡ "system"
      → AreSameButSystem ms ns
      → AreSameButSystem (m ∷ ms) ns
  right_has :
      (m : ChatMessage) (ms ns : List ChatMessage)
      → m.role ≡ "system"
      → AreSameButSystem ms ns
      → AreSameButSystem ms (m ∷ ns)

strip_system_messages-same :
    (ms ns : List ChatMessage)
    → AreSameButSystem ms ns
    → strip_system_messages ms ≡ strip_system_messages ns
unfolding strip_system_messages
strip_system_messages-same _ _ both_end = refl
strip_system_messages-same _ _ (both_have m ms ns h) =
    ground (arith, strip_system_messages-same ms ns h)
strip_system_messages-same _ _ (left_has m ms ns e h) =
    ground (arith, eq_iff m.role "system", e, strip_system_messages-same ms ns h)
strip_system_messages-same _ _ (right_has m ms ns e h) =
    ground (arith, eq_iff m.role "system", e, strip_system_messages-same ms ns h)

module _ {R : Type 0} (svc : AiProxyService) (f : ProxyFaults) (t : ProxyTimes) (user : String)
    (s : ProxyState R) where
  abbrev uid : String
  uid = svc.parse_uuid user

  abbrev IsShared : Type 0
  IsShared = user_llm_config svc.cipher f.default_fails f.list_fails uid s.configs ≡ none

  -- In shared mode the messages of a request with the role "system" make no difference, wherever
  -- they stand: a request with any of them put in or taken out gets the same answer and leaves the
  -- same state.
  pub proxy_strips :
      (req : AiProxyRequest) (messages : List ChatMessage)
      → IsShared
      → AreSameButSystem req.messages messages
      → proxy svc f t user req s ≡ proxy svc f t user (record req { messages = messages }) s
  unfolding proxy
  proxy_strips req messages shared same =
      rw (proxy, shared)
        (ap (λ ms. proxy_shared svc f t user (record req { messages = ms }) s)
          (strip_system_messages-same req.messages messages same))

  call_default-keeps :
      (req : AiProxyRequest) (s : ProxyState R)
      → ((call_default svc t req s).0.quota ≡ s.quota)
        × ((call_default svc t req s).0.limiter ≡ s.limiter)
  unfolding call_default call_fallback
  call_default-keeps req s = (ground arith, ground arith)

  -- The limiter's answer, and then the quota's, are all that decides in shared mode: a request that
  -- either refuses is an error and leaves the gateway as it was.
  pub proxy_shared-refused :
      (req : AiProxyRequest)
      → IsShared
      → is_ok (check_shared_mode_quota f t uid user s).1 ≡ false
      → ((proxy svc f t user req s).0.gateway ≡ s.gateway)
        × (is_ok (proxy svc f t user req s).1 ≡ false)
  unfolding proxy proxy_shared check_shared_mode_quota
  proxy_shared-refused req shared h = (ground (arith, shared, h), ground (arith, shared, h))

  -- With a configuration of the user's own, neither the limiter nor the quota is read or changed.
  pub proxy_dedicated-free :
      (req : AiProxyRequest) (cfg : GatewayConfig)
      → user_llm_config svc.cipher f.default_fails f.list_fails uid s.configs ≡ some cfg
      → ((proxy svc f t user req s).0.quota ≡ s.quota)
        × ((proxy svc f t user req s).0.limiter ≡ s.limiter)
  unfolding proxy proxy_dedicated
  proxy_dedicated-free req cfg own = (ground (arith, own), ground (arith, own))

  -- What shared mode leaves of the quota: the increment's, where the limiter lets the request through.
  pub proxy_shared-quota :
      (req : AiProxyRequest)
      → IsShared
      → (proxy svc f t user req s).0.quota ≡ (
          if (allow user t.limited_at t.order s.limiter).1
          then (increment_usage f.quota uid t.counted_at s.quota).0
          else s.quota)
  unfolding proxy proxy_shared check_shared_mode_quota
  proxy_shared-quota req shared = elim (Bool-cases (allow user t.limited_at t.order s.limiter).1) [
    | inr shut ↦ ground (arith, shared, shut)
    | inl free ↦ elim (Result-cases (increment_usage f.quota uid t.counted_at s.quota).1) [
      | inr (e, x) ↦ ground (arith, shared, free, x)
      | inl (e, x) ↦
          let s' : ProxyState R = record s {
            limiter = (allow user t.limited_at t.order s.limiter).0;
            quota = (increment_usage f.quota uid t.counted_at s.quota).0;
          } in
          let keeps = call_default-keeps (stripped req) s' in
          ground (arith, shared, free, x, keeps.0)
    ]
  ]

  pub proxy_shared-ok :
      (req : AiProxyRequest)
      → IsShared
      → is_ok (proxy svc f t user req s).1 ≡ true
      → ((allow user t.limited_at t.order s.limiter).1 ≡ true)
        × (is_ok (increment_usage f.quota uid t.counted_at s.quota).1 ≡ true)
  unfolding proxy proxy_shared check_shared_mode_quota
  proxy_shared-ok req shared h = (ground (arith, shared, h), ground (arith, shared, h))
