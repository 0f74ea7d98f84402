-- ===== src/AiProxy/Usage.antt =====
-- How many requests the proxy serves with the server's own provider,
-- backend/internal/service/ai_proxy_service.go over quota_service.go.
use anynote.Base.{
  ℕ, suc, ◌+◌, ◌-◌, ◌≤◌, ◌≡◌, refl, ap, ◌∙◌, inl, inr, Bool, true, false, ◌&&◌, Option, none, some,
  List, [], ◌∷◌, ◌++◌, String, str_eq, is_ok, select_one, lookup, All, arith, Bool-cases,
  Option-cases, if◌then◌else◌,
}
use anynote.Quota.{
  UserQuota, QuotaService, QuotaCall, of_user, today, step, run, granted_to, grants_to,
}
use anynote.Quota.Limit.{IsWithin, Unique, granted_le}
use anynote.RateLimiter.{allow}
use anynote.Gateway.{GatewayConfig}
use anynote.LlmConfig.Resolver.{user_llm_config}
use anynote.AiProxy.{AiProxyRequest, AiProxyService, ProxyState, ProxyFaults, ProxyTimes, proxy}
use anynote.AiProxy.Modes.{proxy_shared-quota, proxy_dedicated-free, proxy_shared-ok}

pub record ProxyCall : Type 0 where
  pub user : String
  pub request : AiProxyRequest
  pub faults : ProxyFaults
  pub times : ProxyTimes

granted-append :
    (user : String) (xs ys : List QuotaCall) (q : QuotaService)
    → granted_to user (xs ++ ys) q ≡ granted_to user xs q + granted_to user ys (run xs q)
unfolding granted_to run
granted-append user [] ys q = omega arith
granted-append user (x ∷ xs) ys q = ground (arith, granted-append user xs ys (step x q))

abbrev increment_of : AiProxyService → ProxyCall → QuotaCall
increment_of svc c = record {
  increments = true;
  faults = c.faults.quota;
  user = svc.parse_uuid c.user;
  now = c.times.counted_at;
}

granted-one :
    (uid : String) (c : QuotaCall) (q : QuotaService)
    → grants_to uid c q ≡ true
    → granted_to uid (c ∷ []) q ≡ 1
unfolding granted_to
granted-one uid c q h = rw (granted_to, h) refl

module _ {R : Type 0} (svc : AiProxyService) where
  abbrev after : ProxyCall → ProxyState R → ProxyState R
  after c s = (proxy svc c.faults c.times c.user c.request s).0

  abbrev config_of : ProxyCall → ProxyState R → Option GatewayConfig
  config_of c s =
      user_llm_config svc.cipher c.faults.default_fails c.faults.list_fails (svc.parse_uuid c.user)
        s.configs

  abbrev is_shared : ProxyCall → ProxyState R → Bool
  is_shared c s = elim (config_of c s) [ none ↦ true | some _ ↦ false ]

  -- A request of a user that is answered by the server's own provider.
  abbrev is_served : String → ProxyCall → ProxyState R → Bool
  is_served uid c s =
      str_eq (svc.parse_uuid c.user) uid
      && is_shared c s
      && is_ok (proxy svc c.faults c.times c.user c.request s).1

  unfoldable pub served_to : String → List ProxyCall → ProxyState R → ℕ
  served_to uid [] s = 0
  served_to uid (c ∷ cs) s =
      let rest = served_to uid cs (after c s) in if is_served uid c s then suc rest else rest

  -- The call of the quota that a request makes: one in shared mode, where the limiter lets it through.
  abbrev counted : ProxyCall → ProxyState R → List QuotaCall
  counted c s =
      if is_shared c s && (allow c.user c.times.limited_at c.times.order s.limiter).1
      then increment_of svc c ∷ []
      else []

  counted-none : (c : ProxyCall) (s : ProxyState R) → is_shared c s ≡ false → counted c s ≡ []
  counted-none c s h = ground arith

  counted-free :
      (c : ProxyCall) (s : ProxyState R)
      → is_shared c s ≡ true
      → counted c s ≡ (
          if (allow c.user c.times.limited_at c.times.order s.limiter).1
          then increment_of svc c ∷ []
          else [])
  counted-free c s h =
      ap
        (λ x.
          if x && (allow c.user c.times.limited_at c.times.order s.limiter).1
          then increment_of svc c ∷ []
          else [])
        h

  after-quota : (c : ProxyCall) (s : ProxyState R) → (after c s).quota ≡ run (counted c s) s.quota
  unfolding run step
  after-quota c s = elim (Option-cases (config_of c s)) [
    | inr (cfg, e) ↦
        rw (counted-none c s (ground (arith, e)))
          ((proxy_dedicated-free svc c.faults c.times c.user s c.request cfg e).0)
    | inl e ↦
        let q = proxy_shared-quota svc c.faults c.times c.user s c.request e in
        let shared : is_shared c s ≡ true = ground (arith, e) in
        elim (Bool-cases (allow c.user c.times.limited_at c.times.order s.limiter).1) [
          | inl free ↦ rw (counted-free c s shared, free) (q ∙ rw free refl)
          | inr shut ↦ rw (counted-free c s shared, shut) (q ∙ rw shut refl)
        ]
  ]

  served-granted :
      (uid : String) (c : ProxyCall) (s : ProxyState R)
      → is_served uid c s ≡ true
      → granted_to uid (counted c s) s.quota ≡ 1
  served-granted uid c s h = elim (Option-cases (config_of c s)) [
    | inr (cfg, e) ↦ ground (arith, e, h)
    | inl e ↦
        let got =
          proxy_shared-ok svc c.faults c.times c.user s c.request e (ground (arith, e, h)) in
        let shared : is_shared c s ≡ true = ground (arith, e) in
        let same : str_eq (svc.parse_uuid c.user) uid ≡ true = ground (arith, h) in
        rw (counted-free c s shared, got.0)
          (granted-one uid (increment_of svc c) s.quota (rw (same, got.1) refl))
  ]

  unfoldable calls_of : List ProxyCall → ProxyState R → List QuotaCall
  calls_of [] s = []
  calls_of (c ∷ cs) s = counted c s ++ calls_of cs (after c s)

  served-calls_of :
      (uid : String) (cs : List ProxyCall) (s : ProxyState R)
      → served_to uid cs s ≤ granted_to uid (calls_of cs s) s.quota
  unfolding served_to calls_of
  served-calls_of uid [] s = omega arith
  served-calls_of uid (c ∷ cs) s =
      let rest = served-calls_of uid cs (after c s) in
      let split : granted_to uid (counted c s ++ calls_of cs (after c s)) s.quota
          ≡ granted_to uid (counted c s) s.quota
            + granted_to uid (calls_of cs (after c s)) (after c s).quota =
        rw (after-quota c s) (granted-append uid (counted c s) (calls_of cs (after c s)) s.quota) in
      elim (Bool-cases (is_served uid c s)) [
        | inl yes_ ↦ rw yes_ (omega (arith, split, served-granted uid c s yes_, rest))
        | inr no_ ↦ rw no_ (omega (arith, split, rest))
      ]

  calls_of-today :
      (uid : String) (d : ℕ) (cs : List ProxyCall) (s : ProxyState R)
      → All (λ c. (svc.parse_uuid c.user ≡ uid) → today c.times.counted_at ≡ d) cs
      → All (λ c. (c.user ≡ uid) → today c.now ≡ d) (calls_of cs s)
  unfolding calls_of
  calls_of-today uid d [] s h = tt
  calls_of-today uid d (c ∷ cs) s h =
      let rest = calls_of-today uid d cs (after c s) h.1 in
      elim (Bool-cases
        (is_shared c s && (allow c.user c.times.limited_at c.times.order s.limiter).1)) [
          | inl one ↦ rw one (h.0, rest)
          | inr none_at ↦ rw none_at rest
        ]

  -- Where each user has at most one row: in any sequence of requests of any users, in either mode
  -- and with whatever faults, in which those of one user are counted on the day of that user's
  -- last reset, and that user's row is within its limit at the start, the server's own providers
  -- answer the user at most as often as the row still has left.
  pub served_le :
      (uid : String) (d : ℕ) (cs : List ProxyCall) (s : ProxyState R) (q : UserQuota)
      → Unique s.quota.rows
      → select_one (of_user uid) s.quota.rows ≡ some q
      → lookup uid s.quota.last_reset ≡ some d
      → All (λ c. (svc.parse_uuid c.user ≡ uid) → today c.times.counted_at ≡ d) cs
      → IsWithin q
      → served_to uid cs s ≤ q.daily_ai_limit - q.daily_ai_used
  served_le uid d cs s q u h l days w =
      let most =
        granted_le uid d (calls_of cs s) s.quota q u h l (calls_of-today uid d cs s days) w in
      omega (arith, served-calls_of uid cs s, most)
