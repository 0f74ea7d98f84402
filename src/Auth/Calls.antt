-- ===== src/Auth/Calls.antt =====
-- Sequences of requests to backend/internal/service/auth_service.go, with the hourly purge of
-- refresh_token_repository.go among them.
use anynote.Base.{ℕ, ◌≤◌, ◌≡◌, refl, List, [], ◌∷◌, String, arith, Result-cases, inl, inr}
use anynote.Auth.{
  AuthService, respond, register, login, refresh, generate_auth_response, keep_token,
}
use anynote.Auth.Tables.{Account, AuthStore, TokenFaults, purge_expired}

-- A request with its faults, its time and the time at which it stores a token; or the purge.
pub data AuthCall : Type 0 where
  registering : TokenFaults → ℕ → ℕ → Account → String → AuthCall
  logging_in : TokenFaults → ℕ → ℕ → String → String → String → AuthCall
  refreshing : TokenFaults → ℕ → ℕ → String → String → AuthCall
  purging : ℕ → AuthCall

abbrev pub time_of : AuthCall → ℕ
time_of (registering f now later new jti) = now
time_of (logging_in f now later email key jti) = now
time_of (refreshing f now later token jti) = now
time_of (purging now) = now

unfoldable pub run_call : AuthService → AuthCall → AuthStore → AuthStore
run_call svc (registering f now later new jti) s = (register svc f now later new jti s).0
run_call svc (logging_in f now later email key jti) s = (login svc f now later email key jti s).0
run_call svc (refreshing f now later token jti) s = (refresh svc f now later token jti s).0
run_call svc (purging now) s = record s { refresh_tokens = (purge_expired now s.refresh_tokens).0 }

unfoldable pub run : AuthService → List AuthCall → AuthStore → AuthStore
run svc [] s = s
run svc (call ∷ calls) s = run svc calls (run_call svc call s)

-- The calls' times do not decrease, from `clock` on and up to `end`.
abbrev pub IsOrdered : ℕ → List AuthCall → ℕ → Type 0
IsOrdered clock [] end = clock ≤ end
IsOrdered clock (call ∷ calls) end = (clock ≤ time_of call) × IsOrdered (time_of call) calls end

-- What a store keeps under every call: `P` of the accounts and the tokens, at a time.
module _ (svc : AuthService) (f : TokenFaults) (now later : ℕ) where
  pub keep_token-accounts :
      (user : String) (resp : _) (s : AuthStore)
      → (keep_token svc f now later user resp s).accounts ≡ s.accounts
  unfolding keep_token
  keep_token-accounts user resp s = ground arith

  pub respond-accounts :
      (user : Account) (jti : String) (s : AuthStore)
      → (respond svc f now later user jti s).0.accounts ≡ s.accounts
  unfolding respond
  respond-accounts user jti s =
      elim (Result-cases (generate_auth_response svc f now later user jti)) [
        | inl (resp, e) ↦ rw (respond, e) (keep_token-accounts user.id resp s)
        | inr (fault, e) ↦ rw (respond, e) refl
      ]
