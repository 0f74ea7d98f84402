-- ===== src/Auth/Spending.antt =====
-- What every request to backend/internal/service/auth_service.go keeps of a token that was used.
use anynote.Base.{
  ℕ, ◌≤◌, inl, inr, ◌&&◌, not, List, [], ◌∷◌, String, str_eq, Bool-cases, Option-cases,
  Result-cases,
}
use anynote.Auth.{
  Claims, AuthService, respond, register, login, refresh, check_refresh, rotate,
  generate_auth_response, keep_token, extract_jti, revoked_store,
}
use anynote.Auth.Tables.{
  Account, AuthStore, TokenFaults, get_by_email, get_by_username, create_account,
}
use anynote.Auth.Rotation.{Spent, store-Spent, revoke-Spent, purge-Spent, later-Spent}
use anynote.Auth.Calls.{
  AuthCall, registering, logging_in, refreshing, purging, time_of, run_call, run, IsOrdered,
}

module _ (svc : AuthService) (jti : String) (exp clock : ℕ) (f : TokenFaults) (now later : ℕ) where
  pub keep_token-Spent :
      (user : String) (resp : _) (s : AuthStore)
      → Spent jti exp clock s.refresh_tokens
      → Spent jti exp clock (keep_token svc f now later user resp s).refresh_tokens
  unfolding keep_token
  keep_token-Spent user resp s h =
      elim (Bool-cases (
        svc.has_refresh_tokens
        && not (str_eq (extract_jti svc f now later resp.refresh_token) ""))) [
          | inl kept ↦ rw kept (store-Spent jti exp clock f.store_fails user _ _ s.refresh_tokens h)
          | inr left ↦ rw left h
        ]

  pub respond-Spent :
      (user : Account) (new : String) (s : AuthStore)
      → Spent jti exp clock s.refresh_tokens
      → Spent jti exp clock (respond svc f now later user new s).0.refresh_tokens
  unfolding respond
  respond-Spent user new s h =
      elim (Result-cases (generate_auth_response svc f now later user new)) [
        | inl (resp, e) ↦ rw (respond, e) (keep_token-Spent user.id resp s h)
        | inr (fault, e) ↦ rw (respond, e) h
      ]

  pub register-Spent :
      (new : Account) (id : String) (s : AuthStore)
      → Spent jti exp clock s.refresh_tokens
      → Spent jti exp clock (register svc f now later new id s).0.refresh_tokens
  unfolding register
  register-Spent new id s h =
      elim (Option-cases (get_by_email f.email_fails new.email s.accounts)) [
        | inr (_, e) ↦ rw (register, e) h
        | inl e ↦
            rw (register, e)
              elim (Option-cases (get_by_username f.username_fails new.username s.accounts)) [
                | inr (_, e') ↦ rw e' h
                | inl e' ↦
                    rw e'
                      let user : Account = record new { plan = "free" } in
                        let made =
                          create_account svc.crypto.hash svc.crypto.hash_recovery f.create_fails
                            user s.accounts in
                        elim (Bool-cases made.1) [
                          | inl done ↦
                              rw done (respond-Spent user id (record s { accounts = made.0 }) h)
                          | inr failed ↦ rw failed h
                        ]
              ]
      ]

  pub login-Spent :
      (email key id : String) (s : AuthStore)
      → Spent jti exp clock s.refresh_tokens
      → Spent jti exp clock (login svc f now later email key id s).0.refresh_tokens
  unfolding login
  login-Spent email key id s h = elim (Option-cases (get_by_email f.email_fails email s.accounts)) [
    | inl e ↦ rw (login, e) h
    | inr (user, e) ↦
        rw (login, e)
          elim (Bool-cases (svc.crypto.compare_hash user.auth_key_hash key)) [
            | inl good ↦ rw good (respond-Spent user id s h)
            | inr bad ↦ rw bad h
          ]
  ]

  pub revoked_store-Spent :
      (c : Claims) (s : AuthStore)
      → Spent jti exp clock s.refresh_tokens
      → Spent jti exp clock (revoked_store svc f now later c s).refresh_tokens
  revoked_store-Spent c s h = elim (Bool-cases (svc.has_refresh_tokens && not (str_eq c.jti ""))) [
    | inl here ↦ rw here (revoke-Spent jti exp clock f.revoke_fails c.jti s.refresh_tokens h)
    | inr gone ↦ rw gone h
  ]

  pub rotate-Spent :
      (c : Claims) (user : Account) (id : String) (s : AuthStore)
      → Spent jti exp clock (revoked_store svc f now later c s).refresh_tokens
      → Spent jti exp clock s.refresh_tokens
      → Spent jti exp clock (rotate svc f now later (c, user) id s).0.refresh_tokens
  unfolding rotate
  rotate-Spent c user id s h h' =
      elim (Result-cases (generate_auth_response svc f now later user id)) [
        | inl (resp, e) ↦
            rw (rotate, e) (keep_token-Spent user.id resp (revoked_store svc f now later c s) h)
        | inr (fault, e) ↦ rw (rotate, e) h'
      ]

  pub refresh-Spent :
      (token id : String) (s : AuthStore)
      → Spent jti exp clock s.refresh_tokens
      → Spent jti exp clock (refresh svc f now later token id s).0.refresh_tokens
  unfolding refresh
  refresh-Spent token id s h = elim (Result-cases (check_refresh svc f now later token s)) [
    | inl ((c, user), e) ↦ rw (refresh, e) (rotate-Spent c user id s (revoked_store-Spent c s h) h)
    | inr (fault, e) ↦ rw (refresh, e) h
  ]

-- Every call keeps it, at the call's own time.
pub run_call-Spent :
    (svc : AuthService) (jti : String) (exp clock : ℕ) (call : AuthCall) (s : AuthStore)
    → clock ≤ time_of call
    → Spent jti exp clock s.refresh_tokens
    → Spent jti exp (time_of call) (run_call svc call s).refresh_tokens
unfolding run_call
run_call-Spent svc jti exp clock (registering f now later new id) s m h =
    register-Spent svc jti exp now f now later new id s
      (later-Spent jti exp clock now s.refresh_tokens m h)
run_call-Spent svc jti exp clock (logging_in f now later email key id) s m h =
    login-Spent svc jti exp now f now later email key id s
      (later-Spent jti exp clock now s.refresh_tokens m h)
run_call-Spent svc jti exp clock (refreshing f now later token id) s m h =
    refresh-Spent svc jti exp now f now later token id s
      (later-Spent jti exp clock now s.refresh_tokens m h)
run_call-Spent svc jti exp clock (purging now) s m h =
    purge-Spent jti exp clock now s.refresh_tokens m h

pub run-Spent :
    (svc : AuthService) (jti : String) (exp clock end : ℕ) (calls : List AuthCall) (s : AuthStore)
    → IsOrdered clock calls end
    → Spent jti exp clock s.refresh_tokens
    → Spent jti exp end (run svc calls s).refresh_tokens
unfolding run
run-Spent svc jti exp clock end [] s m h = later-Spent jti exp clock end s.refresh_tokens m h
run-Spent svc jti exp clock end (call ∷ calls) s (m, ms) h =
    run-Spent svc jti exp (time_of call) end calls (run_call svc call s) ms
      (run_call-Spent svc jti exp clock call s m h)
