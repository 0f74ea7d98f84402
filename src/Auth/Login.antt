-- ===== src/Auth/Login.antt =====
-- Registration and login, backend/internal/service/auth_service.go (Register, Login) over
-- backend/internal/repository/user_repository.go (Create, GetByEmail).
use anynote.Base.{
  ℕ, ◌+◌, ◌≡◌, refl, inl, inr, true, false, some, List, String, ok, is_ok, select_one, arith,
  Bool-cases, Option-cases,
}
use anynote.Auth.{
  AuthService, IsLawful, AuthResponse, claims_of, respond, register, login, generate_auth_response,
}
use anynote.Auth.Tables.{
  Account, AuthStore, TokenFaults, has_email, get_by_email, get_by_username, create_account,
}
use anynote.Auth.Calls.{AuthCall, run, respond-accounts}
use anynote.Auth.Accounts.{create_account-row, run-keeps}

-- A successful registration leaves the account that a login looks for.
register-row :
    (svc : AuthService) (f : TokenFaults) (now later : ℕ) (new : Account) (id : String)
    (s : AuthStore)
    → is_ok (register svc f now later new id s).1 ≡ true
    → (u : Account) × (select_one
          (has_email new.email)
          (register svc f now later new id s).0.accounts
        ≡ some u)
      × (svc.crypto.hash new.auth_key_hash ≡ some u.auth_key_hash)
      × (u.id ≡ new.id)
unfolding register
register-row svc f now later new id s h =
    elim (Option-cases (get_by_email f.email_fails new.email s.accounts)) [
      | inr (_, e) ↦ ground (arith, e, h)
      | inl e ↦ elim (Option-cases (get_by_username f.username_fails new.username s.accounts)) [
        | inr (_, e') ↦ ground (arith, e, e', h)
        | inl e' ↦
            let user : Account = record new { plan = "free" } in
            let fields =
              create_account svc.crypto.hash svc.crypto.hash_recovery f.create_fails user
                s.accounts in
            elim (Bool-cases fields.1) [
              | inl done ↦
                  rw
                    (
                      register,
                      e,
                      e',
                      done,
                      respond-accounts svc f now later user id (record s { accounts = fields.0 }),
                    )
                    (create_account-row svc.crypto.hash svc.crypto.hash_recovery f.create_fails user
                      s.accounts done)
              | inr failed ↦ ground (arith, e, e', failed, h)
            ]
      ]
    ]

login-row :
    (svc : AuthService) (law : IsLawful svc.crypto) (f : TokenFaults) (now later : ℕ)
    (email key id : String) (s : AuthStore) (u : Account)
    → f.email_fails ≡ false
    → select_one (has_email email) s.accounts ≡ some u
    → svc.crypto.hash key ≡ some u.auth_key_hash
    → (resp : AuthResponse) × ((login svc f now later email key id s).1 ≡ ok resp) × (resp.user ≡ u)
unfolding login get_by_email respond generate_auth_response
login-row svc law f now later email key id s u up r k =
    let good = law.matches key u.auth_key_hash k in
    let a = law.signs (claims_of u now svc.token_expiry "access" "") in
    let b = law.signs (claims_of u now svc.refresh_expiry "refresh" id) in
    (
      record {
        access_token = a.0;
        refresh_token = b.0;
        expires_at = now + svc.token_expiry;
        user = u;
      },
      rw (login, get_by_email, up, r, good, respond, generate_auth_response, a.1, b.1) refl,
      refl,
    )

-- Where signing does not fail and a password matches its own hash: after a registration that
-- succeeds, and any registrations, logins, refreshes and purges, with whatever faults, a login
-- with the registered email and key succeeds and answers with the registered account, unless the
-- lookup by email fails.
pub register_then_login :
    (svc : AuthService) (law : IsLawful svc.crypto) (f g : TokenFaults) (now later : ℕ)
    (new : Account) (id : String) (s : AuthStore) (calls : List AuthCall) (now' later' : ℕ)
    (id' : String)
    → g.email_fails ≡ false
    → is_ok (register svc f now later new id s).1 ≡ true
    → (resp : AuthResponse) × ((login svc g now' later' new.email new.auth_key_hash id'
          (run svc calls (register svc f now later new id s).0)).1
        ≡ ok resp)
      × (resp.user.id ≡ new.id)
register_then_login svc law f g now later new id s calls now' later' id' up h =
    let (u, r, k, same) = register-row svc f now later new id s h in
    let after = run svc calls (register svc f now later new id s).0 in
    let (resp, e, whose) =
      login-row svc law g now' later' new.email new.auth_key_hash id' after u up
        (run-keeps svc (has_email new.email) u calls _ r) k in
    (resp, e, rw whose same)
