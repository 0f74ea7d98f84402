-- ===== src/Auth/Replay.antt =====
-- A refresh token that was used cannot be used again, backend/internal/service/auth_service.go
-- (RefreshToken), whatever else is requested in between.
use anynote.Base.{
  ℕ, ◌*◌, ◌≤◌, ◌≡◌, ap, ◌∙◌, inl, inr, true, false, ◌&&◌, not, some, List, String, str_eq, ok,
  is_ok, select_one, select_one-true, arith, Option-cases, Result-cases, if◌then◌else◌,
}
use anynote.Auth.{
  Claims, IsLawful, AuthService, second, refresh, check_refresh, rotate, generate_auth_response,
  revoked_store,
}
use anynote.Auth.Tables.{
  Account, RefreshToken, AuthStore, TokenFaults, has_token, revoked, revoke_token, is_revoked,
}
use anynote.Auth.Rotation.{Spent, row-revoke}
use anynote.Auth.Calls.{AuthCall, run, IsOrdered}
use anynote.Auth.Spending.{keep_token-Spent, run-Spent}

check_refresh-parse :
    (svc : AuthService) (f : TokenFaults) (now later : ℕ) (token : String) (s : AuthStore)
    (c d : Claims) (user : Account)
    → svc.crypto.parse_token now token ≡ some c
    → check_refresh svc f now later token s ≡ ok (d, user)
    → d ≡ c
unfolding check_refresh
check_refresh-parse svc f now later token s c d user p h = ground arith

-- A revocation that does not fail leaves the token spent.
revoked_store-spends :
    (svc : AuthService) (f : TokenFaults) (now later clock : ℕ) (s : AuthStore) (c : Claims)
    (row : RefreshToken)
    → svc.has_refresh_tokens ≡ true
    → f.revoke_fails ≡ false
    → str_eq c.jti "" ≡ false
    → select_one (has_token c.jti) s.refresh_tokens ≡ some row
    → c.exp * second ≤ row.expires_at
    → Spent c.jti c.exp clock (revoked_store svc f now later c s).refresh_tokens
unfolding revoke_token
revoked_store-spends svc f now later clock s c row on works j r l =
    rw (on, j, works)
      let mine = select_one-true (has_token c.jti) row s.refresh_tokens r in
        inr (
          (if has_token c.jti row && not row.revoked then revoked row else row),
          row-revoke c.jti c.jti s.refresh_tokens row r,
          ground (arith, mine),
          ground (arith, mine, l),
        )

rotate_spends :
    (svc : AuthService) (f : TokenFaults) (now later : ℕ) (id : String) (s : AuthStore) (c : Claims)
    (user : Account)
    → Spent c.jti c.exp now (revoked_store svc f now later c s).refresh_tokens
    → is_ok (rotate svc f now later (c, user) id s).1 ≡ true
    → Spent c.jti c.exp now (rotate svc f now later (c, user) id s).0.refresh_tokens
unfolding rotate
rotate_spends svc f now later id s c user h k =
    elim (Result-cases (generate_auth_response svc f now later user id)) [
      | inl (resp, e) ↦
          rw (rotate, e)
            (keep_token-Spent svc c.jti c.exp now f now later user.id resp
              (revoked_store svc f now later c s) h)
      | inr (fault, e) ↦ ground (arith, e, k)
    ]

refresh_spends :
    (svc : AuthService) (f : TokenFaults) (now later : ℕ) (token id : String) (s : AuthStore)
    (c : Claims) (row : RefreshToken)
    → svc.has_refresh_tokens ≡ true
    → f.revoke_fails ≡ false
    → svc.crypto.parse_token now token ≡ some c
    → str_eq c.jti "" ≡ false
    → select_one (has_token c.jti) s.refresh_tokens ≡ some row
    → c.exp * second ≤ row.expires_at
    → is_ok (refresh svc f now later token id s).1 ≡ true
    → Spent c.jti c.exp now (refresh svc f now later token id s).0.refresh_tokens
unfolding refresh
refresh_spends svc f now later token id s c row on works p j r l k =
    elim (Result-cases (check_refresh svc f now later token s)) [
      | inl ((d, user), e) ↦
          let same = check_refresh-parse svc f now later token s c d user p e in
          let e' : check_refresh svc f now later token s ≡ ok (c, user) =
            e ∙ ap (λ x. ok (x, user)) same in
          rw (refresh, e')
            (rotate_spends svc f now later id s c user
              (revoked_store-spends svc f now later now s c row on works j r l)
              (ground (arith, e', k)))
      | inr (fault, e) ↦ ground (arith, e, k)
    ]

revoked_refused :
    (svc : AuthService) (f : TokenFaults) (now later : ℕ) (token id : String) (s : AuthStore)
    (c : Claims)
    → svc.has_refresh_tokens ≡ true
    → svc.crypto.parse_token now token ≡ some c
    → str_eq c.jti "" ≡ false
    → is_revoked f.check_fails c.jti s.refresh_tokens ≡ true
    → is_ok (refresh svc f now later token id s).1 ≡ false
unfolding refresh check_refresh
revoked_refused svc f now later token id s c on p j r = ground arith

replay_refused :
    (svc : AuthService) (law : IsLawful svc.crypto) (f : TokenFaults) (now later : ℕ)
    (token id : String) (s : AuthStore) (before : ℕ) (c : Claims)
    → svc.has_refresh_tokens ≡ true
    → f.check_fails ≡ false
    → svc.crypto.parse_token before token ≡ some c
    → str_eq c.jti "" ≡ false
    → Spent c.jti c.exp now s.refresh_tokens
    → is_ok (refresh svc f now later token id s).1 ≡ false
unfolding refresh check_refresh is_revoked
replay_refused svc law f now later token id s before c on works p j h =
    elim (Option-cases (svc.crypto.parse_token now token)) [
      | inl e ↦ ground (arith, e)
      | inr (d, e) ↦
          let same : d ≡ c = law.stable before now token c d p e in
          let here : svc.crypto.parse_token now token ≡ some c = e ∙ ap some same in
          elim h [
            | inl late ↦ let l = law.fresh now token c here in ground arith
            | inr (t, r, gone, _) ↦
                revoked_refused svc f now later token id s c on here j (ground (arith, r, gone))
          ]
    ]

-- Where the JWT library keeps its promises and the service keeps refresh tokens, a refresh that
-- succeeds, of a token with an id whose row is kept at least until the token expires, and whose
-- revocation is written, uses the token up: after any registrations, logins, refreshes and purges
-- at times that do not decrease, with whatever faults, a second refresh of it, whose lookup of the
-- revocation does not fail, is refused.
pub refresh_once :
    (svc : AuthService) (law : IsLawful svc.crypto) (f g : TokenFaults) (now later : ℕ)
    (token id : String) (s : AuthStore) (c : Claims) (row : RefreshToken) (calls : List AuthCall)
    (end later' : ℕ) (id' : String)
    → svc.has_refresh_tokens ≡ true
    → f.revoke_fails ≡ false
    → g.check_fails ≡ false
    → svc.crypto.parse_token now token ≡ some c
    → str_eq c.jti "" ≡ false
    → select_one (has_token c.jti) s.refresh_tokens ≡ some row
    → c.exp * second ≤ row.expires_at
    → is_ok (refresh svc f now later token id s).1 ≡ true
    → IsOrdered now calls end
    → is_ok
        (refresh svc g end later' token id'
          (run svc calls (refresh svc f now later token id s).0)).1
      ≡ false
refresh_once svc law f g now later token id s c row calls end later' id' on works up p j r l k m =
    let after = (refresh svc f now later token id s).0 in
    replay_refused svc law g end later' token id' (run svc calls after) now c on up p j (
      run-Spent svc c.jti c.exp now end calls after m
        (refresh_spends svc f now later token id s c row on works p j r l k))
