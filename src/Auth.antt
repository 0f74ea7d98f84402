-- ===== src/Auth.antt =====
-- Accounts and tokens: backend/internal/service/auth_service.go over
-- backend/internal/repository/user_repository.go and refresh_token_repository.go (in Auth/Tables.antt).
-- The JWT library, bcrypt and the UUID parser are a record of functions, and a byte string is a text.
-- `later` is the time at which a new refresh token is stored, and `user_id` and `jti` are the random
-- ids that a call draws. A nil store is a Boolean of the service.
pub mod Tables
pub mod Rotation
pub mod Calls
pub mod Spending
pub mod Replay
pub mod Accounts
pub mod Login
pub mod Salts
mod Tests
use anynote.Base.{
  ℕ, ◌+◌, ◌*◌, ◌/◌, ◌≤◌, ◌<◌, ◌≡◌, Bool, true, false, ◌&&◌, ◌||◌, not, Option, none, some, List,
  String, str_eq, Result, ok, err, is_ok, select_one, if◌then◌else◌,
}
use anynote.Auth.Tables.{
  Account, AuthStore, TokenFaults, get_by_email, get_by_username, get_account, create_account,
  delete_account_row, store_token, revoke_token, is_revoked, revoke_all_for_user,
  delete_device_tokens,
}

abbrev pub second : ℕ
second = 1_000_000_000

-- The claims that the service writes and reads; a claim that is no text reads as "".
pub record Claims : Type 0 where
  pub user_id : Option String
  pub email : String
  pub plan : String
  pub token_type : String
  pub iat : ℕ
  pub exp : ℕ
  pub jti : String

-- `jwt.Parse` at a time with the service's secret, `SignedString`, bcrypt and `uuid.Parse`.
pub record Crypto : Type 0 where
  pub parse_token : ℕ → String → Option Claims
  pub sign : Claims → Option String
  pub hash : String → Option String
  pub compare_hash : String → String → Bool
  pub hash_recovery : String → String
  pub parse_uuid : String → Option String

-- What the service relies on: a token parses to the same claims until it expires, and never later;
-- HMAC signing does not fail; and a password matches its own hash.
pub record IsLawful (c : Crypto) : Type 0 where
  pub signs : (claims : Claims) → (token : String) × (c.sign claims ≡ some token)
  pub fresh :
      (now : ℕ) (token : String) (claims : Claims)
      → c.parse_token now token ≡ some claims
      → now ≤ claims.exp * second
  pub stable :
      (now now' : ℕ) (token : String) (claims claims' : Claims)
      → c.parse_token now token ≡ some claims
      → c.parse_token now' token ≡ some claims'
      → claims' ≡ claims
  pub matches :
      (password hashed : String)
      → c.hash password ≡ some hashed
      → c.compare_hash hashed password ≡ true

pub record AuthService : Type 0 where
  pub crypto : Crypto
  pub has_device_tokens : Bool
  pub has_refresh_tokens : Bool
  pub token_expiry : ℕ
  pub refresh_expiry : ℕ

pub data AuthError : Type 0 where
  email_exists username_exists invalid_credentials invalid_token_type user_not_found : AuthError
  token_revoked database signing_failed panicked : AuthError

pub record AuthResponse : Type 0 where
  pub access_token : String
  pub refresh_token : String
  pub expires_at : ℕ
  pub user : Account

abbrev pub claims_of : Account → ℕ → ℕ → String → String → Claims
claims_of user now expiry token_type jti = record {
  user_id = some user.id;
  email = user.email;
  plan = user.plan;
  token_type = token_type;
  iat = now / second;
  exp = (now + expiry) / second;
  jti = jti;
}

module _ (svc : AuthService) (f : TokenFaults) (now later : ℕ) where
  unfoldable pub generate_auth_response : Account → String → Result AuthError AuthResponse
  generate_auth_response user jti =
      elim (svc.crypto.sign (claims_of user now svc.token_expiry "access" "")) [
        | none ↦ err signing_failed
        | some access ↦
            elim (svc.crypto.sign (claims_of user now svc.refresh_expiry "refresh" jti)) [
              | none ↦ err signing_failed
              | some refresh ↦ ok (record {
                access_token = access;
                refresh_token = refresh;
                expires_at = now + svc.token_expiry;
                user = user;
              })
            ]
      ]

  unfoldable pub extract_jti : String → String
  extract_jti token = elim (svc.crypto.parse_token now token) [ none ↦ "" | some c ↦ c.jti ]

  -- The new refresh token is stored; a failure is logged.
  unfoldable pub keep_token : String → AuthResponse → AuthStore → AuthStore
  keep_token user resp s =
      let jti = extract_jti resp.refresh_token in
      if svc.has_refresh_tokens && not (str_eq jti "")
      then record s {
        refresh_tokens =
            store_token f.store_fails user jti (later + svc.refresh_expiry) s.refresh_tokens;
      }
      else s

  unfoldable pub respond : Account → String → AuthStore → AuthStore × Result AuthError AuthResponse
  respond user jti s = elim (generate_auth_response user jti) [
    | err e ↦ (s, err e)
    | ok resp ↦ (keep_token user.id resp s, ok resp)
  ]

  -- `new` is the account with the request's fields, its key hash and recovery key not yet hashed.
  unfoldable pub register : Account → String → AuthStore → AuthStore × Result AuthError AuthResponse
  register new jti s = elim (get_by_email f.email_fails new.email s.accounts) [
    | some _ ↦ (s, err email_exists)
    | none ↦ elim (get_by_username f.username_fails new.username s.accounts) [
      | some _ ↦ (s, err username_exists)
      | none ↦
          let user = record new { plan = "free" } in
          let (accounts', created) =
            create_account svc.crypto.hash svc.crypto.hash_recovery f.create_fails user
              s.accounts in
          if created
          then respond user jti (record s { accounts = accounts' })
          else (s, err database)
    ]
  ]

  unfoldable pub login :
      String → String → String → AuthStore → AuthStore × Result AuthError AuthResponse
  login email key jti s = elim (get_by_email f.email_fails email s.accounts) [
    | none ↦ (s, err invalid_credentials)
    | some user ↦
        if svc.crypto.compare_hash user.auth_key_hash key
        then respond user jti s
        else (s, err invalid_credentials)
  ]

  -- `RefreshToken` up to the user: the claims are checked, and then that the token is not revoked.
  unfoldable pub check_refresh : String → AuthStore → Result AuthError (Claims × Account)
  check_refresh token s = elim (svc.crypto.parse_token now token) [
    | none ↦ err invalid_credentials
    | some c ↦
        if not (str_eq c.token_type "refresh")
        then err invalid_token_type
        else if svc.has_refresh_tokens
            && not (str_eq c.jti "")
            && is_revoked f.check_fails c.jti s.refresh_tokens
        then err token_revoked
        else elim c.user_id [
          | none ↦ err invalid_credentials
          | some text ↦ elim (svc.crypto.parse_uuid text) [
            | none ↦ err panicked
            | some id ↦ elim (get_account f.find_fails id s.accounts) [
              | none ↦ err user_not_found
              | some user ↦ ok (c, user)
            ]
          ]
        ]
  ]

  abbrev pub revoked_store : Claims → AuthStore → AuthStore
  revoked_store c s =
      if svc.has_refresh_tokens && not (str_eq c.jti "")
      then record s { refresh_tokens = revoke_token f.revoke_fails c.jti s.refresh_tokens }
      else s

  -- The rest of `RefreshToken`: the new pair, and the old token revoked.
  unfoldable pub rotate :
      Claims × Account → String → AuthStore → AuthStore × Result AuthError AuthResponse
  rotate (c, user) jti s = elim (generate_auth_response user jti) [
    | err e ↦ (s, err e)
    | ok resp ↦ (keep_token user.id resp (revoked_store c s), ok resp)
  ]

  unfoldable pub refresh : String → String → AuthStore → AuthStore × Result AuthError AuthResponse
  refresh token jti s = elim (check_refresh token s) [
    | err e ↦ (s, err e)
    | ok checked ↦ rotate checked jti s
  ]

  -- The account, with its refresh tokens by the foreign key's cascade.
  unfoldable pub delete_account :
      String → String → AuthStore → AuthStore × Result AuthError (Unit {0})
  delete_account id key s = elim (get_account f.find_fails id s.accounts) [
    | none ↦ (s, err user_not_found)
    | some user ↦
        if not (svc.crypto.compare_hash user.auth_key_hash key)
        then (s, err invalid_credentials)
        else let s₁ =
            if svc.has_device_tokens
            then record s { device_tokens = delete_device_tokens f.device_fails id s.device_tokens }
            else s in
          let s₂ =
            if svc.has_refresh_tokens
            then record s₁ {
              refresh_tokens = revoke_all_for_user f.revoke_all_fails id s₁.refresh_tokens;
            }
            else s₁ in
          if f.delete_fails then (s₂, err database) else (delete_account_row id s₂, ok tt)
  ]
