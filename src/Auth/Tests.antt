-- ===== src/Auth/Tests.antt =====
-- A token service whose tokens are their ids, backend/internal/service/auth_service.go.
use anynote.Base.{
  ℕ, ◌*◌, ◌≡◌, refl, true, false, Option, none, some, List, [], ◌∷◌, String, str_eq, eq_refl,
  eq_iff, ok, is_ok, arith, leb, if◌then◌else◌,
}
use anynote.Auth.{
  Claims, Crypto, IsLawful, AuthService, AuthResponse, second, register, login, refresh,
  check_refresh, rotate, respond, generate_auth_response,
}
use anynote.Auth.Tables.{
  Account, RefreshToken, AuthStore, TokenFaults, is_revoked, get_account, get_by_email,
  get_by_username, create_account,
}
use anynote.Auth.Calls.{AuthCall, purging, refreshing, registering, run}
use anynote.Auth.Replay.{refresh_once}
use anynote.Auth.Login.{register_then_login}

abbrev claims : String → Claims
claims token = record {
  user_id = some "id-1";
  email = "alice@example.org";
  plan = "free";
  token_type = "refresh";
  iat = 0;
  exp = 20;
  jti = token;
}

unfoldable parse : ℕ → String → Option Claims
parse now token = if leb now (20 * second) then some (claims token) else none

abbrev plain : Crypto
plain = record {
  parse_token = parse;
  sign = λ c. some c.jti;
  hash = λ p. some p;
  compare_hash = λ h p. str_eq h p;
  hash_recovery = λ p. p;
  parse_uuid = λ t. some t;
}

plain-IsLawful : IsLawful plain
unfolding parse
plain-IsLawful = record {
  signs = λ c. (c.jti, refl);
  fresh = λ now token c h. ground arith;
  stable = λ now now' token c d h k. ground arith;
  matches = λ p h e. (ground (arith, e, eq_refl p, eq_iff h p));
}

abbrev service : AuthService
service = record {
  crypto = plain;
  has_device_tokens = true;
  has_refresh_tokens = true;
  token_expiry = 10 * second;
  refresh_expiry = 20 * second;
}

abbrev no_faults : TokenFaults
no_faults = record {
  email_fails = false;
  username_fails = false;
  create_fails = false;
  find_fails = false;
  check_fails = false;
  revoke_fails = false;
  store_fails = false;
  device_fails = false;
  revoke_all_fails = false;
  delete_fails = false;
}

abbrev alice : Account
alice = record {
  id = "id-1";
  email = "alice@example.org";
  username = "alice";
  auth_key_hash = "key";
  salt = "salt";
  recovery_key = "recovery";
  recovery_salt = "recovery salt";
  encrypted_master_key = "";
  plan = "free";
}

abbrev row : RefreshToken
row = record { user_id = "id-1"; token_id = "t1"; expires_at = 21 * second; revoked = false }

abbrev store : AuthStore
store = record { accounts = alice ∷ []; refresh_tokens = row ∷ []; device_tokens = [] }

abbrev no_store : AuthStore
no_store = record { accounts = []; refresh_tokens = []; device_tokens = [] }

abbrev calls : List AuthCall
calls =
    purging (2 * second)
    ∷ refreshing no_faults (3 * second) (3 * second) "t2" "t3"
    ∷ registering no_faults (3 * second) (3 * second) alice "t4"
    ∷ []

refresh_once_example :
    is_ok
      (refresh service no_faults
        (4 * second)
        (4 * second)
        "t1"
        "t5"
        (run service calls (refresh service no_faults second second "t1" "t2" store).0)).1
    ≡ false
unfolding parse refresh check_refresh is_revoked get_account rotate generate_auth_response
refresh_once_example =
    refresh_once service plain-IsLawful no_faults no_faults second second "t1" "t2" store
      (claims "t1") row calls (4 * second) (4 * second) "t5" refl refl refl refl refl refl
      (omega arith) refl (omega arith, (omega arith, (omega arith, omega arith)))

register_then_login_example :
    (resp : AuthResponse) × ((login service no_faults 8 8 "alice@example.org" "key" "t5"
        (run service calls (register service no_faults 1 1 alice "t1" no_store).0)).1
      ≡ ok resp)
    × (resp.user.id ≡ "id-1")
unfolding register get_by_email get_by_username create_account respond generate_auth_response
register_then_login_example =
    register_then_login service plain-IsLawful no_faults no_faults 1 1 alice "t1" no_store calls 8 8
      "t5" refl refl
