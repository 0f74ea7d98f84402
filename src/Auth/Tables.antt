-- ===== src/Auth/Tables.antt =====
-- The tables of accounts and tokens: backend/internal/repository/user_repository.go,
-- refresh_token_repository.go and device_token_repository.go. `email`, `username` and `id` are unique
-- in users, and `token_id` in refresh_tokens.
use anynote.Base.{
  ℕ, Bool, true, false, ◌&&◌, ◌||◌, not, Option, none, some, List, [], ◌∷◌, ◌++◌, String, str_eq,
  select_one, update, delete, exists, count, ltb, if◌then◌else◌,
}
use anynote.Device.Tokens.{DeviceToken}

-- A row of users; the texts stand for bytes.
pub record Account : Type 0 where
  pub id : String
  pub email : String
  pub username : String
  pub auth_key_hash : String
  pub salt : String
  pub recovery_key : String
  pub recovery_salt : String
  pub encrypted_master_key : String
  pub plan : String

pub record RefreshToken : Type 0 where
  pub user_id : String
  pub token_id : String
  pub expires_at : ℕ
  pub revoked : Bool

pub record AuthStore : Type 0 where
  pub accounts : List Account
  pub refresh_tokens : List RefreshToken
  pub device_tokens : List DeviceToken

-- The queries of one call that fail.
pub record TokenFaults : Type 0 where
  pub email_fails : Bool
  pub username_fails : Bool
  pub create_fails : Bool
  pub find_fails : Bool
  pub check_fails : Bool
  pub revoke_fails : Bool
  pub store_fails : Bool
  pub device_fails : Bool
  pub revoke_all_fails : Bool
  pub delete_fails : Bool

abbrev pub has_email : String → Account → Bool
has_email email u = str_eq u.email email

abbrev pub has_username : String → Account → Bool
has_username username u = str_eq u.username username

abbrev pub has_account_id : String → Account → Bool
has_account_id id u = str_eq u.id id

unfoldable pub get_by_email : Bool → String → List Account → Option Account
get_by_email fails email accounts = if fails then none else select_one (has_email email) accounts

unfoldable pub get_by_username : Bool → String → List Account → Option Account
get_by_username fails username accounts =
    if fails then none else select_one (has_username username) accounts

unfoldable pub get_account : Bool → String → List Account → Option Account
get_account fails id accounts = if fails then none else select_one (has_account_id id) accounts

-- `Create`, with the hashes of bcrypt, and whether the row is inserted.
unfoldable pub create_account :
    (String → Option String)
    → (String → String)
    → Bool
    → Account
    → List Account
    → List Account × Bool
create_account hash hash_recovery fails new accounts = elim (hash new.auth_key_hash) [
  | none ↦ (accounts, false)
  | some hashed_key ↦ elim (hash (hash_recovery new.recovery_key)) [
    | none ↦ (accounts, false)
    | some hashed_recovery ↦
        if fails
          || exists (has_email new.email) accounts
          || exists (has_username new.username) accounts
          || exists (has_account_id new.id) accounts
        then (accounts, false)
        else (
          accounts
              ++ record new { auth_key_hash = hashed_key; recovery_key = hashed_recovery } ∷ [],
          true,
        )
  ]
]

-- DELETE FROM users, and from refresh_tokens by ON DELETE CASCADE
unfoldable pub delete_account_row : String → AuthStore → AuthStore
delete_account_row id s = record s {
  accounts = delete (has_account_id id) s.accounts;
  refresh_tokens = delete (λ t. str_eq t.user_id id) s.refresh_tokens;
}

-- The three salts that are read by user or by email.
unfoldable pub get_recovery_salt : Bool → String → List Account → Option String
unfolding get_account
get_recovery_salt fails id accounts = elim (get_account fails id accounts) [
  | none ↦ none
  | some u ↦ some u.recovery_salt
]

unfoldable pub get_recovery_data_by_email : Bool → String → List Account → Option (String × String)
unfolding get_by_email
get_recovery_data_by_email fails email accounts = elim (get_by_email fails email accounts) [
  | none ↦ none
  | some u ↦ some (u.recovery_salt, u.encrypted_master_key)
]

unfoldable pub get_salt_by_email : Bool → String → List Account → Option String
unfolding get_by_email
get_salt_by_email fails email accounts = elim (get_by_email fails email accounts) [
  | none ↦ none
  | some u ↦ some u.salt
]

abbrev pub has_token : String → RefreshToken → Bool
has_token jti t = str_eq t.token_id jti

-- The INSERT fails where the token's id is taken.
unfoldable pub store_token : Bool → String → String → ℕ → List RefreshToken → List RefreshToken
store_token fails user jti expires_at tokens =
    if fails || exists (has_token jti) tokens
    then tokens
    else tokens
      ++ record { user_id = user; token_id = jti; expires_at = expires_at; revoked = false } ∷ []

abbrev pub revoked : RefreshToken → RefreshToken
revoked t = record t { revoked = true }

unfoldable pub revoke_token : Bool → String → List RefreshToken → List RefreshToken
revoke_token fails jti tokens =
    if fails then tokens else update (λ t. has_token jti t && not t.revoked) revoked tokens

-- Every failure of the query, a missing row included, counts as not revoked.
unfoldable pub is_revoked : Bool → String → List RefreshToken → Bool
is_revoked fails jti tokens =
    if fails
    then false
    else elim (select_one (has_token jti) tokens) [ none ↦ false | some t ↦ t.revoked ]

unfoldable pub revoke_all_for_user : Bool → String → List RefreshToken → List RefreshToken
revoke_all_for_user fails user tokens =
    if fails then tokens else update (λ t. str_eq t.user_id user && not t.revoked) revoked tokens

unfoldable pub purge_expired : ℕ → List RefreshToken → List RefreshToken × ℕ
purge_expired now tokens =
    (delete (λ t. ltb t.expires_at now) tokens, count (λ t. ltb t.expires_at now) tokens)

unfoldable pub delete_device_tokens : Bool → String → List DeviceToken → List DeviceToken
delete_device_tokens fails user tokens =
    if fails then tokens else delete (λ t. str_eq t.user_id user) tokens
