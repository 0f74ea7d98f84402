-- ===== src/Auth/Salts.antt =====
-- The salts that a client asks for before it can log in or recover: GetRecoverySalt, GetRecoverySaltByEmail and
-- GetSaltByEmail of backend/internal/service/auth_service.go, with the fake ones for emails without an account,
-- and the two handlers that choose between them, in backend/internal/handler/auth_handler.go. HMAC-SHA256 of a
-- text under a secret, strings.TrimSpace and the match of the pattern of an email are functions, and a byte
-- string is a text.
use Prim.Native.String.{◌++◌ as append, slice, len}
use anynote.Base.{
  ◌≡◌, Bool, true, false, not, Option, none, some, List, String, str_eq, Result, ok, err, arith,
  ltb, if◌then◌else◌,
}
use anynote.Auth.{AuthError, user_not_found}
use anynote.Auth.Tables.{
  Account, get_account, get_by_email, get_recovery_salt, get_recovery_data_by_email,
  get_salt_by_email,
}

pub record RecoverySaltResponse : Type 0 where
  pub recovery_salt : String
  pub encrypted_master_key : String

-- `GetCurrentUser`
unfoldable pub get_current_user : Bool → String → List Account → Option Account
unfolding get_account
get_current_user fails id accounts = get_account fails id accounts

unfoldable pub recovery_salt_of : Bool → String → List Account → Result AuthError String
unfolding get_recovery_salt
recovery_salt_of fails id accounts = elim (get_recovery_salt fails id accounts) [
  | none ↦ err user_not_found
  | some salt ↦ ok salt
]

unfoldable pub get_recovery_salt_by_email :
    Bool → String → List Account → Result AuthError RecoverySaltResponse
unfolding get_recovery_data_by_email
get_recovery_salt_by_email fails email accounts =
    elim (get_recovery_data_by_email fails email accounts) [
      | none ↦ err user_not_found
      | some row ↦ ok (record { recovery_salt = row.0; encrypted_master_key = row.1 })
    ]

unfoldable pub login_salt_of : Bool → String → List Account → Result AuthError String
unfolding get_salt_by_email
login_salt_of fails email accounts = elim (get_salt_by_email fails email accounts) [
  | none ↦ err user_not_found
  | some salt ↦ ok salt
]

pub record SaltService : Type 0 where
  pub jwt_secret : String
  pub hmac : String → String → String
  pub trim_space : String → String
  pub matches_email : String → Bool

module _ (svc : SaltService) where
  unfoldable pub fake_recovery_salt : String → String
  fake_recovery_salt email = svc.hmac svc.jwt_secret email

  -- The first 72 bytes of three digests.
  unfoldable pub fake_encrypted_master_key : String → String
  fake_encrypted_master_key email =
      let digest : String → String = λ label. svc.hmac svc.jwt_secret (append label email) in
      slice
        (append (digest "enc-master-key:0:")
          (append (digest "enc-master-key:1:") (digest "enc-master-key:2:")))
        0 72

  unfoldable pub fake_salt : String → String
  fake_salt email = svc.hmac svc.jwt_secret (append "login-salt:" email)

  unfoldable pub validate_email : String → Bool
  validate_email text =
      let email = svc.trim_space text in
      if str_eq email ""
      then false
      else if ltb 254 (len email)
      then false
      else svc.matches_email email

  -- `GetSalt` of the handler: none where the answer is 400.
  unfoldable pub get_salt : Bool → String → List Account → Option String
  unfolding login_salt_of fake_salt validate_email
  get_salt fails email accounts =
      if str_eq email ""
      then none
      else if not (validate_email email)
      then none
      else elim (login_salt_of fails email accounts) [
        | err _ ↦ some (fake_salt email)
        | ok salt ↦ some salt
      ]

  -- `GetRecoverySalt` of the handler.
  unfoldable pub recover_salt : Bool → String → List Account → Option RecoverySaltResponse
  unfolding get_recovery_salt_by_email fake_recovery_salt fake_encrypted_master_key validate_email
  recover_salt fails email accounts =
      if str_eq email ""
      then none
      else if not (validate_email email)
      then none
      else elim (get_recovery_salt_by_email fails email accounts) [
        | err _ ↦ some (record {
          recovery_salt = fake_recovery_salt email;
          encrypted_master_key = fake_encrypted_master_key email;
        })
        | ok resp ↦ some resp
      ]

  -- Whether an email is refused does not depend on the accounts, nor on whether the query works.
  get_salt-accounts :
      (fails broken : Bool) (email : String) (accounts accounts' : List Account)
      → get_salt fails email accounts ≡ none
      → get_salt broken email accounts' ≡ none
  unfolding get_salt
  get_salt-accounts fails broken email accounts accounts' e = ground (arith, e)

  -- Where the query fails, an account's email is answered with the salt of an email without an account.
  failed_query-fake :
      (email : String) (accounts : List Account)
      → validate_email email ≡ true
      → str_eq email "" ≡ false
      → get_salt true email accounts ≡ some (fake_salt email)
  unfolding get_salt login_salt_of get_salt_by_email get_by_email
  failed_query-fake email accounts v e = ground (arith, v, e)
