-- ===== src/Device/Tokens.antt =====
-- The push tokens of devices, backend/internal/repository/device_token_repository.go. `token` is unique.
use anynote.Base.{
  ℕ, Bool, false, Option, none, some, List, [], ◌∷◌, ◌++◌, String, str_eq, select, select_one,
  update, delete, exists, order_desc, if◌then◌else◌,
}

pub record DeviceToken : Type 0 where
  pub id : String
  pub user_id : String
  pub token : String
  pub platform : String
  pub created_at : ℕ
  pub updated_at : ℕ

abbrev pub has_token : String → DeviceToken → Bool
has_token token t = str_eq t.token token

abbrev pub is_of : String → DeviceToken → Bool
is_of user t = str_eq t.user_id user

-- ON CONFLICT (token) DO UPDATE; a taken id is an error.
unfoldable pub create_token :
    Bool → ℕ → String → String → String → String → List DeviceToken → Option (List DeviceToken)
create_token fails now id user token platform rows =
    if fails
    then none
    else if exists (has_token token) rows
    then some (
        update (has_token token)
          (λ t. record t { user_id = user; platform = platform; updated_at = now }) rows)
    else if exists (λ t. str_eq t.id id) rows
    then none
    else some (
        rows
        ++ record {
          id = id;
          user_id = user;
          token = token;
          platform = platform;
          created_at = now;
          updated_at = now;
        }
          ∷ [])

unfoldable pub delete_by_token : Bool → String → List DeviceToken → Option (List DeviceToken)
delete_by_token fails token rows = if fails then none else some (delete (has_token token) rows)

-- created_at is a TIMESTAMPTZ, which the driver, pgx, reads in its binary format, and it reads none into a string,
-- as which DeviceTokenEntry declares the field.
abbrev scans_timestamptz_as_text : Bool
scans_timestamptz_as_text = false

-- `Scan` of a row into a DeviceTokenEntry.
unfoldable pub scan : DeviceToken → Option DeviceToken
scan t = if scans_timestamptz_as_text then some t else none

abbrev scan_one : Option DeviceToken → Option DeviceToken
scan_one none = none
scan_one (some t) = scan t

abbrev pub scan_all : List DeviceToken → Option (List DeviceToken)
scan_all [] = some []
scan_all (t ∷ rows) =
    let rest = scan_all rows in
    elim (scan t) [
      | none ↦ none
      | some entry ↦ elim rest [ none ↦ none | some entries ↦ some (entry ∷ entries) ]
    ]

unfoldable pub get_by_token : Bool → String → List DeviceToken → Option DeviceToken
get_by_token fails token rows = if fails then none else scan_one (select_one (has_token token) rows)

-- ORDER BY created_at DESC
unfoldable pub list_by_user : Bool → String → List DeviceToken → Option (List DeviceToken)
list_by_user fails user rows =
    if fails then none else scan_all (order_desc (λ t. t.created_at) (select (is_of user) rows))
