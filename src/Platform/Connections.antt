-- ===== src/Platform/Connections.antt =====
-- The table platform_connections: backend/internal/repository/platform_connection_repository.go and
-- backend/db/migrations/005_platform_connections.up.sql, by which `id` is the primary key and a user has
-- one row for a platform. Each query may fail, which is a Boolean argument.
use anynote.Base.{
  ℕ, Bool, ◌&&◌, ◌||◌, Option, none, some, List, [], ◌∷◌, ◌++◌, String, str_eq, select, select_one,
  update, delete, exists, order_desc, if◌then◌else◌,
}
use anynote.LlmConfig.Crypto.{Bytes}

pub record PlatformConnection : Type 0 where
  pub id : String
  pub user_id : String
  pub platform : String
  pub platform_uid : String
  pub display_name : String
  pub encrypted_auth : Bytes
  pub status : String
  pub last_verified : Option ℕ
  pub created_at : ℕ
  pub updated_at : ℕ

abbrev pub has_id : String → PlatformConnection → Bool
has_id id c = str_eq c.id id

abbrev pub is_connection : String → String → PlatformConnection → Bool
is_connection user platform c = str_eq c.user_id user && str_eq c.platform platform

-- ORDER BY created_at DESC
unfoldable pub list_by_user :
    Bool → String → List PlatformConnection → Option (List PlatformConnection)
list_by_user fails user rows =
    if fails
    then none
    else some (order_desc (λ c. c.created_at) (select (λ c. str_eq c.user_id user) rows))

-- `none` is any error, with pgx.ErrNoRows.
unfoldable pub get_by_platform :
    Bool → String → String → List PlatformConnection → Option PlatformConnection
get_by_platform fails user platform rows =
    if fails then none else select_one (is_connection user platform) rows

-- The INSERT fails where the id or the pair of user and platform is taken. The times are the defaults of
-- the columns.
abbrev pub inserted : ℕ → PlatformConnection → PlatformConnection
inserted now c = record c { last_verified = none; created_at = now; updated_at = now }

unfoldable pub create :
    Bool → ℕ → PlatformConnection → List PlatformConnection → Option (List PlatformConnection)
create fails now c rows =
    if fails || exists (has_id c.id) rows || exists (is_connection c.user_id c.platform) rows
    then none
    else some (rows ++ inserted now c ∷ [])

unfoldable pub delete_by_id :
    Bool → String → List PlatformConnection → Option (List PlatformConnection)
delete_by_id fails id rows = if fails then none else some (delete (has_id id) rows)

-- id = $1 AND user_id = $2
abbrev pub is_own : PlatformConnection → PlatformConnection → Bool
is_own c r = str_eq r.id c.id && str_eq r.user_id c.user_id

abbrev pub overwritten : ℕ → PlatformConnection → PlatformConnection → PlatformConnection
overwritten now c r = record r {
  platform_uid = c.platform_uid;
  display_name = c.display_name;
  encrypted_auth = c.encrypted_auth;
  status = c.status;
  last_verified = some now;
  updated_at = now;
}

unfoldable pub update_connection :
    Bool → ℕ → PlatformConnection → List PlatformConnection → Option (List PlatformConnection)
update_connection fails now c rows =
    if fails then none else some (update (is_own c) (overwritten now c) rows)
