-- ===== src/Device.antt =====
-- The devices of a user: backend/internal/service/device_service.go and
-- backend/internal/repository/device_repository.go. A user has one row for a device. Whether a query fails
-- is a Boolean argument, and the service passes every call on.
pub mod Tokens
pub mod Push
mod Tests
use anynote.Base.{
  ℕ, ◌+◌, ◌*◌, Bool, true, false, ◌&&◌, ◌||◌, Option, none, some, List, [], ◌∷◌, ◌++◌, String,
  str_eq, select, select_one, update, delete, count, exists, order_desc, ltb, ◌==◌, if◌then◌else◌,
}

pub record Device : Type 0 where
  pub id : String
  pub user_id : String
  pub device_id : String
  pub device_name : String
  pub platform : String
  pub last_seen : ℕ
  pub created_at : ℕ

abbrev pub is_device : String → String → Device → Bool
is_device user device d = str_eq d.user_id user && str_eq d.device_id device

-- ON CONFLICT (user_id, device_id) DO UPDATE; `id` is the id that the database draws.
unfoldable pub register_device :
    Bool → ℕ → String → String → String → String → String → List Device → Option (List Device)
register_device fails now id user device name platform rows =
    if fails
    then none
    else if exists (is_device user device) rows
    then some (
        update (is_device user device)
          (λ d. record d { device_name = name; platform = platform; last_seen = now }) rows)
    else some (
        rows
        ++ record {
          id = id;
          user_id = user;
          device_id = device;
          device_name = name;
          platform = platform;
          last_seen = now;
          created_at = now;
        }
          ∷ [])

-- ORDER BY last_seen DESC
unfoldable pub list_devices : Bool → String → List Device → Option (List Device)
list_devices fails user rows =
    if fails
    then none
    else some (order_desc (λ d. d.last_seen) (select (λ d. str_eq d.user_id user) rows))

unfoldable pub delete_device : Bool → String → String → List Device → Option (List Device)
delete_device fails user device rows =
    if fails || (count (is_device user device) rows == 0)
    then none
    else some (delete (is_device user device) rows)

unfoldable pub update_last_seen : Bool → ℕ → String → String → List Device → Option (List Device)
update_last_seen fails now user device rows =
    if fails
    then none
    else some (update (is_device user device) (λ d. record d { last_seen = now }) rows)

abbrev pub day : ℕ
day = 86_400_000_000_000

-- last_seen < NOW() - the days; the number of rows that are deleted
unfoldable pub clean_stale_devices : Bool → ℕ → ℕ → List Device → Option (List Device × ℕ)
clean_stale_devices fails now days rows =
    let stale = λ (d : Device). ltb (d.last_seen + days * day) now in
    if fails then none else some (delete stale rows, count stale rows)

unfoldable pub delete_by_user : Bool → String → List Device → Option (List Device)
delete_by_user fails user rows =
    if fails then none else some (delete (λ d. str_eq d.user_id user) rows)
