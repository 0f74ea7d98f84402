-- ===== src/Notification.antt =====
-- Notifications: backend/internal/service/notification_service.go and
-- backend/internal/repository/notification_repository.go. Whether a query fails is a Boolean argument. The
-- JSON of the preferences is read and written by a pair of functions.
pub mod Laws
mod Tests
use anynote.Base.{
  ℕ, Bool, true, false, ◌&&◌, ◌||◌, not, Option, none, some, List, [], ◌∷◌, ◌++◌, String, str_eq,
  Result, ok, err, select, select_one, update, delete, count, exists, take, drop, order_desc, ◌==◌,
  if◌then◌else◌,
}
use anynote.Base.Int.{ℤ, pos, ltb_ℤ, leb_ℤ, pos_part}

pub record Notification : Type 0 where
  pub id : String
  pub user_id : String
  pub type : String
  pub title : String
  pub body : String
  pub payload : String
  pub is_read : Bool
  pub created_at : ℕ

-- The columns of users that notifications use.
pub record UserPreferences : Type 0 where
  pub user_id : String
  pub preferences : String
  pub updated_at : ℕ

pub record NotificationStore : Type 0 where
  pub rows : List Notification
  pub users : List UserPreferences

pub data NotificationError : Type 0 where
  invalid_type database not_found invalid_preferences : NotificationError

abbrev pub is_of : String → Notification → Bool
is_of user n = str_eq n.user_id user

abbrev pub is_unread : String → Notification → Bool
is_unread user n = is_of user n && not n.is_read

-- id = $1 AND user_id = $2
abbrev pub is_own : String → String → Notification → Bool
is_own id user n = str_eq n.id id && str_eq n.user_id user

abbrev pub as_read : Notification → Notification
as_read n = record n { is_read = true }

-- The INSERT fails where its user does not exist.
abbrev is_user : String → UserPreferences → Bool
is_user user u = str_eq u.user_id user

unfoldable pub create : Bool → Notification → NotificationStore → Option NotificationStore
create fails n s =
    if fails || not (exists (is_user n.user_id) s.users)
    then none
    else some (record s { rows = s.rows ++ n ∷ [] })

-- ORDER BY created_at DESC LIMIT $2 OFFSET $3
unfoldable pub get_by_user : String → ℕ → ℕ → List Notification → List Notification
get_by_user user limit offset rows =
    take limit (drop offset (order_desc (λ n. n.created_at) (select (is_of user) rows)))

unfoldable pub unread_count : String → List Notification → ℕ
unread_count user rows = count (is_unread user) rows

-- `none` is any error, also that no row was changed.
unfoldable pub mark_row_read :
    Bool → String → String → List Notification → Option (List Notification)
mark_row_read fails id user rows =
    if fails || (count (is_own id user) rows == 0)
    then none
    else some (update (is_own id user) as_read rows)

unfoldable pub mark_all_rows_read : Bool → String → List Notification → Option (List Notification)
mark_all_rows_read fails user rows =
    if fails then none else some (update (is_unread user) as_read rows)

unfoldable pub delete_row : Bool → String → String → List Notification → Option (List Notification)
delete_row fails id user rows =
    if fails || (count (is_own id user) rows == 0)
    then none
    else some (delete (is_own id user) rows)

abbrev preferences_of : Option UserPreferences → Option String
preferences_of none = none
preferences_of (some u) = some u.preferences

unfoldable pub get_preferences : Bool → String → List UserPreferences → Option String
get_preferences fails user users =
    if fails then none else preferences_of (select_one (is_user user) users)

unfoldable pub update_preferences :
    Bool → ℕ → String → String → List UserPreferences → Option (List UserPreferences)
update_preferences fails now user prefs users =
    if fails || (count (is_user user) users == 0)
    then none
    else some
        (update (is_user user) (λ u. record u { preferences = prefs; updated_at = now }) users)

unfoldable pub valid_notification_types : List String
valid_notification_types =
    "sync_conflict" ∷ "share_received" ∷ "reminder" ∷ "system" ∷ "payment" ∷ "publish_started"
    ∷ "publish_completed" ∷ "collab_invite" ∷ []

abbrev payload_or_empty : Option String → String
payload_or_empty none = "{}"
payload_or_empty (some payload) = payload

-- `id` is the id that the database draws.
unfoldable pub create_notification :
    Bool
    → ℕ
    → String
    → String
    → String
    → String
    → String
    → Option String
    → NotificationStore
    → NotificationStore × Result NotificationError (Unit {0})
create_notification fails now id user type title body payload s =
    let n : Notification = record {
      id = id;
      user_id = user;
      type = type;
      title = title;
      body = body;
      payload = payload_or_empty payload;
      is_read = false;
      created_at = now;
    } in
    if not (exists (λ t. str_eq t type) valid_notification_types)
    then (s, err invalid_type)
    else elim (create fails n s) [ none ↦ (s, err database) | some s' ↦ (s', ok tt) ]

-- The limit and the offset of a page.
unfoldable pub page_limit : ℤ → ℕ
page_limit limit =
    if leb_ℤ limit (pos 0) then 20 else if ltb_ℤ (pos 100) limit then 100 else pos_part limit

unfoldable pub page_offset : ℤ → ℕ
page_offset offset = pos_part offset

unfoldable pub list_notifications :
    Bool → String → ℤ → ℤ → NotificationStore → Result NotificationError (List Notification)
list_notifications fails user limit offset s =
    if fails
    then err database
    else ok (get_by_user user (page_limit limit) (page_offset offset) s.rows)

unfoldable pub get_unread_count : Bool → String → NotificationStore → Result NotificationError ℕ
get_unread_count fails user s = if fails then err database else ok (unread_count user s.rows)

abbrev with_rows :
    NotificationStore
    → NotificationError
    → Option (List Notification)
    → NotificationStore × Result NotificationError (Unit {0})
with_rows s e none = (s, err e)
with_rows s e (some rows) = (record s { rows = rows }, ok tt)

-- Any error of the repository is that the notification is not found.
unfoldable pub mark_read :
    Bool
    → String
    → String
    → NotificationStore
    → NotificationStore × Result NotificationError (Unit {0})
mark_read fails id user s = with_rows s not_found (mark_row_read fails id user s.rows)

unfoldable pub mark_all_read :
    Bool → String → NotificationStore → NotificationStore × Result NotificationError (Unit {0})
mark_all_read fails user s = with_rows s database (mark_all_rows_read fails user s.rows)

unfoldable pub get_notification_preferences :
    Bool → String → NotificationStore → Result NotificationError String
get_notification_preferences fails user s = elim (get_preferences fails user s.users) [
  | none ↦ err database
  | some prefs ↦ ok prefs
]

-- `json.Unmarshal` into a map of Booleans, as its entries, and `json.Marshal` of such a map.
pub record PreferencesJson : Type 0 where
  pub unmarshal : String → Option (List (String × Bool))
  pub marshal : List (String × Bool) → String

unfoldable pub update_notification_preferences :
    PreferencesJson
    → Bool
    → ℕ
    → String
    → String
    → NotificationStore
    → NotificationStore × Result NotificationError (Unit {0})
update_notification_preferences json fails now user prefs s = elim (json.unmarshal prefs) [
  | none ↦ (s, err invalid_preferences)
  | some parsed ↦ elim (update_preferences fails now user (json.marshal parsed) s.users) [
    | none ↦ (s, err database)
    | some users ↦ (record s { users = users }, ok tt)
  ]
]
