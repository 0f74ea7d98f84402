-- ===== src/Notification/Tests.antt =====
-- Two users' notifications, backend/internal/service/notification_service.go.
use anynote.Base.{◌+◌, ◌≡◌, false, none, [], ◌∷◌, ok, str_eq, count, if◌then◌else◌}
use anynote.Notification.{
  Notification, NotificationStore, get_unread_count, mark_all_read, unread_count,
}
use anynote.Notification.Laws.{Creation, create_all, is_created, unread_since_lem}

abbrev old : Notification
old = record {
  id = "n-1";
  user_id = "alice";
  type = "system";
  title = "welcome";
  body = "";
  payload = "{}";
  is_read = false;
  created_at = 1;
}

abbrev store : NotificationStore
store = record {
  rows = old ∷ [];
  users = record { user_id = "alice"; preferences = "{}"; updated_at = 0 } ∷ [];
}

abbrev shared : Creation
shared = record {
  fails = false;
  now = 10;
  id = "n-2";
  user = "alice";
  type = "share_received";
  title = "note";
  body = "";
  payload = none;
}

unread_since_lem_example :
    get_unread_count false "alice" (create_all (shared ∷ []) (mark_all_read false "alice" store).0)
    ≡ ok (
        (if str_eq "alice" "alice" then 0 else unread_count "alice" store.rows)
        + count (is_created store "alice") (shared ∷ []))
unread_since_lem_example = unread_since_lem "alice" "alice" (shared ∷ []) store
