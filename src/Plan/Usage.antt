-- ===== src/Plan/Usage.antt =====
-- What the limits of plans are checked against: the queries GetStorageUsage and GetNoteCount of
-- backend/internal/repository/plan_repository.go over the rows of Sync, and the quota's row.
use anynote.Base.{
  ℕ, ◌+◌, ◌≡◌, Bool, ◌&&◌, Option, none, some, List, [], ◌∷◌, ◌++◌, String, str_eq, ok, err, select,
  count, arith, if◌then◌else◌,
}
use anynote.Plan.{User, PlanData, get_plan}
use anynote.Sync.{SyncBlob, owned}
use anynote.Quota.{UserQuota, get_by_user_id}

sum_sizes : List SyncBlob → ℕ
sum_sizes [] = 0
sum_sizes (r ∷ rows) = r.blob_size + sum_sizes rows

-- COALESCE(SUM(blob_size), 0)
unfoldable pub get_storage_usage : Bool → String → List SyncBlob → Option ℕ
unfolding sum_sizes
get_storage_usage fails user rows =
    if fails then none else some (sum_sizes (select (owned user) rows))

abbrev is_note_of : String → SyncBlob → Bool
is_note_of user r = str_eq r.user_id user && str_eq r.item_type "note"

unfoldable pub get_note_count : Bool → String → List SyncBlob → Option ℕ
get_note_count fails user rows = if fails then none else some (count (is_note_of user) rows)

-- The queries of one call that fail.
pub record UsageFaults : Type 0 where
  pub plan_fails : Bool
  pub quota_fails : Bool
  pub storage_fails : Bool
  pub notes_fails : Bool

-- What the service reads from the four queries.
unfoldable pub plan_data :
    UsageFaults → String → List User → List UserQuota → List SyncBlob → PlanData
unfolding get_plan get_by_user_id get_storage_usage get_note_count
plan_data f user users quotas rows = record {
  plan = get_plan f.plan_fails user users;
  daily_ai_used = elim (get_by_user_id f.quota_fails user quotas) [
    | err _ ↦ none
    | ok q ↦ some q.daily_ai_used
  ];
  storage_usage = get_storage_usage f.storage_fails user rows;
  note_count = get_note_count f.notes_fails user rows;
}

sum_sizes-append :
    (user : String) (rows more : List SyncBlob)
    → sum_sizes (select (owned user) (rows ++ more))
      ≡ sum_sizes (select (owned user) rows) + sum_sizes (select (owned user) more)
unfolding sum_sizes
sum_sizes-append user [] more = ground arith
sum_sizes-append user (r ∷ rows) more = ground (arith, sum_sizes-append user rows more)
