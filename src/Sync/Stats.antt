-- ===== src/Sync/Stats.antt =====
-- The reports on what is stored: backend/internal/service/sync_service.go (GetStatus, GetStats, ListTags)
-- and the queries under them in backend/internal/repository/sync_blob_repository.go, with the retention
-- of operation logs.
use anynote.Base.{
  order_desc, order_desc-IsDescending, take-IsDescending, IsDescending, take, length, length-take,
  subst, ◌++◌, ◌≤◌, false, ℕ, ◌+◌, ◌*◌, ◌≡◌, refl, Bool, ◌&&◌, Option, none, some, List, [], ◌∷◌,
  String, str_eq, eq_iff, Result, ok, err, select, delete, count, map, lookup, arith, ltb,
  if◌then◌else◌,
}
use anynote.Sync.{SyncBlob, owned, count_items, max_updated, get_latest_version}
use anynote.Sync.Service.{SyncOperationLog, SyncStore, get_conflict_count, day}

pub record SyncStatusSummary : Type 0 where
  pub latest_version : ℕ
  pub total_items : ℕ
  pub last_updated : ℕ

-- `GetStatusSummary`; 0 is the zero time.
unfoldable pub get_status_summary : String → List SyncBlob → SyncStatusSummary
unfolding get_latest_version count_items max_updated
get_status_summary user rows = record {
  latest_version = get_latest_version user rows;
  total_items = count_items user rows;
  last_updated = max_updated (select (owned user) rows);
}

unfoldable pub get_status : Bool → String → SyncStore → Result (Unit {0}) SyncStatusSummary
unfolding get_status_summary
get_status fails user s = if fails then err tt else ok (get_status_summary user s.rows)

-- One more item of a type.
add_item : String → List (String × ℕ) → List (String × ℕ)
add_item ty [] = (ty, 1) ∷ []
add_item ty ((k, n) ∷ m) = if str_eq k ty then (k, n + 1) ∷ m else (k, n) ∷ add_item ty m

-- SELECT item_type, COUNT(*) ... GROUP BY item_type
unfoldable pub get_items_by_type : String → List SyncBlob → List (String × ℕ)
unfolding add_item
get_items_by_type user [] = []
get_items_by_type user (r ∷ rows) =
    let rest = get_items_by_type user rows in
    if owned user r then add_item r.item_type rest else rest

pub record SyncStatsResponse : Type 0 where
  pub total_items : ℕ
  pub items_by_type : List (String × ℕ)
  pub last_synced_at : ℕ
  pub total_conflicts : ℕ

-- `GetStats`, with whether one of its queries fails.
unfoldable pub get_stats : Bool → String → SyncStore → Result (Unit {0}) SyncStatsResponse
unfolding get_status_summary get_items_by_type get_conflict_count
get_stats fails user s =
    if fails
    then err tt
    else let summary = get_status_summary user s.rows in
      ok (record {
        total_items = summary.total_items;
        items_by_type = get_items_by_type user s.rows;
        last_synced_at = summary.last_updated;
        total_conflicts = get_conflict_count user s.logs;
      })

pub record TagListItem : Type 0 where
  pub item_id : String
  pub version : ℕ
  pub blob_size : ℕ
  pub updated_at : ℕ

-- ORDER BY updated_at DESC
unfoldable pub list_tags_by_type : String → String → List SyncBlob → List TagListItem
unfolding order_desc
list_tags_by_type user ty rows =
    map
      (λ r. record {
        item_id = r.item_id;
        version = r.version;
        blob_size = r.blob_size;
        updated_at = r.updated_at;
      })
      (order_desc (λ r. r.updated_at)
        (select (λ r. str_eq r.user_id user && str_eq r.item_type ty) rows))

unfoldable pub list_tags : Bool → String → SyncStore → Result (Unit {0}) (List TagListItem)
unfolding list_tags_by_type
list_tags fails user s = if fails then err tt else ok (list_tags_by_type user "tag" s.rows)

unfoldable pub get_last_updated : Bool → String → List SyncBlob → Result (Unit {0}) ℕ
unfolding max_updated
get_last_updated fails user rows =
    if fails then err tt else ok (max_updated (select (owned user) rows))

-- `InsertOperationLog`, whose new id is free.
unfoldable pub insert_operation_log :
    Bool
    → SyncOperationLog
    → List SyncOperationLog
    → List SyncOperationLog × Result (Unit {0}) (Unit {0})
insert_operation_log fails l logs = if fails then (logs, err tt) else (logs ++ l ∷ [], ok tt)

abbrev pub log_limit : ℕ → ℕ
log_limit n = if ltb n 1 then 50 else if ltb 500 n then 500 else n

unfoldable pub list_operation_logs :
    Bool → String → ℕ → List SyncOperationLog → Result (Unit {0}) (List SyncOperationLog)
unfolding order_desc
list_operation_logs fails user n logs =
    if fails
    then err tt
    else ok (
        take (log_limit n)
          (order_desc (λ l. l.created_at) (select (λ l. str_eq l.user_id user) logs)))

-- Whatever limit a client asks for, a list of operation logs has at most 500, the newest first.
list_operation_logs-le :
    (user : String) (n : ℕ) (logs shown : List SyncOperationLog)
    → list_operation_logs false user n logs ≡ ok shown
    → (length shown ≤ 500) × IsDescending (λ l. l.created_at) shown
unfolding list_operation_logs
list_operation_logs-le user n logs shown e =
    let found = order_desc (λ l. l.created_at) (select (λ l. str_eq l.user_id user) logs) in
    let same : take (log_limit n) found ≡ shown = ground (arith, e) in
    subst (λ r. (length r ≤ 500) × IsDescending (λ l. l.created_at) r) same
      (
        ground (arith, length-take (log_limit n) found),
        take-IsDescending (λ l. l.created_at) (log_limit n) found
            (order_desc-IsDescending (λ l. l.created_at)
              (select (λ l. str_eq l.user_id user) logs)),
      )

-- `created_at < NOW() - retention`
abbrev pub is_old : ℕ → ℕ → SyncOperationLog → Bool
is_old now retention_days l = ltb (l.created_at + retention_days * day) now

unfoldable pub clean_old_operation_logs : ℕ → ℕ → List SyncOperationLog → List SyncOperationLog × ℕ
clean_old_operation_logs now retention_days logs =
    (delete (is_old now retention_days) logs, count (is_old now retention_days) logs)

-- The sum of the counts.
abbrev pub total : List (String × ℕ) → ℕ
total [] = 0
total ((k, n) ∷ m) = n + total m

total-add_item : (ty : String) (m : List (String × ℕ)) → total (add_item ty m) ≡ total m + 1
unfolding add_item
total-add_item ty [] = refl
total-add_item ty ((k, n) ∷ m) = ground (arith, total-add_item ty m)

abbrev or_zero : Option ℕ → ℕ
or_zero none = 0
or_zero (some n) = n

lookup-add_item :
    (ty k : String) (m : List (String × ℕ))
    → or_zero (lookup k (add_item ty m))
      ≡ (if str_eq ty k then or_zero (lookup k m) + 1 else or_zero (lookup k m))
unfolding add_item
lookup-add_item ty k [] = ground arith
lookup-add_item ty k ((j, n) ∷ m) =
    ground (arith, lookup-add_item ty k m, eq_iff j ty, eq_iff j k, eq_iff ty k)

-- How many items of a type the report has.
abbrev pub items_of : String → List (String × ℕ) → ℕ
items_of ty m = or_zero (lookup ty m)

items_by_type-total :
    (user : String) (rows : List SyncBlob)
    → total (get_items_by_type user rows) ≡ count (owned user) rows
unfolding get_items_by_type
items_by_type-total user [] = refl
items_by_type-total user (r ∷ rows) =
    ground (
      arith,
      total-add_item r.item_type (get_items_by_type user rows),
      items_by_type-total user rows,
    )

items_by_type-lookup :
    (user ty : String) (rows : List SyncBlob)
    → items_of ty (get_items_by_type user rows)
      ≡ count (λ r. owned user r && str_eq r.item_type ty) rows
unfolding get_items_by_type
items_by_type-lookup user ty [] = refl
items_by_type-lookup user ty (r ∷ rows) = ground (
  arith,
  lookup-add_item r.item_type ty (get_items_by_type user rows),
  items_by_type-lookup user ty rows,
)

-- Where no query fails, the statistics of a user have, for each type, the number of the user's rows
-- of that type, and these numbers add up to the total of items, which is the number of the user's
-- rows.
pub get_stats_lem :
    (user : String) (s : SyncStore)
    → (stats : SyncStatsResponse) × (get_stats false user s ≡ ok stats)
      × ((ty : String)
          → items_of ty stats.items_by_type
            ≡ count (λ r. owned user r && str_eq r.item_type ty) s.rows)
      × (total stats.items_by_type ≡ stats.total_items)
      × (stats.total_items ≡ count (owned user) s.rows)
unfolding get_stats
get_stats_lem user s = (
  record {
    total_items = count (owned user) s.rows;
    items_by_type = get_items_by_type user s.rows;
    last_synced_at = max_updated (select (owned user) s.rows);
    total_conflicts = get_conflict_count user s.logs;
  },
  refl,
  λ ty. items_by_type-lookup user ty s.rows,
  items_by_type-total user s.rows,
  refl,
)
