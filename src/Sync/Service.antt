-- ===== src/Sync/Service.antt =====
-- backend/internal/service/sync_service.go over the tables of Sync.
use anynote.Base.{
  ℕ, ◌+◌, ◌*◌, Bool, false, ◌&&◌, Option, none, some, List, [], ◌∷◌, ◌++◌, String, str_eq, Result,
  ok, err, map, select, count, length, ltb, ◌==◌, if◌then◌else◌,
}
use anynote.Sync.{
  SyncBlob, BatchUpsertResult, Faults, batch_upsert, pull_since_paginated, get_latest_version,
  has_more_since, count_items, max_updated, owned,
}

-- `domain.SyncOperationLog`, less its random id.
pub record SyncOperationLog : Type 0 where
  pub user_id : String
  pub operation_type : String
  pub item_type : String
  pub item_id : String
  pub version : ℕ
  pub created_at : ℕ

pub record SyncConflict : Type 0 where
  pub item_id : String
  pub item_type : String
  pub server_version : ℕ
  pub client_version : ℕ

pub record SyncPushItem : Type 0 where
  pub item_id : String
  pub item_type : String
  pub version : ℕ
  pub encrypted_data : ℕ
  pub blob_size : ℕ
  pub device_id : String

pub record SyncPushResponse : Type 0 where
  pub accepted : List String
  pub conflicts : List SyncConflict

-- The two tables that the service writes.
pub record SyncStore : Type 0 where
  pub rows : List SyncBlob
  pub logs : List SyncOperationLog

unfoldable pub to_blob : String → ℕ → SyncPushItem → SyncBlob
to_blob user now item = record {
  user_id = user;
  item_type = item.item_type;
  item_id = item.item_id;
  version = item.version;
  encrypted_data = item.encrypted_data;
  blob_size = item.blob_size;
  device_id = item.device_id;
  created_at = 0;
  updated_at = now;
}

abbrev push_log : String → ℕ → ℕ → BatchUpsertResult → SyncOperationLog
push_log user now version res = record {
  user_id = user;
  operation_type = "push";
  item_type = res.item_type;
  item_id = res.item_id;
  version = version;
  created_at = now;
}

-- What the loop over the results gathers.
pub record Outcome : Type 0 where
  pub accepted : List String
  pub conflicts : List SyncConflict
  pub op_logs : List SyncOperationLog

abbrev add_result : String → ℕ → BatchUpsertResult → Outcome → Outcome
add_result user now res o =
    if res.error
    then o
    else if res.accepted
    then record o {
      accepted = res.item_id ∷ o.accepted;
      op_logs = push_log user now res.client_version res ∷ o.op_logs;
    }
    else record o {
      conflicts =
          record {
            item_id = res.item_id;
            item_type = res.item_type;
            server_version = res.server_version;
            client_version = res.client_version;
          }
          ∷ o.conflicts;
      op_logs = push_log user now 0 res ∷ o.op_logs;
    }

unfoldable pub collect : String → ℕ → List BatchUpsertResult → Outcome
collect user now [] = record { accepted = []; conflicts = []; op_logs = [] }
collect user now (res ∷ results) = add_result user now res (collect user now results)

-- The notification to the user's devices, with the number of conflicts, where there are any.
abbrev notify : Bool → List SyncConflict → Option ℕ
notify has_push_service conflicts =
    if has_push_service && ltb 0 (length conflicts) then some (length conflicts) else none

-- One statement for each log in one round trip: all of them, or none.
abbrev pub batch_insert_operation_logs :
    Bool → List SyncOperationLog → List SyncOperationLog → List SyncOperationLog
batch_insert_operation_logs fails new logs = if fails then logs else logs ++ new

-- The new store, the response, and the push notification that is sent.
unfoldable pub push :
    Bool
    → Faults
    → Bool
    → String
    → ℕ
    → List SyncPushItem
    → SyncStore
    → SyncStore × SyncPushResponse × Option ℕ
unfolding to_blob collect
push has_push_service f log_fails user now [] s =
    (s, record { accepted = []; conflicts = [] }, none)
push has_push_service f log_fails user now (item ∷ items) s =
    let (rows', results) = batch_upsert f now (map (to_blob user now) (item ∷ items)) s.rows in
    let o = collect user now results in
    (
      record { rows = rows'; logs = batch_insert_operation_logs log_fails o.op_logs s.logs },
      record { accepted = o.accepted; conflicts = o.conflicts },
      notify has_push_service o.conflicts,
    )

pub record SyncPullResponse : Type 0 where
  pub blobs : List SyncBlob
  pub latest_version : ℕ
  pub has_more : Bool
  pub next_cursor : ℕ

-- The queries of a pull that fail.
pub record PullFaults : Type 0 where
  pub page_fails : Bool
  pub latest_fails : Bool
  pub more_fails : Bool

-- `blobs[len(blobs)-1].Version`
unfoldable pub last_version : List SyncBlob → Option ℕ
last_version [] = none
last_version (b ∷ []) = some b.version
last_version (b ∷ c ∷ bs) = last_version (c ∷ bs)

abbrev pub effective_since : ℕ → ℕ → ℕ
effective_since since_version cursor = if ltb 0 cursor then cursor else since_version

unfoldable pub pull :
    PullFaults → String → ℕ → ℕ → ℕ → List SyncBlob → Result (Unit {0}) SyncPullResponse
unfolding last_version
pull f user since_version limit cursor rows =
    if f.page_fails
    then err tt
    else let blobs = pull_since_paginated user (effective_since since_version cursor) limit rows in
      let latest : ℕ = if f.latest_fails then 0 else get_latest_version user rows in
      elim (last_version blobs) [
        | none ↦
            ok
              (record { blobs = blobs; latest_version = latest; has_more = false; next_cursor = 0 })
        | some v ↦ ok (record {
          blobs = blobs;
          latest_version = latest;
          has_more = if f.more_fails then false else has_more_since user v rows;
          next_cursor = v;
        })
      ]

-- operation_type = 'push' AND version = 0: the sentinel for a conflict
abbrev pub is_conflict : String → SyncOperationLog → Bool
is_conflict user l = str_eq l.user_id user && str_eq l.operation_type "push" && (l.version == 0)

unfoldable pub get_conflict_count : String → List SyncOperationLog → ℕ
get_conflict_count user logs = count (is_conflict user) logs

abbrev pub day : ℕ
day = 86_400_000_000_000

abbrev pub is_push : String → ℕ → SyncOperationLog → Bool
is_push user now l =
    str_eq l.user_id user
    && ltb now (l.created_at + day)
    && str_eq l.operation_type "push"
    && ltb 0 l.version

abbrev pub is_pull : String → ℕ → SyncOperationLog → Bool
is_pull user now l =
    str_eq l.user_id user && ltb now (l.created_at + day) && str_eq l.operation_type "pull"

unfoldable pub get_operation_counts : String → ℕ → List SyncOperationLog → ℕ × ℕ
get_operation_counts user now logs = (count (is_push user now) logs, count (is_pull user now) logs)

-- The thresholds 0.1 and 0.01 of the ratio of conflicts to operations, in integers: for counts below
-- 2 ^ 40 the rounding of float64 does not change these comparisons.
unfoldable pub health_status : ℕ → ℕ → String
health_status conflicts total =
    if ltb 0 total
    then (if ltb total (10 * conflicts)
        then "errors"
        else if ltb total (100 * conflicts)
        then "warnings"
        else "ok")
    else "ok"

pub record SyncProgressResponse : Type 0 where
  pub total_items : ℕ
  pub latest_version : ℕ
  pub last_synced_at : ℕ
  pub pending_count : ℕ
  pub conflict_count : ℕ
  pub health_status : String
  pub push_count : ℕ
  pub pull_count : ℕ

-- `GetProgress`, with whether one of its queries fails.
unfoldable pub get_progress : Bool → String → ℕ → SyncStore → Result (Unit {0}) SyncProgressResponse
unfolding health_status get_conflict_count get_operation_counts
get_progress fails user now s =
    if fails
    then err tt
    else let conflicts = get_conflict_count user s.logs in
      let (pushes, pulls) = get_operation_counts user now s.logs in
      ok (record {
        total_items = count_items user s.rows;
        latest_version = get_latest_version user s.rows;
        last_synced_at = max_updated (select (owned user) s.rows);
        pending_count = 0;
        conflict_count = conflicts;
        health_status = health_status conflicts (pushes + pulls);
        push_count = pushes;
        pull_count = pulls;
      })
