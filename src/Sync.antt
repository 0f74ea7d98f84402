-- ===== src/Sync.antt =====
-- Synchronisation of encrypted blobs: backend/internal/repository/sync_blob_repository.go (the tables)
-- and backend/internal/service/sync_service.go (the service, in Sync/Service.antt).
-- A UUID is its text, an encrypted blob a number that stands for its bytes, a version a natural
-- number. The row's own id, which the database draws and nothing compares, is left out.
pub mod Service
pub mod Versions
pub mod Batch
pub mod Push
pub mod Tables
pub mod Keys
pub mod Pages
pub mod Cursor
pub mod Delete
pub mod Stats
pub mod Progress
mod Tests
use anynote.Base.{
  ℕ, ◌+◌, max, Bool, true, false, ◌&&◌, ◌||◌, not, Option, none, some, List, [], ◌∷◌, ◌++◌, String,
  str_eq, Result, ok, err, map, select, select_one, update, delete, count, exists, length, take,
  ltb, leb, ◌==◌, if◌then◌else◌,
}

-- `domain.SyncBlob`: a row of sync_blobs, unique in (user_id, item_type, item_id).
pub record SyncBlob : Type 0 where
  pub user_id : String
  pub item_type : String
  pub item_id : String
  pub version : ℕ
  pub encrypted_data : ℕ
  pub blob_size : ℕ
  pub device_id : String
  pub created_at : ℕ
  pub updated_at : ℕ

-- `domain.BatchUpsertResult`; `error` says whether the item has one.
pub record BatchUpsertResult : Type 0 where
  pub item_id : String
  pub item_type : String
  pub client_version : ℕ
  pub accepted : Bool
  pub server_version : ℕ
  pub error : Bool

abbrev pub has_key : String → String → String → SyncBlob → Bool
has_key user ty item r = str_eq r.user_id user && str_eq r.item_type ty && str_eq r.item_id item

abbrev pub same_key : SyncBlob → SyncBlob → Bool
same_key b r = has_key b.user_id b.item_type b.item_id r

abbrev pub overwrite : ℕ → SyncBlob → SyncBlob → SyncBlob
overwrite now b r = record r {
  version = b.version;
  encrypted_data = b.encrypted_data;
  blob_size = b.blob_size;
  device_id = b.device_id;
  updated_at = now;
}

abbrev pub is_newer : SyncBlob → SyncBlob → Bool
is_newer b r = same_key b r && ltb r.version b.version

abbrev pub inserted : ℕ → SyncBlob → SyncBlob
inserted now b = record b { created_at = now; updated_at = now }

-- INSERT ... ON CONFLICT (user_id, item_type, item_id) DO UPDATE ... WHERE sync_blobs.version < $4
abbrev pub upserted : ℕ → SyncBlob → List SyncBlob → List SyncBlob
upserted now b rows =
    if exists (same_key b) rows
    then update (is_newer b) (overwrite now b) rows
    else rows ++ inserted now b ∷ []

-- Whether that statement affects a row.
abbrev pub is_affected : SyncBlob → List SyncBlob → Bool
is_affected b rows = if exists (same_key b) rows then exists (is_newer b) rows else true

unfoldable pub upsert_row : ℕ → SyncBlob → List SyncBlob → List SyncBlob × Bool
upsert_row now b rows = (upserted now b rows, is_affected b rows)

-- The version that the server has for the blob's key.
unfoldable pub stored_version : SyncBlob → List SyncBlob → Option ℕ
stored_version b rows = elim (select_one (same_key b) rows) [
  | none ↦ none
  | some r ↦ some r.version
]

-- The queries of one call that fail: the transaction's begin and commit, the upsert of an item, and
-- the query for the server's version of an item.
pub record Faults : Type 0 where
  pub begin_fails : Bool
  pub exec_fails : SyncBlob → Bool
  pub version_fails : SyncBlob → Bool
  pub commit_fails : Bool

abbrev result_of : SyncBlob → BatchUpsertResult
result_of b = record {
  item_id = b.item_id;
  item_type = b.item_type;
  client_version = b.version;
  accepted = false;
  server_version = 0;
  error = false;
}

abbrev failed : SyncBlob → BatchUpsertResult
failed b = record (result_of b) { error = true }

-- Phase 1 of `BatchUpsert`: each item with its outcome, and the table in the transaction.
unfoldable pub upsert_all :
    Faults → ℕ → List SyncBlob → List SyncBlob → List SyncBlob × List (SyncBlob × BatchUpsertResult)
unfolding upsert_row
upsert_all f now [] rows = (rows, [])
upsert_all f now (b ∷ bs) rows =
    let (rows', affected) = if f.exec_fails b then (rows, false) else upsert_row now b rows in
    let (rows'', results) = upsert_all f now bs rows' in
    (rows'', (b, record (result_of b) { accepted = affected; error = f.exec_fails b }) ∷ results)

-- Phase 2: the server's version for an item that was refused without an error.
unfoldable pub fetch_version :
    Faults → List SyncBlob → SyncBlob × BatchUpsertResult → BatchUpsertResult
unfolding stored_version
fetch_version f rows (b, r) =
    if r.accepted || r.error
    then r
    else if f.version_fails b
    then record r { server_version = b.version }
    else elim (stored_version b rows) [
      | none ↦ record r { server_version = b.version }
      | some v ↦ record r { server_version = v }
    ]

abbrev commit_failed : BatchUpsertResult → BatchUpsertResult
commit_failed r = record r { error = true }

-- The rows after the call, and the results: a failed commit rolls the transaction back.
unfoldable pub batch_upsert :
    Faults → ℕ → List SyncBlob → List SyncBlob → List SyncBlob × List BatchUpsertResult
unfolding upsert_all fetch_version
batch_upsert f now blobs rows =
    if f.begin_fails
    then (rows, map failed blobs)
    else let (rows', outcomes) = upsert_all f now blobs rows in
      let results = map (fetch_version f rows') outcomes in
      if f.commit_fails then (rows, map commit_failed results) else (rows', results)

-- `Upsert`, with the version that it leaves in the blob.
unfoldable pub upsert :
    Bool → Bool → ℕ → SyncBlob → List SyncBlob → List SyncBlob × Result (Unit {0}) (Bool × ℕ)
unfolding upsert_row stored_version
upsert exec_fails query_fails now b rows =
    if exec_fails
    then (rows, err tt)
    else let (rows', affected) = upsert_row now b rows in
      if affected
      then (rows', ok (true, b.version))
      else if query_fails
      then (rows', ok (false, b.version))
      else (
        rows',
        elim (stored_version b rows') [ none ↦ ok (false, b.version) | some v ↦ ok (false, v) ],
      )

abbrev pub since : String → ℕ → SyncBlob → Bool
since user v r = str_eq r.user_id user && ltb v r.version

-- ORDER BY version ASC; rows of one version stay in the table's order.
unfoldable pub insert_by_version : SyncBlob → List SyncBlob → List SyncBlob
insert_by_version b [] = b ∷ []
insert_by_version b (r ∷ rows) =
    if leb b.version r.version then b ∷ r ∷ rows else r ∷ insert_by_version b rows

unfoldable pub order_by_version : List SyncBlob → List SyncBlob
unfolding insert_by_version
order_by_version [] = []
order_by_version (r ∷ rows) = insert_by_version r (order_by_version rows)

unfoldable pub pull_since : String → ℕ → List SyncBlob → List SyncBlob
unfolding order_by_version
pull_since user v rows = order_by_version (select (since user v) rows)

unfoldable pub pull_since_paginated : String → ℕ → ℕ → List SyncBlob → List SyncBlob
unfolding pull_since
pull_since_paginated user v limit rows = take limit (pull_since user v rows)

unfoldable pub has_more_since : String → ℕ → List SyncBlob → Bool
has_more_since user v rows = exists (since user v) rows

abbrev pub owned : String → SyncBlob → Bool
owned user r = str_eq r.user_id user

-- COALESCE(MAX(version), 0) of the rows
unfoldable pub max_version : List SyncBlob → ℕ
max_version [] = 0
max_version (r ∷ rows) = max r.version (max_version rows)

unfoldable pub max_updated : List SyncBlob → ℕ
max_updated [] = 0
max_updated (r ∷ rows) = max r.updated_at (max_updated rows)

unfoldable pub get_latest_version : String → List SyncBlob → ℕ
unfolding max_version
get_latest_version user rows = max_version (select (owned user) rows)

unfoldable pub count_items : String → List SyncBlob → ℕ
count_items user rows = count (owned user) rows

-- DELETE FROM sync_blobs WHERE user_id = $1 AND item_id = $2, one statement for each id
abbrev pub is_item : String → String → SyncBlob → Bool
is_item user item r = str_eq r.user_id user && str_eq r.item_id item

unfoldable pub delete_all : String → List String → List SyncBlob → List SyncBlob × ℕ
delete_all user [] rows = (rows, 0)
delete_all user (item ∷ items) rows =
    let (rows', n) = delete_all user items (delete (is_item user item) rows) in
    (rows', count (is_item user item) rows + n)

-- Any failing query, of the deletes or of the transaction's, rolls all of them back.
unfoldable pub batch_delete :
    Bool → String → List String → List SyncBlob → List SyncBlob × Result (Unit {0}) ℕ
batch_delete fails user [] rows = (rows, ok 0)
batch_delete fails user (item ∷ items) rows =
    if fails
    then (rows, err tt)
    else let (rows', n) = delete_all user (item ∷ items) rows in (rows', ok n)
