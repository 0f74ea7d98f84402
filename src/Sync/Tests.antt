-- ===== src/Sync/Tests.antt =====
-- Pushes and pulls of a few blobs, backend/internal/service/sync_service.go.
use anynote.Base.{
  ℕ, ◌<◌, ◌≡◌, refl, inr, true, false, none, some, List, [], ◌∷◌, String, map, count, length, All,
}
use anynote.Sync.{
  get_latest_version, has_more_since, since, SyncBlob, Faults, batch_upsert, pull_since,
  pull_since_paginated,
}
use anynote.Sync.Service.{
  SyncPushItem, SyncStore, SyncPullResponse, PullFaults, effective_since, pull, push,
}
use anynote.Sync.Tables.{version_of}
use anynote.Sync.Keys.{Unique}
use anynote.Sync.Versions.{IsFaultless, push_versions, version_of-batch_upsert}
use anynote.Sync.Batch.{spec_accepts, batch_upsert-accepts}
use anynote.Sync.Push.{IsReal, chosen, item_of, decisions, push_reports, push_rollback}
use anynote.Sync.Progress.{pull_advances}

abbrev blob : String → ℕ → SyncBlob
blob item v = record {
  user_id = "alice";
  item_type = "note";
  item_id = item;
  version = v;
  encrypted_data = v;
  blob_size = 10;
  device_id = "phone";
  created_at = 0;
  updated_at = 0;
}

abbrev no_faults : Faults
no_faults = record {
  begin_fails = false;
  exec_fails = λ b. false;
  version_fails = λ b. false;
  commit_fails = false;
}

abbrev no_commit : Faults
no_commit = record no_faults { commit_fails = true }

no_faults-IsFaultless : IsFaultless no_faults
no_faults-IsFaultless = record {
  begins = refl;
  execs = λ b. refl;
  reads = λ b. refl;
  commits = refl;
}

abbrev stored : List SyncBlob
stored = blob "a" 4 ∷ blob "b" 1 ∷ []

abbrev pushed : List SyncBlob
pushed = blob "a" 2 ∷ blob "a" 5 ∷ blob "c" 3 ∷ []

stored-Unique : Unique stored
stored-Unique = (refl, (refl, tt))

version_of-batch_upsert_example :
    version_of "alice" "note" "a" (batch_upsert no_faults 7 pushed stored).0 ≡ some 5
unfolding push_versions
version_of-batch_upsert_example =
    version_of-batch_upsert "alice" "note" "a" no_faults 7 pushed stored no_faults-IsFaultless

batch_upsert-accepts_example :
    map (λ r. r.accepted) (batch_upsert no_faults 7 pushed stored).1 ≡ false ∷ true ∷ true ∷ []
unfolding spec_accepts
batch_upsert-accepts_example =
    batch_upsert-accepts no_faults 7 pushed stored no_faults-IsFaultless stored-Unique

abbrev item : String → ℕ → SyncPushItem
item id v = record {
  item_id = id;
  item_type = "note";
  version = v;
  encrypted_data = v;
  blob_size = 10;
  device_id = "phone";
}

abbrev items : List SyncPushItem
items = item "a" 2 ∷ item "c" 3 ∷ []

abbrev store : SyncStore
store = record { rows = stored; logs = [] }

push_reports_example :
    let (s', response, _) = push true no_faults false "alice" 7 items store in
    (response.accepted
      ≡ map (λ i. i.item_id) (chosen true (decisions "alice" 7 items stored) items))
    × (map item_of response.conflicts
        ≡ map
            (λ i. (i.item_id, i.item_type, i.version))
            (chosen false (decisions "alice" 7 items stored) items))
    × All (IsReal "alice" s'.rows) response.conflicts
push_reports_example =
    push_reports "alice" 7 true no_faults false items store no_faults-IsFaultless stored-Unique

push_rollback_example :
    let (s', response, sent) = push true no_commit false "alice" 7 items store in
    (s'.rows ≡ stored) × (response ≡ record { accepted = []; conflicts = [] }) × (sent ≡ none)
push_rollback_example = push_rollback "alice" 7 true no_commit false items store (inr refl)

-- Two rows of version 2, which a page of two rows parts.
abbrev tied : List SyncBlob
tied = blob "a" 2 ∷ blob "b" 1 ∷ blob "c" 2 ∷ blob "d" 3 ∷ []

abbrev no_pull_faults : PullFaults
no_pull_faults = record { page_fails = false; latest_fails = false; more_fails = false }

abbrev first_page : SyncPullResponse
first_page = record {
  blobs = blob "b" 1 ∷ blob "a" 2 ∷ [];
  latest_version = 3;
  has_more = true;
  next_cursor = 2;
}

pull_advances_example :
    let start = effective_since 0 0 in
    (start < 2)
    × (0 < count (since "alice" 2) tied)
    × (length (pull_since "alice" 2 tied) < length (pull_since "alice" start tied))
unfolding pull pull_since_paginated get_latest_version has_more_since
pull_advances_example = pull_advances no_pull_faults "alice" 0 2 0 tied first_page refl refl
