-- ===== src/Sync/Progress.antt =====
-- A client that pulls page after page, backend/internal/service/sync_service.go (Pull).
use anynote.Base.{
  inl, inr, ℕ, ◌<◌, ◌≡◌, Bool, true, some, List, [], ◌∷◌, String, ok, All, take, length, exists,
  count, arith, Option-cases,
}
use anynote.Sync.{SyncBlob, since, pull_since, pull_since_paginated, has_more_since}
use anynote.Sync.Service.{SyncPullResponse, PullFaults, last_version, effective_since, pull}
use anynote.Sync.Cursor.{ties_lost}
use anynote.Sync.Pages.{IsSince, All-take, pull_since-All}

last-above :
    (user : String) (v c : ℕ) (rows : List SyncBlob)
    → All (IsSince user v) rows
    → last_version rows ≡ some c
    → v < c
unfolding last_version
last-above user v c [] a h = cc
last-above user v c (b ∷ []) a h = ground arith
last-above user v c (b ∷ r ∷ rows) a h = last-above user v c (r ∷ rows) a.1 h

page-above :
    (user : String) (v limit c : ℕ) (rows : List SyncBlob)
    → last_version (pull_since_paginated user v limit rows) ≡ some c
    → v < c
unfolding pull_since_paginated
page-above user v limit c rows h =
    last-above user v c (take limit (pull_since user v rows))
      (All-take (IsSince user v) limit (pull_since user v rows) (pull_since-All user v rows)) h

exists-count :
    (p : SyncBlob → Bool) (rows : List SyncBlob) → exists p rows ≡ true → 0 < count p rows
exists-count p [] h = cc
exists-count p (r ∷ rows) h = ground (arith, exists-count p rows)

last-length : (c : ℕ) (rows : List SyncBlob) → last_version rows ≡ some c → 0 < length rows
unfolding last_version
last-length c [] h = cc
last-length c (b ∷ rows) h = omega arith

-- Whatever queries of a pull fail: where it answers that there is more, its cursor is above the
-- version or the cursor that it started from, a row of the user is newer than its cursor, and fewer
-- rows are left for a pull from its cursor than there were for this one.
pub pull_advances :
    (f : PullFaults) (user : String) (since_version limit cursor : ℕ) (rows : List SyncBlob)
    (response : SyncPullResponse)
    → pull f user since_version limit cursor rows ≡ ok response
    → response.has_more ≡ true
    → let start = effective_since since_version cursor in
      (start < response.next_cursor)
      × (0 < count (since user response.next_cursor) rows)
      × (length (pull_since user response.next_cursor rows) < length (pull_since user start rows))
unfolding pull has_more_since
pull_advances f user since_version limit cursor rows response h more =
    let start = effective_since since_version cursor in
    elim (Option-cases (last_version (pull_since_paginated user start limit rows))) [
      | inl empty ↦ ground (arith, empty)
      | inr (c, e) ↦ ground (
        arith,
        e,
        page-above user start limit c rows e,
        exists-count (since user c) rows,
        ties_lost user start limit c rows e,
        last-length c (pull_since_paginated user start limit rows) e,
      )
    ]
