-- ===== src/Sync/Push.antt =====
-- What a push returns and logs, backend/internal/service/sync_service.go (Push).
use anynote.Base.{
  ℕ, ◌≤◌, ◌≡◌, refl, ap, sym, ◌∙◌, ◌⊎◌, inl, inr, Bool, true, false, none, some, List, [], ◌∷◌,
  String, map, All, arith, Bool-cases, if◌then◌else◌,
}
use anynote.Sync.{SyncBlob, BatchUpsertResult, Faults, batch_upsert}
use anynote.Sync.Tables.{version_of}
use anynote.Sync.Versions.{IsFaultless}
use anynote.Sync.Keys.{Unique}
use anynote.Sync.Batch.{
  IsSound, All₂, spec_accepts, batch_upsert-IsSound, batch_upsert-accepts, batch_upsert_rollback,
}
use anynote.Sync.Service.{SyncPushItem, SyncConflict, SyncStore, to_blob, collect, push}

-- A conflict tells the version that the server has, which is at least the client's.
abbrev pub IsReal : String → List SyncBlob → SyncConflict → Type 0
IsReal user rows c =
    (version_of user c.item_type c.item_id rows ≡ some c.server_version)
    × (c.client_version ≤ c.server_version)

le_some : {v w x : ℕ} → some w ≡ some x → v ≤ w → v ≤ x
le_some e l = ground arith

-- The items on which the decision is the given one.
abbrev pub chosen : Bool → List Bool → List SyncPushItem → List SyncPushItem
chosen which [] items = []
chosen which (d ∷ ds) [] = []
chosen true (d ∷ ds) (i ∷ items) = if d then i ∷ chosen true ds items else chosen true ds items
chosen false (d ∷ ds) (i ∷ items) = if d then chosen false ds items else i ∷ chosen false ds items

abbrev pub item_of : SyncConflict → String × String × ℕ
item_of c = (c.item_id, c.item_type, c.client_version)

module _ (user : String) (now : ℕ) where
  conflict-IsReal :
      (rows : List SyncBlob) (b : SyncBlob) (r : BatchUpsertResult)
      → b.user_id ≡ user
      → IsSound rows b r
      → r.accepted ≡ false
      → (version_of user r.item_type r.item_id rows ≡ some r.server_version)
        × (r.client_version ≤ r.server_version)
  conflict-IsReal rows b r e h refused =
      let (w, at, l) = h.reached in
      let told = h.told refused in
      (rw (h.names_item, h.names_type, ← e) told, rw h.names_version (le_some (sym at ∙ told) l))

  collect_conflicts :
      (rows : List SyncBlob) (blobs : List SyncBlob) (results : List BatchUpsertResult)
      → All (λ b. b.user_id ≡ user) blobs
      → All₂ (IsSound rows) blobs results
      → All (IsReal user rows) (collect user now results).conflicts
  unfolding collect
  collect_conflicts rows [] [] own h = tt
  collect_conflicts rows [] (r ∷ rs) own h = absurd h
  collect_conflicts rows (b ∷ bs) [] own h = absurd h
  collect_conflicts rows (b ∷ bs) (r ∷ rs) own h =
      let rest = collect_conflicts rows bs rs own.1 h.1 in
      elim (Bool-cases r.accepted) [
        | inl accepted ↦ rw (h.0.no_error, accepted) rest
        | inr refused ↦
            rw (h.0.no_error, refused) (conflict-IsReal rows b r own.0 h.0 refused, rest)
      ]

  blobs_own :
      (items : List SyncPushItem) → All (λ b. b.user_id ≡ user) (map (to_blob user now) items)
  unfolding to_blob
  blobs_own [] = tt
  blobs_own (i ∷ is) = (refl, blobs_own is)

  collect_accepted :
      (rows : List SyncBlob) (items : List SyncPushItem) (results : List BatchUpsertResult)
      → All₂ (IsSound rows) (map (to_blob user now) items) results
      → (collect user now results).accepted
        ≡ map (λ i. i.item_id) (chosen true (map (λ r. r.accepted) results) items)
  unfolding collect to_blob
  collect_accepted rows [] [] h = refl
  collect_accepted rows [] (r ∷ rs) h = absurd h
  collect_accepted rows (i ∷ is) [] h = absurd h
  collect_accepted rows (i ∷ is) (r ∷ rs) h =
      ground (arith, h.0.no_error, h.0.names_item, collect_accepted rows is rs h.1)

  collect_refused :
      (rows : List SyncBlob) (items : List SyncPushItem) (results : List BatchUpsertResult)
      → All₂ (IsSound rows) (map (to_blob user now) items) results
      → map item_of (collect user now results).conflicts
        ≡ map
            (λ i. (i.item_id, i.item_type, i.version))
            (chosen false (map (λ r. r.accepted) results) items)
  unfolding collect to_blob
  collect_refused rows [] [] h = refl
  collect_refused rows [] (r ∷ rs) h = absurd h
  collect_refused rows (i ∷ is) [] h = absurd h
  collect_refused rows (i ∷ is) (r ∷ rs) h = ground (
    arith,
    h.0.no_error,
    h.0.names_item,
    h.0.names_type,
    h.0.names_version,
    collect_refused rows is rs h.1,
  )

  -- What the specification of a batch decides on each of the items.
  abbrev pub decisions : List SyncPushItem → List SyncBlob → List Bool
  decisions items rows =
      spec_accepts (map (to_blob user now) items) (λ user ty item. version_of user ty item rows)

  -- Without faults, and where keys are unique, a push reports the ids of exactly the items that the
  -- specification of a batch accepts, in the order of the request, and as conflicts exactly the other
  -- items, in that order and with their ids, types and versions; and every conflict tells the
  -- version that the rows have afterwards, which is at least the client's.
  pub push_reports :
      (has_push_service : Bool) (f : Faults) (log_fails : Bool) (items : List SyncPushItem)
      (s : SyncStore)
      → IsFaultless f
      → Unique s.rows
      → let (s', response, _) = push has_push_service f log_fails user now items s in
        (response.accepted ≡ map (λ i. i.item_id) (chosen true (decisions items s.rows) items))
        × (map item_of response.conflicts
            ≡ map
                (λ i. (i.item_id, i.item_type, i.version))
                (chosen false (decisions items s.rows) items))
        × All (IsReal user s'.rows) response.conflicts
  unfolding push spec_accepts
  push_reports p f l [] s ok u = (refl, refl, tt)
  push_reports p f l (i ∷ is) s ok u =
      let blobs = map (to_blob user now) (i ∷ is) in
      let sound = batch_upsert-IsSound f now blobs s.rows ok in
      let rows' = (batch_upsert f now blobs s.rows).0 in
      let results = (batch_upsert f now blobs s.rows).1 in
      let decided = batch_upsert-accepts f now blobs s.rows ok u in
      (
        collect_accepted rows' (i ∷ is) results sound
            ∙ ap (λ ds. map (λ i. i.item_id) (chosen true ds (i ∷ is))) decided,
        collect_refused rows' (i ∷ is) results sound
            ∙ ap (λ ds. map (λ i. (i.item_id, i.item_type, i.version)) (chosen false ds (i ∷ is)))
                decided,
        collect_conflicts rows' blobs results (blobs_own (i ∷ is)) sound,
      )

  collect_errors :
      (results : List BatchUpsertResult)
      → All (λ r. r.error ≡ true) results
      → collect user now results ≡ record { accepted = []; conflicts = []; op_logs = [] }
  unfolding collect
  collect_errors [] h = refl
  collect_errors (r ∷ rs) h = rw h.0 (collect_errors rs h.1)

  -- A push whose transaction does not begin or does not commit changes no row, reports no item as
  -- accepted and none as a conflict, and sends no notification: the response is that of an empty
  -- push.
  pub push_rollback :
      (has_push_service : Bool) (f : Faults) (log_fails : Bool) (items : List SyncPushItem)
      (s : SyncStore)
      → (f.begin_fails ≡ true) ⊎ (f.commit_fails ≡ true)
      → let (s', response, sent) = push has_push_service f log_fails user now items s in
        (s'.rows ≡ s.rows) × (response ≡ record { accepted = []; conflicts = [] }) × (sent ≡ none)
  unfolding push
  push_rollback p f l [] s h = (refl, refl, refl)
  push_rollback p f l (i ∷ is) s h =
      let blobs = map (to_blob user now) (i ∷ is) in
      let (same, errors) = batch_upsert_rollback f now blobs s.rows h in
      let none_left = collect_errors (batch_upsert f now blobs s.rows).1 errors in
      (same, rw none_left refl, rw none_left (ground arith))
