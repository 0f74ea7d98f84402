-- ===== src/Sync/Tables.antt =====
-- sync_blobs under the upserts of backend/internal/repository/sync_blob_repository.go: one row a key,
-- and the rows of other users.
use anynote.Base.{
  ℕ, max, ◌≡◌, refl, ◌≢◌, Bool, true, false, ◌&&◌, Option, none, some, List, [], ◌∷◌, ◌++◌, String,
  eq_iff, eq_refl, select_one, update, exists, arith, ltb, if◌then◌else◌,
}
use anynote.Sync.{SyncBlob, has_key, same_key, overwrite, inserted, upsert_row}

-- The version stored for a key.
abbrev pub version_of_row : Option SyncBlob → Option ℕ
version_of_row none = none
version_of_row (some r) = some r.version

abbrev pub version_of : String → String → String → List SyncBlob → Option ℕ
version_of user ty item rows = version_of_row (select_one (has_key user ty item) rows)

-- What a version does to the one stored before: the greater of the two stays.
abbrev pub raise_to : ℕ → Option ℕ → Option ℕ
raise_to v none = some v
raise_to v (some w) = some (max w v)

abbrev raise_stored : ℕ → Option ℕ → Option ℕ
raise_stored v none = none
raise_stored v (some w) = some (max w v)

-- The parts of a key that a row stands under.
pub has_key-true :
    (user ty item : String) (r : SyncBlob)
    → has_key user ty item r ≡ true
    → (r.user_id ≡ user) × (r.item_type ≡ ty) × (r.item_id ≡ item)
has_key-true user ty item r h =
    ground (arith, eq_iff r.user_id user, eq_iff r.item_type ty, eq_iff r.item_id item)

pub has_key_self : (r : SyncBlob) → has_key r.user_id r.item_type r.item_id r ≡ true
has_key_self r = simp eq_refl

has_key_same :
    (user ty item : String) (b r : SyncBlob)
    → same_key b r ≡ true
    → has_key user ty item r ≡ has_key user ty item b
has_key_same user ty item b r h =
    let (u, t, i) = has_key-true b.user_id b.item_type b.item_id r h in cc

has_key_both :
    (user ty item : String) (b r : SyncBlob)
    → has_key user ty item b ≡ true
    → has_key user ty item r ≡ true
    → same_key b r ≡ true
has_key_both user ty item b r hb hr =
    let (u, t, i) = has_key-true user ty item b hb in
    let (u', t', i') = has_key-true user ty item r hr in cc

version-append :
    (wanted : SyncBlob → Bool) (b : SyncBlob) (rows : List SyncBlob)
    → version_of_row (select_one wanted (rows ++ b ∷ []))
      ≡ (elim (version_of_row (select_one wanted rows)) [
        | some v ↦ some v
        | none ↦ if wanted b then some b.version else none
      ])
version-append wanted b [] = ground arith
version-append wanted b (r ∷ rows) = ground (arith, version-append wanted b rows)

-- An update of the rows under one key, seen from another key: `wanted` picks the rows looked for,
-- `hit` those that the update may write, and `is_hit` says whether these are the same key.
module _ (wanted hit : SyncBlob → Bool) (is_hit : Bool) (v : ℕ) (f : SyncBlob → SyncBlob)
    (same : (r : SyncBlob) → hit r ≡ true → wanted r ≡ is_hit)
    (both : (r : SyncBlob) → is_hit ≡ true → wanted r ≡ true → hit r ≡ true)
    (keeps : (r : SyncBlob) → wanted (f r) ≡ wanted r)
    (sets : (r : SyncBlob) → (f r).version ≡ v) where
  version-update :
      (rows : List SyncBlob)
      → version_of_row (select_one wanted (update (λ r. hit r && ltb r.version v) f rows)) ≡ (
          if is_hit
          then raise_stored v (version_of_row (select_one wanted rows))
          else version_of_row (select_one wanted rows))
  version-update [] = ground arith
  version-update (r ∷ rows) = ground (arith, same r, both r, keeps r, sets r, version-update rows)

  exists-none :
      (rows : List SyncBlob)
      → exists hit rows ≡ false
      → is_hit ≡ true
      → version_of_row (select_one wanted rows) ≡ none
  exists-none [] h e = refl
  exists-none (r ∷ rows) h e = ground (arith, both r e, exists-none rows)

  exists-some :
      (rows : List SyncBlob)
      → exists hit rows ≡ true
      → is_hit ≡ true
      → version_of_row (select_one wanted rows) ≢ none
  exists-some [] h e = cc
  exists-some (r ∷ rows) h e = ground (arith, same r, exists-some rows)

  version-upsert :
      (new : SyncBlob) (rows : List SyncBlob)
      → wanted new ≡ is_hit
      → new.version ≡ v
      → version_of_row (
          select_one wanted (
            if exists hit rows
            then update (λ r. hit r && ltb r.version v) f rows
            else rows ++ new ∷ []))
        ≡ (if is_hit
            then raise_to v (version_of_row (select_one wanted rows))
            else version_of_row (select_one wanted rows))
  version-upsert new rows w e = ground (
    arith,
    version-update rows,
    exists-none rows,
    exists-some rows,
    version-append wanted new rows,
  )

-- After an upsert the version stored for the blob's key is the greater of the one before and the
-- blob's, and every other key is as it was.
pub version_of-upsert_row :
    (now : ℕ) (b : SyncBlob) (user ty item : String) (rows : List SyncBlob)
    → version_of user ty item (upsert_row now b rows).0 ≡ (
        if has_key user ty item b
        then raise_to b.version (version_of user ty item rows)
        else version_of user ty item rows)
unfolding upsert_row
version_of-upsert_row now b user ty item rows =
    version-upsert (has_key user ty item) (same_key b) (has_key user ty item b) b.version
      (overwrite now b) (has_key_same user ty item b) (has_key_both user ty item b) (λ r. refl)
      (λ r. refl) (inserted now b) rows refl refl
