-- ===== src/Sync/Versions.antt =====
-- What a batch of upserts does to the stored versions,
-- backend/internal/repository/sync_blob_repository.go (BatchUpsert).
use anynote.Base.{
  ℕ, ◌≤◌, max, ◌≡◌, refl, ap, ◌∙◌, inl, inr, false, Option, some, List, [], ◌∷◌, String, arith,
  Bool-cases, Option-cases, if◌then◌else◌,
}
use anynote.Sync.{SyncBlob, Faults, has_key, upsert_row, upsert_all, batch_upsert}
use anynote.Sync.Tables.{version_of, raise_to, version_of-upsert_row, has_key_self}

-- The specification of a push for one key: the greatest version wins.
unfoldable pub push_versions : String → String → String → List SyncBlob → Option ℕ → Option ℕ
push_versions user ty item [] v = v
push_versions user ty item (b ∷ bs) v =
    push_versions user ty item bs (if has_key user ty item b then raise_to b.version v else v)

-- A call with no failing query.
pub record IsFaultless (f : Faults) : Type 0 where
  pub begins : f.begin_fails ≡ false
  pub execs : (b : SyncBlob) → f.exec_fails b ≡ false
  pub reads : (b : SyncBlob) → f.version_fails b ≡ false
  pub commits : f.commit_fails ≡ false

module _ (user ty item : String) where
  upsert_all-versions :
      (f : Faults) (now : ℕ) (bs rows : List SyncBlob)
      → IsFaultless f
      → version_of user ty item (upsert_all f now bs rows).0
        ≡ push_versions user ty item bs (version_of user ty item rows)
  unfolding upsert_all push_versions
  upsert_all-versions f now [] rows ok = refl
  upsert_all-versions f now (b ∷ bs) rows ok = rw (ok.execs b) (
      upsert_all-versions f now bs (upsert_row now b rows).0 ok
      ∙ ap (push_versions user ty item bs) (version_of-upsert_row now b user ty item rows))

  -- Without faults a batch leaves each key at the greatest of the version stored before and the
  -- versions pushed under that key, in whatever order and however often they were pushed.
  pub version_of-batch_upsert :
      (f : Faults) (now : ℕ) (blobs rows : List SyncBlob)
      → IsFaultless f
      → version_of user ty item (batch_upsert f now blobs rows).0
        ≡ push_versions user ty item blobs (version_of user ty item rows)
  unfolding batch_upsert
  version_of-batch_upsert f now blobs rows ok =
      rw (ok.begins, ok.commits) (upsert_all-versions f now blobs rows ok)

  raise_to_comm : (a b : ℕ) (v : Option ℕ) → raise_to a (raise_to b v) ≡ raise_to b (raise_to a v)
  raise_to_comm a b v = ground arith

  push_versions-raise_to :
      (bs : List SyncBlob) (a : ℕ) (v : Option ℕ)
      → push_versions user ty item bs (raise_to a v) ≡ raise_to a (push_versions user ty item bs v)
  unfolding push_versions
  push_versions-raise_to [] a v = refl
  push_versions-raise_to (b ∷ bs) a v = elim (Bool-cases (has_key user ty item b)) [
    | inl hit ↦
        rw hit
          (rw (raise_to_comm b.version a v) (push_versions-raise_to bs a (raise_to b.version v)))
    | inr miss ↦ rw miss (push_versions-raise_to bs a v)
  ]

  push_versions_comm :
      (xs ys : List SyncBlob) (v : Option ℕ)
      → push_versions user ty item xs (push_versions user ty item ys v)
        ≡ push_versions user ty item ys (push_versions user ty item xs v)
  unfolding push_versions
  push_versions_comm [] ys v = refl
  push_versions_comm (b ∷ xs) ys v = elim (Bool-cases (has_key user ty item b)) [
    | inl hit ↦ rw hit (
        rw (← push_versions-raise_to ys b.version v)
          (push_versions_comm xs ys (raise_to b.version v)))
    | inr miss ↦ rw miss (push_versions_comm xs ys v)
  ]

  -- Two batches without faults, as from two devices, leave every key at the same version in
  -- whichever order they arrive.
  pub batch_upsert_comm :
      (f g : Faults) (now later : ℕ) (xs ys rows : List SyncBlob)
      → IsFaultless f
      → IsFaultless g
      → version_of user ty item (batch_upsert g later ys (batch_upsert f now xs rows).0).0
        ≡ version_of user ty item (batch_upsert f later xs (batch_upsert g now ys rows).0).0
  batch_upsert_comm f g now later xs ys rows okf okg =
      simp (version_of-batch_upsert f, version_of-batch_upsert g, okf, okg)
        (push_versions_comm ys xs _)

-- The key's version is at least `v`.
abbrev pub AtLeast : String → String → String → ℕ → List SyncBlob → Type 0
AtLeast user ty item v rows = (w : ℕ) × (version_of user ty item rows ≡ some w) × (v ≤ w)

module _ (user ty item : String) (v : ℕ) where
  upsert_row-AtLeast :
      (now : ℕ) (b : SyncBlob) (rows : List SyncBlob)
      → AtLeast user ty item v rows
      → AtLeast user ty item v (upsert_row now b rows).0
  upsert_row-AtLeast now b rows (w, e, l) = elim (Bool-cases (has_key user ty item b)) [
    | inl hit ↦ (
      max w b.version,
      rw (version_of-upsert_row now b user ty item rows, hit, e) refl,
      omega arith,
    )
    | inr miss ↦ (w, rw (version_of-upsert_row now b user ty item rows, miss) e, l)
  ]

  pub upsert_all-AtLeast :
      (f : Faults) (now : ℕ) (bs rows : List SyncBlob)
      → AtLeast user ty item v rows
      → AtLeast user ty item v (upsert_all f now bs rows).0
  unfolding upsert_all
  upsert_all-AtLeast f now [] rows h = h
  upsert_all-AtLeast f now (b ∷ bs) rows h = elim (Bool-cases (f.exec_fails b)) [
    | inl fails ↦ rw fails (upsert_all-AtLeast f now bs rows h)
    | inr runs ↦
        rw runs
          (upsert_all-AtLeast f now bs (upsert_row now b rows).0 (upsert_row-AtLeast now b rows h))
  ]

  -- Whatever queries of a batch fail, no key's stored version goes down or is lost.
  pub batch_upsert-AtLeast :
      (f : Faults) (now : ℕ) (blobs rows : List SyncBlob)
      → AtLeast user ty item v rows
      → AtLeast user ty item v (batch_upsert f now blobs rows).0
  unfolding batch_upsert
  batch_upsert-AtLeast f now blobs rows h = elim (Bool-cases f.begin_fails) [
    | inl fails ↦ rw fails h
    | inr begins ↦ elim (Bool-cases f.commit_fails) [
      | inl fails ↦ rw (begins, fails) h
      | inr commits ↦ rw (begins, commits) (upsert_all-AtLeast f now blobs rows h)
    ]
  ]

-- After its upsert a blob's key has at least the blob's version.
pub upsert_row-reaches :
    (now : ℕ) (b : SyncBlob) (rows : List SyncBlob)
    → AtLeast b.user_id b.item_type b.item_id b.version (upsert_row now b rows).0
upsert_row-reaches now b rows =
    let after =
      rw (has_key_self b) at (version_of-upsert_row now b b.user_id b.item_type b.item_id rows) in
    elim (Option-cases (version_of b.user_id b.item_type b.item_id rows)) [
      | inl new ↦ (b.version, rw (after, new) refl, omega arith)
      | inr (w, e) ↦ (max w b.version, rw (after, e) refl, omega arith)
    ]
