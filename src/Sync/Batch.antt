-- ===== src/Sync/Batch.antt =====
-- The results of a batch of upserts, backend/internal/repository/sync_blob_repository.go (BatchUpsert).
use anynote.Base.{
  ℕ, ◌≡◌, refl, ap, ap₂, ◌∙◌, ◌⊎◌, inl, inr, Bool, true, false, Option, some, List, [], ◌∷◌, String,
  map, All, arith, Bool-cases, if◌then◌else◌,
}
use anynote.Sync.{
  SyncBlob, BatchUpsertResult, Faults, has_key, upsert_row, upsert_all, fetch_version, batch_upsert,
  result_of, failed, commit_failed,
}
use anynote.Sync.Tables.{version_of, raise_to, version_of-upsert_row}
use anynote.Sync.Keys.{Unique, newer, is_affected_lem, upsert_row-Unique}
use anynote.Sync.Versions.{IsFaultless, AtLeast, upsert_all-AtLeast, upsert_row-reaches}

-- A result that tells the truth about its blob and the rows afterwards: it names the blob, it has no
-- error, the rows have at least the version pushed, and a refused blob is told the version that they
-- have.
pub record IsSound (rows : List SyncBlob) (b : SyncBlob) (r : BatchUpsertResult) : Type 0 where
  pub names_item : r.item_id ≡ b.item_id
  pub names_type : r.item_type ≡ b.item_type
  pub names_version : r.client_version ≡ b.version
  pub no_error : r.error ≡ false
  pub reached : AtLeast b.user_id b.item_type b.item_id b.version rows
  pub told :
      r.accepted ≡ false → version_of b.user_id b.item_type b.item_id rows ≡ some r.server_version

-- A predicate on two lists entry by entry, which must be of one length.
abbrev pub All₂ :
    (SyncBlob → BatchUpsertResult → Type 0) → List SyncBlob → List BatchUpsertResult → Type 0
All₂ P [] [] = Unit
All₂ P (b ∷ bs) (r ∷ rs) = P b r × All₂ P bs rs
All₂ P _ _ = ⊥

fetch_version-IsSound :
    (f : Faults) (rows : List SyncBlob) (b : SyncBlob) (accepted : Bool)
    → IsFaultless f
    → AtLeast b.user_id b.item_type b.item_id b.version rows
    → IsSound rows b
        (fetch_version f rows (b, record (result_of b) { accepted = accepted; error = false }))
unfolding fetch_version
fetch_version-IsSound f rows b true ok reached = record {
  names_item = refl;
  names_type = refl;
  names_version = refl;
  no_error = refl;
  reached = reached;
  told = λ refused. cc;
}
fetch_version-IsSound f rows b false ok (w, e, l) = record {
  names_item = ground (arith, ok.reads b);
  names_type = ground (arith, ok.reads b);
  names_version = ground (arith, ok.reads b);
  no_error = ground (arith, ok.reads b);
  reached = (w, e, l);
  told = λ refused. ground (arith, ok.reads b);
}

abbrev ran : SyncBlob → Bool → BatchUpsertResult
ran b affected = record (result_of b) { accepted = affected; error = false }

upsert_all-cons :
    (f : Faults) (now : ℕ) (b : SyncBlob) (bs rows : List SyncBlob)
    → f.exec_fails b ≡ false
    → upsert_all f now (b ∷ bs) rows ≡ (
        let (rows₁, affected) = upsert_row now b rows in
        let (rows₂, outcomes) = upsert_all f now bs rows₁ in
        (rows₂, (b, ran b affected) ∷ outcomes))
unfolding upsert_all
upsert_all-cons f now b bs rows e = rw e refl

upsert_all-IsSound :
    (f : Faults) (now : ℕ) (bs rows : List SyncBlob)
    → IsFaultless f
    → All₂
        (IsSound (upsert_all f now bs rows).0)
        bs
        (map (fetch_version f (upsert_all f now bs rows).0) (upsert_all f now bs rows).1)
upsert_all-IsSound f now [] rows ok = unfold upsert_all in tt
upsert_all-IsSound f now (b ∷ bs) rows ok =
    let rows₁ = (upsert_row now b rows).0 in
    let reached =
      upsert_all-AtLeast b.user_id b.item_type b.item_id b.version f now bs rows₁
        (upsert_row-reaches now b rows) in
    rw (upsert_all-cons f now b bs rows (ok.execs b)) (
      fetch_version-IsSound f (upsert_all f now bs rows₁).0 b (upsert_row now b rows).1 ok reached,
      upsert_all-IsSound f now bs rows₁ ok,
    )

-- Without faults a batch returns one result for each blob, in order. Each names its blob, has no
-- error, and the rows afterwards have at least the blob's version under its key; a blob that is
-- refused is told the version that they have.
pub batch_upsert-IsSound :
    (f : Faults) (now : ℕ) (blobs rows : List SyncBlob)
    → IsFaultless f
    → let (rows', results) = batch_upsert f now blobs rows in All₂ (IsSound rows') blobs results
unfolding batch_upsert
batch_upsert-IsSound f now blobs rows ok =
    rw (ok.begins, ok.commits) (upsert_all-IsSound f now blobs rows ok)

accepted-fetch_version :
    (f : Faults) (rows : List SyncBlob) (o : SyncBlob × BatchUpsertResult)
    → (fetch_version f rows o).accepted ≡ o.1.accepted
unfolding fetch_version
accepted-fetch_version f rows (b, r) = ground arith

-- A store of versions by key.
abbrev pub VersionMap : Type 0
VersionMap = String → String → String → Option ℕ

-- The specification of a batch over such a store: each blob in turn is accepted when it is newer
-- than what is stored, and then the greater version is stored.
unfoldable pub spec_accepts : List SyncBlob → VersionMap → List Bool
spec_accepts [] m = []
spec_accepts (b ∷ bs) m =
    newer b.version (m b.user_id b.item_type b.item_id)
    ∷ spec_accepts bs (λ user ty item.
      if has_key user ty item b then raise_to b.version (m user ty item) else m user ty item)

affected-newer :
    (now : ℕ) (b : SyncBlob) (rows : List SyncBlob)
    → Unique rows
    → (upsert_row now b rows).1 ≡ newer b.version (version_of b.user_id b.item_type b.item_id rows)
unfolding upsert_row
affected-newer now b rows u = is_affected_lem b rows u

version_map-upsert :
    (now : ℕ) (b : SyncBlob) (rows : List SyncBlob)
    → ◌≡◌ {A = VersionMap}
        (λ user ty item. version_of user ty item (upsert_row now b rows).0)
        (λ user ty item.
          if has_key user ty item b
          then raise_to b.version (version_of user ty item rows)
          else version_of user ty item rows)
version_map-upsert now b rows = λ i user ty item. version_of-upsert_row now b user ty item rows i

upsert_all-accepts :
    (f : Faults) (now : ℕ) (bs rows all : List SyncBlob)
    → IsFaultless f
    → Unique rows
    → map (λ r. r.accepted) (map (fetch_version f all) (upsert_all f now bs rows).1)
      ≡ spec_accepts bs (λ user ty item. version_of user ty item rows)
unfolding spec_accepts
upsert_all-accepts f now [] rows all ok u = unfold upsert_all in refl
upsert_all-accepts f now (b ∷ bs) rows all ok u =
    let rows₁ = (upsert_row now b rows).0 in
    let rest = upsert_all-accepts f now bs rows₁ all ok (upsert_row-Unique now b rows u) in
    rw (upsert_all-cons f now b bs rows (ok.execs b)) (
      ap₂ ◌∷◌
        (accepted-fetch_version f all (b, ran b (upsert_row now b rows).1)
          ∙ affected-newer now b rows u)
        (rest ∙ ap (spec_accepts bs) (version_map-upsert now b rows)))

-- Without faults, and where keys are unique, a batch accepts exactly the blobs that the
-- specification accepts over the stored versions, each judged after the blobs before it.
pub batch_upsert-accepts :
    (f : Faults) (now : ℕ) (blobs rows : List SyncBlob)
    → IsFaultless f
    → Unique rows
    → map (λ r. r.accepted) (batch_upsert f now blobs rows).1
      ≡ spec_accepts blobs (λ user ty item. version_of user ty item rows)
unfolding batch_upsert
batch_upsert-accepts f now blobs rows ok u =
    rw (ok.begins, ok.commits)
      (upsert_all-accepts f now blobs rows (upsert_all f now blobs rows).0 ok u)

All-map-failed : (blobs : List SyncBlob) → All (λ r. r.error ≡ true) (map failed blobs)
All-map-failed [] = tt
All-map-failed (b ∷ bs) = (refl, All-map-failed bs)

All-map-commit_failed :
    (results : List BatchUpsertResult) → All (λ r. r.error ≡ true) (map commit_failed results)
All-map-commit_failed [] = tt
All-map-commit_failed (r ∷ rs) = (refl, All-map-commit_failed rs)

-- A batch whose transaction does not begin or does not commit changes no row, and every result has
-- an error.
pub batch_upsert_rollback :
    (f : Faults) (now : ℕ) (blobs rows : List SyncBlob)
    → (f.begin_fails ≡ true) ⊎ (f.commit_fails ≡ true)
    → ((batch_upsert f now blobs rows).0 ≡ rows)
      × All (λ r. r.error ≡ true) (batch_upsert f now blobs rows).1
unfolding batch_upsert
batch_upsert_rollback f now blobs rows h = elim (Bool-cases f.begin_fails) [
  | inl fails ↦ rw fails (refl, All-map-failed blobs)
  | inr begins ↦ elim h [
    | inl fails ↦ cc
    | inr fails ↦ rw (begins, fails) (refl, All-map-commit_failed _)
  ]
]
