-- ===== src/Sync/Keys.antt =====
-- The key of sync_blobs, UNIQUE (user_id, item_type, item_id), and which upserts affect a row,
-- backend/internal/repository/sync_blob_repository.go.
use mathlib.Core.Bool.{false≢true}
use anynote.Base.{
  exists-ext, exists-snoc, ℕ, ◌≡◌, refl, sym, ◌∙◌, inl, inr, Bool, true, false, ◌&&◌, Option, none,
  some, List, [], ◌∷◌, ◌++◌, select_one, update, exists, arith, ltb, Bool-cases, if◌then◌else◌,
}
use anynote.Sync.{
  SyncBlob, Faults, same_key, is_newer, overwrite, inserted, is_affected, upsert_row, upsert_all,
  batch_upsert,
}
use anynote.Sync.Tables.{version_of, version_of_row, has_key-true, has_key_self}

-- No two rows have one key.
abbrev pub Unique : List SyncBlob → Type 0
Unique [] = Unit
Unique (r ∷ rows) = (exists (same_key r) rows ≡ false) × Unique rows

-- At most one row is hit.
abbrev Once : (SyncBlob → Bool) → List SyncBlob → Type 0
Once hit [] = Unit
Once hit (r ∷ rows) = (hit r ≡ true → exists hit rows ≡ false) × Once hit rows

-- A push is accepted against what is stored when it is newer, or when nothing is stored.
abbrev pub newer : ℕ → Option ℕ → Bool
newer v none = true
newer v (some w) = ltb w v

module _ (hit : SyncBlob → Bool) (v : ℕ) where
  none-newer :
      (rows : List SyncBlob)
      → exists hit rows ≡ false
      → exists (λ r. hit r && ltb r.version v) rows ≡ false
  none-newer [] h = refl
  none-newer (r ∷ rows) h = ground (arith, none-newer rows)

  none-version :
      (rows : List SyncBlob) → exists hit rows ≡ false → version_of_row (select_one hit rows) ≡ none
  none-version [] h = refl
  none-version (r ∷ rows) h = ground (arith, none-version rows)

  affected-newer :
      (rows : List SyncBlob)
      → Once hit rows
      → (if exists hit rows then exists (λ r. hit r && ltb r.version v) rows else true)
        ≡ newer v (version_of_row (select_one hit rows))
  affected-newer [] h = refl
  affected-newer (r ∷ rows) h =
      ground (arith, h.0, none-newer rows, none-version rows, affected-newer rows h.1)

same_key_ext : (b r : SyncBlob) → same_key b r ≡ true → (x : SyncBlob) → same_key b x ≡ same_key r x
same_key_ext b r hit x = let (u, t, i) = has_key-true b.user_id b.item_type b.item_id r hit in cc

same_key_sym : (b r : SyncBlob) → same_key r b ≡ true → same_key b r ≡ true
same_key_sym b r hit = sym (same_key_ext r b hit r) ∙ has_key_self r

Unique-Once : (b : SyncBlob) (rows : List SyncBlob) → Unique rows → Once (same_key b) rows
Unique-Once b [] u = tt
Unique-Once b (r ∷ rows) u = (
  λ hit. exists-ext (same_key b) (same_key r) rows (same_key_ext b r hit) ∙ u.0,
  Unique-Once b rows u.1,
)

-- Where keys are unique, an upsert affects a row exactly when its blob is newer than what is stored.
pub is_affected_lem :
    (b : SyncBlob) (rows : List SyncBlob)
    → Unique rows
    → is_affected b rows ≡ newer b.version (version_of b.user_id b.item_type b.item_id rows)
is_affected_lem b rows u = affected-newer (same_key b) b.version rows (Unique-Once b rows u)

module _ (p : SyncBlob → Bool) where
  exists-overwrite :
      (now : ℕ) (b : SyncBlob) (rows : List SyncBlob)
      → ((r : SyncBlob) → p (overwrite now b r) ≡ p r)
      → exists p (update (is_newer b) (overwrite now b) rows) ≡ exists p rows
  exists-overwrite now b [] h = refl
  exists-overwrite now b (r ∷ rows) h = elim (Bool-cases (is_newer b r)) [
    | inl hit ↦ rw (hit, h r, exists-overwrite now b rows h)
    | inr miss ↦ rw (miss, exists-overwrite now b rows h)
  ]

overwrite-Unique :
    (now : ℕ) (b : SyncBlob) (rows : List SyncBlob)
    → Unique rows
    → Unique (update (is_newer b) (overwrite now b) rows)
overwrite-Unique now b [] u = tt
overwrite-Unique now b (r ∷ rows) u =
    let rest = exists-overwrite (same_key r) now b rows (λ x. refl) in
    elim (Bool-cases (is_newer b r)) [
      | inl hit ↦ rw hit (rest ∙ u.0, overwrite-Unique now b rows u.1)
      | inr miss ↦ rw miss (rest ∙ u.0, overwrite-Unique now b rows u.1)
    ]

not_same : (b r : SyncBlob) → same_key b r ≡ false → same_key r b ≡ false
not_same b r miss = elim (Bool-cases (same_key r b)) [
  | inl hit ↦ absurd (false≢true (sym miss ∙ same_key_sym b r hit))
  | inr e ↦ e
]

exists_none-cons :
    (p : SyncBlob → Bool) (r : SyncBlob) (rows : List SyncBlob)
    → exists p (r ∷ rows) ≡ false
    → (p r ≡ false) × (exists p rows ≡ false)
exists_none-cons p r rows h = ground arith

append-Unique :
    (now : ℕ) (b : SyncBlob) (rows : List SyncBlob)
    → Unique rows
    → exists (same_key b) rows ≡ false
    → Unique (rows ++ inserted now b ∷ [])
append-Unique now b [] u h = (refl, tt)
append-Unique now b (r ∷ rows) u h =
    let (miss, rest) = exists_none-cons (same_key b) r rows h in
    (
      exists-snoc (same_key r) (inserted now b) rows ∙ rw (u.0, not_same b r miss) refl,
      append-Unique now b rows u.1 rest,
    )

-- An upsert keeps the keys unique.
pub upsert_row-Unique :
    (now : ℕ) (b : SyncBlob) (rows : List SyncBlob) → Unique rows → Unique (upsert_row now b rows).0
unfolding upsert_row
upsert_row-Unique now b rows u = elim (Bool-cases (exists (same_key b) rows)) [
  | inl found ↦ rw found (overwrite-Unique now b rows u)
  | inr new ↦ rw new (append-Unique now b rows u new)
]

upsert_all-Unique :
    (f : Faults) (now : ℕ) (bs rows : List SyncBlob)
    → Unique rows
    → Unique (upsert_all f now bs rows).0
unfolding upsert_all
upsert_all-Unique f now [] rows u = u
upsert_all-Unique f now (b ∷ bs) rows u = elim (Bool-cases (f.exec_fails b)) [
  | inl fails ↦ rw fails (upsert_all-Unique f now bs rows u)
  | inr runs ↦
      rw runs
        (upsert_all-Unique f now bs (upsert_row now b rows).0 (upsert_row-Unique now b rows u))
]

-- A batch of upserts keeps one row a key, whatever queries fail.
pub batch_upsert-Unique :
    (f : Faults) (now : ℕ) (blobs rows : List SyncBlob)
    → Unique rows
    → Unique (batch_upsert f now blobs rows).0
unfolding batch_upsert
batch_upsert-Unique f now blobs rows u = elim (Bool-cases f.begin_fails) [
  | inl fails ↦ rw fails u
  | inr begins ↦ elim (Bool-cases f.commit_fails) [
    | inl fails ↦ rw (begins, fails) u
    | inr commits ↦ rw (begins, commits) (upsert_all-Unique f now blobs rows u)
  ]
]
