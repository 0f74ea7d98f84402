-- ===== src/Sync/Delete.antt =====
-- What a batch delete removes, backend/internal/repository/sync_blob_repository.go (BatchDelete).
use anynote.Base.{
  ℕ, ◌+◌, ◌≡◌, refl, ap, sym, ◌∙◌, Bool, false, ◌||◌, List, [], ◌∷◌, String, delete, count, length,
  arith, ok,
}
use anynote.Sync.{SyncBlob, is_item, delete_all, batch_delete}

-- A row that the batch names: the user's, under one of the ids, of whatever type.
abbrev pub is_named : String → List String → SyncBlob → Bool
is_named user [] r = false
is_named user (item ∷ items) r = is_item user item r || is_named user items r

delete-delete :
    (p q : SyncBlob → Bool) (rows : List SyncBlob)
    → delete q (delete p rows) ≡ delete (λ r. p r || q r) rows
delete-delete p q [] = refl
delete-delete p q (r ∷ rows) = ground (arith, delete-delete p q rows)

count-delete :
    (p : SyncBlob → Bool) (rows : List SyncBlob)
    → count p rows + length (delete p rows) ≡ length rows
count-delete p [] = refl
count-delete p (r ∷ rows) = ground (arith, count-delete p rows)

delete-false : (rows : List SyncBlob) → delete (λ r. false) rows ≡ rows
delete-false [] = refl
delete-false (r ∷ rows) = ap (λ xs. r ∷ xs) (delete-false rows)

delete_all_lem :
    (user : String) (items : List String) (rows : List SyncBlob)
    → ((delete_all user items rows).0 ≡ delete (is_named user items) rows)
      × ((delete_all user items rows).1 + length (delete_all user items rows).0 ≡ length rows)
unfolding delete_all
delete_all_lem user [] rows = (sym (delete-false rows), omega arith)
delete_all_lem user (item ∷ items) rows =
    let (same, n) = delete_all_lem user items (delete (is_item user item) rows) in
    (
      same ∙ delete-delete (is_item user item) (is_named user items) rows,
      omega (arith, n, count-delete (is_item user item) rows),
    )

-- A batch delete that names an item and whose queries do not fail removes exactly the user's rows
-- under the ids named, and returns how many rows are gone, also where an id is named twice.
pub batch_delete_lem :
    (user item : String) (items : List String) (rows : List SyncBlob)
    → let (rows', r) = batch_delete false user (item ∷ items) rows in
      (rows' ≡ delete (is_named user (item ∷ items)) rows)
      × (n : ℕ) × (r ≡ ok n)
      × (n + length rows' ≡ length rows)
unfolding batch_delete
batch_delete_lem user item items rows =
    let (same, n) = delete_all_lem user (item ∷ items) rows in
    (same, (delete_all user (item ∷ items) rows).1, refl, n)
