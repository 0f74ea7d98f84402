-- ===== src/Sync/Pages.antt =====
-- The pages of a pull, backend/internal/repository/sync_blob_repository.go (PullSincePaginated).
use anynote.Base.{
  ℕ, zero, suc, ◌≤◌, ◌<◌, ◌≡◌, refl, ◌∙◌, inl, inr, Bool, true, ◌&&◌, List, [], ◌∷◌, String, str_eq,
  select, count, length, length-take, take, All, arith, leb, Bool-cases,
}
use anynote.Sync.{
  SyncBlob, since, insert_by_version, order_by_version, pull_since, pull_since_paginated,
}

-- Ascending by version.
abbrev pub IsSorted : List SyncBlob → Type 0
IsSorted [] = Unit
IsSorted (b ∷ rows) = All (λ r. b.version ≤ r.version) rows × IsSorted rows

module _ (P : SyncBlob → Type 0) where
  insert-All :
      (b : SyncBlob) (rows : List SyncBlob) → P b → All P rows → All P (insert_by_version b rows)
  unfolding insert_by_version
  insert-All b [] p h = (p, tt)
  insert-All b (r ∷ rows) p h = elim (Bool-cases (leb b.version r.version)) [
    | inl le ↦ rw le (p, h)
    | inr gt ↦ rw gt (h.0, insert-All b rows p h.1)
  ]

  order-All : (rows : List SyncBlob) → All P rows → All P (order_by_version rows)
  unfolding order_by_version
  order-All [] h = tt
  order-All (r ∷ rows) h = insert-All r (order_by_version rows) h.0 (order-All rows h.1)

  pub All-take : (n : ℕ) (rows : List SyncBlob) → All P rows → All P (take n rows)
  All-take zero rows h = tt
  All-take (suc n) [] h = tt
  All-take (suc n) (r ∷ rows) h = (h.0, All-take n rows h.1)

All-le :
    (v w : ℕ) (rows : List SyncBlob)
    → v ≤ w
    → All (λ r. w ≤ r.version) rows
    → All (λ r. v ≤ r.version) rows
All-le v w [] l h = tt
All-le v w (r ∷ rows) l h = (omega arith, All-le v w rows l h.1)

insert-IsSorted :
    (b : SyncBlob) (rows : List SyncBlob) → IsSorted rows → IsSorted (insert_by_version b rows)
unfolding insert_by_version
insert-IsSorted b [] s = (tt, tt)
insert-IsSorted b (r ∷ rows) s = elim (Bool-cases (leb b.version r.version)) [
  | inl le ↦
      rw le
        let l : b.version ≤ r.version = ground arith in
          ((l, All-le b.version r.version rows l s.0), s)
  | inr gt ↦ rw gt (
    insert-All (λ x. r.version ≤ x.version) b rows (ground arith) s.0,
    insert-IsSorted b rows s.1,
  )
]

pub order-IsSorted : (rows : List SyncBlob) → IsSorted (order_by_version rows)
unfolding order_by_version
order-IsSorted [] = tt
order-IsSorted (r ∷ rows) = insert-IsSorted r (order_by_version rows) (order-IsSorted rows)

pub take-IsSorted : (n : ℕ) (rows : List SyncBlob) → IsSorted rows → IsSorted (take n rows)
take-IsSorted zero rows s = tt
take-IsSorted (suc n) [] s = tt
take-IsSorted (suc n) (r ∷ rows) s =
    (All-take (λ x. r.version ≤ x.version) n rows s.0, take-IsSorted n rows s.1)

-- A row that a pull may return: of the user, and newer than the version it starts from.
abbrev pub IsSince : String → ℕ → SyncBlob → Type 0
IsSince user v r = (str_eq r.user_id user ≡ true) × (v < r.version)

select-IsSince :
    (user : String) (v : ℕ) (rows : List SyncBlob)
    → All (IsSince user v) (select (since user v) rows)
select-IsSince user v [] = tt
select-IsSince user v (r ∷ rows) = ground (arith, select-IsSince user v rows)

pub pull_since-All :
    (user : String) (v : ℕ) (rows : List SyncBlob) → All (IsSince user v) (pull_since user v rows)
unfolding pull_since
pull_since-All user v rows =
    order-All (IsSince user v) (select (since user v) rows) (select-IsSince user v rows)

module _ (p : SyncBlob → Bool) where
  count-insert :
      (b : SyncBlob) (rows : List SyncBlob)
      → count p (insert_by_version b rows) ≡ count p (b ∷ rows)
  unfolding insert_by_version
  count-insert b [] = refl
  count-insert b (r ∷ rows) = ground (arith, count-insert b rows)

  count-order : (rows : List SyncBlob) → count p (order_by_version rows) ≡ count p rows
  unfolding order_by_version
  count-order [] = refl
  count-order (r ∷ rows) = ground (arith, count-insert r (order_by_version rows), count-order rows)

  count-select :
      (user : String) (v : ℕ) (rows : List SyncBlob)
      → count p (select (since user v) rows) ≡ count (λ r. since user v r && p r) rows
  count-select user v [] = refl
  count-select user v (r ∷ rows) = ground (arith, count-select user v rows)

  -- A pull without a limit returns each of the user's rows that is newer than the version it starts
  -- from as often as the table has it: for any condition, as many rows meet it.
  pub count-pull_since :
      (user : String) (v : ℕ) (rows : List SyncBlob)
      → count p (pull_since user v rows) ≡ count (λ r. since user v r && p r) rows
  unfolding pull_since
  count-pull_since user v rows = count-order (select (since user v) rows) ∙ count-select user v rows

-- A page holds at most `limit` rows, all of the user and newer than the version it starts from, in
-- ascending order of version.
pub page_lem :
    (user : String) (v limit : ℕ) (rows : List SyncBlob)
    → let page = pull_since_paginated user v limit rows in
      (length page ≤ limit) × All (IsSince user v) page × IsSorted page
unfolding pull_since_paginated
page_lem user v limit rows = (
  omega (arith, length-take limit (pull_since user v rows)),
  All-take (IsSince user v) limit (pull_since user v rows) (pull_since-All user v rows),
  take-IsSorted limit (pull_since user v rows)
      (unfold pull_since in order-IsSorted (select (since user v) rows)),
)
