-- ===== src/Sync/Cursor.antt =====
-- What the next page holds, backend/internal/service/sync_service.go (Pull): the cursor is the version
-- of the last row of a page.
use anynote.Base.{
  ℕ, zero, suc, ◌+◌, ◌≤◌, ◌<◌, ◌≡◌, refl, ap, sym, subst, ◌≡⟨◌⟩◌, ◌∎, Bool, some, List, [], ◌∷◌,
  ◌++◌, String, select, count, length, length-append, take, drop, take-append-drop, All, arith, ltb,
  ◌==◌, if◌then◌else◌,
}
use anynote.Sync.{
  SyncBlob, since, insert_by_version, order_by_version, pull_since, pull_since_paginated,
}
use anynote.Sync.Service.{last_version}
use anynote.Sync.Pages.{IsSorted, IsSince, All-take, order-IsSorted, take-IsSorted, pull_since-All}

abbrev beyond : ℕ → SyncBlob → Bool
beyond c r = ltb c r.version

module _ (c : ℕ) where
  select-insert :
      (b : SyncBlob) (rows : List SyncBlob)
      → select (beyond c) (insert_by_version b rows) ≡ (
          if beyond c b
          then insert_by_version b (select (beyond c) rows)
          else select (beyond c) rows)
  unfolding insert_by_version
  select-insert b [] = ground arith
  select-insert b (r ∷ rows) = ground (arith, select-insert b rows)

  select-order :
      (rows : List SyncBlob)
      → select (beyond c) (order_by_version rows) ≡ order_by_version (select (beyond c) rows)
  unfolding order_by_version
  select-order [] = refl
  select-order (r ∷ rows) =
      ground (arith, select-insert r (order_by_version rows), select-order rows)

  select-since :
      (user : String) (v : ℕ) (rows : List SyncBlob)
      → v ≤ c
      → select (since user c) rows ≡ select (beyond c) (select (since user v) rows)
  select-since user v [] l = refl
  select-since user v (r ∷ rows) l = ground (arith, select-since user v rows l)

  select-below :
      (rows : List SyncBlob) → All (λ r. r.version ≤ c) rows → select (beyond c) rows ≡ []
  select-below [] h = refl
  select-below (r ∷ rows) h = ground (arith, select-below rows h.1)

  select-append :
      (xs ys : List SyncBlob)
      → select (beyond c) (xs ++ ys) ≡ select (beyond c) xs ++ select (beyond c) ys
  select-append [] ys = refl
  select-append (r ∷ xs) ys = ground (arith, select-append xs ys)

last-bound :
    (c : ℕ) (rows : List SyncBlob)
    → IsSorted rows
    → last_version rows ≡ some c
    → All (λ r. r.version ≤ c) rows
unfolding last_version
last-bound c [] s h = tt
last-bound c (b ∷ []) s h = (ground arith, tt)
last-bound c (b ∷ r ∷ rows) s h =
    let rest = last-bound c (r ∷ rows) s.1 h in (omega (arith, s.0.0, rest.0), rest)

last-since :
    (user : String) (v c : ℕ) (rows : List SyncBlob)
    → All (IsSince user v) rows
    → last_version rows ≡ some c
    → v ≤ c
unfolding last_version
last-since user v c [] a h = cc
last-since user v c (b ∷ []) a h = ground arith
last-since user v c (b ∷ r ∷ rows) a h = last-since user v c (r ∷ rows) a.1 h

module _ (user : String) (v limit c : ℕ) (rows : List SyncBlob)
    (cursor : last_version (pull_since_paginated user v limit rows) ≡ some c) where
  page-below : All (λ r. r.version ≤ c) (take limit (pull_since user v rows))
  unfolding pull_since_paginated pull_since
  page-below =
      last-bound c (take limit (pull_since user v rows))
        (take-IsSorted limit (pull_since user v rows) (order-IsSorted (select (since user v) rows)))
        cursor

  since-cursor : v ≤ c
  unfolding pull_since_paginated
  since-cursor =
      last-since user v c (take limit (pull_since user v rows))
        (All-take (IsSince user v) limit (pull_since user v rows) (pull_since-All user v rows))
        cursor

  -- A pull from the cursor of a page returns, of the rows that the page left out, those with a
  -- version above the cursor, in their order, and nothing else.
  pub pull_since-cursor :
      pull_since user c rows ≡ select (λ r. ltb c r.version) (drop limit (pull_since user v rows))
  unfolding pull_since
  pull_since-cursor =
      let all = pull_since user v rows in
      pull_since user c rows
      ≡⟨ ap order_by_version (select-since c user v rows since-cursor) ⟩
        order_by_version (select (beyond c) (select (since user v) rows))
      ≡⟨ sym (select-order c (select (since user v) rows)) ⟩ select (beyond c) all
      ≡⟨ ap (select (beyond c)) (sym (take-append-drop limit all)) ⟩
        select (beyond c) (take limit all ++ drop limit all)
      ≡⟨ select-append c (take limit all) (drop limit all) ⟩
        select (beyond c) (take limit all) ++ select (beyond c) (drop limit all)
      ≡⟨ ap (λ xs. xs ++ select (beyond c) (drop limit all))
          (select-below c (take limit all) page-below) ⟩
        select (beyond c) (drop limit all) ∎

select-All :
    (c : ℕ) (rows : List SyncBlob) → All (λ r. c < r.version) rows → select (beyond c) rows ≡ rows
select-All c [] h = refl
select-All c (r ∷ rows) h = ground (arith, select-All c rows h.1)

-- Where no row that a page left out has the version of its last row, the page and a pull from its
-- cursor together are everything newer than the version that the page started from.
pub pages_complete :
    (user : String) (v limit c : ℕ) (rows : List SyncBlob)
    → last_version (pull_since_paginated user v limit rows) ≡ some c
    → All (λ r. c < r.version) (drop limit (pull_since user v rows))
    → pull_since_paginated user v limit rows ++ pull_since user c rows ≡ pull_since user v rows
unfolding pull_since_paginated
pages_complete user v limit c rows cursor beyond_cursor =
    rw (pull_since-cursor user v limit c rows cursor, select-All c _ beyond_cursor)
      (take-append-drop limit (pull_since user v rows))

drop-above :
    (c n : ℕ) (rows : List SyncBlob)
    → IsSorted rows
    → last_version (take n rows) ≡ some c
    → All (λ r. c ≤ r.version) (drop n rows)
unfolding last_version
drop-above c zero rows s h = cc
drop-above c (suc n) [] s h = tt
drop-above c (suc zero) (b ∷ rows) s h =
    subst (λ v. All (λ r. v ≤ r.version) rows) (ground arith) s.0
drop-above c (suc (suc n)) (b ∷ []) s h = tt
drop-above c (suc (suc n)) (b ∷ r ∷ rows) s h = drop-above c (suc n) (r ∷ rows) s.1 h

count-ties :
    (c : ℕ) (rows : List SyncBlob)
    → All (λ r. c ≤ r.version) rows
    → length (select (beyond c) rows) + count (λ r. r.version == c) rows ≡ length rows
count-ties c [] h = refl
count-ties c (r ∷ rows) h = ground (arith, count-ties c rows h.1)

-- The rows that a page left out although they have the version of its last row are lost to a client
-- that goes on from the cursor: the page and a pull from the cursor, with no limit, fall short of
-- everything newer than the version that the page started from by exactly those rows.
pub ties_lost :
    (user : String) (v limit c : ℕ) (rows : List SyncBlob)
    → last_version (pull_since_paginated user v limit rows) ≡ some c
    → length (pull_since_paginated user v limit rows)
        + length (pull_since user c rows)
        + count (λ r. r.version == c) (drop limit (pull_since user v rows))
      ≡ length (pull_since user v rows)
unfolding pull_since_paginated
ties_lost user v limit c rows cursor =
    let all = pull_since user v rows in
    let above =
      drop-above c limit all (unfold pull_since in order-IsSorted (select (since user v) rows))
        cursor in
    omega (
      arith,
      ap length (pull_since-cursor user v limit c rows cursor),
      count-ties c (drop limit all) above,
      length-append {0} (take limit all) (drop limit all),
      ap length (take-append-drop limit all),
    )
