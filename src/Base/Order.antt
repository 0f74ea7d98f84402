-- ===== src/Base/Order.antt =====
-- ORDER BY key, DESC or ASC, on a table: rows of one key stay in the table's order. With LIMIT and OFFSET as
-- `take` and `drop`.
use Prim.Native.Nat.{ℕ, zero, suc, ◌≤◌}
use mathlib.Core.Path.{◌≡◌, refl}
use mathlib.Core.Logic.{inl, inr}
use mathlib.Core.List.{List, [], ◌∷◌}
use native.Mathlib.Omega.{arith}
use anynote.Base.Tests.{leb, if◌then◌else◌, Bool-cases}
use mathlib.Core.Bool.{Bool, true}
use anynote.Base.Tables.{exists}
use anynote.Base.Lists.{All, take, drop, length}

module _ {ℓ} {A : Type ℓ} where
  unfoldable pub insert_desc : (A → ℕ) → A → List A → List A
  insert_desc key a [] = a ∷ []
  insert_desc key a (b ∷ rows) =
      if leb (key b) (key a) then a ∷ b ∷ rows else b ∷ insert_desc key a rows

  unfoldable pub order_desc : (A → ℕ) → List A → List A
  unfolding insert_desc
  order_desc key [] = []
  order_desc key (a ∷ rows) = insert_desc key a (order_desc key rows)

  exists-insert_desc :
      (p : A → Bool) (key : A → ℕ) (a : A) (rows : List A)
      → exists p (insert_desc key a rows) ≡ (if p a then true else exists p rows)
  unfolding insert_desc
  exists-insert_desc p key a [] = refl
  exists-insert_desc p key a (b ∷ rows) = ground (arith, exists-insert_desc p key a rows)

  pub exists-order_desc :
      (p : A → Bool) (key : A → ℕ) (rows : List A) → exists p (order_desc key rows) ≡ exists p rows
  unfolding order_desc
  exists-order_desc p key [] = refl
  exists-order_desc p key (a ∷ rows) =
      ground (arith, exists-insert_desc p key a (order_desc key rows), exists-order_desc p key rows)

  -- No row has a greater key than a row before it.
  abbrev pub IsDescending : (A → ℕ) → List A → Type 0
  IsDescending key [] = Unit
  IsDescending key (a ∷ rows) = All (λ b. key b ≤ key a) rows × IsDescending key rows

  module _ {κ} (P : A → Type κ) where
    insert_desc-All :
        (key : A → ℕ) (a : A) (rows : List A) → P a → All P rows → All P (insert_desc key a rows)
    unfolding insert_desc
    insert_desc-All key a [] p h = (p, tt)
    insert_desc-All key a (b ∷ rows) p h = elim (Bool-cases (leb (key b) (key a))) [
      | inl le ↦ rw le (p, h)
      | inr gt ↦ rw gt (h.0, insert_desc-All key a rows p h.1)
    ]

    pub order_desc-All : (key : A → ℕ) (rows : List A) → All P rows → All P (order_desc key rows)
    unfolding order_desc
    order_desc-All key [] h = tt
    order_desc-All key (a ∷ rows) h =
        insert_desc-All key a (order_desc key rows) h.0 (order_desc-All key rows h.1)

    pub All-take : (n : ℕ) (rows : List A) → All P rows → All P (take n rows)
    All-take zero rows h = tt
    All-take (suc n) [] h = tt
    All-take (suc n) (a ∷ rows) h = (h.0, All-take n rows h.1)

    pub All-drop : (n : ℕ) (rows : List A) → All P rows → All P (drop n rows)
    All-drop zero rows h = h
    All-drop (suc n) [] h = tt
    All-drop (suc n) (a ∷ rows) h = All-drop n rows h.1

  All-below :
      (key : A → ℕ) (v w : ℕ) (rows : List A)
      → v ≤ w
      → All (λ b. key b ≤ v) rows
      → All (λ b. key b ≤ w) rows
  All-below key v w [] l h = tt
  All-below key v w (a ∷ rows) l h = (omega arith, All-below key v w rows l h.1)

  insert_desc-IsDescending :
      (key : A → ℕ) (a : A) (rows : List A)
      → IsDescending key rows
      → IsDescending key (insert_desc key a rows)
  unfolding insert_desc
  insert_desc-IsDescending key a [] s = (tt, tt)
  insert_desc-IsDescending key a (b ∷ rows) s = elim (Bool-cases (leb (key b) (key a))) [
    | inl le ↦
        rw le
          let l : key b ≤ key a = ground arith in ((l, All-below key (key b) (key a) rows l s.0), s)
    | inr gt ↦ rw gt (
      insert_desc-All (λ c. key c ≤ key b) key a rows (ground arith) s.0,
      insert_desc-IsDescending key a rows s.1,
    )
  ]

  pub order_desc-IsDescending :
      (key : A → ℕ) (rows : List A) → IsDescending key (order_desc key rows)
  unfolding order_desc
  order_desc-IsDescending key [] = tt
  order_desc-IsDescending key (a ∷ rows) =
      insert_desc-IsDescending key a (order_desc key rows) (order_desc-IsDescending key rows)

  pub take-IsDescending :
      (key : A → ℕ) (n : ℕ) (rows : List A) → IsDescending key rows → IsDescending key (take n rows)
  take-IsDescending key zero rows s = tt
  take-IsDescending key (suc n) [] s = tt
  take-IsDescending key (suc n) (a ∷ rows) s =
      (All-take (λ b. key b ≤ key a) n rows s.0, take-IsDescending key n rows s.1)

  pub drop-IsDescending :
      (key : A → ℕ) (n : ℕ) (rows : List A) → IsDescending key rows → IsDescending key (drop n rows)
  drop-IsDescending key zero rows s = s
  drop-IsDescending key (suc n) [] s = tt
  drop-IsDescending key (suc n) (a ∷ rows) s = drop-IsDescending key n rows s.1

  -- ORDER BY key ASC
  unfoldable pub insert_asc : (A → ℕ) → A → List A → List A
  insert_asc key a [] = a ∷ []
  insert_asc key a (b ∷ rows) =
      if leb (key a) (key b) then a ∷ b ∷ rows else b ∷ insert_asc key a rows

  unfoldable pub order_asc : (A → ℕ) → List A → List A
  unfolding insert_asc
  order_asc key [] = []
  order_asc key (a ∷ rows) = insert_asc key a (order_asc key rows)

  length-insert_asc :
      (key : A → ℕ) (a : A) (rows : List A) → length (insert_asc key a rows) ≡ suc (length rows)
  unfolding insert_asc
  length-insert_asc key a [] = refl
  length-insert_asc key a (b ∷ rows) = ground (arith, length-insert_asc key a rows)

  pub length-order_asc : (key : A → ℕ) (rows : List A) → length (order_asc key rows) ≡ length rows
  unfolding order_asc
  length-order_asc key [] = refl
  length-order_asc key (a ∷ rows) =
      omega (arith, length-insert_asc key a (order_asc key rows), length-order_asc key rows)

  module _ {κ} (P : A → Type κ) where
    insert_asc-All :
        (key : A → ℕ) (a : A) (rows : List A) → P a → All P rows → All P (insert_asc key a rows)
    unfolding insert_asc
    insert_asc-All key a [] p h = (p, tt)
    insert_asc-All key a (b ∷ rows) p h = elim (Bool-cases (leb (key a) (key b))) [
      | inl le ↦ rw le (p, h)
      | inr gt ↦ rw gt (h.0, insert_asc-All key a rows p h.1)
    ]

    pub order_asc-All : (key : A → ℕ) (rows : List A) → All P rows → All P (order_asc key rows)
    unfolding order_asc
    order_asc-All key [] h = tt
    order_asc-All key (a ∷ rows) h =
        insert_asc-All key a (order_asc key rows) h.0 (order_asc-All key rows h.1)
