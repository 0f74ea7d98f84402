-- ===== src/Base/Tables.antt =====
-- The table operations of SQL, on a table as the list of its rows: SELECT, UPDATE and DELETE with a
-- WHERE clause, and COUNT(*). A condition is a Boolean function of the row.
use Prim.Native.Nat.{ℕ, suc, ◌+◌}
use mathlib.Core.Path.{◌≡◌, refl, sym, ap, ◌∙◌}
use mathlib.Core.Logic.{inl, inr}
use mathlib.Core.Bool.{Bool, true, false, not}
use mathlib.Core.Option.{Option, none, some}
use mathlib.Core.List.{List, [], ◌∷◌, ◌++◌}
use native.Mathlib.Omega.{arith}
use anynote.Base.Tests.{if◌then◌else◌, Bool-cases}
use anynote.Base.Lists.{length}

module _ {ℓ} {A : Type ℓ} where
  -- SELECT * FROM rows WHERE p
  abbrev pub select : (A → Bool) → List A → List A
  select p [] = []
  select p (r ∷ rs) = if p r then r ∷ select p rs else select p rs

  -- The row that a query for one row returns; `none` is pgx.ErrNoRows.
  abbrev pub select_one : (A → Bool) → List A → Option A
  select_one p [] = none
  select_one p (r ∷ rs) = if p r then some r else select_one p rs

  -- UPDATE rows SET f WHERE p
  abbrev pub update : (A → Bool) → (A → A) → List A → List A
  update p f [] = []
  update p f (r ∷ rs) = (if p r then f r else r) ∷ update p f rs

  -- DELETE FROM rows WHERE p
  abbrev pub delete : (A → Bool) → List A → List A
  delete p rs = select (λ r. not (p r)) rs

  -- SELECT COUNT(*) FROM rows WHERE p; also the number of rows that an UPDATE or DELETE affects
  abbrev pub count : (A → Bool) → List A → ℕ
  count p [] = 0
  count p (r ∷ rs) = if p r then suc (count p rs) else count p rs

  -- SELECT EXISTS(SELECT 1 FROM rows WHERE p)
  abbrev pub exists : (A → Bool) → List A → Bool
  exists p [] = false
  exists p (r ∷ rs) = if p r then true else exists p rs

  pub length-select : (p : A → Bool) (rs : List A) → length (select p rs) ≡ count p rs
  length-select p [] = refl
  length-select p (r ∷ rs) = ground (arith, length-select p rs)

  pub exists-ext :
      (p q : A → Bool) (rs : List A) → ((r : A) → p r ≡ q r) → exists p rs ≡ exists q rs
  exists-ext p q [] h = refl
  exists-ext p q (r ∷ rs) h = ground (arith, h r, exists-ext p q rs)

  pub count-snoc :
      (p : A → Bool) (a : A) (rs : List A)
      → count p (rs ++ a ∷ []) ≡ count p rs + (if p a then 1 else 0)
  count-snoc p a [] = ground arith
  count-snoc p a (r ∷ rs) = ground (arith, count-snoc p a rs)

  pub exists-snoc :
      (p : A → Bool) (a : A) (rs : List A)
      → exists p (rs ++ a ∷ []) ≡ (if exists p rs then true else p a)
  exists-snoc p a [] = ground arith
  exists-snoc p a (r ∷ rs) = ground (arith, exists-snoc p a rs)

  pub select_one-append :
      (p : A → Bool) (a r : A) (rs : List A)
      → select_one p rs ≡ some r
      → select_one p (rs ++ a ∷ []) ≡ some r
  select_one-append p a r [] h = cc
  select_one-append p a r (x ∷ rs) h = ground (arith, select_one-append p a r rs)

  pub select_one-snoc :
      (p : A → Bool) (a : A) (rs : List A)
      → exists p rs ≡ false
      → p a ≡ true
      → select_one p (rs ++ a ∷ []) ≡ some a
  select_one-snoc p a [] h e = ground arith
  select_one-snoc p a (x ∷ rs) h e = ground (arith, select_one-snoc p a rs)

  pub select_one-true : (p : A → Bool) (r : A) (rs : List A) → select_one p rs ≡ some r → p r ≡ true
  select_one-true p r [] h = cc
  select_one-true p r (x ∷ rs) h = elim (Bool-cases (p x)) [
    | inl e ↦ let same : x ≡ r = ground (arith, e) in sym (ap p same) ∙ e
    | inr e ↦ select_one-true p r rs (ground (arith, e))
  ]
