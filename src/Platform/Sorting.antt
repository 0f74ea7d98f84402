-- ===== src/Platform/Sorting.antt =====
-- `sort.Strings` of the catalog's names, backend/internal/service/platform_service.go.
use Prim.Native.String.{[] as empty, ◌∷◌ as char_then}
use anynote.Base.{◌≡◌, refl, true, false, List, [], ◌∷◌, String, inl, inr, arith, Bool-cases}
use anynote.Platform.Service.{less, insert_name, sort_strings}

-- No name is less than the one before it.
abbrev pub IsSorted : List String → Type 0
IsSorted [] = Unit
IsSorted (n ∷ []) = Unit
IsSorted (n ∷ m ∷ names) = (less m n ≡ false) × IsSorted (m ∷ names)

less-asym : (s t : String) → less s t ≡ true → less t s ≡ false
unfolding less
less-asym s empty h = cc
less-asym empty (char_then d t) h = refl
less-asym (char_then c s) (char_then d t) h = ground (arith, h, less-asym s t)

insert_name-IsSorted :
    (n : String) (names : List String) → IsSorted names → IsSorted (insert_name n names)
unfolding insert_name
insert_name-IsSorted n [] h = tt
insert_name-IsSorted n (m ∷ []) h = elim (Bool-cases (less m n)) [
  | inl e ↦ rw e (less-asym m n e, tt)
  | inr e ↦ rw e (e, tt)
]
insert_name-IsSorted n (m ∷ k ∷ names) h = elim (Bool-cases (less m n)) [
  | inr e ↦ rw e (e, h)
  | inl e ↦
      let rest = insert_name-IsSorted n (k ∷ names) h.1 in
      elim (Bool-cases (less k n)) [
        | inl e' ↦ rw (e, e') (h.0, rw e' at rest)
        | inr e' ↦ rw (e, e') (less-asym m n e, rw e' at rest)
      ]
]

pub sort_strings-IsSorted : (names : List String) → IsSorted (sort_strings names)
unfolding sort_strings
sort_strings-IsSorted [] = tt
sort_strings-IsSorted (n ∷ names) =
    insert_name-IsSorted n (sort_strings names) (sort_strings-IsSorted names)
