-- ===== src/Share/Reactions/Rows.antt =====
-- The rows of note_reactions, backend/internal/repository/shared_note_repository.go (React): what an
-- INSERT and a DELETE of one reaction do to their numbers.
use anynote.Base.{
  ◌+◌, ◌-◌, ◌≡◌, refl, ◌∙◌, inl, inr, Bool, true, false, ◌&&◌, List, [], ◌∷◌, ◌++◌, String, str_eq,
  eq_iff, exists-ext, exists-snoc, count-snoc, delete, count, exists, arith, Bool-cases,
  if◌then◌else◌,
}
use anynote.Share.{Reaction}
use anynote.Share.Reactions.{ReactionType, heart, bookmark, text_of, is_reaction, new_reaction}

-- A reaction of a type to a note, by anyone.
abbrev pub is_on : String → ReactionType → Reaction → Bool
is_on note ty r = str_eq r.shared_note_id note && str_eq r.reaction_type (text_of ty)

abbrev pub same_row : Reaction → Reaction → Bool
same_row r x =
    str_eq x.shared_note_id r.shared_note_id
    && str_eq x.user_id r.user_id
    && str_eq x.reaction_type r.reaction_type

-- No two rows have one note, user and type.
abbrev pub Unique : List Reaction → Type 0
Unique [] = Unit
Unique (r ∷ rs) = (exists (same_row r) rs ≡ false) × Unique rs

abbrev pub same_type : ReactionType → ReactionType → Bool
same_type heart heart = true
same_type bookmark bookmark = true
same_type _ _ = false

-- A delete of rows that are all counted, or all not counted, by `p`.
module _ (hit p : Reaction → Bool) (b : Bool) (same : (r : Reaction) → hit r ≡ true → p r ≡ b) where
  abbrev Once : List Reaction → Type 0
  Once [] = Unit
  Once (r ∷ rs) = (hit r ≡ true → exists hit rs ≡ false) × Once rs

  count-none : (rs : List Reaction) → exists hit rs ≡ false → count hit rs ≡ 0
  count-none [] h = refl
  count-none (r ∷ rs) h = ground (arith, count-none rs)

  count_single : (rs : List Reaction) → Once rs → exists hit rs ≡ true → count hit rs ≡ 1
  count_single [] o h = cc
  count_single (r ∷ rs) o h = ground (arith, o.0, count-none rs, count_single rs o.1)

  count-delete-hit :
      (rs : List Reaction) → count p (delete hit rs) + (if b then count hit rs else 0) ≡ count p rs
  count-delete-hit [] = ground arith
  count-delete-hit (r ∷ rs) = ground (arith, same r, count-delete-hit rs)

  exists-delete-hit : (rs : List Reaction) → exists p rs ≡ false → exists p (delete hit rs) ≡ false
  exists-delete-hit [] h = refl
  exists-delete-hit (r ∷ rs) h = ground (arith, exists-delete-hit rs)

is_reaction-true :
    (note user : String) (ty : ReactionType) (r : Reaction)
    → is_reaction note user ty r ≡ true
    → (r.shared_note_id ≡ note) × (r.user_id ≡ user) × (r.reaction_type ≡ text_of ty)
is_reaction-true note user ty r h = ground (
  arith,
  eq_iff r.shared_note_id note,
  eq_iff r.user_id user,
  eq_iff r.reaction_type (text_of ty),
)

text_of_same : (a b : ReactionType) → str_eq (text_of a) (text_of b) ≡ same_type a b
text_of_same heart heart = refl
text_of_same heart bookmark = refl
text_of_same bookmark heart = refl
text_of_same bookmark bookmark = refl

is_on-hit :
    (note user id : String) (ty ty' : ReactionType) (r : Reaction)
    → is_reaction note user ty r ≡ true
    → is_on id ty' r ≡ (str_eq note id && same_type ty ty')
is_on-hit note user id ty ty' r h =
    let (a, b, c) = is_reaction-true note user ty r h in rw (a, c, text_of_same ty ty') refl

same_row-hit :
    (note user : String) (ty : ReactionType) (r : Reaction)
    → is_reaction note user ty r ≡ true
    → (x : Reaction) → is_reaction note user ty x ≡ same_row r x
same_row-hit note user ty r h x =
    let (a, b, c) = is_reaction-true note user ty r h in rw (a, b, c) refl

exists_none-cons :
    (p : Reaction → Bool) (r : Reaction) (rs : List Reaction)
    → exists p (r ∷ rs) ≡ false
    → (p r ≡ false) × (exists p rs ≡ false)
exists_none-cons p r rs h = ground arith

exists_none-delete :
    (p hit : Reaction → Bool) (rs : List Reaction)
    → exists p rs ≡ false
    → exists p (delete hit rs) ≡ false
exists_none-delete p hit [] h = refl
exists_none-delete p hit (r ∷ rs) h = ground (arith, exists_none-delete p hit rs)

pub delete-Unique :
    (hit : Reaction → Bool) (rs : List Reaction) → Unique rs → Unique (delete hit rs)
delete-Unique hit [] u = tt
delete-Unique hit (r ∷ rs) u = elim (Bool-cases (hit r)) [
  | inl yes_ ↦ rw yes_ (delete-Unique hit rs u.1)
  | inr no_ ↦ rw no_ (exists_none-delete (same_row r) hit rs u.0, delete-Unique hit rs u.1)
]

same_row_sym : (r x : Reaction) → same_row r x ≡ same_row x r
same_row_sym r x = ground (
  arith,
  eq_iff x.shared_note_id r.shared_note_id,
  eq_iff r.shared_note_id x.shared_note_id,
  eq_iff x.user_id r.user_id,
  eq_iff r.user_id x.user_id,
  eq_iff x.reaction_type r.reaction_type,
  eq_iff r.reaction_type x.reaction_type,
)

pub append-Unique :
    (x : Reaction) (rs : List Reaction)
    → exists (same_row x) rs ≡ false
    → Unique rs
    → Unique (rs ++ x ∷ [])
append-Unique x [] h u = (refl, tt)
append-Unique x (r ∷ rs) h u =
    let (miss, rest) = exists_none-cons (same_row x) r rs h in
    (exists-snoc (same_row r) x rs ∙ rw (u.0, same_row_sym r x) miss, append-Unique x rs rest u.1)

module _ (note user : String) (ty : ReactionType) where
  abbrev hit : Reaction → Bool
  hit = is_reaction note user ty

  Unique-Once :
      (id : String) (ty' : ReactionType) (rs : List Reaction)
      → Unique rs
      → Once hit
          (is_on id ty')
          (str_eq note id && same_type ty ty')
          (is_on-hit note user id ty ty')
          rs
  Unique-Once id ty' [] u = tt
  Unique-Once id ty' (r ∷ rs) u = (
    λ h. exists-ext hit (same_row r) rs (same_row-hit note user ty r h) ∙ u.0,
    Unique-Once id ty' rs u.1,
  )

  -- The reactions of a type after one reaction is deleted, or added.
  pub count-deleted :
      (id : String) (ty' : ReactionType) (rs : List Reaction)
      → Unique rs
      → exists hit rs ≡ true
      → count (is_on id ty') (delete hit rs) ≡ (
          if str_eq note id && same_type ty ty'
          then count (is_on id ty') rs - 1
          else count (is_on id ty') rs)
  count-deleted id ty' rs u h = ground (
    arith,
    count-delete-hit hit (is_on id ty') (str_eq note id && same_type ty ty')
        (is_on-hit note user id ty ty') rs,
    count_single hit (is_on id ty') (str_eq note id && same_type ty ty')
        (is_on-hit note user id ty ty') rs (Unique-Once id ty' rs u) h,
  )

  pub count-added :
      (id : String) (ty' : ReactionType) (rs : List Reaction)
      → count (is_on id ty') (rs ++ new_reaction note user ty ∷ []) ≡ (
          if str_eq note id && same_type ty ty'
          then count (is_on id ty') rs + 1
          else count (is_on id ty') rs)
  count-added id ty' rs =
      rw (← text_of_same ty ty')
        (ground (arith, count-snoc (is_on id ty') (new_reaction note user ty) rs))
