-- ===== src/Share/Reactions.antt =====
-- Reactions to shared notes: React of backend/internal/repository/shared_note_repository.go and
-- ToggleReaction of backend/internal/service/share_service.go.
mod Rows
pub mod Counts
use anynote.Base.{
  ℕ, ◌+◌, ◌-◌, Bool, true, false, ◌&&◌, ◌||◌, not, Option, none, some, List, [], ◌∷◌, ◌++◌, String,
  str_eq, Result, ok, err, map, select, select_one, update, delete, exists, if◌then◌else◌,
}
use anynote.Share.{
  SharedNote, Reaction, ShareStore, ShareError, database, share_not_found, invalid_reaction, has_id,
}

-- The two types, with their column of shared_notes.
pub data ReactionType : Type 0 where
  heart bookmark : ReactionType

unfoldable pub reaction_type_of : String → Option ReactionType
reaction_type_of text =
    if str_eq text "heart"
    then some heart
    else if str_eq text "bookmark"
    then some bookmark
    else none

abbrev pub text_of : ReactionType → String
text_of heart = "heart"
text_of bookmark = "bookmark"

abbrev pub counter : ReactionType → SharedNote → ℕ
counter heart n = n.reaction_heart
counter bookmark n = n.reaction_bookmark

abbrev pub set_counter : ReactionType → ℕ → SharedNote → SharedNote
set_counter heart c n = record n { reaction_heart = c }
set_counter bookmark c n = record n { reaction_bookmark = c }

abbrev pub is_reaction : String → String → ReactionType → Reaction → Bool
is_reaction note user ty r =
    str_eq r.shared_note_id note && str_eq r.user_id user && str_eq r.reaction_type (text_of ty)

-- GREATEST(counter - 1, 0)
abbrev pub decremented : ReactionType → SharedNote → SharedNote
decremented ty n = set_counter ty (counter ty n - 1) n

abbrev pub incremented : ReactionType → SharedNote → SharedNote
incremented ty n = set_counter ty (counter ty n + 1) n

pub record ReactResponse : Type 0 where
  pub reaction_type : ReactionType
  pub active : Bool
  pub count : ℕ

-- The queries of one call that fail. They run one by one, in no transaction.
pub record ReactFaults : Type 0 where
  pub find_fails : Bool
  pub write_fails : Bool
  pub counter_fails : Bool
  pub read_fails : Bool

abbrev pub new_reaction : String → String → ReactionType → Reaction
new_reaction note user ty = record {
  shared_note_id = note;
  user_id = user;
  reaction_type = text_of ty;
}

-- ON CONFLICT DO NOTHING
abbrev pub add_reaction : Reaction → Bool → List Reaction → List Reaction
add_reaction r present reactions = if present then reactions else reactions ++ r ∷ []

-- The end of both branches: the counter is written and then read.
count_reaction :
    ReactFaults
    → String
    → ReactionType
    → Bool
    → (SharedNote → SharedNote)
    → ShareStore
    → ShareStore × Result ShareError ReactResponse
count_reaction f note ty active change s =
    if f.counter_fails
    then (s, err database)
    else let s' = record s { notes = update (has_id note) change s.notes } in
      if f.read_fails then (s', err database) else elim (select_one (has_id note) s'.notes) [
        | none ↦ (s', err database)
        | some n ↦ (s', ok (record { reaction_type = ty; active = active; count = counter ty n }))
      ]

-- A query for the reaction that fails counts as one that finds none. An INSERT for a note that does
-- not exist breaks the foreign key.
unfoldable pub react :
    ReactFaults
    → String
    → String
    → ReactionType
    → ShareStore
    → ShareStore × Result ShareError ReactResponse
unfolding count_reaction
react f note user ty s =
    let present = exists (is_reaction note user ty) s.reactions in
    if present && not f.find_fails
    then (if f.write_fails
        then (s, err database)
        else count_reaction f note ty false (decremented ty)
            (record s { reactions = delete (is_reaction note user ty) s.reactions }))
    else if f.write_fails
    then (s, err database)
    else if not (exists (has_id note) s.notes)
    then (s, err share_not_found)
    else count_reaction f note ty true (incremented ty)
        (record s { reactions = add_reaction (new_reaction note user ty) present s.reactions })

unfoldable pub toggle_reaction :
    ReactFaults
    → String
    → String
    → String
    → ShareStore
    → ShareStore × Result ShareError ReactResponse
unfolding react reaction_type_of
toggle_reaction f user note text s = elim (reaction_type_of text) [
  | none ↦ (s, err invalid_reaction)
  | some ty ↦ react f note user ty s
]

-- The types of the user's reactions to a note.
unfoldable pub get_user_reaction : String → String → List Reaction → List String
get_user_reaction note user reactions =
    map (λ r. r.reaction_type)
      (select (λ r. str_eq r.shared_note_id note && str_eq r.user_id user) reactions)
