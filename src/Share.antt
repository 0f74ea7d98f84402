-- ===== src/Share.antt =====
-- Shared notes: backend/internal/service/share_service.go and
-- backend/internal/repository/shared_note_repository.go. An encrypted text is its text; the random id
-- of a share, `none` where the random source fails, is an argument. A reaction is unique in its note,
-- user and type, so that the DELETE by the id that was just read for them deletes the row of the three.
pub mod Reactions
pub mod Views
pub mod Feed
mod Tests
use Prim.Native.String.{◌++◌ as append}
use anynote.Base.{
  ℕ, ◌+◌, ◌-◌, ◌*◌, Bool, true, false, ◌&&◌, ◌||◌, not, Option, none, some, List, [], ◌∷◌, ◌++◌,
  String, str_eq, Result, ok, err, map, select, select_one, update, delete, count, exists, take,
  drop, order_desc, ltb, leb, if◌then◌else◌,
}
use anynote.Base.Int.{ℤ, pos, negsuc, leb_ℤ, ltb_ℤ, pos_part}

-- A row of shared_notes, unique in `id`.
pub record SharedNote : Type 0 where
  pub id : String
  pub encrypted_content : String
  pub encrypted_title : String
  pub share_key_hash : String
  pub has_password : Bool
  pub is_public : Bool
  pub expires_at : Option ℕ
  pub view_count : ℕ
  pub max_views : Option ℕ
  pub reaction_heart : ℕ
  pub reaction_bookmark : ℕ
  pub created_by : String
  pub created_at : ℕ

-- A row of note_reactions.
pub record Reaction : Type 0 where
  pub shared_note_id : String
  pub user_id : String
  pub reaction_type : String

pub record ShareStore : Type 0 where
  pub notes : List SharedNote
  pub reactions : List Reaction

pub data ShareError : Type 0 where
  database random_failed share_not_found share_expired share_max_views invalid_reaction : ShareError

abbrev pub has_id : String → SharedNote → Bool
has_id id n = str_eq n.id id

abbrev pub hour : ℕ
hour = 3_600_000_000_000

pub record CreateShareRequest : Type 0 where
  pub encrypted_content : String
  pub encrypted_title : String
  pub share_key_hash : String
  pub has_password : Bool
  pub is_public : Option Bool
  pub expires_hours : Option ℕ
  pub max_views : Option ℕ

pub record CreateShareResponse : Type 0 where
  pub id : String
  pub url : String

abbrev expiry : ℕ → Option ℕ → Option ℕ
expiry now none = none
expiry now (some hours) = if ltb 0 hours then some (now + hours * hour) else none

abbrev or_false : Option Bool → Bool
or_false none = false
or_false (some b) = b

abbrev pub note_of : String → String → ℕ → CreateShareRequest → SharedNote
note_of id user now req = record {
  id = id;
  encrypted_content = req.encrypted_content;
  encrypted_title = req.encrypted_title;
  share_key_hash = req.share_key_hash;
  has_password = req.has_password;
  is_public = or_false req.is_public;
  expires_at = expiry now req.expires_hours;
  view_count = 0;
  max_views = req.max_views;
  reaction_heart = 0;
  reaction_bookmark = 0;
  created_by = user;
  created_at = now;
}

-- The INSERT fails where the id is taken.
unfoldable pub create : Bool → SharedNote → List SharedNote → List SharedNote × Bool
create fails note notes =
    if fails || exists (has_id note.id) notes then (notes, false) else (notes ++ note ∷ [], true)

unfoldable pub create_share :
    Bool
    → Option String
    → String
    → ℕ
    → CreateShareRequest
    → ShareStore
    → ShareStore × Result ShareError CreateShareResponse
unfolding create
create_share fails share_id user now req s = elim share_id [
  | none ↦ (s, err random_failed)
  | some id ↦
      let (notes', created) = create fails (note_of id user now req) s.notes in
      if created
      then (record s { notes = notes' }, ok (record { id = id; url = append "/share/" id }))
      else (s, err database)
]

unfoldable pub get_by_id : Bool → String → List SharedNote → Option SharedNote
get_by_id fails id notes = if fails then none else select_one (has_id id) notes

abbrev pub viewed : SharedNote → SharedNote
viewed n = record n { view_count = n.view_count + 1 }

unfoldable pub increment_view_count : Bool → String → List SharedNote → List SharedNote
increment_view_count fails id notes = if fails then notes else update (has_id id) viewed notes

pub record GetShareResponse : Type 0 where
  pub id : String
  pub encrypted_content : String
  pub encrypted_title : String
  pub has_password : Bool
  pub share_key_hash : String
  pub expires_at : Option ℕ
  pub view_count : ℕ
  pub max_views : Option ℕ

-- `ExpiresAt.Before(now)`; a share with no expiry never expires.
abbrev pub is_expired : ℕ → SharedNote → Bool
is_expired now n = elim n.expires_at [ none ↦ false | some t ↦ ltb t now ]

abbrev pub is_used_up : SharedNote → Bool
is_used_up n = elim n.max_views [ none ↦ false | some m ↦ leb m n.view_count ]

abbrev pub response_of : SharedNote → GetShareResponse
response_of n = record {
  id = n.id;
  encrypted_content = n.encrypted_content;
  encrypted_title = n.encrypted_title;
  has_password = n.has_password;
  share_key_hash = n.share_key_hash;
  expires_at = n.expires_at;
  view_count = n.view_count + 1;
  max_views = n.max_views;
}

-- A view count that cannot be incremented is logged, not reported.
unfoldable pub get_share :
    Bool → Bool → String → ℕ → ShareStore → ShareStore × Result ShareError GetShareResponse
unfolding get_by_id increment_view_count
get_share fails increment_fails id now s = elim (get_by_id fails id s.notes) [
  | none ↦ (s, err share_not_found)
  | some n ↦
      if is_expired now n
      then (s, err share_expired)
      else if is_used_up n
      then (s, err share_max_views)
      else (
        record s { notes = increment_view_count increment_fails id s.notes },
        ok (response_of n),
      )
]

-- expires_at IS NOT NULL AND expires_at < $1; the reactions to a deleted note go with it.
unfoldable pub delete_expired : ℕ → ShareStore → ShareStore × ℕ
delete_expired now s =
    let notes' = delete (is_expired now) s.notes in
    (
      record s {
        notes = notes';
        reactions = select (λ r. exists (has_id r.shared_note_id) notes') s.reactions;
      },
      count (is_expired now) s.notes,
    )

-- `HandleCleanupExpiredShares` of backend/internal/queue/cleanup_handler.go.
unfoldable pub handle_cleanup_expired_shares :
    Bool → ℕ → ShareStore → ShareStore × Result ShareError (Unit {0})
handle_cleanup_expired_shares fails now s =
    if fails then (s, err database) else ((delete_expired now s).0, ok tt)

unfoldable pub list_by_user : String → List SharedNote → List SharedNote
unfolding order_desc
list_by_user user notes =
    order_desc (λ n. n.created_at) (select (λ n. str_eq n.created_by user) notes)

pub record DiscoverFeedItem : Type 0 where
  pub id : String
  pub encrypted_title : String
  pub has_password : Bool
  pub view_count : ℕ
  pub reaction_heart : ℕ
  pub reaction_bookmark : ℕ
  pub created_at : ℕ

-- is_public = TRUE AND (expires_at IS NULL OR expires_at > NOW())
abbrev pub is_listed : ℕ → SharedNote → Bool
is_listed now n = n.is_public && (elim n.expires_at [ none ↦ true | some t ↦ ltb now t ])

abbrev pub item_of : SharedNote → DiscoverFeedItem
item_of n = record {
  id = n.id;
  encrypted_title = n.encrypted_title;
  has_password = n.has_password;
  view_count = n.view_count;
  reaction_heart = n.reaction_heart;
  reaction_bookmark = n.reaction_bookmark;
  created_at = n.created_at;
}

-- ORDER BY created_at DESC LIMIT $1 OFFSET $2
unfoldable pub list_public : ℕ → ℕ → ℕ → List SharedNote → List DiscoverFeedItem
unfolding order_desc
list_public now limit offset notes =
    map item_of
      (take limit (drop offset (order_desc (λ n. n.created_at) (select (is_listed now) notes))))

abbrev pub feed_limit : ℤ → ℕ
feed_limit limit = if leb_ℤ limit (pos 0) || ltb_ℤ (pos 100) limit then 20 else pos_part limit

abbrev pub feed_offset : ℤ → ℕ
feed_offset offset = if ltb_ℤ offset (pos 0) then 0 else pos_part offset

unfoldable pub discover_feed :
    Bool → ℕ → ℤ → ℤ → ShareStore → Result ShareError (List DiscoverFeedItem)
unfolding list_public
discover_feed fails now limit offset s =
    if fails
    then err database
    else ok (list_public now (feed_limit limit) (feed_offset offset) s.notes)
