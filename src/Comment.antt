-- ===== src/Comment.antt =====
-- Comments on shared notes: backend/internal/service/comment_service.go and
-- backend/internal/repository/comment_repository.go. A push message is the id of its receiver; whether it
-- arrives changes no state. `id` is the id that the database draws.
pub mod Laws
mod Tests
use anynote.Base.{
  ℕ, Bool, true, false, ◌&&◌, ◌||◌, not, Option, none, some, List, [], ◌∷◌, ◌++◌, String, str_eq,
  Result, ok, err, select, update, count, exists, take, drop, order_asc, ◌==◌, if◌then◌else◌,
}
use anynote.Share.{SharedNote, get_by_id, has_id as is_note}

-- A row of note_comments; `deleted_at` is none for a comment that stands.
pub record Comment : Type 0 where
  pub id : String
  pub shared_note_id : String
  pub user_id : String
  pub encrypted_content : String
  pub parent_id : Option String
  pub created_at : ℕ
  pub updated_at : ℕ
  pub deleted_at : Option ℕ

pub record CreateCommentRequest : Type 0 where
  pub encrypted_content : String
  pub parent_id : String

pub record CommentStore : Type 0 where
  pub comments : List Comment
  pub notes : List SharedNote

-- `uuid.Parse`, and which of the optional parts the service has.
pub record CommentService : Type 0 where
  pub parse_uuid : String → Option String
  pub has_share_repo : Bool
  pub has_push : Bool

pub data CommentError : Type 0 where
  invalid_parent database not_comment_author : CommentError

abbrev pub has_id : String → Comment → Bool
has_id id c = str_eq c.id id

abbrev pub is_deleted : Comment → Bool
is_deleted c = elim c.deleted_at [ none ↦ false | some _ ↦ true ]

-- shared_note_id = $1 AND deleted_at IS NULL
abbrev pub stands_on : String → Comment → Bool
stands_on note c = str_eq c.shared_note_id note && not (is_deleted c)

-- The INSERT fails where the id is taken, and where the note or the parent does not exist.
abbrev pub parent_missing : Option String → List Comment → Bool
parent_missing none comments = false
parent_missing (some p) comments = not (exists (has_id p) comments)

unfoldable pub insert_comment : Bool → Comment → CommentStore → Option CommentStore
insert_comment fails c s =
    if fails
      || exists (has_id c.id) s.comments
      || not (exists (is_note c.shared_note_id) s.notes)
      || parent_missing c.parent_id s.comments
    then none
    else some (record s { comments = s.comments ++ c ∷ [] })

-- `none` is a parent that is no UUID.
unfoldable pub parent_of : (String → Option String) → String → Option (Option String)
parent_of parse_uuid text =
    if str_eq text ""
    then some none
    else elim (parse_uuid text) [ none ↦ none | some p ↦ some (some p) ]

abbrev pub comment_of : String → String → String → Option String → String → ℕ → Comment
comment_of id note user parent content now = record {
  id = id;
  shared_note_id = note;
  user_id = user;
  encrypted_content = content;
  parent_id = parent;
  created_at = now;
  updated_at = now;
  deleted_at = none;
}

-- `Create` of the repository.
unfoldable pub create :
    (String → Option String)
    → Bool
    → ℕ
    → String
    → String
    → String
    → CreateCommentRequest
    → CommentStore
    → Result CommentError (CommentStore × Comment)
create parse_uuid fails now id note user req s = elim (parent_of parse_uuid req.parent_id) [
  | none ↦ err invalid_parent
  | some parent ↦
      let c = comment_of id note user parent req.encrypted_content now in
      elim (insert_comment fails c s) [ none ↦ err database | some s' ↦ ok (s', c) ]
]

-- The receivers of the push message: the note's owner, but not of their own comment.
unfoldable pub notify_note_owner :
    CommentService → Bool → String → String → CommentStore → List String
notify_note_owner svc lookup_fails note user s =
    if not svc.has_push || not svc.has_share_repo
    then []
    else elim (get_by_id lookup_fails note s.notes) [
      | none ↦ []
      | some n ↦ if str_eq user n.created_by then [] else n.created_by ∷ []
    ]

-- `CreateComment`: the store, the answer, and the receivers.
unfoldable pub create_comment :
    CommentService
    → Bool
    → Bool
    → ℕ
    → String
    → String
    → String
    → CreateCommentRequest
    → CommentStore
    → CommentStore × Result CommentError Comment × List String
create_comment svc fails lookup_fails now id note user req s =
    elim (create svc.parse_uuid fails now id note user req s) [
      | err e ↦ (s, err e, [])
      | ok (s', c) ↦ (s', ok c, notify_note_owner svc lookup_fails note user s')
    ]

-- ORDER BY created_at ASC LIMIT $2 OFFSET $3
unfoldable pub list_by_shared_note : String → ℕ → ℕ → List Comment → List Comment
list_by_shared_note note limit offset comments =
    take limit (drop offset (order_asc (λ c. c.created_at) (select (stands_on note) comments)))

unfoldable pub count_by_shared_note : String → List Comment → ℕ
count_by_shared_note note comments = count (stands_on note) comments

pub record ListCommentsResponse : Type 0 where
  pub comments : List Comment
  pub total : ℕ

unfoldable pub list_comments :
    Bool → Bool → String → ℕ → ℕ → CommentStore → Result CommentError ListCommentsResponse
list_comments list_fails count_fails note limit offset s =
    if list_fails || count_fails
    then err database
    else ok (record {
      comments = list_by_shared_note note limit offset s.comments;
      total = count_by_shared_note note s.comments;
    })

-- id = $1 AND user_id = $2 AND deleted_at IS NULL
abbrev pub is_own : String → String → Comment → Bool
is_own id user c = str_eq c.id id && str_eq c.user_id user && not (is_deleted c)

abbrev pub deleted : ℕ → Comment → Comment
deleted now c = record c { deleted_at = some now; updated_at = now }

unfoldable pub delete_row : String → String → ℕ → List Comment → List Comment × ℕ
delete_row id user now comments =
    (update (is_own id user) (deleted now) comments, count (is_own id user) comments)

unfoldable pub delete_comment :
    Bool → String → String → ℕ → CommentStore → CommentStore × Result CommentError (Unit {0})
delete_comment fails id user now s =
    if fails
    then (s, err database)
    else let (comments', affected) = delete_row id user now s.comments in
      (record s { comments = comments' }, if affected == 0 then err not_comment_author else ok tt)
