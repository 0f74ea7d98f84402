-- ===== src/Comment/Tests.antt =====
-- Two comments on one note, backend/internal/service/comment_service.go.
use anynote.Base.{◌≤◌, ◌≡◌, true, false, ◌&&◌, none, some, [], ◌∷◌, str_eq, All, length, exists}
use anynote.Share.{SharedNote}
use anynote.Comment.{CommentStore, CommentService, comment_of, create_comment}
use anynote.Comment.Laws.{create_comment-announces}

abbrev note : SharedNote
note = record {
  id = "a";
  encrypted_content = "content";
  encrypted_title = "title";
  share_key_hash = "";
  has_password = false;
  is_public = true;
  expires_at = none;
  view_count = 1;
  max_views = none;
  reaction_heart = 0;
  reaction_bookmark = 0;
  created_by = "alice";
  created_at = 1;
}

abbrev store : CommentStore
store = record {
  comments =
      comment_of "c-1" "a" "bob" none "first" 10
      ∷ comment_of "c-2" "a" "eve" (some "c-1") "reply" 5
      ∷ [];
  notes = note ∷ [];
}

abbrev service : CommentService
service = record { parse_uuid = λ t. some t; has_share_repo = true; has_push = true }

create_comment-announces_example :
    (length
        (create_comment service false false 40 "c-3" "a" "eve"
          (record { encrypted_content = "hi"; parent_id = "" })
          store).2
      ≤ 1)
    × All
        (λ owner.
          (str_eq "eve" owner ≡ false)
          × (exists (λ n. str_eq n.id "a" && str_eq n.created_by owner) store.notes ≡ true))
        (create_comment service false false 40 "c-3" "a" "eve"
          (record { encrypted_content = "hi"; parent_id = "" })
          store).2
create_comment-announces_example =
    create_comment-announces service false false 40 "c-3" "a" "eve"
      (record { encrypted_content = "hi"; parent_id = "" }) store
