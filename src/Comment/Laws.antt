-- ===== src/Comment/Laws.antt =====
-- What listing, deleting and answering a comment does, backend/internal/service/comment_service.go.
use anynote.Base.{
  ℕ, ◌-◌, ◌≤◌, ◌≡◌, refl, inl, inr, Bool, true, false, ◌&&◌, ◌||◌, not, Option, some, List, [], ◌∷◌,
  String, str_eq, ok, err, is_ok, eq_refl, select, select_one, update, count, exists, take, drop,
  All, length, length-take, length-drop, length-select, min, order_asc, order_asc-All,
  length-order_asc, All-take, All-drop, arith, Bool-cases, Option-cases, Result-cases,
}
use anynote.Share.{SharedNote, get_by_id, has_id as is_note}
use anynote.Comment.{
  Comment, CommentStore, CommentService, CreateCommentRequest, not_comment_author, stands_on,
  is_own, deleted, list_by_shared_note, count_by_shared_note, ListCommentsResponse, list_comments,
  delete_row, delete_comment, create, insert_comment, create_comment, notify_note_owner,
}

update-none :
    (id user : String) (now : ℕ) (comments : List Comment)
    → count (is_own id user) comments ≡ 0
    → update (is_own id user) (deleted now) comments ≡ comments
update-none id user now [] h = refl
update-none id user now (c ∷ comments) h = ground (arith, update-none id user now comments)

own-deleted :
    (id user : String) (now : ℕ) (comments : List Comment)
    → count (is_own id user) (update (is_own id user) (deleted now) comments) ≡ 0
own-deleted id user now [] = refl
own-deleted id user now (c ∷ comments) = ground (arith, own-deleted id user now comments)

-- A deletion that succeeds cannot be repeated: the same comment and user are refused at any later time.
pub delete_comment_once :
    (id user : String) (now later : ℕ) (s : CommentStore)
    → is_ok (delete_comment false id user now s).1 ≡ true
    → (delete_comment false id user later (delete_comment false id user now s).0).1
      ≡ err not_comment_author
unfolding delete_comment delete_row
delete_comment_once id user now later s h = ground (arith, h, own-deleted id user now s.comments)

-- A deletion by anyone but the author of the comment, or of a comment that does not stand, is refused and
-- changes nothing.
pub delete_comment-refused :
    (id user : String) (now : ℕ) (s : CommentStore)
    → exists (is_own id user) s.comments ≡ false
    → delete_comment false id user now s ≡ (s, err not_comment_author)
unfolding delete_comment delete_row
delete_comment-refused id user now s h =
    rw
      (
        delete_comment,
        delete_row,
        count-none (is_own id user) s.comments h,
        update-none id user now s.comments (count-none (is_own id user) s.comments h),
      )
      refl
  where
    count-none :
        (p : Comment → Bool) (comments : List Comment)
        → exists p comments ≡ false
        → count p comments ≡ 0
    count-none p [] h = refl
    count-none p (c ∷ comments) h = ground (arith, count-none p comments)

-- Where no query fails, a page lists comments that stand on the note only, and as many of them as
-- the total, which counts them all, leaves after the offset, up to the limit.
pub list_comments_lem :
    (note : String) (limit offset : ℕ) (s : CommentStore)
    → (r : ListCommentsResponse) × (list_comments false false note limit offset s ≡ ok r)
      × All (λ c. stands_on note c ≡ true) r.comments
      × (length r.comments ≡ min limit (r.total - offset))
unfolding list_comments list_by_shared_note count_by_shared_note
list_comments_lem note limit offset s =
    let all = order_asc (λ c. c.created_at) (select (stands_on note) s.comments) in
    (
      record { comments = take limit (drop offset all); total = count (stands_on note) s.comments },
      refl,
      All-take (λ c. stands_on note c ≡ true) limit (drop offset all)
          (All-drop (λ c. stands_on note c ≡ true) offset all
            (order_asc-All (λ c. stands_on note c ≡ true) (λ c. c.created_at)
              (select (stands_on note) s.comments) (select-stands s.comments))),
      omega (
        arith,
        length-take limit (drop offset all),
        length-drop offset all,
        length-order_asc (λ c. c.created_at) (select (stands_on note) s.comments),
        length-select (stands_on note) s.comments,
      ),
    )
  where
    select-stands :
        (comments : List Comment)
        → All (λ c. stands_on note c ≡ true) (select (stands_on note) comments)
    select-stands [] = tt
    select-stands (c ∷ comments) = elim (Bool-cases (stands_on note c)) [
      | inl e ↦ rw e (e, select-stands comments)
      | inr e ↦ rw e (select-stands comments)
    ]

abbrev is_owner : String → String → SharedNote → Bool
is_owner note owner n = str_eq n.id note && str_eq n.created_by owner

owner-exists :
    (note : String) (notes : List SharedNote) (n : SharedNote)
    → select_one (is_note note) notes ≡ some n
    → exists (is_owner note n.created_by) notes ≡ true
owner-exists note [] n h = cc
owner-exists note (x ∷ notes) n h = elim (Bool-cases (str_eq x.id note)) [
  | inr other ↦ ground (arith, other, h, owner-exists note notes n)
  | inl here ↦
      let same : x ≡ n = ground (arith, here, h) in rw (here, same, eq_refl n.created_by) refl
]

notify-owner :
    (svc : CommentService) (lookup_fails : Bool) (note user : String) (s : CommentStore)
    → (length (notify_note_owner svc lookup_fails note user s) ≤ 1)
      × All
          (λ owner. (str_eq user owner ≡ false) × (exists (is_owner note owner) s.notes ≡ true))
          (notify_note_owner svc lookup_fails note user s)
unfolding notify_note_owner get_by_id
notify-owner svc lookup_fails note user s =
    elim (Bool-cases (not svc.has_push || not svc.has_share_repo)) [
      | inl off ↦ rw (notify_note_owner, off) (omega arith, tt)
      | inr on ↦ elim (Option-cases (get_by_id lookup_fails note s.notes)) [
        | inl e ↦ rw (notify_note_owner, on, e) (omega arith, tt)
        | inr (n, e) ↦ elim (Bool-cases (str_eq user n.created_by)) [
          | inl own ↦ rw (notify_note_owner, on, e, own) (omega arith, tt)
          | inr other ↦
              rw (notify_note_owner, on, e, other)
                (omega arith, ((other, owner-exists note s.notes n (ground (arith, e))), tt))
        ]
      ]
    ]

create-notes :
    (parse_uuid : String → Option String) (fails : Bool) (now : ℕ) (id note user : String)
    (req : CreateCommentRequest) (s s' : CommentStore) (c : Comment)
    → create parse_uuid fails now id note user req s ≡ ok (s', c)
    → s'.notes ≡ s.notes
unfolding create insert_comment
create-notes parse_uuid fails now id note user req s s' c e = ground (arith, e)

-- A comment is announced to at most one user, who created the note and is not the commenter,
-- whether it is stored or not and whatever fails.
pub create_comment-announces :
    (svc : CommentService) (fails lookup_fails : Bool) (now : ℕ) (id note user : String)
    (req : CreateCommentRequest) (s : CommentStore)
    → (length (create_comment svc fails lookup_fails now id note user req s).2 ≤ 1)
      × All
          (λ owner. (str_eq user owner ≡ false) × (exists (is_owner note owner) s.notes ≡ true))
          (create_comment svc fails lookup_fails now id note user req s).2
unfolding create_comment notify_note_owner get_by_id
create_comment-announces svc fails lookup_fails now id note user req s =
    elim (Result-cases (create svc.parse_uuid fails now id note user req s)) [
      | inr (bad, e) ↦ rw (create_comment, e) (omega arith, tt)
      | inl ((s', c), e) ↦
          rw (create_comment, e, ← create-notes svc.parse_uuid fails now id note user req s s' c e)
            (notify-owner svc lookup_fails note user s')
    ]
