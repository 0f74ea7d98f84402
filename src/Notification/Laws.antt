-- ===== src/Notification/Laws.antt =====
-- Reading and counting notifications, backend/internal/service/notification_service.go.
use anynote.Base.{
  ℕ, ◌+◌, ◌≤◌, ◌≡◌, refl, ◌∙◌, ap, Bool, true, false, ◌&&◌, not, Option, List, [], ◌∷◌, String,
  str_eq, eq_iff, ok, select, update, count, count-snoc, exists, take, drop, All, length,
  length-take, order_desc, order_desc-All, order_desc-IsDescending, take-IsDescending,
  drop-IsDescending, IsDescending, All-take, All-drop, if◌then◌else◌, inl, inr, arith, Bool-cases,
}
use anynote.Base.Int.{ℤ}
use anynote.Notification.{
  Notification, NotificationStore, is_of, is_unread, as_read, unread_count, create,
  create_notification, mark_all_rows_read, mark_all_read, get_unread_count, page_limit, page_offset,
  get_by_user, list_notifications, valid_notification_types, is_user, payload_or_empty,
}

-- A call of CreateNotification.
pub record Creation : Type 0 where
  pub fails : Bool
  pub now : ℕ
  pub id : String
  pub user : String
  pub type : String
  pub title : String
  pub body : String
  pub payload : Option String

abbrev pub create_one : Creation → NotificationStore → NotificationStore
create_one c s = (create_notification c.fails c.now c.id c.user c.type c.title c.body c.payload s).0

abbrev pub create_all : List Creation → NotificationStore → NotificationStore
create_all [] s = s
create_all (c ∷ cs) s = create_all cs (create_one c s)

-- A known type, a user that exists and an INSERT that works.
abbrev pub is_created : NotificationStore → String → Creation → Bool
is_created s v c =
    str_eq c.user v
    && exists (λ t. str_eq t c.type) valid_notification_types
    && not c.fails
    && exists (is_user c.user) s.users

create_one-users : (c : Creation) (s : NotificationStore) → (create_one c s).users ≡ s.users
unfolding create_notification create
create_one-users c s = ground arith

create_one-unread :
    (v : String) (c : Creation) (s : NotificationStore)
    → unread_count v (create_one c s).rows
      ≡ unread_count v s.rows + (if is_created s v c then 1 else 0)
unfolding unread_count create_notification create valid_notification_types
create_one-unread v c s = ground (
  arith,
  count-snoc (is_unread v)
      (record {
        id = c.id;
        user_id = c.user;
        type = c.type;
        title = c.title;
        body = c.body;
        payload = payload_or_empty c.payload;
        is_read = false;
        created_at = c.now;
      })
      s.rows,
)

created-count :
    (v : String) (cs : List Creation) (s : NotificationStore)
    → unread_count v (create_all cs s).rows ≡ unread_count v s.rows + count (is_created s v) cs
created-count v [] s = omega arith
created-count v (c ∷ cs) s =
    let users = create_one-users c s in
    let rest = created-count v cs (create_one c s) in
    let same : count (is_created (create_one c s) v) cs ≡ count (is_created s v) cs =
      counted cs users in
    ground (arith, rest, same, create_one-unread v c s)
  where
    counted :
        (cs : List Creation)
        → (create_one c s).users ≡ s.users
        → count (is_created (create_one c s) v) cs ≡ count (is_created s v) cs
    counted [] e = refl
    counted (d ∷ cs) e = rw (e, counted cs e) refl

marked-unread :
    (user v : String) (rows : List Notification)
    → unread_count v (update (is_unread user) as_read rows)
      ≡ (if str_eq v user then 0 else unread_count v rows)
unfolding unread_count
marked-unread user v [] = ground arith
marked-unread user v (n ∷ rows) =
    ground
      (arith, marked-unread user v rows, eq_iff n.user_id user, eq_iff n.user_id v, eq_iff v user)

-- After a user marks everything as read, and then any notifications are created for anyone, the
-- unread count of every user is that of the notifications created for them since, those of an
-- unknown type, for no user or with a failed query left out; for the others with what was unread before.
pub unread_since_lem :
    (user v : String) (cs : List Creation) (s : NotificationStore)
    → get_unread_count false v (create_all cs (mark_all_read false user s).0)
      ≡ ok ((if str_eq v user then 0 else unread_count v s.rows) + count (is_created s v) cs)
unfolding get_unread_count mark_all_read mark_all_rows_read
unread_since_lem user v cs s =
    let s' = record s { rows = update (is_unread user) as_read s.rows } in
    ap ok (
      created-count v cs s' ∙ ap (λ k. k + count (is_created s v) cs) (marked-unread user v s.rows))

select-is_of :
    (user : String) (rows : List Notification)
    → All (λ n. is_of user n ≡ true) (select (is_of user) rows)
select-is_of user [] = tt
select-is_of user (n ∷ rows) = elim (Bool-cases (is_of user n)) [
  | inl e ↦ rw e (e, select-is_of user rows)
  | inr e ↦ rw e (select-is_of user rows)
]

page_limit-le : (limit : ℤ) → page_limit limit ≤ 100
unfolding page_limit
page_limit-le limit = ground arith

-- Where the query works, a page is of the user's own notifications, newest first, and at most 100 of
-- them, whatever limit and offset are asked for.
pub list_notifications_lem :
    (user : String) (limit offset : ℤ) (s : NotificationStore)
    → (page : List Notification) × (list_notifications false user limit offset s ≡ ok page)
      × (length page ≤ 100)
      × All (λ n. is_of user n ≡ true) page
      × IsDescending (λ n. n.created_at) page
unfolding list_notifications get_by_user
list_notifications_lem user limit offset s =
    let own = order_desc (λ n. n.created_at) (select (is_of user) s.rows) in
    let tail = drop (page_offset offset) own in
    (
      take (page_limit limit) tail,
      refl,
      omega (arith, length-take (page_limit limit) tail, page_limit-le limit),
      All-take (λ n. is_of user n ≡ true) (page_limit limit) tail
          (All-drop (λ n. is_of user n ≡ true) (page_offset offset) own
            (order_desc-All (λ n. is_of user n ≡ true) (λ n. n.created_at)
              (select (is_of user) s.rows) (select-is_of user s.rows))),
      take-IsDescending (λ n. n.created_at) (page_limit limit) tail
          (drop-IsDescending (λ n. n.created_at) (page_offset offset) own
            (order_desc-IsDescending (λ n. n.created_at) (select (is_of user) s.rows))),
    )
