-- ===== src/Publish/Tables.antt =====
-- The tables of publishing: backend/internal/repository/publish_log_repository.go. `id` is unique in
-- publish_logs. Each query may fail, which is a Boolean argument.
use anynote.Base.{
  ℕ, ◌+◌, ◌*◌, Bool, true, false, ◌&&◌, ◌||◌, not, Option, none, some, List, [], ◌∷◌, ◌++◌, String,
  str_eq, select, select_one, update, exists, take, order_desc, ltb, ◌==◌, if◌then◌else◌,
}

-- A row of post_stats.
pub record PostStats : Type 0 where
  pub id : ℕ
  pub publish_id : String
  pub views : ℕ
  pub likes : ℕ
  pub comments : ℕ
  pub fetched_at : ℕ

-- A row of publish_logs, with the latest statistics that a reader attaches. `none` is NULL, which the
-- driver does not scan into a string.
pub record PublishLog : Type 0 where
  pub id : String
  pub user_id : String
  pub platform : String
  pub title : String
  pub content : String
  pub status : String
  pub platform_url : Option String
  pub platform_post_id : String
  pub error_message : Option String
  pub published_at : Option ℕ
  pub created_at : ℕ
  pub stats : Option PostStats

abbrev pub has_id : String → PublishLog → Bool
has_id id l = str_eq l.id id

-- The INSERT fails where the id is taken.
unfoldable pub create_log : Bool → PublishLog → List PublishLog → List PublishLog × Bool
create_log fails log logs =
    if fails || exists (has_id log.id) logs then (logs, false) else (logs ++ log ∷ [], true)

-- `Scan` of a row into a `domain.PublishLog`.
abbrev is_some_text : Option String → Bool
is_some_text none = false
is_some_text (some _) = true

unfoldable pub scan : PublishLog → Option PublishLog
scan l = if is_some_text l.platform_url && is_some_text l.error_message then some l else none

abbrev scan_one : Option PublishLog → Option PublishLog
scan_one none = none
scan_one (some l) = scan l

unfoldable pub scan_all : List PublishLog → Option (List PublishLog)
scan_all [] = some []
scan_all (l ∷ logs) =
    let rest = scan_all logs in
    elim (scan l) [
      | none ↦ none
      | some l' ↦ elim rest [ none ↦ none | some logs' ↦ some (l' ∷ logs') ]
    ]

unfoldable pub get_log : Bool → String → List PublishLog → Option PublishLog
get_log fails id logs = if fails then none else scan_one (select_one (has_id id) logs)

-- ORDER BY created_at DESC
unfoldable pub list_by_user : Bool → String → List PublishLog → Option (List PublishLog)
list_by_user fails user logs =
    if fails
    then none
    else scan_all (order_desc (λ l. l.created_at) (select (λ l. str_eq l.user_id user) logs))

abbrev pub with_status : String → String → String → ℕ → PublishLog → PublishLog
with_status status message url now l = record l {
  status = status;
  error_message = some message;
  platform_url = some url;
  published_at = if str_eq status "published" then some now else l.published_at;
}

-- PostgreSQL prepares a statement only where its text uses every parameter that has an argument: it
-- cannot tell the type of another.
abbrev pub are_used : List ℕ → List ℕ → Bool
are_used [] used = true
are_used (argument ∷ arguments) used = exists (λ u. u == argument) used && are_used arguments used

-- The statement has five arguments and does not use $2.
unfoldable pub update_status :
    Bool → String → String → String → String → ℕ → List PublishLog → List PublishLog
update_status fails id status message url now logs =
    if not (are_used (1 ∷ 2 ∷ 3 ∷ 4 ∷ 5 ∷ []) (1 ∷ 3 ∷ 4 ∷ 5 ∷ [])) || fails
    then logs
    else update (has_id id) (with_status status message url now) logs

abbrev pub with_post_id : String → PublishLog → PublishLog
with_post_id post l = record l { platform_post_id = post }

-- Of six arguments, $2 is not used.
unfoldable pub update_status_with_post_id :
    Bool → String → String → String → String → String → ℕ → List PublishLog → List PublishLog
update_status_with_post_id fails id status message url post now logs =
    if not (are_used (1 ∷ 2 ∷ 3 ∷ 4 ∷ 5 ∷ 6 ∷ []) (1 ∷ 3 ∷ 4 ∷ 5 ∷ 6 ∷ [])) || fails
    then logs
    else update (has_id id) (λ l. with_post_id post (with_status status message url now l)) logs

unfoldable pub get_by_id_and_user : Bool → String → String → List PublishLog → Option PublishLog
get_by_id_and_user fails id user logs =
    if fails
    then none
    else scan_one (select_one (λ l. str_eq l.id id && str_eq l.user_id user) logs)

unfoldable pub set_platform_post_id : Bool → String → String → List PublishLog → List PublishLog
set_platform_post_id fails id post logs =
    if fails then logs else update (has_id id) (with_post_id post) logs

abbrev pub day : ℕ
day = 86_400_000_000_000

-- created_at > NOW() - make_interval(days => $1)
abbrev pub is_recent : ℕ → ℕ → PublishLog → Bool
is_recent days now l =
    str_eq l.status "published"
    && not (str_eq l.platform_post_id "")
    && ltb now (l.created_at + days * day)

unfoldable pub list_recent_published_with_post_id :
    Bool → ℕ → ℕ → List PublishLog → Option (List PublishLog)
list_recent_published_with_post_id fails days now logs =
    if fails then none else scan_all (select (is_recent days now) logs)

abbrev pub of_publish : String → PostStats → Bool
of_publish id st = str_eq st.publish_id id

-- `row` has the next id of the sequence.
unfoldable pub insert_post_stats : PostStats → List PostStats → List PostStats
insert_post_stats row stats = stats ++ row ∷ []

abbrev first_row : List PostStats → Option PostStats
first_row [] = none
first_row (st ∷ _) = some st

-- ORDER BY fetched_at DESC LIMIT 1
unfoldable pub latest_post_stats : Bool → String → List PostStats → Option PostStats
latest_post_stats fails id stats =
    if fails
    then none
    else first_row (order_desc (λ st. st.fetched_at) (select (of_publish id) stats))

abbrev pub newest : String → ℕ → List PostStats → List PostStats
newest id keep stats = take keep (order_desc (λ st. st.fetched_at) (select (of_publish id) stats))

-- DELETE ... WHERE publish_id = $1 AND id NOT IN (the newest)
unfoldable pub trim_post_stats : String → ℕ → List PostStats → List PostStats
trim_post_stats id keep stats =
    let kept = newest id keep stats in
    select (λ st. not (of_publish id st && not (exists (λ k. k.id == st.id) kept))) stats
