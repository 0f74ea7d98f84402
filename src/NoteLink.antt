-- ===== src/NoteLink.antt =====
-- Links between notes: backend/internal/service/note_link_service.go and
-- backend/internal/repository/note_link_repository.go. The user, the source, the target and the type of a
-- link are unique together. The service passes every call on; whether a query fails is a Boolean argument,
-- and a batch that fails stores nothing. The database draws ids and may list the nodes in any order.
pub mod Graph
use anynote.Base.{
  ℕ, Bool, true, false, ◌&&◌, ◌||◌, not, Option, none, some, List, [], ◌∷◌, ◌++◌, String, str_eq,
  select, delete, count, exists, map, order_desc, ◌==◌, if◌then◌else◌,
}

pub record NoteLink : Type 0 where
  pub id : String
  pub user_id : String
  pub source_id : String
  pub target_id : String
  pub link_type : String
  pub created_at : ℕ

pub record NoteLinkItem : Type 0 where
  pub source_id : String
  pub target_id : String
  pub link_type : String

pub record NoteGraphResponse : Type 0 where
  pub nodes : List String
  pub edges : List NoteLink

abbrev pub is_same : String → NoteLinkItem → NoteLink → Bool
is_same user l r =
    str_eq r.user_id user
    && str_eq r.source_id l.source_id
    && str_eq r.target_id l.target_id
    && str_eq r.link_type l.link_type

abbrev pub link_of : String → String → ℕ → NoteLinkItem → NoteLink
link_of id user now l = record {
  id = id;
  user_id = user;
  source_id = l.source_id;
  target_id = l.target_id;
  link_type = l.link_type;
  created_at = now;
}

-- The batch: the table and the rows that were inserted. Each item comes with the id that is drawn for it.
unfoldable pub insert_links :
    String → ℕ → List (String × NoteLinkItem) → List NoteLink → List NoteLink × List NoteLink
insert_links user now [] rows = (rows, [])
insert_links user now ((id, l) ∷ links) rows =
    let row = link_of id user now l in
    let new = not (exists (is_same user l) rows) in
    let (rows', inserted) = insert_links user now links (if new then rows ++ row ∷ [] else rows) in
    (rows', if new then row ∷ inserted else inserted)

unfoldable pub create_links :
    Bool
    → String
    → ℕ
    → List (String × NoteLinkItem)
    → List NoteLink
    → List NoteLink × Option (List NoteLink)
create_links fails user now [] rows = (rows, some [])
create_links fails user now (l ∷ links) rows =
    if fails
    then (rows, none)
    else let (rows', inserted) = insert_links user now (l ∷ links) rows in (rows', some inserted)

abbrev pub is_of : String → NoteLink → Bool
is_of user r = str_eq r.user_id user

-- ORDER BY created_at DESC
unfoldable pub get_backlinks : Bool → String → String → List NoteLink → Option (List NoteLink)
get_backlinks fails user note rows =
    if fails
    then none
    else some (
        order_desc (λ r. r.created_at) (select (λ r. is_of user r && str_eq r.target_id note) rows))

unfoldable pub get_outbound_links : Bool → String → String → List NoteLink → Option (List NoteLink)
get_outbound_links fails user note rows =
    if fails
    then none
    else some (
        order_desc (λ r. r.created_at) (select (λ r. is_of user r && str_eq r.source_id note) rows))

-- SELECT DISTINCT
unfoldable pub distinct : List String → List String
distinct [] = []
distinct (n ∷ names) =
    let rest = distinct names in if exists (λ m. str_eq m n) rest then rest else n ∷ rest

unfoldable pub graph_nodes : List NoteLink → List String
graph_nodes links = distinct (map (λ r. r.source_id) links ++ map (λ r. r.target_id) links)

-- The two queries may fail one by one.
unfoldable pub get_graph : Bool → Bool → String → List NoteLink → Option NoteGraphResponse
get_graph nodes_fail edges_fail user rows =
    if nodes_fail || edges_fail
    then none
    else some (record {
      nodes = graph_nodes (select (is_of user) rows);
      edges = order_desc (λ r. r.created_at) (select (is_of user) rows);
    })

abbrev pub is_link : String → String → String → NoteLink → Bool
is_link user source target r =
    is_of user r && str_eq r.source_id source && str_eq r.target_id target

unfoldable pub delete_link :
    Bool → String → String → String → List NoteLink → Option (List NoteLink)
delete_link fails user source target rows =
    if fails || (count (is_link user source target) rows == 0)
    then none
    else some (delete (is_link user source target) rows)
