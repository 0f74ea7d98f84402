-- ===== src/NoteLink/Graph.antt =====
-- The graph of a user's notes, and links that are created again:
-- backend/internal/repository/note_link_repository.go.
use anynote.Base.{
  ℕ, ◌≡◌, refl, sym, ◌∙◌, Bool, true, false, ◌||◌, some, List, [], ◌∷◌, ◌++◌, String, str_eq,
  eq_iff, eq_refl, select, exists, exists-order_desc, order_desc, map, inl, inr, arith, Bool-cases,
}
use anynote.NoteLink.{
  NoteLink, NoteLinkItem, NoteGraphResponse, is_same, is_of, link_of, insert_links, create_links,
  distinct, graph_nodes, get_graph,
}

abbrev pub is_listed : String → List String → Bool
is_listed n names = exists (λ m. str_eq m n) names

-- A note at an end of the link.
abbrev pub touches : String → NoteLink → Bool
touches n r = str_eq r.source_id n || str_eq r.target_id n

distinct-is_listed :
    (n : String) (names : List String) → is_listed n (distinct names) ≡ is_listed n names
unfolding distinct
distinct-is_listed n [] = refl
distinct-is_listed n (m ∷ names) =
    ground (arith, distinct-is_listed n names, distinct-is_listed m names, eq_iff m n)

append-is_listed :
    (n : String) (ms ns : List String) → is_listed n (ms ++ ns) ≡ (is_listed n ms || is_listed n ns)
append-is_listed n [] ns = refl
append-is_listed n (m ∷ ms) ns = ground (arith, append-is_listed n ms ns)

ends-touch :
    (n : String) (rows : List NoteLink)
    → (is_listed n (map (λ r. r.source_id) rows) || is_listed n (map (λ r. r.target_id) rows))
      ≡ exists (touches n) rows
ends-touch n [] = refl
ends-touch n (r ∷ rows) = ground (arith, ends-touch n rows)

-- No name stands twice.
abbrev pub AreDistinct : List String → Type 0
AreDistinct [] = Unit
AreDistinct (n ∷ names) = (is_listed n names ≡ false) × AreDistinct names

distinct-AreDistinct : (names : List String) → AreDistinct (distinct names)
unfolding distinct
distinct-AreDistinct [] = tt
distinct-AreDistinct (n ∷ names) = elim (Bool-cases (is_listed n (distinct names))) [
  | inl e ↦ rw e (distinct-AreDistinct names)
  | inr e ↦ rw e (e, distinct-AreDistinct names)
]

-- Where both queries work, the nodes of a user's graph are exactly the notes at the ends of its
-- edges, each of them once.
pub get_graph_lem :
    (user n : String) (rows : List NoteLink)
    → (g : NoteGraphResponse) × (get_graph false false user rows ≡ some g)
      × (is_listed n g.nodes ≡ exists (touches n) g.edges)
      × AreDistinct g.nodes
unfolding get_graph graph_nodes
get_graph_lem user n rows =
    let own = select (is_of user) rows in
    let sources = map (λ r. r.source_id) own in
    let targets = map (λ r. r.target_id) own in
    (
      record { nodes = graph_nodes own; edges = order_desc (λ r. r.created_at) own },
      refl,
      distinct-is_listed n (sources ++ targets)
          ∙ append-is_listed n sources targets
          ∙ ends-touch n own
          ∙ sym (exists-order_desc (touches n) (λ r. r.created_at) own),
      distinct-AreDistinct (sources ++ targets),
    )

-- The items are all in the table.
abbrev AreStored : String → List (String × NoteLinkItem) → List NoteLink → Type 0
AreStored user [] rows = Unit
AreStored user (l ∷ links) rows =
    (exists (is_same user l.1) rows ≡ true) × AreStored user links rows

exists-grows :
    (p : NoteLink → Bool) (rows more : List NoteLink)
    → exists p rows ≡ true
    → exists p (rows ++ more) ≡ true
exists-grows p [] more h = cc
exists-grows p (r ∷ rows) more h = ground (arith, h, exists-grows p rows more)

insert_links-grows :
    (user : String) (now : ℕ) (links : List (String × NoteLinkItem)) (p : NoteLink → Bool)
    (rows : List NoteLink)
    → exists p rows ≡ true
    → exists p (insert_links user now links rows).0 ≡ true
unfolding insert_links
insert_links-grows user now [] p rows h = h
insert_links-grows user now ((id, l) ∷ links) p rows h =
    elim (Bool-cases (exists (is_same user l) rows)) [
      | inl e ↦ rw e (insert_links-grows user now links p rows h)
      | inr e ↦
          let more = link_of id user now l ∷ [] in
          rw e (insert_links-grows user now links p (rows ++ more) (exists-grows p rows more h))
    ]

same-link_of :
    (id user : String) (now : ℕ) (l : NoteLinkItem) → is_same user l (link_of id user now l) ≡ true
same-link_of id user now l =
    rw (eq_refl user, eq_refl l.source_id, eq_refl l.target_id, eq_refl l.link_type) refl

exists-last :
    (p : NoteLink → Bool) (r : NoteLink) (rows : List NoteLink)
    → p r ≡ true
    → exists p (rows ++ r ∷ []) ≡ true
exists-last p r [] h = rw h refl
exists-last p r (x ∷ rows) h = ground (arith, exists-last p r rows h)

insert_links-AreStored :
    (user : String) (now : ℕ) (links : List (String × NoteLinkItem)) (rows : List NoteLink)
    → AreStored user links (insert_links user now links rows).0
unfolding insert_links
insert_links-AreStored user now [] rows = tt
insert_links-AreStored user now ((id, l) ∷ links) rows =
    elim (Bool-cases (exists (is_same user l) rows)) [
      | inl e ↦ rw e (
        insert_links-grows user now links (is_same user l) rows e,
        insert_links-AreStored user now links rows,
      )
      | inr e ↦
          let r = link_of id user now l in
          rw e (
            insert_links-grows user now links (is_same user l) (rows ++ r ∷ [])
                (exists-last (is_same user l) r rows (same-link_of id user now l)),
            insert_links-AreStored user now links (rows ++ r ∷ []),
          )
    ]

insert_links-again :
    (user : String) (now : ℕ) (links : List (String × NoteLinkItem)) (rows : List NoteLink)
    → AreStored user links rows
    → insert_links user now links rows ≡ (rows, [])
unfolding insert_links
insert_links-again user now [] rows h = refl
insert_links-again user now ((id, l) ∷ links) rows h =
    rw (insert_links, h.0, insert_links-again user now links rows h.1) refl

-- Creating links that were created before stores nothing and returns none of them.
pub create_links_twice :
    (user : String) (now later : ℕ) (l : String × NoteLinkItem)
    (links : List (String × NoteLinkItem)) (rows : List NoteLink)
    → create_links false user later (l ∷ links) (create_links false user now (l ∷ links) rows).0
      ≡ ((create_links false user now (l ∷ links) rows).0, some [])
unfolding create_links
create_links_twice user now later l links rows =
    let stored = insert_links-AreStored user now (l ∷ links) rows in
    rw
      (
        create_links,
        insert_links-again user later (l ∷ links) (insert_links user now (l ∷ links) rows).0 stored,
      )
      refl
