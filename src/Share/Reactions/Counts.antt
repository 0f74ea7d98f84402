-- ===== src/Share/Reactions/Counts.antt =====
-- The counters of shared_notes against the rows of note_reactions,
-- backend/internal/repository/shared_note_repository.go (React).
use anynote.Base.{
  subst, ℕ, ◌+◌, ◌-◌, ◌≡◌, refl, inl, inr, true, false, ◌&&◌, List, [], ◌∷◌, ◌++◌, String, str_eq,
  eq_iff, update, delete, count, exists, All, arith, Bool-cases, if◌then◌else◌,
}
use anynote.Share.{SharedNote, Reaction, ShareStore, has_id}
use anynote.Share.Reactions.Rows.{
  is_on, Unique, same_type, same_row, delete-Unique, append-Unique, count-deleted, count-added,
}
use anynote.Share.Reactions.{
  ReactionType, heart, bookmark, counter, set_counter, is_reaction, decremented, incremented,
  ReactFaults, new_reaction, react, toggle_reaction,
}

-- A call with no failing query.
pub record IsFaultless (f : ReactFaults) : Type 0 where
  pub finds : f.find_fails ≡ false
  pub writes : f.write_fails ≡ false
  pub counts : f.counter_fails ≡ false
  pub reads : f.read_fails ≡ false

abbrev pub IsCounted : List Reaction → SharedNote → Type 0
IsCounted rs n =
    (n.reaction_heart ≡ count (is_on n.id heart) rs)
    × (n.reaction_bookmark ≡ count (is_on n.id bookmark) rs)

-- One row a reaction, and each counter the number of its reactions.
pub record IsConsistent (s : ShareStore) : Type 0 where
  pub unique : Unique s.reactions
  pub counted : All (IsCounted s.reactions) s.notes

-- The counters, where the counts of one note's reactions of one type change by `step`.
module _ (note : String) (step : ℕ → ℕ) (rs rs' : List Reaction) where
  Changes : ReactionType → Type 0
  Changes ty =
      (id : String) (ty' : ReactionType)
      → count (is_on id ty') rs' ≡ (
          if str_eq note id && same_type ty ty'
          then step (count (is_on id ty') rs)
          else count (is_on id ty') rs)

  update-IsCounted :
      (ty : ReactionType) (change : SharedNote → SharedNote)
      → Changes ty
      → ((n : SharedNote) → change n ≡ set_counter ty (step (counter ty n)) n)
      → (notes : List SharedNote) → All (IsCounted rs) notes
      → All (IsCounted rs') (update (has_id note) change notes)
  unfolding Changes
  update-IsCounted ty change c e [] h = tt
  update-IsCounted heart change c e (n ∷ notes) h = (
    ground (arith, c n.id heart, c n.id bookmark, e n, eq_iff n.id note, eq_iff note n.id, h.0),
    update-IsCounted heart change c e notes h.1,
  )
  update-IsCounted bookmark change c e (n ∷ notes) h = (
    ground (arith, c n.id heart, c n.id bookmark, e n, eq_iff n.id note, eq_iff note n.id, h.0),
    update-IsCounted bookmark change c e notes h.1,
  )

module _ (f : ReactFaults) (faultless : IsFaultless f) (note user : String)
    (ty : ReactionType) where
  -- The store after a reaction is taken back, or added to a note that exists.
  react-present :
      (s : ShareStore)
      → exists (is_reaction note user ty) s.reactions ≡ true
      → (react f note user ty s).0 ≡ record {
        notes = update (has_id note) (decremented ty) s.notes;
        reactions = delete (is_reaction note user ty) s.reactions;
      }
  unfolding react
  react-present s h =
      ground (arith, faultless.finds, faultless.writes, faultless.counts, faultless.reads)

  react-absent :
      (s : ShareStore)
      → exists (is_reaction note user ty) s.reactions ≡ false
      → exists (has_id note) s.notes ≡ true
      → (react f note user ty s).0 ≡ record {
        notes = update (has_id note) (incremented ty) s.notes;
        reactions = s.reactions ++ new_reaction note user ty ∷ [];
      }
  unfolding react
  react-absent s h e =
      ground (arith, faultless.finds, faultless.writes, faultless.counts, faultless.reads)

  react-missing :
      (s : ShareStore)
      → exists (is_reaction note user ty) s.reactions ≡ false
      → exists (has_id note) s.notes ≡ false
      → (react f note user ty s).0 ≡ s
  unfolding react
  react-missing s h e = ground (arith, faultless.finds, faultless.writes)

  is_reaction-same_row :
      (x : Reaction) → is_reaction note user ty x ≡ same_row (new_reaction note user ty) x
  is_reaction-same_row x = refl

  react-IsConsistent : (s : ShareStore) → IsConsistent s → IsConsistent (react f note user ty s).0
  react-IsConsistent s c = elim (Bool-cases (exists (is_reaction note user ty) s.reactions)) [
    | inl present ↦ rw (react-present s present) (record {
      unique = delete-Unique (is_reaction note user ty) s.reactions c.unique;
      counted =
          update-IsCounted note (λ n. n - 1) s.reactions
            (delete (is_reaction note user ty) s.reactions) ty (decremented ty)
            (unfold Changes in
              λ id ty'. count-deleted note user ty id ty' s.reactions c.unique present)
            (λ n. refl) s.notes c.counted;
    })
    | inr absent ↦ elim (Bool-cases (exists (has_id note) s.notes)) [
      | inl found ↦ rw (react-absent s absent found) (record {
        unique = append-Unique (new_reaction note user ty) s.reactions absent c.unique;
        counted =
            update-IsCounted note (λ n. n + 1) s.reactions
              (s.reactions ++ new_reaction note user ty ∷ []) ty (incremented ty)
              (unfold Changes in λ id ty'. count-added note user ty id ty' s.reactions) (λ n. refl)
              s.notes c.counted;
      })
      | inr gone ↦ rw (react-missing s absent gone) c
    ]
  ]

-- A user's toggle of a reaction.
pub record Toggle : Type 0 where
  pub user : String
  pub note : String
  pub reaction_type : String

unfoldable pub run_toggles : ReactFaults → List Toggle → ShareStore → ShareStore
run_toggles f [] s = s
run_toggles f (t ∷ ts) s = run_toggles f ts (toggle_reaction f t.user t.note t.reaction_type s).0

toggle-IsConsistent :
    (f : ReactFaults) (t : Toggle) (s : ShareStore)
    → IsFaultless f
    → IsConsistent s
    → IsConsistent (toggle_reaction f t.user t.note t.reaction_type s).0
unfolding toggle_reaction
toggle-IsConsistent f t s faultless c = ground (
  arith,
  react-IsConsistent f faultless t.note t.user heart s c,
  react-IsConsistent f faultless t.note t.user bookmark s c,
)

-- Where no query fails, any sequence of toggles, by any users, on any notes and of any type, keeps
-- one row for each reaction, and keeps each counter of each note the number of its reactions.
pub run_toggles-IsConsistent :
    (f : ReactFaults) (ts : List Toggle) (s : ShareStore)
    → IsFaultless f
    → IsConsistent s
    → IsConsistent (run_toggles f ts s)
unfolding run_toggles
run_toggles-IsConsistent f [] s faultless c = c
run_toggles-IsConsistent f (t ∷ ts) s faultless c =
    run_toggles-IsConsistent f ts _ faultless (toggle-IsConsistent f t s faultless c)

drift-IsCounted :
    (note : String) (ty : ReactionType) (rs : List Reaction) (notes : List SharedNote)
    → exists (has_id note) notes ≡ true
    → All (IsCounted rs) notes
    → All (IsCounted rs) (update (has_id note) (incremented ty) notes)
    → ⊥
drift-IsCounted note ty rs [] e h h' = cc
drift-IsCounted note heart rs (n ∷ notes) e h h' =
    ground (arith, h.0, h'.0, drift-IsCounted note heart rs notes)
drift-IsCounted note bookmark rs (n ∷ notes) e h h' =
    ground (arith, h.0, h'.0, drift-IsCounted note bookmark rs notes)

-- Where the query for a reaction fails and the writes do not, a toggle of a reaction that is there
-- already, to a note that exists, is taken for a new one, and the counters are no longer the numbers
-- of the reactions.
pub react_drifts :
    (f : ReactFaults) (note user : String) (ty : ReactionType) (s : ShareStore)
    → f.find_fails ≡ true
    → f.write_fails ≡ false
    → f.counter_fails ≡ false
    → exists (is_reaction note user ty) s.reactions ≡ true
    → exists (has_id note) s.notes ≡ true
    → IsConsistent s
    → ¬ IsConsistent (react f note user ty s).0
react_drifts f note user ty s ff fw fc present found c c' =
    drift-IsCounted note ty s.reactions s.notes found c.counted (
      let same : (react f note user ty s).0
          ≡ record s { notes = update (has_id note) (incremented ty) s.notes } =
        unfold react in ground arith in
      subst (λ x. All (IsCounted x.reactions) x.notes) same c'.counted)
