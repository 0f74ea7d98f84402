-- ===== src/Share/Tests.antt =====
-- Two shared notes and their reactions, backend/internal/service/share_service.go.
use anynote.Base.{ℕ, ◌+◌, ◌≤◌, refl, true, false, some, List, [], ◌∷◌, String, arith}
use anynote.Share.{SharedNote, ShareStore}
use anynote.Share.Reactions.{ReactFaults}
use anynote.Share.Reactions.Counts.{IsConsistent, Toggle, run_toggles, run_toggles-IsConsistent}
use anynote.Share.Views.{ViewCall, shown, shown_le}

abbrev note : String → ℕ → ℕ → SharedNote
note id hearts created = record {
  id = id;
  encrypted_content = "content";
  encrypted_title = "title";
  share_key_hash = "";
  has_password = false;
  is_public = true;
  expires_at = some 50;
  view_count = 1;
  max_views = some 2;
  reaction_heart = hearts;
  reaction_bookmark = 0;
  created_by = "alice";
  created_at = created;
}

abbrev store : ShareStore
store = record {
  notes = note "a" 1 10 ∷ note "b" 0 20 ∷ [];
  reactions = record { shared_note_id = "a"; user_id = "bob"; reaction_type = "heart" } ∷ [];
}

store-IsConsistent : IsConsistent store
store-IsConsistent = record { unique = (refl, tt); counted = ((refl, refl), ((refl, refl), tt)) }

abbrev no_faults : ReactFaults
no_faults = record {
  find_fails = false;
  write_fails = false;
  counter_fails = false;
  read_fails = false;
}

abbrev toggles : List Toggle
toggles =
    record { user = "bob"; note = "a"; reaction_type = "heart" }
    ∷ record { user = "eve"; note = "b"; reaction_type = "bookmark" }
    ∷ record { user = "eve"; note = "b"; reaction_type = "smile" }
    ∷ []

run_toggles-IsConsistent_example : IsConsistent (run_toggles no_faults toggles store)
run_toggles-IsConsistent_example =
    run_toggles-IsConsistent no_faults toggles store
      (record { finds = refl; writes = refl; counts = refl; reads = refl }) store-IsConsistent

abbrev views : List ViewCall
views =
    record { id = "a"; now = 20; query_fails = false; increment_fails = false }
    ∷ record { id = "a"; now = 30; query_fails = false; increment_fails = false }
    ∷ record { id = "b"; now = 90; query_fails = false; increment_fails = false }
    ∷ []

shown_le_example : 1 + shown "a" views store ≤ 2
shown_le_example =
    shown_le "a" views store (note "a" 1 10) 2 refl refl (omega arith) (refl, (refl, (refl, tt)))
