-- ===== src/Share/Views.antt =====
-- How often a share is shown, backend/internal/service/share_service.go (GetShare).
use anynote.Base.{
  ℕ, suc, ◌+◌, ◌≤◌, ◌≡◌, Bool, false, ◌&&◌, some, List, [], ◌∷◌, String, str_eq, eq_iff, is_ok,
  select_one, update, All, arith, if◌then◌else◌,
}
use anynote.Share.{SharedNote, ShareStore, has_id, viewed, get_share}

-- A request for a share, and whether its queries fail.
pub record ViewCall : Type 0 where
  pub id : String
  pub now : ℕ
  pub query_fails : Bool
  pub increment_fails : Bool

abbrev pub shows : String → ViewCall → ShareStore → Bool
shows id c s = str_eq c.id id && is_ok (get_share c.query_fails c.increment_fails c.id c.now s).1

-- How many of the requests show the share.
unfoldable pub shown : String → List ViewCall → ShareStore → ℕ
shown id [] s = 0
shown id (c ∷ cs) s =
    let rest = shown id cs (get_share c.query_fails c.increment_fails c.id c.now s).0 in
    if shows id c s then suc rest else rest

row-viewed :
    (id other : String) (notes : List SharedNote) (n : SharedNote)
    → select_one (has_id id) notes ≡ some n
    → select_one (has_id id) (update (has_id other) viewed notes)
      ≡ some (if str_eq other id then viewed n else n)
row-viewed id other [] n h = cc
row-viewed id other (r ∷ notes) n h =
    ground (arith, row-viewed id other notes n, eq_iff r.id id, eq_iff r.id other, eq_iff other id)

step-shown :
    (id : String) (c : ViewCall) (s : ShareStore) (n : SharedNote) (m : ℕ)
    → select_one (has_id id) s.notes ≡ some n
    → n.max_views ≡ some m
    → n.view_count ≤ m
    → c.increment_fails ≡ false
    → (n' : SharedNote) × (select_one
          (has_id id)
          (get_share c.query_fails c.increment_fails c.id c.now s).0.notes
        ≡ some n')
      × (n'.max_views ≡ some m)
      × (n'.view_count ≤ m)
      × (n'.view_count ≡ (if shows id c s then n.view_count + 1 else n.view_count))
unfolding get_share
step-shown id c s n m h e l f = (
  if shows id c s then viewed n else n,
  ground (arith, row-viewed id c.id s.notes n, eq_iff c.id id),
  ground arith,
  ground (arith, eq_iff c.id id),
  ground arith,
)

-- Where the view count can be written, a share with a limit is shown at most as often as its limit
-- leaves over, in any sequence of requests for it and for others, at any times and whatever lookups
-- fail.
pub shown_le :
    (id : String) (cs : List ViewCall) (s : ShareStore) (n : SharedNote) (m : ℕ)
    → select_one (has_id id) s.notes ≡ some n
    → n.max_views ≡ some m
    → n.view_count ≤ m
    → All (λ c. c.increment_fails ≡ false) cs
    → n.view_count + shown id cs s ≤ m
unfolding shown
shown_le id [] s n m h e l f = omega arith
shown_le id (c ∷ cs) s n m h e l f =
    let (n', h', e', l', v) = step-shown id c s n m h e l f.0 in
    let rest =
      shown_le id cs (get_share c.query_fails c.increment_fails c.id c.now s).0 n' m h' e' l' f.1 in
    ground (arith, rest)
