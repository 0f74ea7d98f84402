-- ===== src/Platform/Unique.antt =====
-- The keys of the table platform_connections under its writes,
-- backend/internal/repository/platform_connection_repository.go.
use anynote.Base.{
  ℕ, ◌≡◌, refl, Bool, true, false, none, some, [], ◌∷◌, ◌++◌, String, eq_iff, select, update,
  exists, exists-snoc, inl, inr, arith, Bool-cases, if◌then◌else◌,
}
use anynote.Platform.Connections.{
  PlatformConnection, has_id, is_connection, is_own, overwritten, inserted, create, delete_by_id,
  update_connection, get_by_platform,
}
use anynote.Platform.Service.{Connections}

-- No id and no pair of user and platform stands twice.
abbrev pub IsUnique : Connections → Type 0
IsUnique [] = Unit
IsUnique (c ∷ rows) =
    (exists (has_id c.id) rows ≡ false)
    × (exists (is_connection c.user_id c.platform) rows ≡ false)
    × IsUnique rows

exists-select :
    (p q : PlatformConnection → Bool) (rows : Connections)
    → exists p rows ≡ false
    → exists p (select q rows) ≡ false
exists-select p q [] h = refl
exists-select p q (c ∷ rows) h = ground (arith, exists-select p q rows)

select-IsUnique :
    (q : PlatformConnection → Bool) (rows : Connections) → IsUnique rows → IsUnique (select q rows)
select-IsUnique q [] u = tt
select-IsUnique q (c ∷ rows) u = elim (Bool-cases (q c)) [
  | inl e ↦ rw e (
    exists-select (has_id c.id) q rows u.0,
    exists-select (is_connection c.user_id c.platform) q rows u.1,
    select-IsUnique q rows u.2,
  )
  | inr e ↦ rw e (select-IsUnique q rows u.2)
]

module _ (now : ℕ) (c : PlatformConnection) where
  exists-update_id :
      (id : String) (rows : Connections)
      → exists (has_id id) (update (is_own c) (overwritten now c) rows) ≡ exists (has_id id) rows
  exists-update_id id [] = refl
  exists-update_id id (r ∷ rows) = ground (arith, exists-update_id id rows)

  exists-update_pair :
      (u p : String) (rows : Connections)
      → exists (is_connection u p) (update (is_own c) (overwritten now c) rows)
        ≡ exists (is_connection u p) rows
  exists-update_pair u p [] = refl
  exists-update_pair u p (r ∷ rows) = ground (arith, exists-update_pair u p rows)

  update-IsUnique :
      (rows : Connections) → IsUnique rows → IsUnique (update (is_own c) (overwritten now c) rows)
  update-IsUnique [] u = tt
  update-IsUnique (r ∷ rows) u = elim (Bool-cases (is_own c r)) [
    | inl e ↦
        rw (e, exists-update_id r.id rows, exists-update_pair r.user_id r.platform rows)
          (u.0, u.1, update-IsUnique rows u.2)
    | inr e ↦
        rw (e, exists-update_id r.id rows, exists-update_pair r.user_id r.platform rows)
          (u.0, u.1, update-IsUnique rows u.2)
  ]

snoc-IsUnique :
    (c : PlatformConnection) (rows : Connections)
    → IsUnique rows
    → exists (has_id c.id) rows ≡ false
    → exists (is_connection c.user_id c.platform) rows ≡ false
    → IsUnique (rows ++ c ∷ [])
snoc-IsUnique c [] u h k = (refl, refl, tt)
snoc-IsUnique c (r ∷ rows) u h k = (
  ground (arith, u.0, h, exists-snoc (has_id r.id) c rows, eq_iff r.id c.id, eq_iff c.id r.id),
  ground (
    arith,
    u.1,
    k,
    exists-snoc (is_connection r.user_id r.platform) c rows,
    eq_iff r.user_id c.user_id,
    eq_iff c.user_id r.user_id,
    eq_iff r.platform c.platform,
    eq_iff c.platform r.platform,
  ),
  snoc-IsUnique c rows u.2 (ground (arith, h)) (ground (arith, k)),
)

pub absent :
    (u p : String) (rows : Connections)
    → get_by_platform false u p rows ≡ none
    → exists (is_connection u p) rows ≡ false
unfolding get_by_platform
absent u p [] h = refl
absent u p (c ∷ rows) h = ground (arith, h, absent u p rows)

pub create-IsUnique :
    (fails : Bool) (now : ℕ) (c : PlatformConnection) (rows rows' : Connections)
    → IsUnique rows
    → create fails now c rows ≡ some rows'
    → IsUnique rows'
unfolding create
create-IsUnique fails now c rows rows' u e = elim (Bool-cases (exists (has_id c.id) rows)) [
  | inl taken ↦ ground (arith, e, taken)
  | inr free ↦ elim (Bool-cases (exists (is_connection c.user_id c.platform) rows)) [
    | inl taken ↦ ground (arith, e, taken)
    | inr free' ↦
        let new = snoc-IsUnique (inserted now c) rows u free free' in
        ground (arith, e, free, free', new)
  ]
]

pub update_connection-IsUnique :
    (fails : Bool) (now : ℕ) (c : PlatformConnection) (rows rows' : Connections)
    → IsUnique rows
    → update_connection fails now c rows ≡ some rows'
    → IsUnique rows'
unfolding update_connection
update_connection-IsUnique fails now c rows rows' u e =
    let new = update-IsUnique now c rows u in ground (arith, e, new)

pub delete_by_id-IsUnique :
    (fails : Bool) (id : String) (rows rows' : Connections)
    → IsUnique rows
    → delete_by_id fails id rows ≡ some rows'
    → IsUnique rows'
unfolding delete_by_id
delete_by_id-IsUnique fails id rows rows' u e =
    let new = select-IsUnique (λ r. if has_id id r then false else true) rows u in
    ground (arith, e, new)
