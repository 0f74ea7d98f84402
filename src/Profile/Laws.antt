-- ===== src/Profile/Laws.antt =====
-- What others see of a profile after an update, backend/internal/service/profile_service.go.
use anynote.Base.{
  ℕ, ◌≡◌, refl, Bool, true, false, none, some, List, [], ◌∷◌, String, str_eq, eq_iff, eq_refl,
  Result, ok, err, select_one, update, exists, if◌then◌else◌, inl, inr, arith, Bool-cases,
}
use anynote.Profile.{
  UserProfile, PublicProfile, ProfileError, profile_not_found, profile_of, is_public, has_id,
  with_profile, get_public_profile, update_profile, public_profile_row, update_profile_row,
}

-- No id and no username stands twice.
abbrev pub IsUnique : List UserProfile → Type 0
IsUnique [] = Unit
IsUnique (u ∷ users) =
    (exists (has_id u.id) users ≡ false)
    × (exists (λ v. str_eq v.username u.username) users ≡ false)
    × IsUnique users

not_public :
    (username : String) (users : List UserProfile)
    → exists (λ v. str_eq v.username username) users ≡ false
    → select_one (is_public username) users ≡ none
not_public username [] h = refl
not_public username (u ∷ users) h = ground (arith, h, not_public username users)

update-absent :
    (now : ℕ) (id name bio : String) (enabled : Bool) (users : List UserProfile)
    → exists (has_id id) users ≡ false
    → update (has_id id) (with_profile now name bio enabled) users ≡ users
update-absent now id name bio enabled [] h = refl
update-absent now id name bio enabled (u ∷ users) h =
    ground (arith, h, update-absent now id name bio enabled users)

exists-id :
    (u : UserProfile) (id : String) (users : List UserProfile)
    → select_one (has_id id) users ≡ some u
    → exists (λ v. str_eq v.username u.username) users ≡ true
exists-id u id [] h = cc
exists-id u id (v ∷ users) h = elim (Bool-cases (has_id id v)) [
  | inl e ↦ let same : v ≡ u = ground (arith, e, h) in rw (same, eq_refl u.username) refl
  | inr e ↦ ground (arith, e, exists-id u id users (ground (arith, e, h)))
]

module _ (now : ℕ) (id name bio : String) (enabled : Bool) where
  -- What anyone is shown of a user after the update.
  abbrev pub shown : UserProfile → Result ProfileError PublicProfile
  shown u =
      if enabled
      then ok (profile_of (with_profile now name bio enabled u))
      else err profile_not_found

  row-updated :
      (u : UserProfile) (users : List UserProfile)
      → IsUnique users
      → select_one (has_id id) users ≡ some u
      → select_one
          (is_public u.username)
          (update (has_id id) (with_profile now name bio enabled) users)
        ≡ (if enabled then some (with_profile now name bio enabled u) else none)
  row-updated u [] d h = cc
  row-updated u (v ∷ users) d h = elim (Bool-cases (has_id id v)) [
    | inl e ↦
        let same : v ≡ u = ground (arith, e, h) in
        let key : id ≡ u.id = ground (arith, e, same, eq_iff v.id id) in
        let gone : exists (has_id id) users ≡ false = rw (key, ← same) d.0 in
        let hidden = not_public u.username users (rw (← same) d.1) in
        let rest = update-absent now id name bio enabled users gone in
        rw (e, same, eq_refl u.username, rest) (ground (arith, hidden))
    | inr e ↦
        let found : select_one (has_id id) users ≡ some u = ground (arith, e, h) in
        let here = exists-id u id users found in
        let differ : str_eq v.username u.username ≡ false =
          ground (arith, d.1, here, eq_iff v.username u.username) in
        rw (e, differ) (row-updated u users d.2 found)
  ]

  -- Where no query fails, after a user's update everyone sees the new profile of the user under the
  -- username where it is made public, and none where it is not, whatever it was before.
  pub update_then_show :
      (u : UserProfile) (users : List UserProfile)
      → IsUnique users
      → select_one (has_id id) users ≡ some u
      → get_public_profile false u.username (update_profile false now id name bio enabled users).0
        ≡ shown u
  unfolding get_public_profile public_profile_row update_profile update_profile_row
  update_then_show u users d h = elim (Bool-cases enabled) [
    | inl e ↦ ground (arith, e, row-updated u users d h)
    | inr e ↦ ground (arith, e, row-updated u users d h)
  ]
