-- ===== src/Profile.antt =====
-- Public profiles: backend/internal/service/profile_service.go and
-- backend/internal/repository/profile_repository.go, over the columns of users that they use. `id` and
-- `username` are unique; none is NULL. Whether a query fails is a Boolean argument.
pub mod Laws
use anynote.Base.{
  ℕ, Bool, true, false, ◌&&◌, Option, none, some, List, String, str_eq, Result, ok, err, select_one,
  update, if◌then◌else◌,
}

pub record UserProfile : Type 0 where
  pub id : String
  pub username : String
  pub display_name : Option String
  pub bio : Option String
  pub plan : Option String
  pub public_profile_enabled : Option Bool
  pub updated_at : ℕ

pub record PublicProfile : Type 0 where
  pub username : String
  pub display_name : String
  pub bio : String
  pub plan : String
  pub public_enabled : Bool

pub data ProfileError : Type 0 where
  profile_not_found database : ProfileError

-- COALESCE
abbrev pub coalesce : {A : Type 0} → Option A → A → A
coalesce none a = a
coalesce (some b) a = b

abbrev pub profile_of : UserProfile → PublicProfile
profile_of u = record {
  username = u.username;
  display_name = coalesce u.display_name "";
  bio = coalesce u.bio "";
  plan = coalesce u.plan "free";
  public_enabled = coalesce u.public_profile_enabled false;
}

abbrev found : Option UserProfile → Option PublicProfile
found none = none
found (some u) = some (profile_of u)

abbrev pub is_public : String → UserProfile → Bool
is_public username u = str_eq u.username username && coalesce u.public_profile_enabled false

abbrev pub has_id : String → UserProfile → Bool
has_id id u = str_eq u.id id

unfoldable pub public_profile_row : Bool → String → List UserProfile → Option PublicProfile
public_profile_row fails username users =
    if fails then none else found (select_one (is_public username) users)

abbrev pub with_profile : ℕ → String → String → Bool → UserProfile → UserProfile
with_profile now name bio enabled u = record u {
  display_name = some name;
  bio = some bio;
  public_profile_enabled = some enabled;
  updated_at = now;
}

unfoldable pub update_profile_row :
    Bool → ℕ → String → String → String → Bool → List UserProfile → Option (List UserProfile)
update_profile_row fails now id name bio enabled users =
    if fails then none else some (update (has_id id) (with_profile now name bio enabled) users)

unfoldable pub profile_row_by_id : Bool → String → List UserProfile → Option PublicProfile
profile_row_by_id fails id users = if fails then none else found (select_one (has_id id) users)

unfoldable pub get_public_profile :
    Bool → String → List UserProfile → Result ProfileError PublicProfile
get_public_profile fails username users = elim (public_profile_row fails username users) [
  | none ↦ err profile_not_found
  | some p ↦ ok p
]

unfoldable pub update_profile :
    Bool
    → ℕ
    → String
    → String
    → String
    → Bool
    → List UserProfile
    → List UserProfile × Result ProfileError (Unit {0})
update_profile fails now id name bio enabled users =
    elim (update_profile_row fails now id name bio enabled users) [
      | none ↦ (users, err database)
      | some users' ↦ (users', ok tt)
    ]

unfoldable pub get_own_profile :
    Bool → String → List UserProfile → Result ProfileError PublicProfile
get_own_profile fails id users = elim (profile_row_by_id fails id users) [
  | none ↦ err database
  | some p ↦ ok p
]
