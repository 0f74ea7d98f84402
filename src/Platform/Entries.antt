-- ===== src/Platform/Entries.antt =====
-- The map of sign-in sessions of backend/internal/service/platform_service.go: each stands once, under the
-- key of its user, platform and reference, and the cleanup drops exactly those that are too old.
use anynote.Base.{
  ℕ, ◌≡◌, refl, Option, none, some, [], ◌∷◌, String, str_eq, eq_iff, lookup, insert, erase,
  lookup-insert, lookup-erase, inl, inr, arith, Bool-cases, if◌then◌else◌,
}
use anynote.Platform.Sessions.{
  Sessions, StoredAuthSession, cleanup_expired_sessions, auth_session_key, is_expired,
}

abbrev pub own_key : StoredAuthSession → String
own_key x = auth_session_key x.user_id x.platform x.auth_ref

abbrev pub IsKeyed : Sessions → Type 0
IsKeyed [] = Unit
IsKeyed ((k, x) ∷ sessions) = (k ≡ own_key x) × (lookup k sessions ≡ none) × IsKeyed sessions

pub insert-IsKeyed :
    (k : String) (x : StoredAuthSession) (sessions : Sessions)
    → k ≡ own_key x
    → IsKeyed sessions
    → IsKeyed (insert k x sessions)
insert-IsKeyed k x [] e h = (e, refl, tt)
insert-IsKeyed k x ((j, y) ∷ sessions) e h = elim (Bool-cases (str_eq j k)) [
  | inl same ↦
      let fresh : lookup k sessions ≡ none = ground (arith, h.1, same, eq_iff j k) in
      rw same (e, fresh, h.2)
  | inr other ↦
      let fresh : lookup j (insert k x sessions) ≡ none =
        ground (arith, h.1, other, lookup-insert k j x sessions, eq_iff j k, eq_iff k j) in
      rw other (h.0, fresh, insert-IsKeyed k x sessions e h.2)
]

pub erase-IsKeyed :
    (k : String) (sessions : Sessions) → IsKeyed sessions → IsKeyed (erase k sessions)
erase-IsKeyed k [] h = tt
erase-IsKeyed k ((j, y) ∷ sessions) h = elim (Bool-cases (str_eq j k)) [
  | inl same ↦ rw same (erase-IsKeyed k sessions h.2)
  | inr other ↦
      let fresh : lookup j (erase k sessions) ≡ none =
        ground (arith, h.1, lookup-erase k j sessions) in
      rw other (h.0, fresh, erase-IsKeyed k sessions h.2)
]

cleanup-none :
    (k : String) (now : ℕ) (sessions : Sessions)
    → lookup k sessions ≡ none
    → lookup k (cleanup_expired_sessions now sessions) ≡ none
unfolding cleanup_expired_sessions
cleanup-none k now [] h = refl
cleanup-none k now ((j, y) ∷ sessions) h = ground (arith, h, cleanup-none k now sessions)

pub cleanup-IsKeyed :
    (now : ℕ) (sessions : Sessions)
    → IsKeyed sessions
    → IsKeyed (cleanup_expired_sessions now sessions)
unfolding cleanup_expired_sessions
cleanup-IsKeyed now [] h = tt
cleanup-IsKeyed now ((j, y) ∷ sessions) h = elim (Bool-cases (is_expired now y)) [
  | inl old ↦ rw old (cleanup-IsKeyed now sessions h.2)
  | inr young ↦ rw young (h.0, cleanup-none j now sessions h.1, cleanup-IsKeyed now sessions h.2)
]

abbrev pub unless_expired : ℕ → Option StoredAuthSession → Option StoredAuthSession
unless_expired now none = none
unless_expired now (some x) = if is_expired now x then none else some x

pub lookup-cleanup :
    (k : String) (now : ℕ) (sessions : Sessions)
    → IsKeyed sessions
    → lookup k (cleanup_expired_sessions now sessions) ≡ unless_expired now (lookup k sessions)
unfolding cleanup_expired_sessions
lookup-cleanup k now [] h = refl
lookup-cleanup k now ((j, y) ∷ sessions) h =
    ground (arith, h.1, eq_iff j k, cleanup-none k now sessions, lookup-cleanup k now sessions h.2)

-- A session that is found stands under its own key.
pub lookup-own_key :
    (k : String) (x : StoredAuthSession) (sessions : Sessions)
    → IsKeyed sessions
    → lookup k sessions ≡ some x
    → k ≡ own_key x
lookup-own_key k x [] h e = ground (arith, e)
lookup-own_key k x ((j, y) ∷ sessions) h e = elim (Bool-cases (str_eq j k)) [
  | inl same ↦ ground (arith, h.0, e, same, eq_iff j k)
  | inr other ↦ lookup-own_key k x sessions h.2 (ground (arith, e, other))
]
