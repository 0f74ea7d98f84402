-- ===== src/Auth/Rotation.antt =====
-- The rows of refresh tokens under backend/internal/repository/refresh_token_repository.go.
use anynote.Base.{
  ℕ, ◌*◌, ◌≤◌, ◌<◌, ◌≡◌, ◌⊎◌, inl, inr, Bool, true, false, ◌&&◌, not, some, List, [], ◌∷◌, String,
  select_one, select_one-append, update, delete, arith, ltb, Bool-cases, if◌then◌else◌,
}
use anynote.Auth.{second}
use anynote.Auth.Tables.{RefreshToken, has_token, store_token, revoked, revoke_token, purge_expired}

-- A refresh token that can no longer be used: it has expired, or its row is there and revoked, and
-- will be until the token has expired.
abbrev pub Spent : String → ℕ → ℕ → List RefreshToken → Type 0
Spent jti exp clock tokens =
    (exp * second < clock)
    ⊎ (t : RefreshToken) × (select_one (has_token jti) tokens ≡ some t)
      × (t.revoked ≡ true)
      × (exp * second ≤ t.expires_at)

row-store :
    (fails : Bool) (user new jti : String) (e : ℕ) (tokens : List RefreshToken) (t : RefreshToken)
    → select_one (has_token jti) tokens ≡ some t
    → select_one (has_token jti) (store_token fails user new e tokens) ≡ some t
unfolding store_token
row-store fails user new jti e tokens t h = ground (
  arith,
  select_one-append (has_token jti)
      (record { user_id = user; token_id = new; expires_at = e; revoked = false }) t tokens,
)

pub row-revoke :
    (other jti : String) (tokens : List RefreshToken) (t : RefreshToken)
    → select_one (has_token jti) tokens ≡ some t
    → select_one (has_token jti) (update (λ r. has_token other r && not r.revoked) revoked tokens)
      ≡ some (if has_token other t && not t.revoked then revoked t else t)
row-revoke other jti [] t h = cc
row-revoke other jti (r ∷ tokens) t h = ground (arith, row-revoke other jti tokens t)

row-purge :
    (now : ℕ) (jti : String) (tokens : List RefreshToken) (t : RefreshToken)
    → select_one (has_token jti) tokens ≡ some t
    → now ≤ t.expires_at
    → select_one (has_token jti) (delete (λ r. ltb r.expires_at now) tokens) ≡ some t
row-purge now jti [] t h l = cc
row-purge now jti (r ∷ tokens) t h l = ground (arith, row-purge now jti tokens t)

module _ (jti : String) (exp : ℕ) where
  pub store-Spent :
      (clock : ℕ) (fails : Bool) (user new : String) (e : ℕ) (tokens : List RefreshToken)
      → Spent jti exp clock tokens
      → Spent jti exp clock (store_token fails user new e tokens)
  store-Spent clock fails user new e tokens (inl late) = inl late
  store-Spent clock fails user new e tokens (inr (t, h, r, l)) =
      inr (t, row-store fails user new jti e tokens t h, r, l)

  pub revoke-Spent :
      (clock : ℕ) (fails : Bool) (other : String) (tokens : List RefreshToken)
      → Spent jti exp clock tokens
      → Spent jti exp clock (revoke_token fails other tokens)
  unfolding revoke_token
  revoke-Spent clock fails other tokens (inl late) = inl late
  revoke-Spent clock true other tokens (inr spent) = inr spent
  revoke-Spent clock false other tokens (inr (t, h, r, l)) =
      inr (t, ground (arith, row-revoke other jti tokens t h), r, l)

  pub purge-Spent :
      (clock now : ℕ) (tokens : List RefreshToken)
      → clock ≤ now
      → Spent jti exp clock tokens
      → Spent jti exp now (purge_expired now tokens).0
  unfolding purge_expired
  purge-Spent clock now tokens m (inl late) = inl (omega arith)
  purge-Spent clock now tokens m (inr (t, h, r, l)) = elim (Bool-cases (ltb t.expires_at now)) [
    | inl gone ↦ inl (ground arith)
    | inr kept ↦ inr (t, row-purge now jti tokens t h (ground arith), r, l)
  ]

  pub later-Spent :
      (clock now : ℕ) (tokens : List RefreshToken)
      → clock ≤ now
      → Spent jti exp clock tokens
      → Spent jti exp now tokens
  later-Spent clock now tokens m (inl late) = inl (omega arith)
  later-Spent clock now tokens m (inr spent) = inr spent
