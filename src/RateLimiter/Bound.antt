-- ===== src/RateLimiter/Bound.antt =====
-- No window holds more grants than the limit, backend/internal/service/rate_limiter.go.
use anynote.Base.{ℕ, ◌≤◌, List, [], ◌∷◌, String, eq_iff, count, All, arith}
use anynote.RateLimiter.{new_rate_limiter_with_evict, after, Request, serve}
use anynote.RateLimiter.Spec.{History, granted, record_grant, serve_spec, grants, Monotone}
use anynote.RateLimiter.Refinement.{count-snoc, serve_refines}

module _ (limit window : ℕ) where
  count-after_mono :
      (now t : ℕ) (xs : List ℕ) → now ≤ t → count (after t window) xs ≤ count (after now window) xs
  count-after_mono now t [] l = omega arith
  count-after_mono now t (x ∷ xs) l = ground (arith, count-after_mono now t xs l)

  -- From `now` on no user has more recent grants than the limit.
  abbrev Bounded : ℕ → History → Type 0
  Bounded now h = (user : String) (t : ℕ) → now ≤ t → count (after t window) (h user) ≤ limit

  record_grant-Bounded :
      (last : ℕ) (q : Request) (h : History)
      → last ≤ q.now
      → Bounded last h
      → Bounded q.now (record_grant (granted limit window q h) q h)
  record_grant-Bounded last q h later b user t l = ground (
    arith,
    b user t,
    count-snoc limit window t q.now (h user),
    count-after_mono q.now t (h user) l,
    eq_iff q.user user,
  )

  grants-le :
      (qs : List Request) (last : ℕ) (h : History) (user : String) (t : ℕ)
      → Monotone last qs
      → Bounded last h
      → last ≤ t
      → All (λ q. q.now ≤ t) qs
      → count (after t window) (grants qs (serve_spec limit window qs h) h user) ≤ limit
  unfolding serve_spec grants
  grants-le [] last h user t m b l a = b user t l
  grants-le (q ∷ qs) last h user t m b l a =
      grants-le qs q.now (record_grant (granted limit window q h) q h) user t m.1
        (record_grant-Bounded last q h m.0 b) a.0 a.1

-- After any sequence of requests whose clock does not go back, and at any time from the last one
-- on, no user has been granted more requests than the limit within the window before that time.
pub window_bound :
    (limit window evict_interval : ℕ) (qs : List Request) (user : String) (t : ℕ)
    → Monotone 0 qs
    → All (λ q. q.now ≤ t) qs
    → let answers = serve qs (new_rate_limiter_with_evict limit window evict_interval) in
      count (after t window) (grants qs answers (λ u. []) user) ≤ limit
window_bound limit window evict_interval qs user t m a =
    rw (serve_refines limit window evict_interval qs m)
      (grants-le limit window qs 0 (λ u. []) user t m (λ u t' l. omega arith) (omega arith) a)
