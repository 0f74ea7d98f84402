-- ===== src/RateLimiter/Refinement.antt =====
-- The rate limiter of backend/internal/service/rate_limiter.go answers as its specification does.
use anynote.Base.{
  ℕ, ◌+◌, ◌≤◌, ◌≡◌, refl, ◌∙◌, subst, List, [], ◌∷◌, ◌++◌, String, str_eq, eq_iff, select, count,
  length-select, lookup, insert, lookup-insert, arith, if◌then◌else◌,
}
use anynote.RateLimiter.{
  RateLimiter, new_rate_limiter_with_evict, after, sweep, admit, allow, or_empty, Request, serve,
}
use anynote.RateLimiter.Eviction.{
  Distinct, recent, count-select, insert-Distinct, sweep_parameters, sweep-Distinct, recent-sweep,
}
use anynote.RateLimiter.Spec.{History, granted, record_grant, serve_spec, Monotone}

module _ (limit window : ℕ) where
  -- At `now` the limiter has its parameters, one window a user, and as many recent requests of each
  -- user as the history has, from `now` on.
  pub record Refines (now : ℕ) (r : RateLimiter) (h : History) : Type 0 where
    pub limit_eq : r.limit ≡ limit
    pub window_eq : r.window_duration ≡ window
    pub distinct : Distinct r.windows
    pub agrees :
        (user : String) (t : ℕ)
        → now ≤ t
        → recent t window user r.windows ≡ count (after t window) (h user)

  sweep-Refines :
      (last now : ℕ) (order : List String) (r : RateLimiter) (h : History)
      → last ≤ now
      → Refines last r h
      → Refines now (sweep now order r) h
  sweep-Refines last now order r h later ref = record {
    limit_eq = (sweep_parameters now order r).0 ∙ ref.limit_eq;
    window_eq = (sweep_parameters now order r).1 ∙ ref.window_eq;
    distinct = sweep-Distinct now order r ref.distinct;
    agrees = λ user t l.
        subst (λ w. recent t w user (sweep now order r).windows ≡ recent t w user r.windows)
          ref.window_eq (recent-sweep now order r user t ref.distinct l)
        ∙ ref.agrees user t (omega arith);
  }

  pub count-snoc :
      (t x : ℕ) (xs : List ℕ)
      → count (after t window) (xs ++ x ∷ [])
        ≡ count (after t window) xs + (if after t window x then 1 else 0)
  count-snoc t x [] = ground arith
  count-snoc t x (y ∷ xs) = ground (arith, count-snoc t x xs)

  recent-insert :
      (t : ℕ) (user k : String) (v : List ℕ) (ws : List (String × List ℕ))
      → recent t window user (insert k v ws)
        ≡ (if str_eq k user then count (after t window) v else recent t window user ws)
  recent-insert t user k v ws = ground (arith, lookup-insert k user v ws)

  -- The timestamps of a user that `Allow` keeps.
  abbrev valid : Request → RateLimiter → List ℕ
  valid q r = select (after q.now r.window_duration) (or_empty (lookup q.user r.windows))

  recent-valid :
      (q : Request) (r : RateLimiter) (h : History) (t : ℕ)
      → Refines q.now r h
      → q.now ≤ t
      → count (after t window) (valid q r) ≡ count (after t window) (h q.user)
  recent-valid q r h t ref later = rw ref.window_eq (
      count-select q.now t window later (or_empty (lookup q.user r.windows))
      ∙ ref.agrees q.user t later)

  admit-granted :
      (q : Request) (r : RateLimiter) (h : History)
      → Refines q.now r h
      → (admit q.user q.now r).1 ≡ granted limit window q h
  unfolding admit
  admit-granted q r h ref = ground (
    arith,
    ref.limit_eq,
    ref.window_eq,
    ref.agrees q.user q.now,
    length-select (after q.now window) (or_empty (lookup q.user r.windows)),
  )

  admit-Refines :
      (q : Request) (r : RateLimiter) (h : History)
      → Refines q.now r h
      → Refines q.now (admit q.user q.now r).0 (record_grant (admit q.user q.now r).1 q h)
  unfolding admit
  admit-Refines q r h ref = record {
    limit_eq = ground (arith, ref.limit_eq);
    window_eq = ground (arith, ref.window_eq);
    distinct = ground (
      arith,
      insert-Distinct q.user (valid q r) r.windows ref.distinct,
      insert-Distinct q.user (valid q r ++ q.now ∷ []) r.windows ref.distinct,
    );
    agrees = λ user t l. ground (
      arith,
      recent-insert t user q.user (valid q r) r.windows,
      recent-insert t user q.user (valid q r ++ q.now ∷ []) r.windows,
      count-snoc t q.now (valid q r),
      count-snoc t q.now (h user),
      recent-valid q r h t ref l,
      ref.agrees user t l,
      eq_iff q.user user,
    );
  }

  serve-Refines :
      (qs : List Request) (last : ℕ) (r : RateLimiter) (h : History)
      → Monotone last qs
      → Refines last r h
      → serve qs r ≡ serve_spec limit window qs h
  unfolding serve serve_spec allow
  serve-Refines [] last r h m ref = refl
  serve-Refines (q ∷ qs) last r h m ref =
      let swept = sweep-Refines last q.now q.order r h m.0 ref in
      let same = admit-granted q (sweep q.now q.order r) h swept in
      let next = admit-Refines q (sweep q.now q.order r) h swept in
      cc (
        same,
        serve-Refines qs q.now (admit q.user q.now (sweep q.now q.order r)).0
            (record_grant (granted limit window q h) q h) m.1 (rw (← same) next),
      )

-- A new limiter, with any limit, window and eviction interval, answers every sequence of requests
-- whose clock does not go back as the specification does: a request is granted exactly when fewer
-- than the limit of the user's own grants lie in the window before it. So neither the forgetting of
-- old timestamps nor the eviction of windows, in any order, changes an answer.
pub serve_refines :
    (limit window evict_interval : ℕ) (qs : List Request)
    → Monotone 0 qs
    → serve qs (new_rate_limiter_with_evict limit window evict_interval)
      ≡ serve_spec limit window qs (λ user. [])
unfolding new_rate_limiter_with_evict
serve_refines limit window evict_interval qs m =
    serve-Refines limit window qs 0 _ (λ user. []) m
      (record { limit_eq = refl; window_eq = refl; distinct = tt; agrees = λ user t l. refl })
