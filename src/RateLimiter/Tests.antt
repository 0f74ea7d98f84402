-- ===== src/RateLimiter/Tests.antt =====
-- A limiter of two requests in ten nanoseconds, backend/internal/service/rate_limiter.go.
use anynote.Base.{ℕ, ◌≤◌, ◌≡◌, true, false, List, [], ◌∷◌, String, count, ltb, arith}
use anynote.RateLimiter.{RateLimiter, new_rate_limiter_with_evict, after, Request, serve}
use anynote.RateLimiter.Redis.{answered, redis_allow, redis_run, new_redis_rate_limiter}
use anynote.RateLimiter.Redis.Counts.{calls_within, redis_allow_lem}
use anynote.RateLimiter.Spec.{serve_spec, grants}
use anynote.RateLimiter.Refinement.{serve_refines}
use anynote.RateLimiter.Bound.{window_bound}

abbrev request : String → ℕ → Request
request user now = record { user = user; now = now; order = [] }

abbrev requests : List Request
requests =
    request "alice" 1
    ∷ request "alice" 2
    ∷ request "alice" 3
    ∷ request "bob" 4
    ∷ request "alice" 11
    ∷ []

serve_refines_example :
    serve requests (new_rate_limiter_with_evict 2 10 2) ≡ true ∷ true ∷ false ∷ true ∷ true ∷ []
unfolding serve_spec
serve_refines_example =
    serve_refines 2 10 2 requests
      (omega arith, (omega arith, (omega arith, (omega arith, (omega arith, tt)))))

window_bound_example :
    let answers = serve requests (new_rate_limiter_with_evict 2 10 2) in
    count (after 12 10) (grants requests answers (λ u. []) "alice") ≤ 2
window_bound_example =
    window_bound 2 10 2 requests "alice" 12
      (omega arith, (omega arith, (omega arith, (omega arith, (omega arith, tt)))))
      (omega arith, (omega arith, (omega arith, (omega arith, (omega arith, tt)))))

-- The next call sweeps; of the windows one is expired.
abbrev limiter : RateLimiter
limiter = record {
  windows = ("alice", 1 ∷ 2 ∷ []) ∷ ("bob", 15 ∷ []) ∷ [];
  limit = 2;
  window_duration = 10;
  call_count = 1;
  evict_interval = 2;
}

-- In the year 2027, 1,000 nanoseconds apart.
abbrev pair : List (String × ℕ)
pair =
    ("alice", 1_800_000_000_000_001_000)
    ∷ ("alice", 1_800_000_000_000_002_000)
    ∷ ("alice", 1_800_000_000_000_003_000)
    ∷ ("bob", 1_800_000_000_000_004_000)
    ∷ []

redis_allow_lem_example :
    (redis_allow answered "alice" 1_800_000_000_000_005_000
      (redis_run pair (new_redis_rate_limiter 2 2_500))).1
    ≡ ltb (calls_within "alice" 2_500 1_800_000_000_000_005_000 pair) 2
redis_allow_lem_example =
    redis_allow_lem 2 2_500 pair "alice" 1_800_000_000_000_005_000
      (omega arith, (omega arith, (omega arith, (omega arith, tt)))) (omega arith)
