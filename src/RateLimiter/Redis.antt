-- ===== src/RateLimiter/Redis.antt =====
-- The limiter in Redis, backend/internal/service/redis_rate_limiter.go. A key has a sorted set, which its
-- expiry removes only when every time in it is out of the window. A member of a set is its time in
-- nanoseconds; its score is the double of that time, as Redis compares it.
pub mod Counts
use anynote.Base.{
  ℕ, ◌+◌, ◌-◌, ◌*◌, ◌/◌, ◌%◌, ◌≤◌, ◌<◌, ◌≡◌, refl, sym, ◌∙◌, ap, Bool, true, false, ◌&&◌, ◌||◌, not,
  Option, none, some, List, [], ◌∷◌, ◌++◌, String, str_eq, eq_iff, eq_refl, lookup, insert,
  lookup-insert, select, count, exists, length, length-select, count-snoc, All, ltb, ◌==◌,
  if◌then◌else◌, inl, inr, arith, Bool-cases,
}

pub record RedisRateLimiter : Type 0 where
  pub limit : ℕ
  pub window : ℕ
  pub sets : List (String × List ℕ)

-- How the pipeline ends: with its answers, or with an error after which its commands were run or were not.
pub data Pipeline : Type 0 where
  answered : Pipeline
  failed : Bool → Pipeline

unfoldable pub new_redis_rate_limiter : ℕ → ℕ → RedisRateLimiter
new_redis_rate_limiter limit window = record { limit = limit; window = window; sets = [] }

abbrev members : Option (List ℕ) → List ℕ
members none = []
members (some ts) = ts

abbrev pub times_of : String → RedisRateLimiter → List ℕ
times_of key r = members (lookup key r.sets)

-- A number of nanoseconds as a double: of 53 bits, between 2 ^ 60 and 2 ^ 61, which are the years 2006 to 2043.
-- It is the nearest multiple of 256, and of two nearest ones the even one.
unfoldable pub float64 : ℕ → ℕ
float64 n =
    let rest = n % 256 in
    let units = n / 256 in
    if ltb rest 128 || (rest == 128) && (units % 2 == 0) then units * 256 else (units + 1) * 256

-- What ZREMRANGEBYSCORE with the bounds -inf and now - window leaves.
abbrev pub is_live : ℕ → ℕ → ℕ → Bool
is_live window now t = ltb (float64 (now - window)) (float64 t)

-- ZADD of the member for a time, with the double of the time as its score: a member that is there stays.
unfoldable pub z_add : ℕ → List ℕ → List ℕ
z_add t ts = if exists (λ x. x == t) ts then ts else ts ++ t ∷ []

-- The commands of the pipeline, and the count that ZCARD answers.
unfoldable pub run_pipeline : String → ℕ → RedisRateLimiter → RedisRateLimiter × ℕ
run_pipeline key now r =
    let live = select (is_live r.window now) (times_of key r) in
    (record r { sets = insert key (z_add now live) r.sets }, length live)

unfoldable pub redis_allow : Pipeline → String → ℕ → RedisRateLimiter → RedisRateLimiter × Bool
redis_allow answered key now r =
    let (r', current) = run_pipeline key now r in (r', ltb current r.limit)
redis_allow (failed true) key now r = ((run_pipeline key now r).0, true)
redis_allow (failed false) key now r = (r, true)

unfoldable pub redis_run : List (String × ℕ) → RedisRateLimiter → RedisRateLimiter
redis_run [] r = r
redis_run ((key, now) ∷ calls) r = redis_run calls (redis_allow answered key now r).0
