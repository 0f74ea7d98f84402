-- ===== src/RateLimiter.antt =====
-- The in-memory rate limiter of backend/internal/service/rate_limiter.go. `time.Now()` is the
-- argument `now`, in nanoseconds; `t.After(now - window)` is `now < t + window`. The order in which
-- Go ranges over the windows when it evicts a sample of them is the argument `order`.
pub mod Spec
pub mod Eviction
pub mod Refinement
pub mod Bound
pub mod Redis
mod Tests
use anynote.Base.{
  ℕ, suc, ◌+◌, ◌%◌, Bool, true, false, ◌&&◌, Option, none, some, List, [], ◌∷◌, ◌++◌, String,
  length, take, select, exists, count, not, lookup, insert, erase, ltb, leb, ◌==◌, if◌then◌else◌,
}

-- A window is the list of the times of the requests that were let through.
pub record RateLimiter : Type 0 where
  pub windows : List (String × List ℕ)
  pub limit : ℕ
  pub window_duration : ℕ
  pub call_count : ℕ
  pub evict_interval : ℕ

unfoldable pub new_rate_limiter_with_evict : ℕ → ℕ → ℕ → RateLimiter
new_rate_limiter_with_evict limit window evict_interval = record {
  windows = [];
  limit = limit;
  window_duration = window;
  call_count = 0;
  evict_interval = evict_interval;
}

unfoldable pub new_rate_limiter : ℕ → ℕ → RateLimiter
unfolding new_rate_limiter_with_evict
new_rate_limiter limit window = new_rate_limiter_with_evict limit window 100

-- `t.After(windowStart)`
abbrev pub after : ℕ → ℕ → ℕ → Bool
after now window t = ltb now (t + window)

pub is_window_expired : ℕ → ℕ → List ℕ → Bool
is_window_expired now window timestamps = not (exists (after now window) timestamps)

full_scan : ℕ → ℕ → List (String × List ℕ) → List (String × List ℕ)
unfolding is_window_expired
full_scan now window ws = select (λ e. not (is_window_expired now window e.1)) ws

evict_key : ℕ → ℕ → String → List (String × List ℕ) → List (String × List ℕ)
unfolding is_window_expired
evict_key now window key ws = elim (lookup key ws) [
  | none ↦ ws
  | some w ↦ if is_window_expired now window w then erase key ws else ws
]

evict_keys : ℕ → ℕ → List String → List (String × List ℕ) → List (String × List ℕ)
unfolding evict_key
evict_keys now window [] ws = ws
evict_keys now window (key ∷ keys) ws = evict_keys now window keys (evict_key now window key ws)

abbrev full_scan_threshold : ℕ
full_scan_threshold = 500

abbrev sample_size : ℕ
sample_size = 200

evict_locked : ℕ → List String → RateLimiter → RateLimiter
unfolding full_scan evict_keys
evict_locked now order r =
    if leb (length r.windows) full_scan_threshold
    then record r { windows = full_scan now r.window_duration r.windows }
    else record r { windows = evict_keys now r.window_duration (take sample_size order) r.windows }

-- `r.callCount++` and the sweep that every Nth call makes.
pub sweep : ℕ → List String → RateLimiter → RateLimiter
unfolding evict_locked
sweep now order r =
    let r' = record r { call_count = r.call_count + 1 } in
    if ltb 0 r'.evict_interval && (r'.call_count % r'.evict_interval == 0)
    then evict_locked now order r'
    else r'

abbrev pub or_empty : Option (List ℕ) → List ℕ
or_empty (some timestamps) = timestamps
or_empty none = []

-- The rest of `Allow`, after the sweep.
pub admit : String → ℕ → RateLimiter → RateLimiter × Bool
admit user now r =
    let valid = select (after now r.window_duration) (or_empty (lookup user r.windows)) in
    if leb r.limit (length valid)
    then (record r { windows = insert user valid r.windows }, false)
    else (record r { windows = insert user (valid ++ now ∷ []) r.windows }, true)

unfoldable pub allow : String → ℕ → List String → RateLimiter → RateLimiter × Bool
unfolding sweep admit
allow user now order r = admit user now (sweep now order r)

-- `Count`
unfoldable pub count_requests : String → ℕ → RateLimiter → ℕ
count_requests user now r = elim (lookup user r.windows) [
  | none ↦ 0
  | some timestamps ↦ count (after now r.window_duration) timestamps
]

unfoldable pub window_count : RateLimiter → ℕ
window_count r = length r.windows

-- A request: whose, when, and the order of the windows at that moment.
pub record Request : Type 0 where
  pub user : String
  pub now : ℕ
  pub order : List String

-- The answers to a sequence of requests.
unfoldable pub serve : List Request → RateLimiter → List Bool
serve [] r = []
serve (q ∷ qs) r = let (r', allowed) = allow q.user q.now q.order r in allowed ∷ serve qs r'
