-- ===== src/RateLimiter/Redis/Counts.antt =====
-- What the limiter in Redis counts, backend/internal/service/redis_rate_limiter.go.
use mathlib.Core.List.{append-nil, append_assoc}
use anynote.Base.{
  ap₂, ℕ, ◌-◌, ◌≤◌, ◌<◌, ◌≡◌, refl, sym, ◌∙◌, ap, Bool, true, false, ◌&&◌, List, [], ◌∷◌, ◌++◌,
  String, str_eq, eq_iff, lookup-insert, select, count, exists, length-select, count-snoc, All, ltb,
  ◌==◌, if◌then◌else◌, inl, inr, arith, Bool-cases,
}
use anynote.RateLimiter.Redis.{
  RedisRateLimiter, answered, times_of, is_live, z_add, run_pipeline, redis_allow, redis_run,
  new_redis_rate_limiter, float64,
}

-- The calls for a key, let through or not, whose time is still in the window, both as doubles.
abbrev pub is_recent : String → ℕ → ℕ → String × ℕ → Bool
is_recent key window now c = str_eq c.0 key && is_live window now c.1

abbrev pub calls_within : String → ℕ → ℕ → List (String × ℕ) → ℕ
calls_within key window now calls = count (is_recent key window now) calls

-- Each call is later than the one before it.
abbrev pub IsIncreasing : ℕ → List (String × ℕ) → Type 0
IsIncreasing last [] = Unit
IsIncreasing last (c ∷ calls) = (last < c.1) × IsIncreasing c.1 calls

abbrev IsBefore : ℕ → List ℕ → Type 0
IsBefore last = All (λ t. t ≤ last)

record Tracks (history : List (String × ℕ)) (last : ℕ) (r : RedisRateLimiter) : Type 0 where
  before : (key : String) → IsBefore last (times_of key r)
  counted :
      (key : String) (now : ℕ)
      → last ≤ now
      → count (is_live r.window now) (times_of key r) ≡ calls_within key r.window now history

module _ (window last now : ℕ) (lt : last < now) where
  select-IsBefore : (ts : List ℕ) → IsBefore last ts → IsBefore now (select (is_live window now) ts)
  select-IsBefore [] h = tt
  select-IsBefore (t ∷ ts) h = elim (Bool-cases (is_live window now t)) [
    | inl e ↦ rw e (omega arith, select-IsBefore ts h.1)
    | inr e ↦ rw e (select-IsBefore ts h.1)
  ]

  widen : (ts : List ℕ) → IsBefore last ts → IsBefore now ts
  widen [] h = tt
  widen (t ∷ ts) h = (omega arith, widen ts h.1)

  absent :
      (ts : List ℕ)
      → IsBefore last ts
      → exists (λ x. x == now) (select (is_live window now) ts) ≡ false
  absent [] h = refl
  absent (t ∷ ts) h = ground (arith, h.0, absent ts h.1)

  added :
      (ts : List ℕ)
      → IsBefore last ts
      → z_add now (select (is_live window now) ts) ≡ select (is_live window now) ts ++ now ∷ []
  unfolding z_add
  added ts h = rw (z_add, absent ts h) refl

snoc-IsBefore : (last : ℕ) (ts : List ℕ) → IsBefore last ts → IsBefore last (ts ++ last ∷ [])
snoc-IsBefore last [] h = (omega arith, tt)
snoc-IsBefore last (t ∷ ts) h = (h.0, snoc-IsBefore last ts h.1)

float64-le : (m n : ℕ) → m ≤ n → float64 m ≤ float64 n
unfolding float64
float64-le m n l = ground arith

-- What is out of a window is out of every later one.
live-later :
    (window now later t : ℕ)
    → now ≤ later
    → is_live window later t ≡ true
    → is_live window now t ≡ true
live-later window now later t l h =
    ground (arith, h, float64-le (now - window) (later - window) (omega arith))

count-select :
    (window now later : ℕ) (ts : List ℕ)
    → now ≤ later
    → count (is_live window later) (select (is_live window now) ts)
      ≡ count (is_live window later) ts
count-select window now later [] h = refl
count-select window now later (t ∷ ts) h = elim (Bool-cases (is_live window now t)) [
  | inl live ↦ rw live (ground (arith, count-select window now later ts h))
  | inr gone ↦
      let gone' : is_live window later t ≡ false = elim (Bool-cases (is_live window later t)) [
        | inr out ↦ out
        | inl e ↦ cc (live-later window now later t h e, gone)
      ] in
      rw (gone, gone') (count-select window now later ts h)
]

module _ (key : String) (now : ℕ) (r : RedisRateLimiter) where
  abbrev next : RedisRateLimiter
  next = (redis_allow answered key now r).0

  times-next :
      (k : String)
      → times_of k next ≡ (
          if str_eq key k
          then z_add now (select (is_live r.window now) (times_of key r))
          else times_of k r)
  unfolding redis_allow run_pipeline
  times-next k = ground (
    arith,
    lookup-insert key k (z_add now (select (is_live r.window now) (times_of key r))) r.sets,
  )

  step-Tracks :
      (history : List (String × ℕ)) (last : ℕ)
      → last < now
      → Tracks history last r
      → Tracks (history ++ (key, now) ∷ []) now next
  unfolding redis_allow run_pipeline
  step-Tracks history last lt h = record {
    before = λ k. elim (Bool-cases (str_eq key k)) [
      | inl e ↦
          rw (times-next k, e, added r.window last now lt (times_of key r) (h.before key))
            (snoc-IsBefore now (select (is_live r.window now) (times_of key r))
              (select-IsBefore r.window last now lt (times_of key r) (h.before key)))
      | inr e ↦ rw (times-next k, e) (widen r.window last now lt (times_of k r) (h.before k))
    ];
    counted = λ k n le. elim (Bool-cases (str_eq key k)) [
      | inl e ↦
          rw (times-next k, e, added r.window last now lt (times_of key r) (h.before key))
            (ground (
              arith,
              e,
              eq_iff key k,
              count-snoc (is_live r.window n) now (select (is_live r.window now) (times_of key r)),
              count-snoc (is_recent k r.window n) (key, now) history,
              count-select r.window now n (times_of key r) le,
              h.counted k n,
            ))
      | inr e ↦
          rw (times-next k, e)
            (ground
              (arith, e, count-snoc (is_recent k r.window n) (key, now) history, h.counted k n))
    ];
  }

-- The time of the last call.
abbrev pub last_of : ℕ → List (String × ℕ) → ℕ
last_of last [] = last
last_of last (c ∷ calls) = last_of c.1 calls

redis_run-same :
    (calls : List (String × ℕ)) (r : RedisRateLimiter)
    → ((redis_run calls r).window ≡ r.window) × ((redis_run calls r).limit ≡ r.limit)
unfolding redis_run redis_allow run_pipeline
redis_run-same [] r = (refl, refl)
redis_run-same ((key, now) ∷ calls) r = redis_run-same calls (redis_allow answered key now r).0

run-Tracks :
    (history calls : List (String × ℕ)) (last : ℕ) (r : RedisRateLimiter)
    → IsIncreasing last calls
    → Tracks history last r
    → Tracks (history ++ calls) (last_of last calls) (redis_run calls r)
unfolding redis_run
run-Tracks history [] last r up h = rw (append-nil history) h
run-Tracks history ((key, now) ∷ calls) last r up h =
    rw (sym (append_assoc history ((key, now) ∷ []) calls)) (
      run-Tracks (history ++ (key, now) ∷ []) calls now (redis_allow answered key now r).0 up.1
        (step-Tracks key now r history last up.0 h))

new-Tracks : (limit window : ℕ) → Tracks [] 0 (new_redis_rate_limiter limit window)
unfolding new_redis_rate_limiter
new-Tracks limit window = record { before = λ key. tt; counted = λ key now le. refl }

-- After any calls at increasing times that Redis answers, from a new limiter on, a later call is let
-- through exactly where fewer calls for its key than the limit have a time whose double is above that
-- of the window's start, counting the calls that were refused like those that were let through. The
-- doubles are those of times in the years 2006 to 2043, multiples of 256 nanoseconds.
pub redis_allow_lem :
    (limit window : ℕ) (calls : List (String × ℕ)) (key : String) (now : ℕ)
    → IsIncreasing 0 calls
    → last_of 0 calls < now
    → (redis_allow answered key now (redis_run calls (new_redis_rate_limiter limit window))).1
      ≡ ltb (calls_within key window now calls) limit
unfolding redis_allow run_pipeline new_redis_rate_limiter
redis_allow_lem limit window calls key now up lt =
    let new = new_redis_rate_limiter limit window in
    let r = redis_run calls new in
    let tracks = run-Tracks [] calls 0 new up (new-Tracks limit window) in
    let same = redis_run-same calls new in
    let counted = tracks.counted key now (omega arith) in
    ap₂ ltb
      (length-select (is_live r.window now) (times_of key r)
        ∙ counted
        ∙ ap (λ w. calls_within key w now calls) same.0)
      same.1
