-- ===== src/RateLimiter/Eviction.antt =====
-- Eviction of expired windows, backend/internal/service/rate_limiter.go (evictLocked).
use anynote.Base.{
  ℕ, ◌≤◌, ◌≡◌, refl, ◌∙◌, true, none, List, [], ◌∷◌, String, eq_iff, select, count, take, lookup,
  insert, erase, lookup-insert, lookup-erase, arith,
}
use anynote.RateLimiter.{
  RateLimiter, after, is_window_expired, full_scan, evict_key, evict_keys, sweep, or_empty,
  sample_size,
}

-- Each user has at most one window.
abbrev pub Distinct : List (String × List ℕ) → Type 0
Distinct [] = Unit
Distinct ((k, w) ∷ ws) = (lookup k ws ≡ none) × Distinct ws

-- The requests of a user that lie in the window before `t`.
abbrev pub recent : ℕ → ℕ → String → List (String × List ℕ) → ℕ
recent t window user ws = count (after t window) (or_empty (lookup user ws))

module _ (now t window : ℕ) (later : now ≤ t) where
  pub count-select :
      (xs : List ℕ)
      → count (after t window) (select (after now window) xs) ≡ count (after t window) xs
  count-select [] = refl
  count-select (x ∷ xs) = ground (arith, count-select xs)

  count-expired :
      (xs : List ℕ) → is_window_expired now window xs ≡ true → count (after t window) xs ≡ 0
  unfolding is_window_expired
  count-expired [] h = refl
  count-expired (x ∷ xs) h = ground (arith, count-expired xs)

  recent-full_scan :
      (user : String) (ws : List (String × List ℕ))
      → Distinct ws
      → recent t window user (full_scan now window ws) ≡ recent t window user ws
  unfolding full_scan
  recent-full_scan user [] d = refl
  recent-full_scan user ((k, w) ∷ ws) d =
      ground (arith, recent-full_scan user ws d.1, count-expired w, eq_iff k user)

  recent-evict_key :
      (user key : String) (ws : List (String × List ℕ))
      → recent t window user (evict_key now window key ws) ≡ recent t window user ws
  unfolding evict_key
  recent-evict_key user key ws =
      ground
        (arith, lookup-erase key user ws, eq_iff key user, count-expired (or_empty (lookup key ws)))

  recent-evict_keys :
      (user : String) (keys : List String) (ws : List (String × List ℕ))
      → recent t window user (evict_keys now window keys ws) ≡ recent t window user ws
  unfolding evict_keys
  recent-evict_keys user [] ws = refl
  recent-evict_keys user (k ∷ ks) ws =
      recent-evict_keys user ks (evict_key now window k ws) ∙ recent-evict_key user k ws

lookup-full_scan-none :
    (now window : ℕ) (k : String) (ws : List (String × List ℕ))
    → lookup k ws ≡ none
    → lookup k (full_scan now window ws) ≡ none
unfolding full_scan
lookup-full_scan-none now window k [] h = refl
lookup-full_scan-none now window k ((j, w) ∷ ws) h =
    ground (arith, lookup-full_scan-none now window k ws)

full_scan-Distinct :
    (now window : ℕ) (ws : List (String × List ℕ))
    → Distinct ws
    → Distinct (full_scan now window ws)
unfolding full_scan
full_scan-Distinct now window [] d = tt
full_scan-Distinct now window ((k, w) ∷ ws) d =
    ground (arith, full_scan-Distinct now window ws d.1, lookup-full_scan-none now window k ws)

pub insert-Distinct :
    (k : String) (v : List ℕ) (ws : List (String × List ℕ)) → Distinct ws → Distinct (insert k v ws)
insert-Distinct k v [] d = (refl, tt)
insert-Distinct k v ((j, w) ∷ ws) d =
    ground (arith, insert-Distinct k v ws d.1, lookup-insert k j v ws, eq_iff j k, eq_iff k j)

erase-Distinct : (k : String) (ws : List (String × List ℕ)) → Distinct ws → Distinct (erase k ws)
erase-Distinct k [] d = tt
erase-Distinct k ((j, w) ∷ ws) d = ground (arith, erase-Distinct k ws d.1, lookup-erase k j ws)

evict_key-Distinct :
    (now window : ℕ) (k : String) (ws : List (String × List ℕ))
    → Distinct ws
    → Distinct (evict_key now window k ws)
unfolding evict_key
evict_key-Distinct now window k ws d = ground (arith, erase-Distinct k ws d)

evict_keys-Distinct :
    (now window : ℕ) (keys : List String) (ws : List (String × List ℕ))
    → Distinct ws
    → Distinct (evict_keys now window keys ws)
unfolding evict_keys
evict_keys-Distinct now window [] ws d = d
evict_keys-Distinct now window (k ∷ ks) ws d =
    evict_keys-Distinct now window ks (evict_key now window k ws)
      (evict_key-Distinct now window k ws d)

module _ (now : ℕ) (order : List String) (r : RateLimiter) where
  pub sweep_parameters :
      ((sweep now order r).limit ≡ r.limit)
      × ((sweep now order r).window_duration ≡ r.window_duration)
  unfolding sweep
  sweep_parameters = ground arith

  pub sweep-Distinct : Distinct r.windows → Distinct (sweep now order r).windows
  unfolding sweep
  sweep-Distinct d = ground (
    arith,
    full_scan-Distinct now r.window_duration r.windows d,
    evict_keys-Distinct now r.window_duration (take sample_size order) r.windows d,
  )

  -- Where each user has at most one window, the sweep that a call makes, in whatever order it
  -- visits the windows, changes no user's count of recent requests, at that time or later.
  pub recent-sweep :
      (user : String) (t : ℕ)
      → Distinct r.windows
      → now ≤ t
      → recent t r.window_duration user (sweep now order r).windows
        ≡ recent t r.window_duration user r.windows
  unfolding sweep
  recent-sweep user t d later = ground (
    arith,
    recent-full_scan now t r.window_duration later user r.windows d,
    recent-evict_keys now t r.window_duration later user (take sample_size order) r.windows,
  )
