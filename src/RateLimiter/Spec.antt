-- ===== src/RateLimiter/Spec.antt =====
-- What a sliding-window limit promises, with no windows, no eviction and no forgetting: the times of
-- all requests ever granted are kept for each user.
use anynote.Base.{ℕ, ◌≤◌, Bool, List, [], ◌∷◌, ◌++◌, String, str_eq, count, ltb, if◌then◌else◌}
use anynote.RateLimiter.{Request, after}

abbrev pub History : Type 0
History = String → List ℕ

-- A request is granted when fewer than `limit` of the user's grants lie in the window before it.
abbrev pub granted : ℕ → ℕ → Request → History → Bool
granted limit window q h = ltb (count (after q.now window) (h q.user)) limit

abbrev pub record_grant : Bool → Request → History → History
record_grant allowed q h user =
    if allowed then (if str_eq q.user user then h user ++ q.now ∷ [] else h user) else h user

unfoldable pub serve_spec : ℕ → ℕ → List Request → History → List Bool
serve_spec limit window [] h = []
serve_spec limit window (q ∷ qs) h =
    granted limit window q h
    ∷ serve_spec limit window qs (record_grant (granted limit window q h) q h)

-- The grants after a sequence of requests with these answers.
unfoldable pub grants : List Request → List Bool → History → History
grants [] answers h = h
grants (q ∷ qs) [] h = h
grants (q ∷ qs) (b ∷ bs) h = grants qs bs (record_grant b q h)

-- The clock does not go back.
abbrev pub Monotone : ℕ → List Request → Type 0
Monotone last [] = Unit
Monotone last (q ∷ qs) = (last ≤ q.now) × Monotone q.now qs
