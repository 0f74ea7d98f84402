-- ===== src/Quota/Limit.antt =====
-- Usage stays within the limit, backend/internal/repository/quota_repository.go.
use anynote.Base.{
  ℕ, ◌+◌, ◌≤◌, ◌-◌, ◌≡◌, refl, sym, ◌∙◌, ◌≢◌, inl, inr, false, none, some, List, [], ◌∷◌, String,
  str_eq, eq_iff, eq_refl, select_one, update, exists, lookup, lookup-insert_ne, All, arith, ltb,
  Bool-cases, if◌then◌else◌,
}
use anynote.Quota.{
  UserQuota, QuotaService, of_user, below_limit, use_one, is_stale, reset, today, QuotaCall, step,
  run, grants_to, granted_to,
}

-- Within the limit: what each row has used.
abbrev pub IsWithin : UserQuota → Type 0
IsWithin q = q.daily_ai_used ≤ q.daily_ai_limit

-- The primary key: no two rows of one user.
abbrev pub Unique : List UserQuota → Type 0
Unique [] = Unit
Unique (q ∷ rows) = (select_one (of_user q.user_id) rows ≡ none) × Unique rows

module _ (user : String) (now : ℕ) where
  use_one-IsWithin :
      (rows : List UserQuota)
      → All IsWithin rows
      → All IsWithin (update (below_limit user) (use_one now) rows)
  use_one-IsWithin [] h = tt
  use_one-IsWithin (q ∷ rows) h = ground (arith, use_one-IsWithin rows h.1)

  reset-IsWithin :
      (rows : List UserQuota)
      → All IsWithin rows
      → All IsWithin (update (is_stale user now) (reset now) rows)
  reset-IsWithin [] h = tt
  reset-IsWithin (q ∷ rows) h = ground (arith, reset-IsWithin rows h.1)

  -- The row of one user under an update of another's.
  row-use_other :
      (k : String) (rows : List UserQuota)
      → k ≢ user
      → select_one (of_user k) (update (below_limit user) (use_one now) rows)
        ≡ select_one (of_user k) rows
  row-use_other k [] h = refl
  row-use_other k (q ∷ rows) h =
      ground (arith, eq_iff q.user_id k, eq_iff q.user_id user, row-use_other k rows h)

  row-reset_other :
      (k : String) (rows : List UserQuota)
      → k ≢ user
      → select_one (of_user k) (update (is_stale user now) (reset now) rows)
        ≡ select_one (of_user k) rows
  row-reset_other k [] h = refl
  row-reset_other k (q ∷ rows) h =
      ground (arith, eq_iff q.user_id k, eq_iff q.user_id user, row-reset_other k rows h)

  -- Neither update makes a row for a user that has none.
  pub none-use_one :
      (k : String) (rows : List UserQuota)
      → select_one (of_user k) rows ≡ none
      → select_one (of_user k) (update (below_limit user) (use_one now) rows) ≡ none
  none-use_one k [] h = refl
  none-use_one k (q ∷ rows) h = ground (arith, none-use_one k rows)

  pub none-reset :
      (k : String) (rows : List UserQuota)
      → select_one (of_user k) rows ≡ none
      → select_one (of_user k) (update (is_stale user now) (reset now) rows) ≡ none
  none-reset k [] h = refl
  none-reset k (q ∷ rows) h = ground (arith, none-reset k rows)

  pub row-use_one :
      (q : UserQuota) (rows : List UserQuota)
      → select_one (of_user user) rows ≡ some q
      → select_one (of_user user) (update (below_limit user) (use_one now) rows)
        ≡ some (if ltb q.daily_ai_used q.daily_ai_limit then use_one now q else q)
  row-use_one q [] h = cc
  row-use_one q (r ∷ rows) h = ground (arith, row-use_one q rows)

  pub exists-none :
      (rows : List UserQuota)
      → select_one (of_user user) rows ≡ none
      → exists (below_limit user) rows ≡ false
  exists-none [] h = refl
  exists-none (r ∷ rows) h = ground (arith, exists-none rows)

  pub exists-below :
      (q : UserQuota) (rows : List UserQuota)
      → Unique rows
      → select_one (of_user user) rows ≡ some q
      → exists (below_limit user) rows ≡ ltb q.daily_ai_used q.daily_ai_limit
  exists-below q [] u h = cc
  exists-below q (r ∷ rows) u h =
      ground (arith, exists-below q rows u.1, exists-none rows, eq_iff r.user_id user)

  use_one-Unique :
      (rows : List UserQuota) → Unique rows → Unique (update (below_limit user) (use_one now) rows)
  use_one-Unique [] u = tt
  use_one-Unique (q ∷ rows) u =
      ground (arith, use_one-Unique rows u.1, none-use_one q.user_id rows, eq_iff q.user_id user)

  pub reset-Unique :
      (rows : List UserQuota) → Unique rows → Unique (update (is_stale user now) (reset now) rows)
  reset-Unique [] u = tt
  reset-Unique (q ∷ rows) u =
      ground (arith, reset-Unique rows u.1, none-reset q.user_id rows, eq_iff q.user_id user)

-- What both updates keep, every call keeps.
pub step-rows {κ} :
    (P : List UserQuota → Type κ) (c : QuotaCall) (s : QuotaService)
    → ((rows : List UserQuota) → P rows → P (update (below_limit c.user) (use_one c.now) rows))
    → ((rows : List UserQuota) → P rows → P (update (is_stale c.user c.now) (reset c.now) rows))
    → P s.rows
    → P (step c s).rows
unfolding step
step-rows P c s by_use by_reset h = ground (
  arith,
  by_use s.rows,
  by_reset s.rows h,
  by_use (update (is_stale c.user c.now) (reset c.now) s.rows),
)

-- No sequence of calls, by any users at any times and with any queries failing, takes a user's usage
-- above the daily limit of the user's row.
pub run-IsWithin :
    (cs : List QuotaCall) (s : QuotaService) → All IsWithin s.rows → All IsWithin (run cs s).rows
unfolding run
run-IsWithin [] s h = h
run-IsWithin (c ∷ cs) s h =
    run-IsWithin cs (step c s)
      (step-rows (All IsWithin) c s (use_one-IsWithin c.user c.now) (reset-IsWithin c.user c.now) h)

step-Unique : (c : QuotaCall) (s : QuotaService) → Unique s.rows → Unique (step c s).rows
step-Unique c s u = step-rows Unique c s (use_one-Unique c.user c.now) (reset-Unique c.user c.now) u

-- The user's row after a call on the day of the user's last reset.
abbrev after_call : String → QuotaCall → QuotaService → UserQuota → UserQuota
after_call user c s q = if grants_to user c s then use_one c.now q else q

module _ (user : String) (d : ℕ) (c : QuotaCall) (s : QuotaService) (q : UserQuota)
    (u : Unique s.rows) (h : select_one (of_user user) s.rows ≡ some q) where
  step_own :
      c.user ≡ user
      → lookup user s.last_reset ≡ some d
      → today c.now ≡ d
      → (select_one (of_user user) (step c s).rows ≡ some (after_call user c s q))
        × (lookup user (step c s).last_reset ≡ some d)
        × (IsWithin q → IsWithin (after_call user c s q))
  unfolding step
  step_own e l t = rw e (
      ground (
        arith,
        row-use_one user c.now q s.rows h,
        exists-below user c.now q s.rows u h,
        eq_refl user,
      ))

  step_other :
      c.user ≢ user
      → (select_one (of_user user) (step c s).rows ≡ some (after_call user c s q))
        × (lookup user (step c s).last_reset ≡ lookup user s.last_reset)
        × (IsWithin q → IsWithin (after_call user c s q))
  unfolding step
  step_other e =
      let ne : user ≢ c.user = λ p. e (sym p) in
      ground (
        arith,
        row-use_other c.user c.now user s.rows ne,
        row-reset_other c.user c.now user s.rows ne,
        row-use_other c.user c.now user (update (is_stale c.user c.now) (reset c.now) s.rows) ne,
        lookup-insert_ne c.user user (today c.now) s.last_reset ne,
        eq_iff c.user user,
      )

granted-after :
    (user : String) (d : ℕ) (cs : List QuotaCall) (s : QuotaService) (q : UserQuota)
    → Unique s.rows
    → select_one (of_user user) s.rows ≡ some q
    → lookup user s.last_reset ≡ some d
    → All (λ c. (c.user ≡ user) → today c.now ≡ d) cs
    → IsWithin q
    → q.daily_ai_used + granted_to user cs s ≤ q.daily_ai_limit
unfolding granted_to
granted-after user d [] s q u h l t w = omega arith
granted-after user d (c ∷ cs) s q u h l t w = elim (Bool-cases (str_eq c.user user)) [
  | inl own ↦
      let e = (eq_iff c.user user).0 own in
      let (row, cache, within) = step_own user d c s q u h e l (t.0 e) in
      let rest =
        granted-after user d cs (step c s) (after_call user c s q) (step-Unique c s u) row cache t.1
          (within w) in
      ground (arith, rest)
  | inr other ↦
      let (row, cache, within) =
        step_other user d c s q u h (λ e. cc (other, (eq_iff c.user user).1 e)) in
      let rest =
        granted-after user d cs (step c s) (after_call user c s q) (step-Unique c s u) row
          (cache ∙ l) t.1 (within w) in
      ground (arith, rest)
]

-- Where each user has at most one row: in any sequence of calls of any users in which a user's own
-- calls fall on the day of that user's last reset, a user whose row is within its limit is granted
-- at most what the row still has left of it, whatever queries fail.
pub granted_le :
    (user : String) (d : ℕ) (cs : List QuotaCall) (s : QuotaService) (q : UserQuota)
    → Unique s.rows
    → select_one (of_user user) s.rows ≡ some q
    → lookup user s.last_reset ≡ some d
    → All (λ c. (c.user ≡ user) → today c.now ≡ d) cs
    → IsWithin q
    → granted_to user cs s ≤ q.daily_ai_limit - q.daily_ai_used
granted_le user d cs s q u h l t w = omega (arith, granted-after user d cs s q u h l t w)
