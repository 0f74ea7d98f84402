-- ===== src/Quota/Missing.antt =====
-- A user without a row of user_quotas, backend/internal/service/quota_service.go.
use anynote.Base.{ℕ, ◌+◌, ◌≡◌, false, none, List, [], ◌∷◌, String, select_one, update, err, arith}
use anynote.Quota.{
  QuotaService, Faults, quota_exceeded, day, of_user, get_quota, increment_usage, QuotaCall, step,
  run, is_stale, reset,
}
use anynote.Quota.Limit.{step-rows, none-use_one, none-reset, exists-none}

run-no_row :
    (cs : List QuotaCall) (user : String) (s : QuotaService)
    → select_one (of_user user) s.rows ≡ none
    → select_one (of_user user) (run cs s).rows ≡ none
unfolding run
run-no_row [] user s h = h
run-no_row (c ∷ cs) user s h = run-no_row cs user (step c s) (
    step-rows (λ rows. select_one (of_user user) rows ≡ none) c s (none-use_one c.user c.now user)
      (none-reset c.user c.now user) h)

no_row_answers :
    (f : Faults) (user : String) (now : ℕ) (s : QuotaService)
    → select_one (of_user user) s.rows ≡ none
    → f.query_fails ≡ false
    → ((increment_usage f user now s).1 ≡ err quota_exceeded)
      × ((get_quota f user now s).1
          ≡ record { plan = "free"; daily_limit = 50; daily_used = 0; reset_at = now + day })
unfolding increment_usage get_quota
no_row_answers f user now s h fq =
    let rows = update (is_stale user now) (reset now) s.rows in
    let still = none-reset user now user s.rows h in
    ground (arith, exists-none user now s.rows h, exists-none user now rows still)

-- No call creates the row of a user that has none: after any calls, with whatever faults, a query
-- that does not fail reads the quota as 50 free requests of which none is used, and yet an increment
-- is refused as exceeded.
pub missing_row :
    (cs : List QuotaCall) (f : Faults) (user : String) (now : ℕ) (s : QuotaService)
    → select_one (of_user user) s.rows ≡ none
    → f.query_fails ≡ false
    → ((increment_usage f user now (run cs s)).1 ≡ err quota_exceeded)
      × ((get_quota f user now (run cs s)).1
          ≡ record { plan = "free"; daily_limit = 50; daily_used = 0; reset_at = now + day })
missing_row cs f user now s h fq = no_row_answers f user now (run cs s) (run-no_row cs user s h) fq
