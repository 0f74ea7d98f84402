-- ===== src/Quota/Reset.antt =====
-- When the daily reset happens, backend/internal/service/quota_service.go (resetIfNeeded).
use anynote.Base.{
  ℕ, ◌+◌, ◌≤◌, ◌<◌, ◌≡◌, false, some, List, [], ◌∷◌, String, select_one, update, lookup-insert_self,
  ok, err, arith, ltb, if◌then◌else◌,
}
use anynote.Quota.{
  UserQuota, QuotaService, Faults, quota_exceeded, day, of_user, use_one, is_stale, reset, today,
  is_cached, get_quota, increment_usage,
}
use anynote.Quota.Limit.{Unique, row-use_one, exists-below, reset-Unique}

module _ (user : String) (now : ℕ) (q : UserQuota) where
  row-reset :
      (rows : List UserQuota)
      → select_one (of_user user) rows ≡ some q
      → select_one (of_user user) (update (is_stale user now) (reset now) rows)
        ≡ some (if ltb (q.quota_reset_at + day) now then reset now q else q)
  row-reset [] h = cc
  row-reset (r ∷ rows) h = ground (arith, row-reset rows)

-- Where each user has at most one row, and with no query failing: on the first call of a day for a
-- user, a quota with a positive limit that was last reset more than a day ago starts anew, and the
-- increment is granted as its first use.
pub increment_after_reset :
    (f : Faults) (user : String) (now : ℕ) (s : QuotaService) (q : UserQuota)
    → Unique s.rows
    → select_one (of_user user) s.rows ≡ some q
    → is_cached user now s ≡ false
    → q.quota_reset_at + day < now
    → 0 < q.daily_ai_limit
    → f.reset_fails ≡ false
    → f.query_fails ≡ false
    → ((increment_usage f user now s).1 ≡ ok tt)
      × (select_one (of_user user) (increment_usage f user now s).0.rows
          ≡ some (use_one now (reset now q)))
unfolding increment_usage
increment_after_reset f user now s q u h c stale p fr fq =
    let rows = update (is_stale user now) (reset now) s.rows in
    let row = row-reset user now q s.rows h in
    ground (
      arith,
      row,
      row-use_one user now (reset now q) rows,
      exists-below user now (reset now q) rows (reset-Unique user now s.rows u),
    )

-- Where each user has at most one row: a quota that is used up and whose last reset is not more
-- than a day old when a query of the quota, whose reset does not fail, falls on a UTC day, is
-- refused at a later time of that same day at which the last reset is more than a day old, though
-- the increment's own query does not fail. The first call has noted the day as reset, so the reset
-- that is due by then is skipped.
pub skipped_reset :
    (f g : Faults) (user : String) (first now : ℕ) (s : QuotaService) (q : UserQuota)
    → Unique s.rows
    → select_one (of_user user) s.rows ≡ some q
    → q.daily_ai_limit ≤ q.daily_ai_used
    → first ≤ q.quota_reset_at + day
    → f.reset_fails ≡ false
    → today first ≡ today now
    → q.quota_reset_at + day < now
    → g.query_fails ≡ false
    → (increment_usage g user now (get_quota f user first s).0).1 ≡ err quota_exceeded
unfolding increment_usage get_quota
skipped_reset f g user first now s q u h full fresh fr same stale gq =
    let rows = update (is_stale user first) (reset first) s.rows in
    let row = row-reset user first q s.rows h in
    ground (
      arith,
      row,
      lookup-insert_self user (today first) s.last_reset,
      exists-below user now q s.rows u h,
      exists-below user now q rows (reset-Unique user first s.rows u),
    )
