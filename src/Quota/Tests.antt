-- ===== src/Quota/Tests.antt =====
-- Quotas of one or two requests a day, backend/internal/service/quota_service.go.
use anynote.Base.{ℕ, true, false, List, [], ◌∷◌, All, arith}
use anynote.Quota.{UserQuota, QuotaService, Faults, QuotaCall, run}
use anynote.Quota.Limit.{IsWithin, run-IsWithin}

abbrev no_faults : Faults
no_faults = record { reset_fails = false; query_fails = false }

abbrev quota_of : ℕ → UserQuota
quota_of used = record {
  user_id = "alice";
  plan = "free";
  daily_ai_limit = 2;
  daily_ai_used = used;
  quota_reset_at = 10;
  updated_at = 10;
}

abbrev service : ℕ → QuotaService
service used = record { rows = quota_of used ∷ []; last_reset = [] }

abbrev served_today : QuotaService
served_today = record (service 1) { last_reset = ("alice", 0) ∷ [] }

abbrev increment_at : ℕ → QuotaCall
increment_at now = record { increments = true; faults = no_faults; user = "alice"; now = now }

abbrev calls : List QuotaCall
calls = increment_at 20 ∷ increment_at 30 ∷ increment_at 40 ∷ []

run-IsWithin_example : All IsWithin (run calls (service 1)).rows
run-IsWithin_example = run-IsWithin calls (service 1) (omega arith, tt)
