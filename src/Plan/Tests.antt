-- ===== src/Plan/Tests.antt =====
-- Two users and their plans, backend/internal/service/plan_service.go.
use anynote.Base.{◌≡◌, refl, some, none, false, List, [], ◌∷◌, String}
use anynote.Plan.{PlanData, User, plan_free, plan_pro, plan_lifetime, get_plan}
use anynote.Plan.Limits.{plan_of, UpgradeCall, run_upgrades, run_upgrades-lifetime}

abbrev user : String → String → User
user id plan = record { id = id; plan = some plan; plan_updated_at = none; updated_at = 0 }

abbrev users : List User
users = user "alice" plan_lifetime ∷ user "bob" plan_free ∷ []

abbrev upgrade_to : String → String → UpgradeCall
upgrade_to id plan = record {
  get_fails = false;
  set_fails = false;
  user = id;
  plan = plan;
  now = 5;
}

abbrev upgrades : List UpgradeCall
upgrades = upgrade_to "alice" plan_free ∷ upgrade_to "bob" plan_pro ∷ []

run_upgrades-lifetime_example : plan_of "alice" (run_upgrades upgrades users) ≡ some plan_lifetime
unfolding get_plan
run_upgrades-lifetime_example = run_upgrades-lifetime upgrades "alice" users refl

abbrev data_of : String → PlanData
data_of plan = record {
  plan = some plan;
  daily_ai_used = some 3;
  storage_usage = none;
  note_count = some 499;
}
