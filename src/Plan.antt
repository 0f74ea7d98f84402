-- ===== src/Plan.antt =====
-- Subscription plans: backend/internal/domain/plan.go, backend/internal/service/plan_service.go and
-- backend/internal/repository/plan_repository.go. A plan in the database is any text; the limits are
-- integers, with -1 for unlimited. What each query returns, or that it fails, is a `PlanData`.
pub mod Limits
pub mod Usage
mod Tests
use anynote.Base.{
  ℕ, ◌+◌, ◌*◌, Bool, true, false, ◌&&◌, ◌||◌, not, Option, none, some, List, [], ◌∷◌, String,
  str_eq, Result, ok, err, select_one, update, leb, if◌then◌else◌,
}
use anynote.Base.Int.{ℤ, pos, negsuc, leb_ℤ, eq_ℤ}

abbrev pub plan_free : String
plan_free = "free"

abbrev pub plan_pro : String
plan_pro = "pro"

abbrev pub plan_lifetime : String
plan_lifetime = "lifetime"

-- `ValidPlans`
unfoldable pub is_valid_plan : String → Bool
is_valid_plan p = str_eq p plan_free || str_eq p plan_pro || str_eq p plan_lifetime

pub record PlanLimits : Type 0 where
  pub max_notes : ℤ
  pub max_collections : ℤ
  pub ai_daily_quota : ℤ
  pub max_storage_bytes : ℤ
  pub max_devices : ℤ
  pub can_collaborate : Bool
  pub can_publish : Bool

abbrev pub unlimited : ℤ
unlimited = negsuc 0

abbrev pub free_limits : PlanLimits
free_limits = record {
  max_notes = pos 500;
  max_collections = pos 20;
  ai_daily_quota = pos 50;
  max_storage_bytes = pos (100 * 1024 * 1024);
  max_devices = pos 2;
  can_collaborate = false;
  can_publish = true;
}

abbrev pub pro_limits : PlanLimits
pro_limits = record {
  max_notes = pos 10_000;
  max_collections = pos 100;
  ai_daily_quota = pos 500;
  max_storage_bytes = pos (5 * 1024 * 1024 * 1024);
  max_devices = pos 5;
  can_collaborate = true;
  can_publish = true;
}

abbrev pub lifetime_limits : PlanLimits
lifetime_limits = record {
  max_notes = unlimited;
  max_collections = unlimited;
  ai_daily_quota = unlimited;
  max_storage_bytes = unlimited;
  max_devices = unlimited;
  can_collaborate = true;
  can_publish = true;
}

-- `GetPlanLimits`, with the look-up in `PlanLimitsMap`
unfoldable pub get_plan_limits : String → PlanLimits
get_plan_limits p =
    if str_eq p plan_free
    then free_limits
    else if str_eq p plan_pro
    then pro_limits
    else if str_eq p plan_lifetime
    then lifetime_limits
    else free_limits

-- What the queries about one user return; `none` where a query fails.
pub record PlanData : Type 0 where
  pub plan : Option String
  pub daily_ai_used : Option ℕ
  pub storage_usage : Option ℕ
  pub note_count : Option ℕ

pub data PlanError : Type 0 where
  database limit_exceeded unknown_limit invalid_plan lifetime_downgrade : PlanError

pub record PlanInfo : Type 0 where
  pub plan : String
  pub limits : PlanLimits
  pub ai_daily_used : ℕ
  pub storage_bytes : ℕ
  pub note_count : ℕ

abbrev or_zero : Option ℕ → ℕ
or_zero (some n) = n
or_zero none = 0

unfoldable pub get_user_plan : PlanData → Result PlanError PlanInfo
unfolding get_plan_limits
get_user_plan d = elim d.plan [
  | none ↦ err database
  | some p ↦ ok (record {
    plan = p;
    limits = get_plan_limits p;
    ai_daily_used = or_zero d.daily_ai_used;
    storage_bytes = or_zero d.storage_usage;
    note_count = or_zero d.note_count;
  })
]

-- The three metered limits: unlimited, usage not known, below the limit, or exceeded.
unfoldable pub check_metered : ℤ → Option ℕ → Result PlanError (Unit {0})
check_metered limit usage = if eq_ℤ limit unlimited then ok tt else elim usage [
  | none ↦ ok tt
  | some n ↦ if leb_ℤ limit (pos n) then err limit_exceeded else ok tt
]

abbrev pub check_flag : Bool → Result PlanError (Unit {0})
check_flag allowed = if allowed then ok tt else err limit_exceeded

unfoldable pub check_limits : PlanLimits → PlanData → String → Result PlanError (Unit {0})
unfolding check_metered
check_limits limits d limit_type =
    if str_eq limit_type "ai_daily"
    then check_metered limits.ai_daily_quota d.daily_ai_used
    else if str_eq limit_type "storage"
    then check_metered limits.max_storage_bytes d.storage_usage
    else if str_eq limit_type "notes"
    then check_metered limits.max_notes d.note_count
    else if str_eq limit_type "publish"
    then check_flag limits.can_publish
    else if str_eq limit_type "collaborate"
    then check_flag limits.can_collaborate
    else err unknown_limit

unfoldable pub check_limit : PlanData → String → Result PlanError (Unit {0})
unfolding check_limits get_plan_limits
check_limit d limit_type = elim d.plan [
  | none ↦ err database
  | some p ↦ check_limits (get_plan_limits p) d limit_type
]

-- A row of users, as far as plans go; `none` is NULL. `id` is the primary key.
pub record User : Type 0 where
  pub id : String
  pub plan : Option String
  pub plan_updated_at : Option ℕ
  pub updated_at : ℕ

abbrev pub has_id : String → User → Bool
has_id user u = str_eq u.id user

-- SELECT COALESCE(plan, 'free'): no row is an error
unfoldable pub get_plan : Bool → String → List User → Option String
get_plan fails user users = if fails then none else elim (select_one (has_id user) users) [
  | none ↦ none
  | some u ↦ elim u.plan [ none ↦ some plan_free | some p ↦ some p ]
]

unfoldable pub set_plan :
    Bool → String → String → ℕ → List User → List User × Result PlanError (Unit {0})
set_plan fails user plan now users =
    if fails
    then (users, err database)
    else (update (has_id user) (λ u. record u { plan = some plan; updated_at = now }) users, ok tt)

-- `UpgradePlan`; the payment reference is not read.
unfoldable pub upgrade_plan :
    Bool → Bool → String → String → ℕ → List User → List User × Result PlanError (Unit {0})
upgrade_plan get_fails set_fails user plan now users =
    if not (is_valid_plan plan)
    then (users, err invalid_plan)
    else elim (get_plan get_fails user users) [
      | none ↦ (users, err database)
      | some current ↦
          if str_eq current plan_lifetime && not (str_eq plan plan_lifetime)
          then (users, err lifetime_downgrade)
          else set_plan set_fails user plan now users
    ]
