-- ===== src/Quota.antt =====
-- AI quotas: backend/internal/repository/quota_repository.go and backend/internal/service/quota_service.go.
-- A UUID is its text; time is in nanoseconds since the epoch, one clock for the server and the
-- database. Each query may fail for a reason of the database's own, which is a Boolean argument.
pub mod Limit
pub mod Reset
pub mod Missing
mod Tests
use anynote.Base.{
  ℕ, suc, ◌+◌, ◌*◌, ◌/◌, Bool, true, false, ◌&&◌, ◌||◌, Option, none, some, List, [], ◌∷◌, String,
  str_eq, Result, ok, err, is_ok, select_one, update, exists, lookup, insert, ltb, ◌==◌,
  if◌then◌else◌,
}

-- `domain.UserQuota`, a row of user_quotas; `user_id` is the primary key.
pub record UserQuota : Type 0 where
  pub user_id : String
  pub plan : String
  pub daily_ai_limit : ℕ
  pub daily_ai_used : ℕ
  pub quota_reset_at : ℕ
  pub updated_at : ℕ

pub data QuotaError : Type 0 where
  database no_rows quota_exceeded : QuotaError

abbrev pub day : ℕ
day = 86_400_000_000_000

abbrev pub of_user : String → UserQuota → Bool
of_user user q = str_eq q.user_id user

unfoldable pub get_by_user_id : Bool → String → List UserQuota → Result QuotaError UserQuota
get_by_user_id fails user rows =
    if fails
    then err database
    else elim (select_one (of_user user) rows) [ none ↦ err no_rows | some q ↦ ok q ]

-- INSERT ... ON CONFLICT (user_id) DO UPDATE
unfoldable pub create : ℕ → UserQuota → List UserQuota → List UserQuota
create now quota rows =
    if exists (of_user quota.user_id) rows
    then update (of_user quota.user_id) (λ _. record quota { updated_at = now }) rows
    else record quota { updated_at = now } ∷ rows

abbrev pub below_limit : String → UserQuota → Bool
below_limit user q = of_user user q && ltb q.daily_ai_used q.daily_ai_limit

abbrev pub use_one : ℕ → UserQuota → UserQuota
use_one now q = record q { daily_ai_used = q.daily_ai_used + 1; updated_at = now }

-- `UPDATE ... WHERE daily_ai_used < daily_ai_limit RETURNING`: no row back means false.
unfoldable pub try_increment_usage :
    Bool → String → ℕ → List UserQuota → List UserQuota × Result QuotaError Bool
try_increment_usage fails user now rows =
    if fails
    then (rows, err database)
    else (update (below_limit user) (use_one now) rows, ok (exists (below_limit user) rows))

-- quota_reset_at < NOW() - INTERVAL '1 day'
abbrev pub is_stale : String → ℕ → UserQuota → Bool
is_stale user now q = of_user user q && ltb (q.quota_reset_at + day) now

abbrev pub reset : ℕ → UserQuota → UserQuota
reset now q = record q { daily_ai_used = 0; quota_reset_at = now; updated_at = now }

unfoldable pub reset_rows_if_needed : String → ℕ → List UserQuota → List UserQuota
reset_rows_if_needed user now rows = update (is_stale user now) (reset now) rows

-- INSERT ... ON CONFLICT (user_id) DO NOTHING
unfoldable pub ensure_quota : String → String → ℕ → List UserQuota → List UserQuota
ensure_quota user plan now rows =
    let limit : ℕ = if str_eq plan "pro" || str_eq plan "lifetime" then 500 else 50 in
    if exists (of_user user) rows
    then rows
    else record {
      user_id = user;
      plan = plan;
      daily_ai_limit = limit;
      daily_ai_used = 0;
      quota_reset_at = now;
      updated_at = now;
    }
      ∷ rows

-- The service's state: the table, and the day of each user's last reset in memory (`lastReset`).
pub record QuotaService : Type 0 where
  pub rows : List UserQuota
  pub last_reset : List (String × ℕ)

-- Which of a call's queries fail.
pub record Faults : Type 0 where
  pub reset_fails : Bool
  pub query_fails : Bool

-- The UTC date of a time, as the number of the day.
abbrev pub today : ℕ → ℕ
today now = now / day

abbrev pub is_cached : String → ℕ → QuotaService → Bool
is_cached user now s = elim (lookup user s.last_reset) [ none ↦ false | some d ↦ d == today now ]

unfoldable pub reset_if_needed : Faults → String → ℕ → QuotaService → QuotaService
unfolding reset_rows_if_needed
reset_if_needed f user now s =
    if is_cached user now s then s else if f.reset_fails then s else record s {
      rows = reset_rows_if_needed user now s.rows;
      last_reset = insert user (today now) s.last_reset;
    }

pub record QuotaResponse : Type 0 where
  pub plan : String
  pub daily_limit : ℕ
  pub daily_used : ℕ
  pub reset_at : ℕ

abbrev respond : ℕ → Result QuotaError UserQuota → QuotaResponse
respond now (err _) = record {
  plan = "free";
  daily_limit = 50;
  daily_used = 0;
  reset_at = now + day;
}
respond now (ok q) = record {
  plan = q.plan;
  daily_limit = q.daily_ai_limit;
  daily_used = q.daily_ai_used;
  reset_at = q.quota_reset_at;
}

unfoldable pub get_quota : Faults → String → ℕ → QuotaService → QuotaService × QuotaResponse
unfolding reset_if_needed get_by_user_id
get_quota f user now s =
    let s' = reset_if_needed f user now s in
    (s', respond now (get_by_user_id f.query_fails user s'.rows))

abbrev exceeded : Result QuotaError Bool → Result QuotaError (Unit {0})
exceeded (err e) = err e
exceeded (ok true) = ok tt
exceeded (ok false) = err quota_exceeded

unfoldable pub increment_usage :
    Faults → String → ℕ → QuotaService → QuotaService × Result QuotaError (Unit {0})
unfolding reset_if_needed try_increment_usage
increment_usage f user now s =
    let s' = reset_if_needed f user now s in
    let (rows', r) = try_increment_usage f.query_fails user now s'.rows in
    (record s' { rows = rows' }, exceeded r)

-- A call of the service: an increment or a query of the quota.
pub record QuotaCall : Type 0 where
  pub increments : Bool
  pub faults : Faults
  pub user : String
  pub now : ℕ

unfoldable pub step : QuotaCall → QuotaService → QuotaService
unfolding increment_usage get_quota
step c s =
    if c.increments
    then (increment_usage c.faults c.user c.now s).0
    else (get_quota c.faults c.user c.now s).0

unfoldable pub run : List QuotaCall → QuotaService → QuotaService
run [] s = s
run (c ∷ cs) s = run cs (step c s)

-- Whether the call is an increment for the user that is granted.
abbrev pub grants_to : String → QuotaCall → QuotaService → Bool
grants_to user c s =
    str_eq c.user user && c.increments && is_ok (increment_usage c.faults c.user c.now s).1

-- How many increments of a user a sequence of calls grants.
unfoldable pub granted_to : String → List QuotaCall → QuotaService → ℕ
unfolding step
granted_to user [] s = 0
granted_to user (c ∷ cs) s =
    let rest = granted_to user cs (step c s) in if grants_to user c s then suc rest else rest
