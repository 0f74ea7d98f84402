-- ===== src/Plan/Limits.antt =====
-- What the plans allow and how a user's plan changes, backend/internal/service/plan_service.go.
use anynote.Base.{
  zero, suc, ℕ, ◌≤◌, ◌≡◌, refl, ◌≢◌, ◌⊎◌, inl, inr, Bool, true, false, Option, none, some, List, [],
  ◌∷◌, String, str_eq, eq_iff, eq_refl, ok, update, arith, if◌then◌else◌,
}
use anynote.Base.Int.{ℤ, ◌≤ℤ◌}
use anynote.Plan.{
  PlanLimits, PlanData, get_plan_limits, check_limits, check_metered, check_flag, check_limit,
  unlimited, User, has_id, get_plan, set_plan, upgrade_plan, plan_free, plan_pro, plan_lifetime,
  free_limits, pro_limits, lifetime_limits,
}

-- The plan of a user as the database reads it.
abbrev pub plan_of : String → List User → Option String
plan_of user users = get_plan false user users

plan_of-update :
    (user k plan : String) (now : ℕ) (users : List User)
    → plan_of k (update (has_id user) (λ u. record u { plan = some plan; updated_at = now }) users)
      ≡ (elim (plan_of k users) [
        | none ↦ none
        | some p ↦ if str_eq user k then some plan else some p
      ])
unfolding get_plan
plan_of-update user k plan now [] = refl
plan_of-update user k plan now (u ∷ users) =
    ground
      (arith, plan_of-update user k plan now users, eq_iff u.id k, eq_iff u.id user, eq_iff user k)

-- A request to change a plan, with which of its queries fail.
pub record UpgradeCall : Type 0 where
  pub get_fails : Bool
  pub set_fails : Bool
  pub user : String
  pub plan : String
  pub now : ℕ

pub run_upgrades : List UpgradeCall → List User → List User
run_upgrades [] users = users
run_upgrades (c ∷ cs) users =
    run_upgrades cs (upgrade_plan c.get_fails c.set_fails c.user c.plan c.now users).0

-- A plan is read as it is, or the query fails.
get_plan_or_none :
    (fails : Bool) (user : String) (users : List User)
    → (get_plan fails user users ≡ none) ⊎ (get_plan fails user users ≡ plan_of user users)
unfolding get_plan
get_plan_or_none fails user users = ground arith

pub plan_of-set_plan :
    (fails : Bool) (user k plan : String) (now : ℕ) (users : List User)
    → plan_of k (set_plan fails user plan now users).0 ≡ (
        if fails then plan_of k users else elim (plan_of k users) [
          | none ↦ none
          | some p ↦ if str_eq user k then some plan else some p
        ])
unfolding set_plan
plan_of-set_plan true user k plan now users = refl
plan_of-set_plan false user k plan now users = plan_of-update user k plan now users

module _ (c : UpgradeCall) (k : String) (users : List User) where
  upgrade-lifetime :
      plan_of k users ≡ some plan_lifetime
      → plan_of k (upgrade_plan c.get_fails c.set_fails c.user c.plan c.now users).0
        ≡ some plan_lifetime
  unfolding upgrade_plan
  upgrade-lifetime h = ground (
    arith,
    plan_of-set_plan c.set_fails c.user k c.plan c.now users,
    get_plan_or_none c.get_fails c.user users,
    eq_iff c.user k,
    eq_iff c.plan plan_lifetime,
    eq_refl plan_lifetime,
  )

-- No sequence of calls of UpgradePlan, for any users, to any plans and with any queries failing, takes
-- a user off the lifetime plan. The payment handlers, which write the plan themselves, are not among
-- the calls.
pub run_upgrades-lifetime :
    (cs : List UpgradeCall) (k : String) (users : List User)
    → plan_of k users ≡ some plan_lifetime
    → plan_of k (run_upgrades cs users) ≡ some plan_lifetime
unfolding run_upgrades
run_upgrades-lifetime [] k users h = h
run_upgrades-lifetime (c ∷ cs) k users h =
    run_upgrades-lifetime cs k _ (upgrade-lifetime c k users h)

-- Below, at or above a limit: -1 is above all others.
infix 50 ◌⊑◌
abbrev pub ◌⊑◌ : ℤ → ℤ → Type 0
a ⊑ b = (b ≡ unlimited) ⊎ (a ≢ unlimited) × (a ≤ℤ b)

-- Limits that allow all that other limits allow.
pub record Covers (low high : PlanLimits) : Type 0 where
  pub notes : low.max_notes ⊑ high.max_notes
  pub ai : low.ai_daily_quota ⊑ high.ai_daily_quota
  pub storage : low.max_storage_bytes ⊑ high.max_storage_bytes
  pub collaborate : (low.can_collaborate ≡ false) ⊎ (high.can_collaborate ≡ true)
  pub publish : (low.can_publish ≡ false) ⊎ (high.can_publish ≡ true)

check_metered_mono :
    (low high : ℤ) (usage : Option ℕ)
    → low ⊑ high
    → check_metered low usage ≡ ok tt
    → check_metered high usage ≡ ok tt
unfolding check_metered
check_metered_mono low high usage le h = ground arith

check_flag_mono :
    (low high : Bool)
    → (low ≡ false) ⊎ (high ≡ true)
    → check_flag low ≡ ok tt
    → check_flag high ≡ ok tt
check_flag_mono low high le h = ground arith

-- Limits that cover others let every check succeed that succeeds with the others.
check_limits_mono :
    (low high : PlanLimits) (d : PlanData) (limit_type : String)
    → Covers low high
    → check_limits low d limit_type ≡ ok tt
    → check_limits high d limit_type ≡ ok tt
unfolding check_limits
check_limits_mono low high d limit_type c h = ground (
  arith,
  check_metered_mono low.ai_daily_quota high.ai_daily_quota d.daily_ai_used c.ai,
  check_metered_mono low.max_storage_bytes high.max_storage_bytes d.storage_usage c.storage,
  check_metered_mono low.max_notes high.max_notes d.note_count c.notes,
  check_flag_mono low.can_publish high.can_publish c.publish,
  check_flag_mono low.can_collaborate high.can_collaborate c.collaborate,
)

-- How much a plan allows: lifetime above pro, pro above free and all unknown plans.
unfoldable pub tier : String → ℕ
tier p =
    if str_eq p plan_free
    then 0
    else if str_eq p plan_pro
    then 1
    else if str_eq p plan_lifetime
    then 2
    else 0

tier_limits : ℕ → PlanLimits
tier_limits zero = free_limits
tier_limits (suc zero) = pro_limits
tier_limits (suc (suc _)) = lifetime_limits

get_plan_limits-tier : (p : String) → get_plan_limits p ≡ tier_limits (tier p)
unfolding get_plan_limits tier tier_limits
get_plan_limits-tier p = ground arith

tier_limits-Covers : (i j : ℕ) → i ≤ j → Covers (tier_limits i) (tier_limits j)
unfolding tier_limits
tier_limits-Covers zero zero h = record {
  notes = ground arith;
  ai = ground arith;
  storage = ground arith;
  collaborate = ground arith;
  publish = ground arith;
}
tier_limits-Covers zero (suc zero) h = record {
  notes = ground arith;
  ai = ground arith;
  storage = ground arith;
  collaborate = ground arith;
  publish = ground arith;
}
tier_limits-Covers zero (suc (suc j)) h = record {
  notes = inl refl;
  ai = inl refl;
  storage = inl refl;
  collaborate = inr refl;
  publish = inr refl;
}
tier_limits-Covers (suc i) zero h = ground arith
tier_limits-Covers (suc zero) (suc zero) h = record {
  notes = ground arith;
  ai = ground arith;
  storage = ground arith;
  collaborate = ground arith;
  publish = ground arith;
}
tier_limits-Covers (suc (suc i)) (suc zero) h = ground arith
tier_limits-Covers (suc i) (suc (suc j)) h = record {
  notes = inl refl;
  ai = inl refl;
  storage = inl refl;
  collaborate = inr refl;
  publish = inr refl;
}

-- A plan of the same or a higher tier allows all that a plan allows: whatever the usage, a limit
-- check that succeeds for a user succeeds when only the user's plan is raised.
pub check_limit_mono :
    (d : PlanData) (p q limit_type : String)
    → d.plan ≡ some p
    → tier p ≤ tier q
    → check_limit d limit_type ≡ ok tt
    → check_limit (record d { plan = some q }) limit_type ≡ ok tt
unfolding check_limit
check_limit_mono d p q limit_type e h r = ground (
  arith,
  check_limits_mono (tier_limits (tier p)) (tier_limits (tier q)) d limit_type
      (tier_limits-Covers (tier p) (tier q) h),
  get_plan_limits-tier p,
  get_plan_limits-tier q,
)
