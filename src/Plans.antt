-- ===== src/Plans.antt =====
-- lib/plans.ts, and the account fields that it reads.
use api_provider.Prelude.{ℕ, ◌-◌, ◌*◌, String, Bool, ◌||◌, Option, none, some}
use api_provider.Prelude.Tests.{ltb, if◌then◌else◌, get_or, is_some}

pub data PaidPlan : Type 0 where
  starter essentials pro : PaidPlan

abbrev pub plan_price_mnt : ℕ
plan_price_mnt = 1000

abbrev pub plan_wire_amount : ℕ
plan_wire_amount = plan_price_mnt

abbrev pub plan_duration_ms : ℕ
plan_duration_ms = 30 * 24 * 60 * 60 * 1000

abbrev pub free_total_requests : ℕ
free_total_requests = 500

abbrev pub free_rate_limit_per_minute : ℕ
free_rate_limit_per_minute = 30

abbrev pub monthly_requests : PaidPlan → ℕ
monthly_requests starter = 10000
monthly_requests essentials = 100000
monthly_requests pro = 500000

abbrev pub requests_per_minute : PaidPlan → ℕ
requests_per_minute starter = 100
requests_per_minute essentials = 500
requests_per_minute pro = 2000

-- A document of the users table. An unset `isSystem` reads as false; the profile fields that the
-- modelled functions do not read are left out.
pub record User : Type 0 where
  pub name : Option String
  pub email : Option String
  pub is_system : Bool
  pub disabled_at : Option ℕ
  pub updated_at : Option ℕ
  pub plan : Option PaidPlan
  pub plan_expires_at : Option ℕ
  pub free_tier_activated_at : Option ℕ
  pub free_requests_used : Option ℕ

-- `expiry && expiry > now ? plan : null`; an expiry of 0 is never above `now`.
abbrev plan_until : PaidPlan → Option ℕ → ℕ → Option PaidPlan
plan_until p none now = none
plan_until p (some expiry) now = if ltb now expiry then some p else none

unfoldable pub active_plan : User → ℕ → Option PaidPlan
active_plan u now = elim u.plan [ none ↦ none | some p ↦ plan_until p u.plan_expires_at now ]

unfoldable pub free_requests_remaining : User → ℕ
free_requests_remaining u = elim u.free_tier_activated_at [
  | none ↦ 0
  | some _ ↦ free_total_requests - get_or u.free_requests_used 0
]

unfoldable pub has_key_access : User → ℕ → Bool
unfolding active_plan free_requests_remaining
has_key_access u now = is_some (active_plan u now) || ltb 0 (free_requests_remaining u)
