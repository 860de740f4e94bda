-- ===== src/Gateway/Quota.antt =====
-- gateway.ts: `consumeCustomerQuotas`. The reads of the first pass, then the writes of the second.
pub mod Atomic
pub mod Writes
use text.Mathlib.Text.{◌==◌ as str_eq}
use api_provider.Prelude.{
  ℕ, ◌+◌, ◌-◌, ◌/◌, String, Bool, true, false, ◌&&◌, Option, none, some, List, [], ◌∷◌, ◌++◌, map,
  min,
}
use api_provider.Prelude.Tests.{leb, ◌==◌, if◌then◌else◌}
use api_provider.Number.{one, units}
use api_provider.Bucket.{Bucket, word, id, same_bucket}
use api_provider.Endpoints.{is_endpoint}
use api_provider.Env.{
  Env, key_daily_quota_units, key_monthly_quota_units, tenant_daily_quota_units,
  tenant_monthly_quota_units, endpoint_monthly_quota_units,
}
use api_provider.Plans.{PaidPlan, monthly_requests, free_total_requests}
use api_provider.Time.{Period, day, month, Span, quota_period}
use api_provider.Result.{Result, ok, err, ◌>>=◌}
use api_provider.Schema.{ApiKey, QuotaWindow, State}
use api_provider.Convex.Docs.{Doc}
use api_provider.Convex.Database.{Database}
use api_provider.Convex.Queries.{unique, patch_or_insert}
use api_provider.Gateway.RateLimit.{RateLimitState, combine}

pub record QuotaSpec : Type 0 where
  pub bucket : Bucket
  pub period : Period
  pub limit : ℕ

pub record Checked : Type 0 where
  pub spec : QuotaSpec
  pub open spec use *
  pub span : Span
  pub existing : Option (Doc QuotaWindow)
  pub next : ℕ
  pub allowed : Bool

abbrev pub same_period : Period → Period → Bool
same_period day day = true
same_period month month = true
same_period _ _ = false

abbrev pub in_quota : Bucket → Period → ℕ → QuotaWindow → Bool
in_quota bucket period start q =
    same_bucket q.bucket bucket && same_period q.period period && q.period_start == start

abbrev pub units_or_zero : Option (Doc QuotaWindow) → ℕ
units_or_zero none = 0
units_or_zero (some d) = d.value.units

abbrev pub endpoint_name : Option String → String
endpoint_name none = "unknown"
endpoint_name (some e) = if is_endpoint e then e else "unknown"

abbrev pub plan_quota : Option PaidPlan → ℕ
plan_quota none = free_total_requests
plan_quota (some p) = monthly_requests p

-- `plan ? planQuota : Math.min(planQuota, configured)`
abbrev pub bounded : Option PaidPlan → ℕ → ℕ
bounded none configured = min (plan_quota none) configured
bounded (some p) configured = plan_quota (some p)

abbrev pub prefix : Option PaidPlan → Bucket
prefix none = word "free" ∷ []
prefix (some p) = []

-- `key` is the key's document.
unfoldable pub quota_specs : Env → Doc ApiKey → Option String → Option PaidPlan → List QuotaSpec
quota_specs env key endpoint plan =
    let tenant : Bucket = word "tenant" ∷ id key.value.user_id ∷ [] in
    let of_key : Bucket = word "key" ∷ id key.id ∷ [] in
    record {
      bucket = prefix plan ++ of_key;
      period = day;
      limit = bounded plan (key_daily_quota_units env);
    }
    ∷ record {
      bucket = prefix plan ++ of_key;
      period = month;
      limit = bounded plan (key_monthly_quota_units env);
    }
    ∷ record {
      bucket = prefix plan ++ tenant;
      period = day;
      limit = bounded plan (tenant_daily_quota_units env);
    }
    ∷ record {
      bucket = prefix plan ++ tenant;
      period = month;
      limit = bounded plan (tenant_monthly_quota_units env);
    }
    ∷ record {
      bucket = prefix plan ++ (tenant ++ word "endpoint" ∷ word (endpoint_name endpoint) ∷ []);
      period = month;
      limit = bounded plan (endpoint_monthly_quota_units env);
    }
    ∷ []

module _ ⦃db : Database⦄ where
  open db use {Table}

  unfoldable pub check_quota : ℕ → QuotaSpec → Table QuotaWindow → Result Checked
  check_quota now spec t = do
    let span = quota_period now spec.period
    existing ← unique (in_quota spec.bucket spec.period span.start) t
    let next : ℕ = units_or_zero existing + 1
    ok (record {
      spec = spec;
      span = span;
      existing = existing;
      next = next;
      allowed = leb next spec.limit;
    })

  unfoldable pub check_quotas : ℕ → List QuotaSpec → Table QuotaWindow → Result (List Checked)
  unfolding check_quota
  check_quotas now [] t = ok []
  check_quotas now (spec ∷ specs) t = do
    checked ← check_quota now spec t
    more ← check_quotas now specs t
    ok (checked ∷ more)

  unfoldable pub write_quota : Checked → Table QuotaWindow → Table QuotaWindow
  write_quota item =
      patch_or_insert item.existing (λ q. record q { units = item.next })
        (record {
          bucket = item.bucket;
          period = item.period;
          period_start = item.span.start;
          units = item.next;
        })

  unfoldable pub write_quotas : List Checked → Table QuotaWindow → Table QuotaWindow
  unfolding write_quota
  write_quotas [] t = t
  write_quotas (item ∷ items) t = write_quotas items (write_quota item t)

  abbrev pub quota_state : Checked → RateLimitState
  quota_state item = record {
    limit = units item.limit;
    remaining = if item.allowed then units (item.limit - item.next) else 0;
    reset = item.span.reset / 1000;
    allowed = item.allowed;
  }

  unfoldable pub consume_customer_quotas :
      Env
      → Doc ApiKey
      → Option String
      → ℕ
      → Option PaidPlan
      → State
      → Result (RateLimitState × State)
  consume_customer_quotas env key endpoint now plan s = do
    checked ← check_quotas now (quota_specs env key endpoint plan) s.quota_windows
    let combined = combine (map quota_state checked)
    ok (
      combined,
      if combined.allowed
          then record s { quota_windows = write_quotas checked s.quota_windows }
          else s,
    )
