-- ===== src/Examples/Requests.antt =====
-- Requests to the gateway.
use api_provider.Prelude.{◌≡◌, refl, ◌<◌, ◌+◌, ◌⊎◌, true, false, some, [], ◌∷◌, arith}
use api_provider.Result.{ok}
use api_provider.Schema.{State}
use api_provider.Convex.Memory.{memory}
use api_provider.Gateway.Credential.{
  Response, invalid, principal, accepted, rate_limited, Principal, RateLimit, Admitted,
}
use api_provider.Gateway.Credential.{
  admit, credential, found_key, owner_of, active_owner, admit_owner, check_endpoint,
}
use api_provider.Plans.{has_key_access, active_plan, free_requests_remaining}
use api_provider.Gateway.RateLimit.{clamp_limit, hit, hit_window, combine, sorted, insert_sorted}
use api_provider.Env.{
  endpoint_rate_limit_per_minute, account_rate_limit_per_minute, global_rate_limit_per_minute, rate,
  positive_int, key_daily_quota_units, key_monthly_quota_units, tenant_daily_quota_units,
  tenant_monthly_quota_units, endpoint_monthly_quota_units,
}
use api_provider.Number.{positive_or, whole_or, one}
use api_provider.Convex.Queries.{patch_or_insert}
use api_provider.Gateway.Quota.{
  consume_customer_quotas, quota_specs, check_quotas, check_quota, write_quotas, write_quota,
}
use api_provider.Endpoints.{normalize_endpoint}
use api_provider.Time.{
  quota_period, month_of, month_span, year_from, year_length, month_lengths, is_leap,
}
use api_provider.Audit.{write_audit}
use api_provider.Gateway.Authorize.{
  authorize, meter, buckets, customer_buckets, hit_all, decide, charge, succeed, count_free,
}
use api_provider.Bucket.{word, id}
use api_provider.Plans.{User, PaidPlan, free_total_requests}
use api_provider.Convex.Docs.{Doc}
use api_provider.Gateway.Credential.Admission.{Admits}
use api_provider.Gateway.Credential.Refusals.{BeforeCounting}
use api_provider.Gateway.Authorize.Outcomes.{Counted}
use api_provider.Gateway.Authorize.Safety.{authorize_sound, refused_charges_nothing}
use api_provider.Gateway.Authorize.FreeTier.{
  free_used, FreeBounded, free_request_counted, authorize-FreeBounded,
}
use api_provider.Examples.{now, deployment, variables, request, result}

abbrev principal_of : Response → Principal
principal_of (accepted p r) = p
principal_of (rate_limited p r) = p
principal_of _ = record {
  key_id = 0;
  user_id = 0;
  tenant_id = 0;
  project_id = 0;
  is_site_key = false;
  via_playground = false;
}

abbrev limit_of : Response → RateLimit
limit_of (accepted p r) = r
limit_of (rate_limited p r) = r
limit_of _ = record { limit = 0; remaining = 0; reset = 0 }

abbrev answered : Response × State
answered = result (invalid, deployment) (authorize variables request now deployment)

abbrev named : Principal
named = principal_of answered.0

abbrev reported : RateLimit
reported = limit_of answered.0

abbrev left : State
left = answered.1

answers : authorize variables request now deployment ≡ ok (accepted named reported, left)
unfolding authorize admit credential found_key owner_of active_owner admit_owner check_endpoint
    has_key_access active_plan free_requests_remaining meter buckets customer_buckets clamp_limit
    endpoint_rate_limit_per_minute account_rate_limit_per_minute global_rate_limit_per_minute rate
    positive_or whole_or positive_int hit_all hit hit_window patch_or_insert combine sorted
    insert_sorted decide charge succeed count_free consume_customer_quotas quota_specs
    key_daily_quota_units key_monthly_quota_units tenant_daily_quota_units
    tenant_monthly_quota_units endpoint_monthly_quota_units normalize_endpoint check_quotas
    check_quota quota_period month_of month_span year_from year_length month_lengths is_leap
    write_quotas write_quota write_audit one
answers = refl

-- A minute in which the key has made its 30 requests.
abbrev busy : State
busy = record deployment {
  rate_limit_windows =
      some (record { bucket = word "key" ∷ id 0 ∷ []; window_start = 60000; count = 30 }) ∷ [];
}

abbrev limited : Response × State
limited = result (invalid, busy) (authorize variables request now busy)

limits :
    authorize variables request now busy
    ≡ ok (rate_limited (principal_of limited.0) (limit_of limited.0), limited.1)
unfolding authorize admit credential found_key owner_of active_owner admit_owner check_endpoint
    has_key_access active_plan free_requests_remaining meter buckets customer_buckets clamp_limit
    endpoint_rate_limit_per_minute account_rate_limit_per_minute global_rate_limit_per_minute rate
    positive_or whole_or positive_int hit_all hit hit_window patch_or_insert combine sorted
    insert_sorted decide charge succeed count_free consume_customer_quotas quota_specs
    key_daily_quota_units key_monthly_quota_units tenant_daily_quota_units
    tenant_monthly_quota_units endpoint_monthly_quota_units normalize_endpoint check_quotas
    check_quota quota_period month_of month_span year_from year_length month_lengths is_leap
    write_quotas write_quota write_audit one
limits = refl

authorize_sound_example :
    (BeforeCounting (accepted named reported)
      × (left ≡ record deployment { security_audit_events = left.security_audit_events }))
    ⊎ ((a : Admitted) × Admits request now deployment a
        × Counted (accepted named reported) (principal a))
authorize_sound_example =
    authorize_sound variables request now deployment left (accepted named reported) answers

refused_charges_nothing_example :
    (limited.1.quota_windows ≡ busy.quota_windows) × (limited.1.users ≡ busy.users)
refused_charges_nothing_example =
    refused_charges_nothing variables request now busy limited.1
      (rate_limited (principal_of limited.0) (limit_of limited.0)) limits refl

free_request_counted_example :
    (a : Admitted) × Admits request now deployment a
    × (named ≡ principal a)
    × ((a.is_site_key ≡ true)
        ⊎ ((plan : PaidPlan) × (a.plan ≡ some plan))
        ⊎ ((free_used a.owner.value < free_total_requests)
            × (u : Doc User) × (memory.get a.owner.id left.users ≡ some u)
            × (free_used u.value ≡ free_used a.owner.value + 1)))
free_request_counted_example =
    free_request_counted variables request now deployment left named reported answers

deployment-FreeBounded : FreeBounded deployment
deployment-FreeBounded i d h = ground arith

authorize-FreeBounded_example : FreeBounded left
authorize-FreeBounded_example =
    authorize-FreeBounded variables request now deployment left (accepted named reported)
      deployment-FreeBounded answers
