-- ===== src/Examples/Accounts.antt =====
-- Payments, keys and accounts.
use api_provider.Prelude.{ℕ, ◌+◌, ◌≡◌, refl, inr, true, false, none, some, [], arith}
use api_provider.Result.{ok}
use api_provider.Plans.{User}
use api_provider.Schema.{Payment, State, failed}
use api_provider.Convex.Docs.{Doc}
use api_provider.Gateway.Credential.{Args, Response, invalid, Principal, RateLimit, accepted, key}
use api_provider.Convex.Memory.{memory}
use api_provider.Gateway.Credential.{
  admit, credential, found_key, owner_of, active_owner, admit_owner, check_endpoint,
}
use api_provider.Plans.{has_key_access, active_plan, free_requests_remaining}
use api_provider.Gateway.RateLimit.{clamp_limit, hit, hit_window, combine, sorted, insert_sorted}
use api_provider.Env.{
  endpoint_rate_limit_per_minute, account_rate_limit_per_minute, global_rate_limit_per_minute, rate,
  positive_int, key_daily_quota_units, key_monthly_quota_units, tenant_daily_quota_units,
  tenant_monthly_quota_units, endpoint_monthly_quota_units,
}
use api_provider.Number.{positive_or, whole_or, one}
use api_provider.Convex.Queries.{patch_or_insert}
use api_provider.Gateway.Quota.{
  consume_customer_quotas, quota_specs, check_quotas, check_quota, write_quotas, write_quota,
}
use api_provider.Endpoints.{normalize_endpoint}
use api_provider.Time.{
  quota_period, month_of, month_span, year_from, year_length, month_lengths, is_leap,
}
use api_provider.Audit.{write_audit}
use api_provider.Gateway.Authorize.{
  authorize, meter, buckets, customer_buckets, hit_all, decide, charge, succeed, count_free,
}
use api_provider.Keys.{
  NewKey, insert_key, insert_within, revoke, replace_secret, delete_playground_tokens,
}
use api_provider.Keys.Revocation.{revoke_stops, replace_secret_stops}
use api_provider.Keys.Limits.{KeysBounded, insert_key-KeysBounded}
use api_provider.Admin.{lock_user, revoke_each}
use api_provider.Admin.Lockout.{lock_user_stops}
use api_provider.Payments.{
  Settle, paid, unpaid, settle, settle_found, settle_pending, grant, activate_free_tier,
}
use api_provider.Payments.Lifecycle.{settle_once, terminal_stays, done, then_step, activated}
use api_provider.Payments.Access.{Grants, settle-Grants, settle_unpaid}
use api_provider.Examples.{now, deployment, variables, request, result, checkout}

abbrev principal_of : Response → Principal
principal_of (accepted p r) = p
principal_of _ = record {
  key_id = 9;
  user_id = 9;
  tenant_id = 9;
  project_id = 9;
  is_site_key = false;
  via_playground = false;
}

abbrev limit_of : Response → RateLimit
limit_of (accepted p r) = r
limit_of _ = record { limit = 0; remaining = 0; reset = 0 }

-- The answer to the request `args`, and the state it leaves.
abbrev called : Args → State → Response × State
called args s = result (invalid, s) (authorize variables args now s)

abbrev answer : Args → State → Response
answer args s = accepted (principal_of (called args s).0) (limit_of (called args s).0)

-- Alice revokes her second key and calls with her first.
abbrev without_spare : State
without_spare = result deployment (revoke 1 0 now deployment)

revokes : revoke 1 0 now deployment ≡ ok without_spare
unfolding revoke delete_playground_tokens write_audit
revokes = refl

served_without_spare :
    authorize variables request now without_spare
    ≡ ok (answer request without_spare, (called request without_spare).1)
unfolding revoke delete_playground_tokens authorize admit credential found_key owner_of active_owner
    admit_owner check_endpoint has_key_access active_plan free_requests_remaining meter buckets
    customer_buckets clamp_limit endpoint_rate_limit_per_minute account_rate_limit_per_minute
    global_rate_limit_per_minute rate positive_or whole_or positive_int hit_all hit hit_window
    patch_or_insert combine sorted insert_sorted decide charge succeed count_free
    consume_customer_quotas quota_specs key_daily_quota_units key_monthly_quota_units
    tenant_daily_quota_units tenant_monthly_quota_units endpoint_monthly_quota_units
    normalize_endpoint check_quotas check_quota quota_period month_of month_span year_from
    year_length month_lengths is_leap write_quotas write_quota write_audit one
served_without_spare = refl

revoke_stops_example : ¬ ((principal_of (called request without_spare).0).key_id ≡ 1)
revoke_stops_example =
    revoke_stops 1 0 now deployment without_spare (called request without_spare).1 variables request
      now (answer request without_spare) (principal_of (called request without_spare).0) revokes
      served_without_spare refl

-- Alice replaces the secret of her first key and calls with the new one.
abbrev rotated : State
rotated = result deployment (replace_secret 0 0 "geo_wxyz" "new" now deployment)

rotates : replace_secret 0 0 "geo_wxyz" "new" now deployment ≡ ok rotated
unfolding replace_secret delete_playground_tokens write_audit has_key_access active_plan
    free_requests_remaining
rotates = refl

abbrev new_request : Args
new_request = record request { hash = "new" }

served_rotated :
    authorize variables new_request now rotated
    ≡ ok (answer new_request rotated, (called new_request rotated).1)
unfolding replace_secret delete_playground_tokens authorize admit credential found_key owner_of
    active_owner admit_owner check_endpoint has_key_access active_plan free_requests_remaining meter
    buckets customer_buckets clamp_limit endpoint_rate_limit_per_minute
    account_rate_limit_per_minute global_rate_limit_per_minute rate positive_or whole_or
    positive_int hit_all hit hit_window patch_or_insert combine sorted insert_sorted decide charge
    succeed count_free consume_customer_quotas quota_specs key_daily_quota_units
    key_monthly_quota_units tenant_daily_quota_units tenant_monthly_quota_units
    endpoint_monthly_quota_units normalize_endpoint check_quotas check_quota quota_period month_of
    month_span year_from year_length month_lengths is_leap write_quotas write_quota write_audit one
served_rotated = refl

served_key : (principal_of (called new_request rotated).0).key_id ≡ 0
unfolding replace_secret delete_playground_tokens authorize admit credential found_key owner_of
    active_owner admit_owner check_endpoint has_key_access active_plan free_requests_remaining meter
    buckets customer_buckets clamp_limit endpoint_rate_limit_per_minute
    account_rate_limit_per_minute global_rate_limit_per_minute rate positive_or whole_or
    positive_int hit_all hit hit_window patch_or_insert combine sorted insert_sorted decide charge
    succeed count_free consume_customer_quotas quota_specs key_daily_quota_units
    key_monthly_quota_units tenant_daily_quota_units tenant_monthly_quota_units
    endpoint_monthly_quota_units normalize_endpoint check_quotas check_quota quota_period month_of
    month_span year_from year_length month_lengths is_leap write_quotas write_quota write_audit one
served_key = refl

replace_secret_stops_example : (new_request.kind ≡ key) × (new_request.hash ≡ "new")
replace_secret_stops_example =
    replace_secret_stops 0 0 "geo_wxyz" "new" now deployment rotated (called new_request rotated).1
      variables new_request now (answer new_request rotated)
      (principal_of (called new_request rotated).0) rotates served_rotated refl served_key

-- Bob is locked out and Alice calls.
abbrev locked : ℕ × State
locked = result (0, deployment) (lock_user 1 now deployment)

locks : lock_user 1 now deployment ≡ ok locked
unfolding lock_user revoke_each write_audit
locks = refl

served_locked :
    authorize variables request now locked.1
    ≡ ok (answer request locked.1, (called request locked.1).1)
unfolding lock_user revoke_each authorize admit credential found_key owner_of active_owner
    admit_owner check_endpoint has_key_access active_plan free_requests_remaining meter buckets
    customer_buckets clamp_limit endpoint_rate_limit_per_minute account_rate_limit_per_minute
    global_rate_limit_per_minute rate positive_or whole_or positive_int hit_all hit hit_window
    patch_or_insert combine sorted insert_sorted decide charge succeed count_free
    consume_customer_quotas quota_specs key_daily_quota_units key_monthly_quota_units
    tenant_daily_quota_units tenant_monthly_quota_units endpoint_monthly_quota_units
    normalize_endpoint check_quotas check_quota quota_period month_of month_span year_from
    year_length month_lengths is_leap write_quotas write_quota write_audit one
served_locked = refl

lock_user_stops_example : ¬ ((principal_of (called request locked.1).0).user_id ≡ 1)
lock_user_stops_example =
    lock_user_stops 1 now deployment locked.1 (called request locked.1).1 locked.0 variables request
      now (answer request locked.1) (principal_of (called request locked.1).0) locks served_locked
      refl

-- Alice's checkout is paid.
abbrev payment : Settle
payment = record { payment_intent_id = "pi_1"; status = paid; amount = 1000; currency = "MNT" }

abbrev unpaid_payment : Settle
unpaid_payment = record payment { status = unpaid }

abbrev after_payment : State
after_payment = (result (false, deployment) (settle payment now deployment)).1

settles_checkout : settle payment now deployment ≡ ok (true, after_payment)
unfolding settle settle_found settle_pending grant
settles_checkout = refl

settle_once_example : settle unpaid_payment (now + 1) after_payment ≡ ok (false, after_payment)
settle_once_example =
    settle_once payment unpaid_payment now (now + 1) deployment after_payment settles_checkout refl

settle-Grants_example :
    (p : Doc Payment) × (u : Doc User) × Grants payment now deployment after_payment p u
settle-Grants_example = settle-Grants payment now deployment after_payment refl settles_checkout

abbrev after_failure : State
after_failure = (result (false, deployment) (settle unpaid_payment now deployment)).1

fails_checkout : settle unpaid_payment now deployment ≡ ok (true, after_failure)
unfolding settle settle_found settle_pending
fails_checkout = refl

settle_unpaid_example : after_failure.users ≡ deployment.users
settle_unpaid_example =
    settle_unpaid unpaid_payment now true deployment after_failure fails_checkout (inr refl)

abbrev failed_checkout : Doc Payment
failed_checkout = record { id = 0; created = 0; value = record checkout { status = failed } }

activates : activate_free_tier 0 now after_failure ≡ ok after_failure
unfolding activate_free_tier settle settle_found settle_pending
activates = refl

there_failed : memory.get 0 after_failure.payments ≡ some failed_checkout
unfolding settle settle_found settle_pending
there_failed = refl

terminal_stays_example : memory.get 0 after_failure.payments ≡ some failed_checkout
terminal_stays_example =
    terminal_stays after_failure after_failure 0 failed_checkout
      (then_step done (activated 0 now activates)) there_failed refl

abbrev new_key : NewKey
new_key = record {
  user_id = 0;
  name = "third";
  key_prefix = "geo_efgh";
  key_hash = "third";
  endpoints = [];
  expires_at = none;
}

abbrev after_insert : ℕ × State
after_insert = result (0, deployment) (insert_key new_key now deployment)

inserts : insert_key new_key now deployment ≡ ok after_insert
unfolding insert_key insert_within write_audit has_key_access active_plan free_requests_remaining
inserts = refl

deployment-KeysBounded : KeysBounded deployment
deployment-KeysBounded user_id = ground arith

insert_key-KeysBounded_example : KeysBounded after_insert.1
insert_key-KeysBounded_example =
    insert_key-KeysBounded new_key now deployment after_insert.1 after_insert.0
      deployment-KeysBounded inserts
