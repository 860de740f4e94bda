-- ===== src/Reports.antt =====
-- usage.ts: the reports of the dashboard. `now` is the `Date.now()` of the query, past the first days
-- of 1970; `days` is a number that is not negative, in units of the least number. A UTC day is its
-- number, which orders days as their texts do.
pub mod Series
use text.Mathlib.Text.{◌==◌ as str_eq}
use api_provider.Prelude.{
  ℕ, zero, suc, ◌+◌, ◌-◌, ◌*◌, ◌/◌, String, Bool, true, false, ◌&&◌, Option, none, some, List, [],
  ◌∷◌, ◌++◌, min, max, map,
}
use api_provider.Prelude.Tests.{ltb, leb, ◌==◌, if◌then◌else◌, get_or}
use api_provider.Prelude.Lists.{filter, length}
use api_provider.Number.{Number, nan, infinite, minus_infinite, finite, negative, one}
use api_provider.Time.{day_ms, utc_day, utc_month_start_day, Period, day, month, quota_period}
use api_provider.Bucket.{Bucket, word, id}
use api_provider.Plans.{
  PaidPlan, User, active_plan, free_requests_remaining, free_total_requests,
  free_rate_limit_per_minute, monthly_requests, requests_per_minute,
}
use api_provider.Result.{Result, Error, failure, convex_error, ok, ◌>>=◌, ◌>>◌, require, or_throw}
use api_provider.Schema.{ApiKey, ApiRequest, UsageDaily, QuotaWindow, State}
use api_provider.Session.{Auth, require_user_id}
use api_provider.Convex.Docs.{Doc}
use api_provider.Convex.Database.{Database}
use api_provider.Convex.Queries.{unique}
use api_provider.Keys.{of_user, is_active, require_owned_key}
use api_provider.Gateway.Quota.{in_quota, units_or_zero, prefix, plan_quota}

abbrev pub max_series_days : ℕ
max_series_days = 90

pub record Counts : Type 0 where
  pub total : ℕ
  pub successful : ℕ
  pub failed : ℕ

abbrev pub empty : Counts
empty = record { total = 0; successful = 0; failed = 0 }

abbrev pub add_row : UsageDaily → Counts → Counts
add_row row c = record {
  total = c.total + row.total;
  successful = c.successful + row.successful;
  failed = c.failed + row.failed;
}

abbrev pub add_rows : List (Doc UsageDaily) → Counts → Counts
add_rows [] c = c
add_rows (d ∷ rows) c = add_rows rows (add_row d.value c)

-- `Math.min(Math.max(1, Math.floor(days)), MAX_SERIES_DAYS)`
-- `Math.min(Math.max(1, Math.floor(days)), MAX_SERIES_DAYS)`, none where it is NaN.
abbrev pub span_of : Number → Option ℕ
span_of nan = none
span_of infinite = some max_series_days
span_of minus_infinite = some 1
span_of (negative n) = some 1
span_of (finite n) = some (min (max 1 (n / one)) max_series_days)

-- What `utcDay` throws on a time that is NaN.
abbrev pub invalid_time : Error
invalid_time = failure "Invalid time value"

abbrev pub day_from : ℕ → ℕ → ℕ
day_from now span = utc_day (now - (span - 1) * day_ms)

abbrev pub day_row_of : ℕ → UsageDaily → Bool
day_row_of user_id row = row.user_id == user_id

-- `keyId !== undefined && row.apiKeyId !== keyId`, negated.
abbrev pub of_chosen_key : Option ℕ → UsageDaily → Bool
of_chosen_key none row = true
of_chosen_key (some key_id) row = row.api_key_id == key_id

-- The map `byDay`.
abbrev pub counts_on : ℕ → List (ℕ × Counts) → Counts
counts_on at [] = empty
counts_on at ((other, c) ∷ more) = let rest = counts_on at more in if other == at then c else rest

abbrev pub add_on : UsageDaily → List (ℕ × Counts) → List (ℕ × Counts)
add_on row [] = (row.day, add_row row empty) ∷ []
add_on row ((other, c) ∷ more) =
    let rest = add_on row more in
    if other == row.day then (other, add_row row c) ∷ more else (other, c) ∷ rest

abbrev pub by_day : Option ℕ → List (Doc UsageDaily) → List (ℕ × Counts) → List (ℕ × Counts)
by_day key_id [] m = m
by_day key_id (d ∷ rows) m =
    by_day key_id rows (if of_chosen_key key_id d.value then add_on d.value m else m)

-- The days of a series, from the first.
abbrev pub series : ℕ → ℕ → List (ℕ × Counts) → List (ℕ × Counts)
series zero first m = []
series (suc n) first m = (first, counts_on first m) ∷ series n (first + 1) m

pub record Latency : Type 0 where
  pub counts : Counts
  pub total_response_time_ms : ℕ

pub record EndpointReport : Type 0 where
  pub endpoint : String
  pub counts : Counts
  pub avg_response_time_ms : ℕ

-- The map `byEndpoint`, in the order of insertion.
abbrev pub add_endpoint : UsageDaily → List (String × Latency) → List (String × Latency)
add_endpoint row [] =
    (
      row.endpoint,
      record { counts = add_row row empty; total_response_time_ms = row.total_response_time_ms },
    )
    ∷ []
add_endpoint row ((other, l) ∷ more) =
    let rest = add_endpoint row more in
    if str_eq other row.endpoint
    then (
      other,
      record {
        counts = add_row row l.counts;
        total_response_time_ms = l.total_response_time_ms + row.total_response_time_ms;
      },
    )
      ∷ more
    else (other, l) ∷ rest

abbrev pub by_endpoint :
    Option ℕ → List (Doc UsageDaily) → List (String × Latency) → List (String × Latency)
by_endpoint key_id [] m = m
by_endpoint key_id (d ∷ rows) m =
    by_endpoint key_id rows (if of_chosen_key key_id d.value then add_endpoint d.value m else m)

-- `Math.round(a / b)`, of whole numbers.
abbrev pub rounded : ℕ → ℕ → ℕ
rounded a b = (2 * a + b) / (2 * b)

abbrev pub report : String × Latency → EndpointReport
report (endpoint, l) = record {
  endpoint = endpoint;
  counts = l.counts;
  avg_response_time_ms =
      if l.counts.total == 0 then 0 else rounded l.total_response_time_ms l.counts.total;
}

-- `sort((a, b) => b.total - a.total)`, which is stable.
abbrev pub insert_busiest : EndpointReport → List EndpointReport → List EndpointReport
insert_busiest r [] = r ∷ []
insert_busiest r (q ∷ rs) =
    let rest = insert_busiest r rs in
    if ltb r.counts.total q.counts.total then q ∷ rest else r ∷ q ∷ rs

abbrev pub busiest_first : List EndpointReport → List EndpointReport
busiest_first [] = []
busiest_first (r ∷ rs) = insert_busiest r (busiest_first rs)

abbrev pub tenant_bucket : Option PaidPlan → ℕ → Bucket
tenant_bucket plan user_id = prefix plan ++ word "tenant" ∷ id user_id ∷ []

pub record QuotaReport : Type 0 where
  pub used : ℕ
  pub limit : ℕ

pub record Summary : Type 0 where
  pub today : Counts
  pub month : Counts
  pub rate_limit_per_minute : ℕ
  pub active_keys : ℕ
  pub total_keys : ℕ
  pub daily_quota : QuotaReport
  pub monthly_quota : QuotaReport

abbrev pub on_day : ℕ → Doc UsageDaily → Bool
on_day at d = d.value.day == at

abbrev plan_of_user : Option (Doc User) → ℕ → Option PaidPlan
plan_of_user none now = none
plan_of_user (some u) now = active_plan u.value now

abbrev rate_of : Option (Doc User) → Option PaidPlan → ℕ
rate_of user (some p) = requests_per_minute p
rate_of none none = 0
rate_of (some u) none =
    if ltb 0 (free_requests_remaining u.value) then free_rate_limit_per_minute else 0

abbrev used_free : Option (Doc User) → ℕ
used_free none = 0
used_free (some u) = get_or u.value.free_requests_used 0

abbrev used_monthly : Option (Doc User) → Option PaidPlan → Option (Doc QuotaWindow) → ℕ
used_monthly user none window = used_free user
used_monthly user (some p) window = units_or_zero window

-- A row of `recent`.
pub record RecentRequest : Type 0 where
  pub id : ℕ
  pub key_name : String
  pub endpoint : String
  pub method : String
  pub status_code : ℕ
  pub response_time_ms : ℕ
  pub timestamp : ℕ

module _ ⦃db : Database⦄ where
  open db use {get, query, query_from}

  abbrev pub rows_since : ℕ → ℕ → State → List (Doc UsageDaily)
  rows_since user_id first s =
      query_from (day_row_of user_id) (λ (row : UsageDaily). row.day) first s.usage_daily

  unfoldable pub summary : Auth → ℕ → State → Result Summary
  summary auth now s = do
    user_id ← require_user_id auth now s
    let user : Option (Doc User) = get user_id s.users
    let plan : Option PaidPlan = plan_of_user user now
    let rows : List (Doc UsageDaily) = rows_since user_id (utc_month_start_day now) s
    let keys : List (Doc ApiKey) = query (of_user user_id) s.api_keys
    daily_window ←
        unique (in_quota (tenant_bucket plan user_id) day (quota_period now day).start)
          s.quota_windows
    monthly_window ←
        unique (in_quota (tenant_bucket plan user_id) month (quota_period now month).start)
          s.quota_windows
    ok (record {
      today = add_rows (filter (on_day (utc_day now)) rows) empty;
      month = add_rows rows empty;
      rate_limit_per_minute = rate_of user plan;
      active_keys = length (filter is_active keys);
      total_keys = length keys;
      daily_quota = record { used = units_or_zero daily_window; limit = plan_quota plan };
      monthly_quota = record {
        used = used_monthly user plan monthly_window;
        limit = plan_quota plan;
      };
    })

  unfoldable pub daily_report : Auth → Number → Option ℕ → ℕ → State → Result (List (ℕ × Counts))
  daily_report auth days key_id now s = do
    user_id ← require_user_id auth now s
    span ← or_throw (span_of days) invalid_time
    let rows : List (Doc UsageDaily) = rows_since user_id (day_from now span) s
    ok (series span (day_from now span) (by_day key_id rows []))

  unfoldable pub endpoints_report :
      Auth → Number → Option ℕ → ℕ → State → Result (List EndpointReport)
  endpoints_report auth days key_id now s = do
    user_id ← require_user_id auth now s
    span ← or_throw (span_of days) invalid_time
    let rows : List (Doc UsageDaily) = rows_since user_id (day_from now span) s
    ok (busiest_first (map report (by_endpoint key_id rows [])))

  -- The key's name, as it is read for each request.
  abbrev pub key_name : ℕ → State → String
  key_name key_id s = elim (get key_id s.api_keys) [ none ↦ "Deleted key" | some k ↦ k.value.name ]

  abbrev pub recent_row : State → Doc ApiRequest → RecentRequest
  recent_row s r = record {
    id = r.id;
    key_name = key_name r.value.api_key_id s;
    endpoint = r.value.endpoint;
    method = r.value.method;
    status_code = r.value.status_code;
    response_time_ms = r.value.response_time_ms;
    timestamp = r.value.timestamp;
  }

  abbrev pub own_requests : ℕ → List (Doc ApiRequest) → List (Doc ApiRequest)
  own_requests user_id page = filter (λ (r : Doc ApiRequest). r.value.user_id == user_id) page

  abbrev pub own_key_chosen : Option ℕ → ℕ → State → Result (Unit {0})
  own_key_chosen none user_id s = ok tt
  own_key_chosen (some key_id) user_id s = require_owned_key key_id user_id s >>= λ k. ok tt

  -- `page` is what `.paginate` gives for the index on the chosen key, or on the user.
  unfoldable pub recent :
      Auth → Option ℕ → List (Doc ApiRequest) → ℕ → State → Result (List RecentRequest)
  recent auth key_id page now s = do
    user_id ← require_user_id auth now s
    chosen ← own_key_chosen key_id user_id s
    ok (map (recent_row s) (own_requests user_id page))
