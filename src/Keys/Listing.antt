-- ===== src/Keys/Listing.antt =====
-- apiKeys.ts, `list`: the keys of the dashboard with their usage. `now` is past the first month of 1970.
use api_provider.Prelude.{
  ℕ, ◌+◌, ◌-◌, ◌*◌, String, Bool, true, false, not, Option, none, some, List, [], ◌∷◌,
}
use api_provider.Prelude.Tests.{ltb, ◌==◌, if◌then◌else◌, is_some}
use api_provider.Endpoints.{ApiEndpoint, api_endpoints, normalize_endpoints}
use api_provider.Plans.{
  User, active_plan, has_key_access, requests_per_minute, free_rate_limit_per_minute,
}
use api_provider.Time.{day_ms, minute_ms, utc_day, window_start}
use api_provider.Bucket.{word, id}
use api_provider.Result.{Result, ok, ◌>>=◌}
use api_provider.Schema.{ApiKey, UsageDaily, State}
use api_provider.Session.{Auth, require_user_id}
use api_provider.Convex.Docs.{Doc}
use api_provider.Convex.Database.{Database}
use api_provider.Convex.Queries.{unique}
use api_provider.Gateway.RateLimit.{in_window, count_or_zero}
use api_provider.Keys.{of_user}
use api_provider.Keys.Format.{masked_key}
use api_provider.Reports.{rows_since}

abbrev pub usage_lookback_days : ℕ
usage_lookback_days = 30

pub record ApiKeySummary : Type 0 where
  pub id : ℕ
  pub name : String
  pub masked_key : String
  pub endpoints : List ApiEndpoint
  pub created_at : ℕ
  pub last_used_at : Option ℕ
  pub expires_at : Option ℕ
  pub revoked_at : Option ℕ
  pub rate_limit_per_minute : ℕ
  pub requests_last_30_days : ℕ
  pub requests_this_minute : ℕ

abbrev scope_of : Option (List String) → List ApiEndpoint
scope_of none = api_endpoints
scope_of (some stored) = normalize_endpoints stored

abbrev pub summarize : Doc ApiKey → ℕ → ℕ → ℕ → ApiKeySummary
summarize k requests this_minute rate = record {
  id = k.id;
  name = k.value.name;
  masked_key = masked_key k.value.key_prefix;
  endpoints = scope_of k.value.endpoints;
  created_at = k.created;
  last_used_at = k.value.last_used_at;
  expires_at = k.value.expires_at;
  revoked_at = k.value.revoked_at;
  rate_limit_per_minute = rate;
  requests_last_30_days = requests;
  requests_this_minute = this_minute;
}

abbrev list_rate : Option (Doc User) → ℕ → ℕ
list_rate none now = 0
list_rate (some u) now = elim (active_plan u.value now) [
  | some p ↦ requests_per_minute p
  | none ↦ if has_key_access u.value now then free_rate_limit_per_minute else 0
]

-- The map `totals`, at one key.
abbrev pub total_of : ℕ → List (Doc UsageDaily) → ℕ
total_of key_id [] = 0
total_of key_id (row ∷ rows) =
    let rest = total_of key_id rows in
    if row.value.api_key_id == key_id then row.value.total + rest else rest

-- Whether `a` stands before `b`: keys in force first, then the newest. Equal ones keep their order.
abbrev pub stands_before : ApiKeySummary → ApiKeySummary → Bool
stands_before a b =
    if is_some a.revoked_at
    then (if is_some b.revoked_at then not (ltb a.created_at b.created_at) else false)
    else if is_some b.revoked_at
    then true
    else not (ltb a.created_at b.created_at)

abbrev pub insert_summary : ApiKeySummary → List ApiKeySummary → List ApiKeySummary
insert_summary a [] = a ∷ []
insert_summary a (b ∷ more) =
    let rest = insert_summary a more in if stands_before a b then a ∷ b ∷ more else b ∷ rest

abbrev pub sorted_summaries : List ApiKeySummary → List ApiKeySummary
sorted_summaries [] = []
sorted_summaries (a ∷ more) = insert_summary a (sorted_summaries more)

module _ ⦃db : Database⦄ where
  open db use {get, query}

  abbrev pub summarize_each :
      List (Doc UsageDaily) → ℕ → ℕ → State → List (Doc ApiKey) → Result (List ApiKeySummary)
  summarize_each rows rate now s [] = ok []
  summarize_each rows rate now s (k ∷ ks) = do
    window ←
        unique (in_window (word "key" ∷ id k.id ∷ []) (window_start now minute_ms))
          s.rate_limit_windows
    rest ← summarize_each rows rate now s ks
    ok (summarize k (total_of k.id rows) (count_or_zero window) rate ∷ rest)

  unfoldable pub list_keys : Auth → ℕ → State → Result (List ApiKeySummary)
  list_keys auth now s = do
    user_id ← require_user_id auth now s
    let rows : List (Doc UsageDaily) =
        rows_since user_id (utc_day (now - (usage_lookback_days - 1) * day_ms)) s
    summaries ←
        summarize_each rows (list_rate (get user_id s.users) now) now s
          (query (of_user user_id) s.api_keys)
    ok (sorted_summaries summaries)
