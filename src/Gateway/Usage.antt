-- ===== src/Gateway/Usage.antt =====
-- gateway.ts, `recordUsage`: a batch of request records, the daily rollups, and the time a key was
-- last used. `now` is the `Date.now()` of the transaction, past the second day of 1970, so a time
-- below zero is too old.
pub mod Batch
pub mod Rollups
pub mod Plausible
use Prim.Native.String.{◌++◌ as str_append}
use text.Mathlib.Text.{◌==◌ as str_eq}
use api_provider.Prelude.{
  ℕ, ◌+◌, ◌-◌, ◌*◌, ◌/◌, ◌%◌, String, Bool, true, false, not, ◌&&◌, ◌||◌, Option, none, some, List,
  [], ◌∷◌, min, max,
}
use api_provider.Prelude.Tests.{ltb, leb, ◌==◌, if◌then◌else◌, get_or, and_then, only_if}
use api_provider.Prelude.Lists.{any, length, take}
use api_provider.Number.{Number, nan, infinite, finite, negative, one, units}
use api_provider.Endpoints.{name, api_endpoints}
use api_provider.Time.{minute_ms, utc_day}
use api_provider.Result.{Result, ok, err, ◌>>=◌}
use api_provider.Schema.{ApiKey, ApiRequest, UsageDaily, State}
use api_provider.Convex.Docs.{Doc}
use api_provider.Convex.Database.{Database}
use api_provider.Convex.Queries.{unique, patch_or_insert}

-- `usageEntry`
pub record Entry : Type 0 where
  pub key_id : String
  pub user_id : String
  pub endpoint : String
  pub method : String
  pub status_code : Number
  pub response_time_ms : Number
  pub timestamp : Number

-- The text of an id, and `ctx.db.normalizeId`, which reads one.
pub record Ids : Type 0 where
  pub text : ℕ → String
  pub normalize_id : String → Option ℕ

abbrev pub max_usage_entries : ℕ
max_usage_entries = 200

abbrev pub max_record_age_ms : ℕ
max_record_age_ms = 24 * 60 * minute_ms

abbrev pub max_clock_skew_ms : ℕ
max_clock_skew_ms = 5 * minute_ms

abbrev pub max_response_time_ms : ℕ
max_response_time_ms = 10 * minute_ms

abbrev pub is_endpoint_path : String → Bool
is_endpoint_path path = any (λ e. str_eq path (str_append "/v1/" (name e))) api_endpoints

abbrev pub is_method : String → Bool
is_method m = str_eq m "GET" || str_eq m "HEAD"

-- The status code, where it is whole and in range.
unfoldable pub status_of : Number → Option ℕ
status_of (finite n) =
    let code = n / one in if n % one == 0 && leb 100 code && leb code 599 then some code else none
status_of _ = none

-- The time that is stored: not older than a day, not ahead of `now` by more than the skew.
unfoldable pub time_of : ℕ → Number → Option ℕ
time_of now (finite n) =
    if ltb (n + units max_record_age_ms) (units now) || ltb (units (now + max_clock_skew_ms)) n
    then none
    else some (min n (units now))
time_of now _ = none

-- `Math.round`, within bounds.
unfoldable pub response_time_of : Number → ℕ
response_time_of (finite n) = min max_response_time_ms ((n + one / 2) / one)
response_time_of _ = 0

abbrev pub is_failed : ℕ → Bool
is_failed status = leb 400 status

abbrev pub request_row : Doc ApiKey → Entry → ℕ → ℕ → ApiRequest
request_row k e status timestamp = record {
  api_key_id = k.id;
  user_id = k.value.user_id;
  endpoint = e.endpoint;
  method = e.method;
  status_code = status;
  response_time_ms = response_time_of e.response_time_ms;
  timestamp = timestamp;
}

-- The request row of an entry, whose key was read as given; `none` drops it.
unfoldable pub request_of : Ids → ℕ → Entry → Option (Doc ApiKey) → Option ApiRequest
request_of ids now e none = none
request_of ids now e (some k) =
    only_if
      (str_eq (ids.text k.value.user_id) e.user_id
        && is_endpoint_path e.endpoint
        && is_method e.method)
      (and_then (status_of e.status_code) (λ status.
        and_then (time_of now e.timestamp) (λ timestamp. some (request_row k e status timestamp))))

-- The day of a request's rollup.
abbrev pub day_of : ApiRequest → ℕ
day_of r = utc_day (r.timestamp / one)

abbrev pub in_daily : ℕ → String → ℕ → UsageDaily → Bool
in_daily key_id endpoint day u =
    u.api_key_id == key_id && str_eq u.endpoint endpoint && u.day == day

abbrev pub count_request : ApiRequest → UsageDaily → UsageDaily
count_request r u = record u {
  total = u.total + 1;
  successful = if is_failed r.status_code then u.successful else u.successful + 1;
  failed = if is_failed r.status_code then u.failed + 1 else u.failed;
  total_response_time_ms = u.total_response_time_ms + r.response_time_ms;
}

abbrev pub empty_rollup : ApiRequest → UsageDaily
empty_rollup r = record {
  user_id = r.user_id;
  api_key_id = r.api_key_id;
  endpoint = r.endpoint;
  day = day_of r;
  total = 0;
  successful = 0;
  failed = 0;
  total_response_time_ms = 0;
}

-- The map `rollups`, in the order of insertion.
abbrev pub add_rollup : ApiRequest → List UsageDaily → List UsageDaily
add_rollup r [] = count_request r (empty_rollup r) ∷ []
add_rollup r (u ∷ us) =
    let rest = add_rollup r us in
    if in_daily r.api_key_id r.endpoint (day_of r) u then count_request r u ∷ us else u ∷ rest

-- The map `lastUsed`.
abbrev pub set_last_used : ℕ → ℕ → List (ℕ × ℕ) → List (ℕ × ℕ)
set_last_used key_id t [] = (key_id, t) ∷ []
set_last_used key_id t ((i, t') ∷ more) =
    let rest = set_last_used key_id t more in
    if i == key_id then (i, max t' t) ∷ more else (i, t') ∷ rest

-- The map `keys`, the keys read so far by the text that named them.
abbrev pub cached : String → List (String × Option (Doc ApiKey)) → Option (Option (Doc ApiKey))
cached name [] = none
cached name ((other, k) ∷ more) =
    let rest = cached name more in if str_eq other name then some k else rest

abbrev pub merged : UsageDaily → UsageDaily → UsageDaily
merged r u = record u {
  total = u.total + r.total;
  successful = u.successful + r.successful;
  failed = u.failed + r.failed;
  total_response_time_ms = u.total_response_time_ms + r.total_response_time_ms;
}

-- `(key.lastUsedAt ?? 0) < timestamp`
abbrev is_newer : Option (Option (Doc ApiKey)) → ℕ → Bool
is_newer (some (some k)) t = ltb (get_or k.value.last_used_at 0) t
is_newer _ t = false

pub record Recorded : Type 0 where
  pub written : ℕ
  pub dropped : ℕ

module _ ⦃db : Database⦄ where
  open db use {Table, get, insert, patch}

  -- What the loop over the entries has gathered.
  pub record Gathered : Type 0 where
    pub keys : List (String × Option (Doc ApiKey))
    pub last_used : List (ℕ × ℕ)
    pub rollups : List UsageDaily
    pub written : ℕ
    pub api_requests : Table ApiRequest

  -- `normalizeId`, then `get`.
  abbrev pub read_key : Ids → String → Table ApiKey → Option (Doc ApiKey)
  read_key ids name t = and_then (ids.normalize_id name) (λ i. get i t)

  abbrev pub know :
      Ids
      → Table ApiKey
      → String
      → List (String × Option (Doc ApiKey))
      → Option (Option (Doc ApiKey))
      → Option (Doc ApiKey) × List (String × Option (Doc ApiKey))
  know ids t name keys (some k) = (k, keys)
  know ids t name keys none = let k = read_key ids name t in (k, (name, k) ∷ keys)

  abbrev pub gather_request : Option ApiRequest → Gathered → Gathered
  gather_request none b = b
  gather_request (some r) b = record {
    keys = b.keys;
    last_used = set_last_used r.api_key_id r.timestamp b.last_used;
    rollups = add_rollup r b.rollups;
    written = b.written + 1;
    api_requests = insert r b.api_requests;
  }

  unfoldable pub gather : Ids → ℕ → Table ApiKey → Entry → Gathered → Gathered
  unfolding request_of
  gather ids now t e b =
      let (k, keys) = know ids t e.key_id b.keys (cached e.key_id b.keys) in
      gather_request (request_of ids now e k) (record b { keys = keys })

  unfoldable pub gather_all : Ids → ℕ → Table ApiKey → List Entry → Gathered → Gathered
  unfolding gather
  gather_all ids now t [] b = b
  gather_all ids now t (e ∷ es) b = gather_all ids now t es (gather ids now t e b)

  unfoldable pub write_rollup : UsageDaily → Table UsageDaily → Result (Table UsageDaily)
  write_rollup r t = do
    existing ← unique (in_daily r.api_key_id r.endpoint r.day) t
    ok (patch_or_insert existing (merged r) r t)

  unfoldable pub write_rollups : List UsageDaily → Table UsageDaily → Result (Table UsageDaily)
  unfolding write_rollup
  write_rollups [] t = ok t
  write_rollups (r ∷ rs) t = do t' ← write_rollup r t; write_rollups rs t'

  unfoldable pub mark_used :
      Ids → List (String × Option (Doc ApiKey)) → List (ℕ × ℕ) → Table ApiKey → Table ApiKey
  mark_used ids keys [] t = t
  mark_used ids keys ((i, at) ∷ more) t = mark_used ids keys more (
      if is_newer (cached (ids.text i) keys) at
      then patch i (λ k. record k { last_used_at = some at }) t
      else t)

  abbrev pub none_gathered : Table ApiRequest → Gathered
  none_gathered t = record {
    keys = [];
    last_used = [];
    rollups = [];
    written = 0;
    api_requests = t;
  }

  unfoldable pub record_usage : Ids → List Entry → ℕ → State → Result (Recorded × State)
  unfolding gather_all write_rollups mark_used
  record_usage ids entries now s = do
    let b =
        gather_all ids now s.api_keys (take max_usage_entries entries)
          (none_gathered s.api_requests)
    usage_daily ← write_rollups b.rollups s.usage_daily
    ok (
      record { written = b.written; dropped = length entries - b.written },
      record s {
        api_requests = b.api_requests;
        usage_daily = usage_daily;
        api_keys = mark_used ids b.keys b.last_used s.api_keys;
      },
    )
