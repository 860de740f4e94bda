-- ===== src/Gateway/Describe.antt =====
-- gateway.ts, `describe`: the lookup of a key for the gateway's own cache. It reads and counts
-- nothing.
pub mod Agreement
use api_provider.Prelude.{ℕ, String, Bool, not, ◌&&◌, Option, none, some, List}
use api_provider.Prelude.Tests.{if◌then◌else◌, is_some}
use api_provider.Number.{Number}
use api_provider.Endpoints.{ApiEndpoint, normalize_endpoints}
use api_provider.Env.{Env, account_rate_limit_per_minute, route_rate_limit_per_minute}
use api_provider.Plans.{User, has_key_access}
use api_provider.Result.{Result, ok, ◌>>=◌}
use api_provider.Schema.{ApiKey, State}
use api_provider.Convex.Docs.{Doc}
use api_provider.Convex.Database.{Database}
use api_provider.Convex.Queries.{unique}
use api_provider.Gateway.Credential.{is_expired, has_key_hash}

-- The two limits are rates, in units of the least number.
pub record Known : Type 0 where
  pub key_id : ℕ
  pub user_id : ℕ
  pub is_site_key : Bool
  pub rate_limit_per_minute : Option Number
  pub account_limit : ℕ
  pub route_limit : ℕ
  pub endpoints : Option (List ApiEndpoint)

pub data Description : Type 0 where
  invalid revoked expired payment_required : Description
  known : Known → Description

abbrev stored_scope : Option (List String) → Option (List ApiEndpoint)
stored_scope none = none
stored_scope (some stored) = some (normalize_endpoints stored)

abbrev pub known_key : Env → Doc ApiKey → Known
known_key env k = record {
  key_id = k.id;
  user_id = k.value.user_id;
  is_site_key = k.value.is_site_key;
  rate_limit_per_minute = k.value.rate_limit_per_minute;
  account_limit = account_rate_limit_per_minute env;
  route_limit = route_rate_limit_per_minute env;
  endpoints = stored_scope k.value.endpoints;
}

describe_owner : Env → ℕ → Doc ApiKey → Option (Doc User) → Description
describe_owner env now k none = revoked
describe_owner env now k (some owner) =
    if is_some owner.value.disabled_at
    then revoked
    else if not k.value.is_site_key && not (has_key_access owner.value now)
    then payment_required
    else known (known_key env k)

module _ ⦃db : Database⦄ where
  open db use {get}

  describe_key : Env → ℕ → State → Option (Doc ApiKey) → Description
  unfolding describe_owner
  describe_key env now s none = invalid
  describe_key env now s (some k) =
      if is_some k.value.revoked_at
      then revoked
      else if is_expired k.value.expires_at now
      then expired
      else describe_owner env now k (get k.value.user_id s.users)

  unfoldable pub describe : Env → String → ℕ → State → Result Description
  unfolding describe_key
  describe env hash now s = do
    found ← unique (has_key_hash hash) s.api_keys
    ok (describe_key env now s found)
