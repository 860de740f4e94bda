-- ===== src/Examples.antt =====
-- A small deployment, on which the theorems are tried.
pub mod Requests
pub mod Accounts
pub mod Passwords
pub mod Limits
pub mod Keys
pub mod Checkout
pub mod Usage
pub mod Upkeep
pub mod Routes
pub mod Dashboard
pub mod Webhook
use api_provider.Prelude.{ℕ, String, Bool, true, false, Option, none, some, List, [], ◌∷◌}
use api_provider.Number.{finite, units}
use api_provider.Plans.{User, starter}
use api_provider.Env.{Env}
use api_provider.Result.{Result, ok, err}
use api_provider.Schema.{ApiKey, Payment, pending, State}
use api_provider.Convex.Memory.{memory}
use api_provider.Gateway.Credential.{Args, key}

abbrev pub now : ℕ
now = 90000

-- An account with the free tier, which has used 3 requests.
abbrev pub alice : User
alice = record {
  name = none;
  email = some "alice@example.com";
  is_system = false;
  disabled_at = none;
  updated_at = none;
  plan = none;
  plan_expires_at = none;
  free_tier_activated_at = some 1000;
  free_requests_used = some 3;
}

abbrev pub alice_key : ApiKey
alice_key = record {
  user_id = 0;
  name = "main";
  key_prefix = "geo_abcd";
  key_hash = "hash";
  endpoints = none;
  rate_limit_per_minute = none;
  is_site_key = false;
  last_used_at = none;
  expires_at = none;
  revoked_at = none;
}

abbrev pub bob : User
bob = record alice { email = some "bob@example.com"; free_requests_used = some 500 }

abbrev pub spare_key : ApiKey
spare_key = record alice_key { name = "spare"; key_hash = "spare" }

abbrev pub checkout : Payment
checkout = record {
  user_id = 0;
  plan = starter;
  payment_intent_id = "pi_1";
  amount_minor = 1000;
  currency = "MNT";
  status = pending;
  created_at = 2000;
  paid_at = none;
}

abbrev pub deployment : State
deployment = record {
  users = some alice ∷ some bob ∷ [];
  api_keys = some alice_key ∷ some spare_key ∷ [];
  api_requests = [];
  usage_daily = [];
  rate_limit_windows = [];
  quota_windows = [];
  security_audit_events = [];
  playground_tokens = [];
  payments = some checkout ∷ [];
}

abbrev pub variables : Env
variables = record {
  gateway_secret = some "secret";
  gateway_secret_previous = none;
  api_key_pepper = some "pepper";
  account_rate_limit = none;
  endpoint_rate_limit = none;
  global_rate_limit = none;
  route_rate_limit = none;
  key_daily_quota = none;
  key_monthly_quota = none;
  tenant_daily_quota = none;
  tenant_monthly_quota = none;
  endpoint_monthly_quota = none;
  usage_retention = none;
  audit_retention = none;
  hmac_sha256_hex = λ secret message. message;
}

abbrev pub request : Args
request = record {
  kind = key;
  hash = "hash";
  endpoint = some "geocode";
  default_limit = finite (units 100);
  client_ip = none;
  per_ip_limit = none;
}

-- What a call returns and leaves, where it returns.
abbrev pub result {ℓ} : {A : Type ℓ} → A → Result A → A
result a (ok b) = b
result a (err e) = a
