-- ===== src/Env.antt =====
-- lib/env.ts. `Env` is the deployment's variables, a number as `Number(process.env.X)` reads it and
-- `none` where it is unset, and Web Crypto's HMAC-SHA256 in hexadecimal, which lib/crypto.ts calls.
use Prim.Native.String.{◌++◌ as str_append}
use text.Mathlib.Text.{◌==◌}
use api_provider.Prelude.{ℕ, String, Option, none, some}
use api_provider.Prelude.Tests.{if◌then◌else◌}
use api_provider.Number.{Number, positive_or, whole_or, units}
use api_provider.Result.{Result, ok, err, failure}

pub record Env : Type 0 where
  pub gateway_secret : Option String
  pub gateway_secret_previous : Option String
  pub api_key_pepper : Option String
  pub account_rate_limit : Option Number
  pub endpoint_rate_limit : Option Number
  pub global_rate_limit : Option Number
  pub route_rate_limit : Option Number
  pub key_daily_quota : Option Number
  pub key_monthly_quota : Option Number
  pub tenant_daily_quota : Option Number
  pub tenant_monthly_quota : Option Number
  pub endpoint_monthly_quota : Option Number
  pub usage_retention : Option Number
  pub audit_retention : Option Number
  pub hmac_sha256_hex : String → String → String

-- The variable of this name. An unset variable and an empty one are both missing.
unfoldable pub require_env : String → Option String → Result String
require_env name none = err (failure (str_append "Missing Convex environment variable " name))
require_env name (some s) =
    if s == "" then err (failure (str_append "Missing Convex environment variable " name)) else ok s

unfoldable pub rate : Option Number → ℕ → ℕ
unfolding positive_or
rate none fallback = units fallback
rate (some n) fallback = positive_or fallback n

unfoldable pub positive_int : Option Number → ℕ → ℕ
unfolding whole_or
positive_int none fallback = fallback
positive_int (some n) fallback = whole_or fallback n

-- These four are rates, in units of the least number.
unfoldable pub account_rate_limit_per_minute : Env → ℕ
account_rate_limit_per_minute env = rate env.account_rate_limit 300

unfoldable pub endpoint_rate_limit_per_minute : Env → ℕ
endpoint_rate_limit_per_minute env = rate env.endpoint_rate_limit 100

unfoldable pub global_rate_limit_per_minute : Env → ℕ
global_rate_limit_per_minute env = rate env.global_rate_limit 100000

unfoldable pub route_rate_limit_per_minute : Env → ℕ
route_rate_limit_per_minute env = rate env.route_rate_limit 30

unfoldable pub key_daily_quota_units : Env → ℕ
key_daily_quota_units env = positive_int env.key_daily_quota 10000

unfoldable pub key_monthly_quota_units : Env → ℕ
key_monthly_quota_units env = positive_int env.key_monthly_quota 100000

unfoldable pub tenant_daily_quota_units : Env → ℕ
tenant_daily_quota_units env = positive_int env.tenant_daily_quota 25000

unfoldable pub tenant_monthly_quota_units : Env → ℕ
tenant_monthly_quota_units env = positive_int env.tenant_monthly_quota 250000

unfoldable pub endpoint_monthly_quota_units : Env → ℕ
endpoint_monthly_quota_units env = positive_int env.endpoint_monthly_quota 100000

-- In units of the least number, and not rounded.
unfoldable pub usage_retention_days : Env → ℕ
usage_retention_days env = rate env.usage_retention 30

unfoldable pub audit_retention_days : Env → ℕ
audit_retention_days env = positive_int env.audit_retention 365
