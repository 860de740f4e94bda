-- ===== src/Gateway/Demo.antt =====
-- gateway.ts, `authorizeDemo`: the four windows that a request of the anonymous demo is counted in.
pub mod Windows
use Prim.Native.String.{◌++◌ as str_append}
use text.Mathlib.Text.{◌==◌ as str_eq}
use api_provider.Prelude.{
  ℕ, ◌/◌, ◌*◌, String, Bool, true, false, ◌||◌, Option, none, some, List, [], ◌∷◌, min, max,
}
use api_provider.Prelude.Tests.{if◌then◌else◌}
use api_provider.Number.{finite, one, units}
use api_provider.Bucket.{Bucket, word}
use api_provider.Text.{slice_to}
use api_provider.Env.{Env, require_env}
use api_provider.Time.{minute_ms}
use api_provider.Result.{Result, ok, err, ◌>>=◌}
use api_provider.Schema.{State, warning, failure}
use api_provider.Audit.{AuditFields, write_audit}
use api_provider.Convex.Database.{Database}
use api_provider.Gateway.RateLimit.{RateLimitState, clamp_limit, hit_window, combine}
use api_provider.Gateway.Credential.{RateLimit}
use api_provider.Gateway.Authorize.{ip_or_unknown}

-- The numbers are finite and at least one, as the route that calls this requires, and in units of
-- the least number.
pub record DemoArgs : Type 0 where
  pub client_ip : String
  pub endpoint : String
  pub cost : ℕ
  pub minute_limit : ℕ
  pub hour_limit : ℕ
  pub global_minute_limit : ℕ

pub data DemoAnswer : Type 0 where
  admitted refused : RateLimit → DemoAnswer

abbrev pub demo_endpoint : String → String
demo_endpoint e =
    if str_eq e "geocode" || str_eq e "route" || str_eq e "reverse" then e else "unknown"

abbrev pub demo_cost : ℕ → ℕ
demo_cost cost = min 100 (max 1 (cost / one))

abbrev pub hour_ms : ℕ
hour_ms = 60 * minute_ms

abbrev pub ip_hash : Env → String → DemoArgs → String
ip_hash env secret args =
    slice_to 32
      (env.hmac_sha256_hex secret (str_append "demo:" (ip_or_unknown (some args.client_ip))))

abbrev pub minute_bucket : String → Bucket
minute_bucket hash = word "demo" ∷ word "ip" ∷ word hash ∷ word "minute" ∷ []

abbrev pub hour_bucket : String → Bucket
hour_bucket hash = word "demo" ∷ word "ip" ∷ word hash ∷ word "hour" ∷ []

abbrev pub endpoint_bucket : String → String → Bucket
endpoint_bucket hash endpoint =
    word "demo" ∷ word "ip" ∷ word hash ∷ word endpoint ∷ word "minute" ∷ []

abbrev pub global_bucket : Bucket
global_bucket = word "demo" ∷ word "global" ∷ word "minute" ∷ []

abbrev pub demo_limit : ℕ → ℕ → ℕ
demo_limit limit fallback = clamp_limit (some (finite limit)) (units fallback)

abbrev demo_detail : String → AuditFields
demo_detail endpoint = record { tenant_id = none; api_key_id = none; detail = some endpoint }

abbrev reported : RateLimitState → RateLimit
reported r = record { limit = r.limit; remaining = r.remaining; reset = r.reset }

module _ ⦃db : Database⦄ where
  -- The answer, and the audit event of a refused request.
  abbrev pub answer_demo : String → ℕ → RateLimitState → State → DemoAnswer × State
  answer_demo endpoint now state s = (
    if state.allowed then admitted (reported state) else refused (reported state),
    if state.allowed
        then s
        else write_audit now "demo_rate_limit_violation" warning failure (demo_detail endpoint) s,
  )

  -- The four windows, of an address, an endpoint and the demo as a whole.
  unfoldable pub hit_demo :
      String → String → ℕ → ℕ → ℕ → ℕ → ℕ → State → Result (RateLimitState × State)
  hit_demo hash endpoint cost minute_limit hour_limit global_limit now s = do
    (by_ip, s1) ← hit_window (minute_bucket hash) minute_limit now minute_ms cost s
    (by_hour, s2) ← hit_window (hour_bucket hash) hour_limit now hour_ms cost s1
    (by_endpoint, s3) ←
        hit_window (endpoint_bucket hash endpoint) minute_limit now minute_ms cost s2
    (overall, s4) ← hit_window global_bucket global_limit now minute_ms cost s3
    ok (combine (by_ip ∷ by_hour ∷ by_endpoint ∷ overall ∷ []), s4)

  unfoldable pub authorize_demo : Env → DemoArgs → ℕ → State → Result (DemoAnswer × State)
  unfolding hit_demo
  authorize_demo env args now s = do
    let endpoint : String = demo_endpoint args.endpoint
    secret ← require_env "GATEWAY_SECRET" env.gateway_secret
    (state, s') ←
        hit_demo (ip_hash env secret args) endpoint (demo_cost args.cost)
          (demo_limit args.minute_limit 20) (demo_limit args.hour_limit 100)
          (demo_limit args.global_minute_limit 5000) now s
    ok (answer_demo endpoint now state s')
