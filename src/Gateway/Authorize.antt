-- ===== src/Gateway/Authorize.antt =====
-- gateway.ts, `authorize`: the layered rate limits of an admitted request, its quotas, and the
-- whole handler.
pub mod Outcomes
pub mod FreeTier
pub mod Served
pub mod Returns
pub mod Safety
use Prim.Native.Char.{code}
use Prim.Native.String.{◌++◌ as str_append}
use text.Mathlib.Text.{◌==◌ as str_eq}
use api_provider.Prelude.{
  ℕ, zero, suc, ◌+◌, String, Bool, true, false, not, ◌&&◌, ◌||◌, Option, none, some, List, [], ◌∷◌,
  ◌++◌, min, max,
}
use api_provider.Prelude.Tests.{leb, ◌==◌, if◌then◌else◌, is_some, get_or}
use api_provider.Number.{units}
use api_provider.Bucket.{Bucket, word, id}
use api_provider.Text.{slice_to}
use api_provider.Env.{
  Env, require_env, account_rate_limit_per_minute, endpoint_rate_limit_per_minute,
  global_rate_limit_per_minute, route_rate_limit_per_minute,
}
use api_provider.Plans.{PaidPlan, User, requests_per_minute, free_rate_limit_per_minute}
use api_provider.Result.{Result, ok, err, ◌>>=◌}
use api_provider.Schema.{ApiKey, State, Severity, info, warning, Outcome, success, failure}
use api_provider.Audit.{AuditFields, write_audit}
use api_provider.Convex.Docs.{Doc}
use api_provider.Convex.Database.{Database}
use api_provider.Gateway.RateLimit.{RateLimitState, clamp_limit, hit, combine}
use api_provider.Gateway.Quota.{consume_customer_quotas}
use api_provider.Gateway.Credential.{
  Args, Principal, RateLimit, Response, rate_limited, quota_exceeded, accepted, Refusal, Admitted,
  Verdict, pass, refuse, throws, principal, of_key, admit,
}

-- The characters of `IP_PATTERN`.
is_ip_char : ℕ → Bool
is_ip_char c =
    (leb b'0' c && leb c b'9')
    || (leb b'a' c && leb c b'f')
    || (leb b'A' c && leb c b'F')
    || c == b':'
    || c == b'.'
    || c == b'/'

-- The number of characters, if all of them pass.
ip_length : String → Option ℕ
ip_length String.[] = some 0
ip_length (String.◌∷◌ c s) = elim (ip_length s) [
  | none ↦ none
  | some n ↦ if is_ip_char (code c) then some (suc n) else none
]

-- `IP_PATTERN.test(ip)`: 2 to 48 of these characters.
unfoldable pub is_ip : String → Bool
unfolding ip_length is_ip_char
is_ip s = elim (ip_length s) [ none ↦ false | some n ↦ leb 2 n && leb n 48 ]

unfoldable pub ip_or_unknown : Option String → String
unfolding is_ip
ip_or_unknown none = "unknown"
ip_or_unknown (some ip) = if is_ip ip then ip else "unknown"

-- `planRate`, in units of the least number.
abbrev pub plan_rate : Admitted → Option ℕ
plan_rate a = elim a.plan [
  | some p ↦ some (units (requests_per_minute p))
  | none ↦ if a.is_site_key then none else some (units free_rate_limit_per_minute)
]

abbrev is_route : Option String → Bool
is_route none = false
is_route (some e) = str_eq e "route"

unfoldable pub site_buckets : Env → Args → Doc ApiKey → Result (List (Bucket × ℕ))
site_buckets env args k = do
  secret ← require_env "GATEWAY_SECRET" env.gateway_secret
  let ip : String = ip_or_unknown args.client_ip
  let ip_hash : String = slice_to 32 (env.hmac_sha256_hex secret (str_append "ip:" ip))
  let per_ip : ℕ = clamp_limit args.per_ip_limit (units 60)
  ok (
      (word "ip" ∷ word ip_hash ∷ [], per_ip)
      ∷ (word "key" ∷ id k.id ∷ [], clamp_limit k.value.rate_limit_per_minute (units 10000))
      ∷ (if is_route args.endpoint
          then (
            word "ip" ∷ word ip_hash ∷ word "route" ∷ [],
            min per_ip (route_rate_limit_per_minute env),
          )
            ∷ []
          else []))

unfoldable pub customer_buckets : Env → Args → Admitted → List (Bucket × ℕ)
customer_buckets env args a =
    let default_limit = clamp_limit (some args.default_limit) (units 100) in
    let per_key =
      get_or (plan_rate a) (clamp_limit a.key.value.rate_limit_per_minute default_limit) in
    let endpoint_limit = get_or (plan_rate a) (endpoint_rate_limit_per_minute env) in
    (word "key" ∷ id a.key.id ∷ [], per_key)
    ∷ (
      word "user" ∷ id a.key.value.user_id ∷ [],
      get_or (plan_rate a) (max per_key (account_rate_limit_per_minute env)),
    )
    ∷ (
      word "key" ∷ id a.key.id ∷ word "endpoint" ∷ word (get_or args.endpoint "unknown") ∷ [],
      if is_route args.endpoint
          then min (min per_key endpoint_limit) (route_rate_limit_per_minute env)
          else min per_key endpoint_limit,
    )
    ∷ (word "customer" ∷ word "global" ∷ [], global_rate_limit_per_minute env)
    ∷ []

unfoldable pub buckets : Env → Args → Admitted → Result (List (Bucket × ℕ))
unfolding site_buckets customer_buckets
buckets env args a =
    if a.is_site_key then site_buckets env args a.key else ok (customer_buckets env args a)

abbrev reported : RateLimitState → RateLimit
reported r = record { limit = r.limit; remaining = r.remaining; reset = r.reset }

module _ ⦃db : Database⦄ where
  open db use {patch}

  unfoldable pub hit_all : List (Bucket × ℕ) → ℕ → State → Result (List RateLimitState × State)
  unfolding hit
  hit_all [] now s = ok ([], s)
  hit_all ((bucket, limit) ∷ more) now s = do
    (state, s') ← hit bucket limit now s
    (states, s'') ← hit_all more now s'
    ok (state ∷ states, s'')

  -- `freeRequestsUsed: (owner.freeRequestsUsed ?? 0) + 1`, where no plan is active.
  unfoldable pub count_free : Doc User → Option PaidPlan → State → State
  count_free owner (some p) s = s
  count_free owner none s = record s {
    users =
        patch owner.id
          (λ u. record u {
            free_requests_used = some (get_or owner.value.free_requests_used 0 + 1);
          })
          s.users;
  }

  abbrev audit : ℕ → String → Severity → Outcome → Doc ApiKey → Option String → State → State
  audit now event severity outcome k endpoint =
      write_audit now event severity outcome (of_key k endpoint)

  unfoldable pub succeed : Args → ℕ → Admitted → RateLimitState → State → Result (Response × State)
  succeed args now a state s = ok (
    accepted (principal a) (reported state),
    audit now "api_authentication_succeeded" info success a.key args.endpoint s,
  )

  -- The quotas of a customer's request.
  unfoldable pub charge :
      Env → Args → ℕ → Admitted → RateLimitState → State → Result (Response × State)
  unfolding succeed count_free
  charge env args now a state s = do
    (quota, s') ← consume_customer_quotas env a.key args.endpoint now a.plan s
    if quota.allowed
        then succeed args now a state (count_free a.owner a.plan s')
        else ok (
          quota_exceeded (principal a) (reported quota),
          audit now "api_quota_exhausted" warning failure a.key args.endpoint s',
        )

  -- The answer, once every bucket is hit.
  unfoldable pub decide :
      Env → Args → ℕ → Admitted → RateLimitState → State → Result (Response × State)
  unfolding charge succeed
  decide env args now a state s =
      if not state.allowed
      then ok (
        rate_limited (principal a) (reported state),
        audit now "api_rate_limit_violation" warning failure a.key args.endpoint s,
      )
      else if a.is_site_key
      then succeed args now a state s
      else charge env args now a state s

  unfoldable pub meter : Env → Args → ℕ → Admitted → State → Result (Response × State)
  unfolding decide
  meter env args now a s = do
    limits ← buckets env args a
    (states, s') ← hit_all limits now s
    decide env args now a (combine states) s'

  unfoldable pub authorize : Env → Args → ℕ → State → Result (Response × State)
  authorize env args now s = elim (admit args now s) [
    | throws e ↦ err e
    | refuse r ↦ ok (r.response, write_audit now r.event r.severity failure r.fields s)
    | pass a ↦ meter env args now a s
  ]
