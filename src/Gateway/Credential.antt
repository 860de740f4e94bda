-- ===== src/Gateway/Credential.antt =====
-- gateway.ts, `authorize`: the checks before anything is counted. They only read. Where the source
-- writes an audit event and returns, the check gives the `Refusal` that `authorize` carries out.
pub mod Admission
pub mod Refusals
pub mod Steady
use text.Mathlib.Text.{◌==◌ as str_eq}
use api_provider.Prelude.{
  ℕ, ◌≡◌, refl, String, Bool, true, false, not, ◌&&◌, Option, none, some, List, [], ◌∷◌,
}
use api_provider.Prelude.Tests.{leb, ◌==◌, if◌then◌else◌, is_some, get_or}
use api_provider.Prelude.Lists.{any}
use api_provider.Number.{Number}
use api_provider.Endpoints.{ApiEndpoint, name, normalize_endpoints}
use api_provider.Plans.{PaidPlan, User, active_plan, has_key_access}
use api_provider.Result.{Result, Error, ok, err}
use api_provider.Schema.{ApiKey, PlaygroundToken, Severity, info, warning, high, State}
use api_provider.Audit.{AuditFields, no_fields}
use api_provider.Convex.Docs.{Doc}
use api_provider.Convex.Database.{Database}
use api_provider.Convex.Queries.{unique}

pub data Kind : Type 0 where
  key playground : Kind

-- The arguments of `authorize`.
pub record Args : Type 0 where
  pub kind : Kind
  pub hash : String
  pub endpoint : Option String
  pub default_limit : Number
  pub client_ip : Option String
  pub per_ip_limit : Option Number

pub record Principal : Type 0 where
  pub key_id : ℕ
  pub user_id : ℕ
  pub tenant_id : ℕ
  pub project_id : ℕ
  pub is_site_key : Bool
  pub via_playground : Bool

-- `{ limit, remaining, reset }`.
pub record RateLimit : Type 0 where
  pub limit : ℕ
  pub remaining : ℕ
  pub reset : ℕ

-- What `authorize` returns, by its status; `accepted` is "ok".
pub data Response : Type 0 where
  invalid expired revoked payment_required : Response
  endpoint_not_allowed : Principal → List ApiEndpoint → Response
  rate_limited quota_exceeded accepted : Principal → RateLimit → Response

pub record Refusal : Type 0 where
  pub response : Response
  pub event : String
  pub severity : Severity
  pub fields : AuditFields

-- What the checks have found: the key and its owner, and what the source computes of them.
pub record Admitted : Type 0 where
  pub key : Doc ApiKey
  pub owner : Doc User
  pub via_playground : Bool
  pub is_site_key : Bool
  pub plan : Option PaidPlan

pub data Verdict {ℓ} (A : Type ℓ) : Type ℓ where
  pass : A → Verdict A
  refuse : Refusal → Verdict A
  throws : Error → Verdict A

module _ {ℓ κ} {Value : Type ℓ} {Answer : Type κ} where
  infixl 5 ◌>>=◌
  abbrev pub ◌>>=◌ : Verdict Value → (Value → Verdict Answer) → Verdict Answer
  throws e >>= rest = throws e
  refuse r >>= rest = refuse r
  pass value >>= rest = rest value

  pub >>=-eq-pass :
      {answer : Answer} (first : Verdict Value) (rest : Value → Verdict Answer)
      → (first >>= rest) ≡ pass answer
      → (value : Value) × (first ≡ pass value) × (rest value ≡ pass answer)
  >>=-eq-pass (throws e) rest passed = cc
  >>=-eq-pass (refuse r) rest passed = cc
  >>=-eq-pass (pass value) rest passed = (value, refl, passed)

infixl 5 ◌>>◌
abbrev pub ◌>>◌ {κ} : {Answer : Type κ} → Verdict (Unit {0}) → Verdict Answer → Verdict Answer
throws e >> rest = throws e
refuse r >> rest = refuse r
pass u >> rest = rest

abbrev pub read {ℓ} : {A : Type ℓ} → Result A → Verdict A
read (ok a) = pass a
read (err e) = throws e

abbrev pub refuse_if : Bool → Refusal → Verdict (Unit {0})
refuse_if true r = refuse r
refuse_if false r = pass tt

abbrev failed : Response → Severity → AuditFields → Refusal
failed response severity fields = record {
  response = response;
  event = "api_authentication_failed";
  severity = severity;
  fields = fields;
}

abbrev forbidden : Response → Severity → AuditFields → Refusal
forbidden response severity fields = record {
  response = response;
  event = "api_authorization_failed";
  severity = severity;
  fields = fields;
}

abbrev detail : String → AuditFields
detail d = record no_fields { detail = some d }

abbrev pub of_key : Doc ApiKey → Option String → AuditFields
of_key k d = record { tenant_id = some k.value.user_id; api_key_id = some k.id; detail = d }

abbrev pub is_expired : Option ℕ → ℕ → Bool
is_expired none now = false
is_expired (some t) now = leb t now

abbrev pub principal : Admitted → Principal
principal a = record {
  key_id = a.key.id;
  user_id = a.key.value.user_id;
  tenant_id = a.key.value.user_id;
  project_id = a.key.id;
  is_site_key = a.is_site_key;
  via_playground = a.via_playground;
}

abbrev pub same_text : Option String → String → Bool
same_text none s = false
same_text (some t) s = str_eq s t

-- `key.endpoints`, where it is set, must have the endpoint of the call.
unfoldable pub check_endpoint : Args → Admitted → Option (List String) → Verdict (Unit {0})
check_endpoint args a none = pass tt
check_endpoint args a (some stored) =
    let allowed = normalize_endpoints stored in
    refuse_if (not (any (λ e. same_text args.endpoint (name e)) allowed)) (
      forbidden (endpoint_not_allowed (principal a) allowed) high
        (of_key a.key (some (get_or args.endpoint "missing_scope"))))

-- The key that a playground token is bound to, as it was read.
unfoldable pub bound_key : ℕ → Option (Doc ApiKey) → Verdict (Doc ApiKey × Bool)
bound_key user_id none = refuse (failed invalid high (detail "token_binding"))
bound_key user_id (some k) =
    if k.value.user_id == user_id
    then pass (k, true)
    else refuse (failed invalid high (detail "token_binding"))

unfoldable pub found_key : Option (Doc ApiKey) → Verdict (Doc ApiKey × Bool)
found_key none = refuse (failed invalid warning (detail "invalid"))
found_key (some k) = pass (k, false)

-- Keys of a disabled or deleted account stop working like revoked keys.
unfoldable pub active_owner : Doc ApiKey → Option (Doc User) → Verdict (Doc User)
active_owner k none = refuse (failed revoked high (of_key k (some "tenant_disabled")))
active_owner k (some owner) =
    if is_some owner.value.disabled_at
    then refuse (failed revoked high (of_key k (some "tenant_disabled")))
    else pass owner

-- `isSiteKey ? null : activePlan(owner, now)`
abbrev pub plan_of : Bool → User → ℕ → Option PaidPlan
plan_of true owner now = none
plan_of false owner now = active_plan owner now

abbrev admitted : ℕ → Doc ApiKey → Bool → Doc User → Admitted
admitted now k via_playground owner =
    let is_site_key : Bool = k.value.is_site_key && not via_playground in
    record {
      key = k;
      owner = owner;
      via_playground = via_playground;
      is_site_key = is_site_key;
      plan = plan_of is_site_key owner.value now;
    }

-- Access and scope, once the key and its owner are in order.
unfoldable pub admit_owner : Args → ℕ → Doc ApiKey → Bool → Doc User → Verdict Admitted
unfolding check_endpoint
admit_owner args now k via_playground owner = do
  let a = admitted now k via_playground owner
  refuse_if (not a.is_site_key && not (has_key_access owner.value now))
      (forbidden payment_required info (of_key k (some "payment_required")))
  check_endpoint args a k.value.endpoints
  pass a

module _ ⦃db : Database⦄ where
  open db use {get}

  unfoldable pub key_of_token :
      ℕ → Option (Doc PlaygroundToken) → State → Verdict (Doc ApiKey × Bool)
  unfolding bound_key
  key_of_token now none s = refuse (failed invalid warning (detail "invalid"))
  key_of_token now (some token) s = do
    refuse_if (leb token.value.expires_at now) (failed expired info (detail "expired"))
    bound_key token.value.user_id (get token.value.api_key_id s.api_keys)

  abbrev pub has_token_hash : String → PlaygroundToken → Bool
  has_token_hash hash t = str_eq t.token_hash hash

  abbrev pub has_key_hash : String → ApiKey → Bool
  has_key_hash hash k = str_eq k.key_hash hash

  -- The key, and whether a playground token led to it.
  unfoldable pub credential : Kind → String → ℕ → State → Verdict (Doc ApiKey × Bool)
  unfolding key_of_token found_key
  credential playground hash now s = do
    token ← read (unique (has_token_hash hash) s.playground_tokens)
    key_of_token now token s
  credential key hash now s = do
    found ← read (unique (has_key_hash hash) s.api_keys)
    found_key found

  -- The owner, once the key itself is in order.
  unfoldable pub owner_of : Doc ApiKey → ℕ → State → Verdict (Doc User)
  unfolding active_owner
  owner_of k now s = do
    refuse_if (is_some k.value.revoked_at) (failed revoked warning (of_key k (some "revoked")))
    refuse_if (is_expired k.value.expires_at now) (failed expired info (of_key k (some "expired")))
    active_owner k (get k.value.user_id s.users)

  unfoldable pub admit : Args → ℕ → State → Verdict Admitted
  unfolding credential owner_of admit_owner
  admit args now s = do
    (k, via_playground) ← credential args.kind args.hash now s
    owner ← owner_of k now s
    admit_owner args now k via_playground owner
