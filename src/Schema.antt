-- ===== src/Schema.antt =====
-- schema.ts: the documents of each table and the state of the backend, its tables. Times are whole
-- milliseconds, but for `timestamp` of a request and `last_used_at`, which the gateway sends and which
-- are in units of the least number. The auth library's own tables are not modelled.
use api_provider.Prelude.{ℕ, String, Bool, Option}
use api_provider.Prelude.{List}
use api_provider.Number.{Number}
use api_provider.Bucket.{Bucket}
use api_provider.Plans.{PaidPlan, User}
use api_provider.Time.{Period}
use api_provider.Convex.Database.{Database}

pub record ApiKey : Type 0 where
  pub user_id : ℕ
  pub name : String
  pub key_prefix : String
  pub key_hash : String
  pub endpoints : Option (List String)
  pub rate_limit_per_minute : Option Number
  pub is_site_key : Bool
  pub last_used_at : Option ℕ
  pub expires_at : Option ℕ
  pub revoked_at : Option ℕ

pub record ApiRequest : Type 0 where
  pub api_key_id : ℕ
  pub user_id : ℕ
  pub endpoint : String
  pub method : String
  pub status_code : ℕ
  pub response_time_ms : ℕ
  pub timestamp : ℕ

-- `day` is the number of the UTC day, for the text YYYY-MM-DD.
pub record UsageDaily : Type 0 where
  pub user_id : ℕ
  pub api_key_id : ℕ
  pub endpoint : String
  pub day : ℕ
  pub total : ℕ
  pub successful : ℕ
  pub failed : ℕ
  pub total_response_time_ms : ℕ

pub record RateLimitWindow : Type 0 where
  pub bucket : Bucket
  pub window_start : ℕ
  pub count : ℕ

pub record QuotaWindow : Type 0 where
  pub bucket : Bucket
  pub period : Period
  pub period_start : ℕ
  pub units : ℕ

pub data Severity : Type 0 where
  info warning high critical : Severity

pub data Outcome : Type 0 where
  success failure : Outcome

pub record AuditEvent : Type 0 where
  pub event : String
  pub severity : Severity
  pub outcome : Outcome
  pub tenant_id : Option ℕ
  pub api_key_id : Option ℕ
  pub detail : Option String
  pub timestamp : ℕ

pub record PlaygroundToken : Type 0 where
  pub token_hash : String
  pub api_key_id : ℕ
  pub user_id : ℕ
  pub expires_at : ℕ

pub data PaymentStatus : Type 0 where
  pending succeeded failed : PaymentStatus

pub record Payment : Type 0 where
  pub user_id : ℕ
  pub plan : PaidPlan
  pub payment_intent_id : String
  pub amount_minor : ℕ
  pub currency : String
  pub status : PaymentStatus
  pub created_at : ℕ
  pub paid_at : Option ℕ

module _ ⦃db : Database⦄ where
  open db use {Table}

  pub record State : Type 0 where
    pub users : Table User
    pub api_keys : Table ApiKey
    pub api_requests : Table ApiRequest
    pub usage_daily : Table UsageDaily
    pub rate_limit_windows : Table RateLimitWindow
    pub quota_windows : Table QuotaWindow
    pub security_audit_events : Table AuditEvent
    pub playground_tokens : Table PlaygroundToken
    pub payments : Table Payment
