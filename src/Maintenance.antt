-- ===== src/Maintenance.antt =====
-- maintenance.ts: the cron job that deletes what has expired. `now` is the `Date.now()` of the
-- transaction; a bound below zero is zero, below which no document lies either.
pub mod Retention
use api_provider.Prelude.{ℕ, ◌-◌, ◌*◌, Bool, true, false, ◌||◌, List, [], ◌∷◌}
use api_provider.Prelude.Tests.{◌==◌}
use api_provider.Prelude.Lists.{length, take}
use api_provider.Number.{units}
use api_provider.Time.{minute_ms, day_ms}
use api_provider.Env.{Env, usage_retention_days, audit_retention_days}
use api_provider.Schema.{
  State, RateLimitWindow, PlaygroundToken, ApiRequest, QuotaWindow, AuditEvent,
}
use api_provider.Convex.Docs.{Doc}
use api_provider.Convex.Database.{Database}
use api_provider.Convex.Queries.{delete_each}

abbrev pub batch : ℕ
batch = 1000

-- How many documents were deleted of each table, and whether `prune` is to run again at once.
pub record Pruned : Type 0 where
  pub windows : ℕ
  pub tokens : ℕ
  pub requests : ℕ
  pub quotas : ℕ
  pub audit : ℕ
  pub again : Bool

abbrev pub windows_before : ℕ → ℕ
windows_before now = now - 5 * minute_ms

-- In units of the least number, as the times of requests and the retention are.
abbrev pub requests_before : Env → ℕ → ℕ
requests_before env now = units now - usage_retention_days env * day_ms

abbrev pub quotas_before : ℕ → ℕ
quotas_before now = now - 400 * day_ms

abbrev pub audit_before : Env → ℕ → ℕ
audit_before env now = now - audit_retention_days env * day_ms

module _ ⦃db : Database⦄ where
  open db use {Table, query_below}

  -- The first of the documents below the bound, in the order of the index.
  abbrev pub expired : {A : Type 0} → (A → ℕ) → ℕ → Table A → List (Doc A)
  expired index bound t = take batch (query_below index bound t)

  abbrev pub prune_table : {A : Type 0} → (A → ℕ) → ℕ → Table A → Table A
  prune_table index bound t = delete_each (expired index bound t) t

  abbrev pub deleted : {A : Type 0} → (A → ℕ) → ℕ → Table A → ℕ
  deleted index bound t = length (expired index bound t)

  unfoldable pub prune : Env → ℕ → State → Pruned × State
  prune env now s =
      let windows =
        deleted (λ (w : RateLimitWindow). w.window_start) (windows_before now)
          s.rate_limit_windows in
      let tokens = deleted (λ (t : PlaygroundToken). t.expires_at) now s.playground_tokens in
      let requests =
        deleted (λ (r : ApiRequest). r.timestamp) (requests_before env now) s.api_requests in
      let quotas =
        deleted (λ (q : QuotaWindow). q.period_start) (quotas_before now) s.quota_windows in
      let audit =
        deleted (λ (e : AuditEvent). e.timestamp) (audit_before env now) s.security_audit_events in
      (
        record {
          windows = windows;
          tokens = tokens;
          requests = requests;
          quotas = quotas;
          audit = audit;
          again =
              windows == batch
              || tokens == batch
              || requests == batch
              || quotas == batch
              || audit == batch;
        },
        record s {
          rate_limit_windows =
              prune_table (λ (w : RateLimitWindow). w.window_start) (windows_before now)
                s.rate_limit_windows;
          playground_tokens =
              prune_table (λ (t : PlaygroundToken). t.expires_at) now s.playground_tokens;
          api_requests =
              prune_table (λ (r : ApiRequest). r.timestamp) (requests_before env now)
                s.api_requests;
          quota_windows =
              prune_table (λ (q : QuotaWindow). q.period_start) (quotas_before now) s.quota_windows;
          security_audit_events =
              prune_table (λ (e : AuditEvent). e.timestamp) (audit_before env now)
                s.security_audit_events;
        },
      )
