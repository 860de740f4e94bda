-- ===== src/Audit.antt =====
-- lib/audit.ts. `now` is the `Date.now()` of the transaction.
use text.Mathlib.Text.{◌==◌ as str_eq}
use api_provider.Prelude.{ℕ, String, Option, none, some}
use api_provider.Prelude.Tests.{if◌then◌else◌}
use api_provider.Text.{slice_to}
use api_provider.Schema.{Severity, Outcome, State}
use api_provider.Convex.Database.{Database}

-- The argument `fields`.
pub record AuditFields : Type 0 where
  pub tenant_id : Option ℕ
  pub api_key_id : Option ℕ
  pub detail : Option String

abbrev pub no_fields : AuditFields
no_fields = record { tenant_id = none; api_key_id = none; detail = none }

-- An empty detail is left out.
abbrev first_chars : ℕ → Option String → Option String
first_chars n none = none
first_chars n (some s) = if str_eq s "" then none else some (slice_to n s)

module _ ⦃db : Database⦄ where
  open db use {insert}

  unfoldable pub write_audit : ℕ → String → Severity → Outcome → AuditFields → State → State
  write_audit now event severity outcome fields s = record s {
    security_audit_events =
        insert
          (record {
            event = slice_to 80 event;
            severity = severity;
            outcome = outcome;
            tenant_id = fields.tenant_id;
            api_key_id = fields.api_key_id;
            detail = first_chars 120 fields.detail;
            timestamp = now;
          })
          s.security_audit_events;
  }
