-- ===== src/Audit.antt =====
-- audit.py: what is written to the audit log for a tool call
use cisco_ise_mcp.Prelude.{Bool, List, Option, [], false, true, ◌∷◌}
use cisco_ise_mcp.Redaction.{redact}
use cisco_ise_mcp.Text.{Text}
use cisco_ise_mcp.Value.{Value, dict, or_value}

pub record AuditRecord : Type 0 where
  pub actor : Text
  pub tool : Text
  pub params : Value
  pub status : Text
  pub detail : Option Text

-- The records that `audit(...)` adds: none if the log is disabled.
unfoldable pub audit_records : Bool → Text → Text → Value → Text → Option Text → List AuditRecord
unfolding redact or_value
audit_records false actor tool params status detail = []
audit_records true actor tool params status detail =
    record {
      actor = actor;
      tool = tool;
      params = redact (or_value params (dict [])) 0;
      status = status;
      detail = detail;
    }
    ∷ []
