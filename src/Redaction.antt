-- ===== src/Redaction.antt =====
-- redaction.py
pub mod Laws
pub mod Depth
use cisco_ise_mcp.Prelude.{Bool, List, [], any, if◌then◌else◌, ltb, ℕ, ◌+◌, ◌||◌, ◌∷◌}
use cisco_ise_mcp.Text.{Text, contains, contains_text, lit, lower}
use cisco_ise_mcp.Value.{
  Fields, Items, Value, arr, bool, cons, end, field, float, int, nil, null, obj, str,
}

abbrev pub sensitive_key_exact : List Text
sensitive_key_exact =
    lit "authorization"
    ∷ lit "password"
    ∷ lit "passwd"
    ∷ lit "credential"
    ∷ lit "credentials"
    ∷ lit "apikey"
    ∷ lit "encoded_auth"
    ∷ lit "x-mcp-session"
    ∷ []

abbrev pub sensitive_key_parts : List Text
sensitive_key_parts =
    lit "password"
    ∷ lit "passwd"
    ∷ lit "secret"
    ∷ lit "token"
    ∷ lit "api_key"
    ∷ lit "apikey"
    ∷ lit "private_key"
    ∷ lit "encoded_auth"
    ∷ lit "client_secret"
    ∷ []

unfoldable pub mask : Text
mask = lit "***REDACTED***"

unfoldable pub is_sensitive : Text → Bool
is_sensitive key =
    let k = lower key in
    contains sensitive_key_exact k || any (λ part. contains_text part k) sensitive_key_parts

-- `redact(obj, _depth)`. The keys of a dict are distinct, so each `out[k] = ...` adds an entry.
unfoldable mutual
  pub redact : Value → ℕ → Value
  redact (arr xs) depth = if ltb 25 depth then arr xs else arr (redact_items xs (depth + 1))
  redact (obj fs) depth = if ltb 25 depth then obj fs else obj (redact_fields fs (depth + 1))
  redact null depth = null
  redact (bool b) depth = bool b
  redact (int n) depth = int n
  redact (float m e) depth = float m e
  redact (str s) depth = str s

  pub redact_items : Items → ℕ → Items
  redact_items nil depth = nil
  redact_items (cons v xs) depth = cons (redact v depth) (redact_items xs depth)

  pub redact_fields : Fields → ℕ → Fields
  redact_fields end depth = end
  redact_fields (field k v fs) depth =
      field k (if is_sensitive k then str mask else redact v depth) (redact_fields fs depth)
