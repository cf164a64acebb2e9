-- ===== src/Config/Load.antt =====
-- config.py: reading the settings from the environment
use cisco_ise_mcp.Prelude.{
  Bool, List, Option, [], false, if◌then◌else◌, is_empty, none, some, true, ◌∷◌,
}
use cisco_ise_mcp.Config.Record.{Config}
use cisco_ise_mcp.Dict.{Dict, lookup}
use cisco_ise_mcp.Prelude.Int.{pos, ℤ}
use cisco_ise_mcp.Text.{Text, contains, int_of, lit, lower, rstrip_slash, split, strip, upper}

abbrev true_words : List Text
true_words = lit "1" ∷ lit "true" ∷ lit "yes" ∷ lit "on" ∷ []

-- `env.get(key, default)`
abbrev pub env_text : Dict Text → Text → Text → Text
env_text env key default = elim (lookup key env) [ none ↦ default | some v ↦ v ]

abbrev bool_of : Option Text → Bool → Bool
bool_of none default = default
bool_of (some []) default = default
bool_of (some (c ∷ s)) default = contains true_words (lower (strip (c ∷ s)))

-- `_bool`
unfoldable pub env_bool : Dict Text → Text → Bool → Bool
env_bool env key default = bool_of (lookup key env) default

abbrev int_or : Option Text → ℤ → ℤ
int_or none default = default
int_or (some []) default = default
int_or (some (c ∷ s)) default = elim (int_of (c ∷ s)) [ none ↦ default | some n ↦ n ]

-- `_int`
unfoldable pub env_int : Dict Text → Text → ℤ → ℤ
env_int env key default = int_or (lookup key env) default

-- `[x.strip() for x in parts if x.strip()]`
unfoldable pub strip_nonempty : List Text → List Text
strip_nonempty [] = []
strip_nonempty (x ∷ xs) =
    let rest = strip_nonempty xs in if is_empty (strip x) then rest else strip x ∷ rest

-- `_csv`
unfoldable pub env_csv : Dict Text → Text → List Text
unfolding strip_nonempty
env_csv env key = strip_nonempty (split b',' (env_text env key []))

unfoldable pub load_config : Dict Text → Config
unfolding env_bool env_int env_csv lit
load_config env = record {
  ise_base_url = rstrip_slash (env_text env (lit "ISE_BASE_URL") (lit ""));
  ise_ers_base_url = env_text env (lit "ISE_ERS_BASE_URL") (lit "");
  ise_mnt_base_url = env_text env (lit "ISE_MNT_BASE_URL") (lit "");
  ise_username = env_text env (lit "ISE_USERNAME") (lit "");
  ise_password = env_text env (lit "ISE_PASSWORD") (lit "");
  ise_encoded_auth = env_text env (lit "ISE_ENCODED_AUTH") (lit "");
  ise_version = env_text env (lit "ISE_VERSION") (lit "3.2");
  verify_ssl = env_bool env (lit "ISE_VERIFY_SSL") true;
  timeout_seconds = env_int env (lit "ISE_TIMEOUT_SECONDS") (pos 30);
  rate_limit_wait = env_bool env (lit "ISE_RATE_LIMIT_WAIT") true;
  auth_mode = lower (strip (env_text env (lit "ISE_AUTH_MODE") (lit "passthrough")));
  mcp_mode = lower (strip (env_text env (lit "ISE_MCP_MODE") (lit "readonly")));
  enable_dangerous_tools = env_bool env (lit "ISE_ENABLE_DANGEROUS_TOOLS") false;
  session_ttl_seconds = env_int env (lit "ISE_SESSION_TTL_SECONDS") (pos 3600);
  session_idle_timeout_seconds = env_int env (lit "ISE_SESSION_IDLE_TIMEOUT_SECONDS") (pos 900);
  session_header = env_text env (lit "MCP_SESSION_HEADER") (lit "X-MCP-Session");
  log_level = upper (env_text env (lit "LOG_LEVEL") (lit "INFO"));
  audit_log_enabled = env_bool env (lit "AUDIT_LOG_ENABLED") true;
  allowed_tools = env_csv env (lit "ISE_ALLOWED_TOOLS");
  disabled_tools = env_csv env (lit "ISE_DISABLED_TOOLS");
  allowed_endpoint_groups = env_csv env (lit "ISE_ALLOWED_ENDPOINT_GROUPS");
  allowed_device_groups = env_csv env (lit "ISE_ALLOWED_DEVICE_GROUPS");
  allowed_sites = env_csv env (lit "ISE_ALLOWED_SITES");
  default_page_size = env_int env (lit "ISE_DEFAULT_PAGE_SIZE") (pos 50);
  max_page_size = env_int env (lit "ISE_MAX_PAGE_SIZE") (pos 500);
  include_raw_default = env_bool env (lit "ISE_INCLUDE_RAW_DEFAULT") false;
  oauth_client_id = env_text env (lit "OAUTH_CLIENT_ID") (lit "");
  oauth_client_secret = env_text env (lit "OAUTH_CLIENT_SECRET") (lit "");
  oauth_redirect_uris = env_csv env (lit "OAUTH_REDIRECT_URIS");
  oauth_scopes = env_text env (lit "OAUTH_SCOPES") (lit "ise.read");
  api_keys = env_csv env (lit "MCP_API_KEYS");
  host = env_text env (lit "MCP_HOST") (lit "0.0.0.0");
  port = env_int env (lit "MCP_PORT") (pos 8005);
  transport = env_text env (lit "MCP_TRANSPORT") (lit "streamable-http");
}
