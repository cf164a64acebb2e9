-- ===== src/Config/Record.antt =====
-- config.py: `Config` and its derived properties
use cisco_ise_mcp.Prelude.{Bool, List, [], false, not, true}
use cisco_ise_mcp.Prelude.Int.{pos, ℤ}
use cisco_ise_mcp.Text.{Text, lit, lower, or_text, rstrip_slash, ◌==◌}

pub record Config : Type 0 where
  pub ise_base_url : Text
  pub ise_ers_base_url : Text
  pub ise_mnt_base_url : Text
  pub ise_username : Text
  pub ise_password : Text
  pub ise_encoded_auth : Text
  pub ise_version : Text
  pub verify_ssl : Bool
  pub timeout_seconds : ℤ
  pub rate_limit_wait : Bool
  pub auth_mode : Text
  pub mcp_mode : Text
  pub enable_dangerous_tools : Bool
  pub session_ttl_seconds : ℤ
  pub session_idle_timeout_seconds : ℤ
  pub session_header : Text
  pub log_level : Text
  pub audit_log_enabled : Bool
  pub allowed_tools : List Text
  pub disabled_tools : List Text
  pub allowed_endpoint_groups : List Text
  pub allowed_device_groups : List Text
  pub allowed_sites : List Text
  pub default_page_size : ℤ
  pub max_page_size : ℤ
  pub include_raw_default : Bool
  pub oauth_client_id : Text
  pub oauth_client_secret : Text
  pub oauth_redirect_uris : List Text
  pub oauth_scopes : Text
  pub api_keys : List Text
  pub host : Text
  pub port : ℤ
  pub transport : Text

-- The defaults of the dataclass.
unfoldable pub default_config : Config
unfolding lit
default_config = record {
  ise_base_url = lit "";
  ise_ers_base_url = lit "";
  ise_mnt_base_url = lit "";
  ise_username = lit "";
  ise_password = lit "";
  ise_encoded_auth = lit "";
  ise_version = lit "3.2";
  verify_ssl = true;
  timeout_seconds = pos 30;
  rate_limit_wait = true;
  auth_mode = lit "passthrough";
  mcp_mode = lit "readonly";
  enable_dangerous_tools = false;
  session_ttl_seconds = pos 3600;
  session_idle_timeout_seconds = pos 900;
  session_header = lit "X-MCP-Session";
  log_level = lit "INFO";
  audit_log_enabled = true;
  allowed_tools = [];
  disabled_tools = [];
  allowed_endpoint_groups = [];
  allowed_device_groups = [];
  allowed_sites = [];
  default_page_size = pos 50;
  max_page_size = pos 500;
  include_raw_default = false;
  oauth_client_id = lit "";
  oauth_client_secret = lit "";
  oauth_redirect_uris = [];
  oauth_scopes = lit "ise.read";
  api_keys = [];
  host = lit "0.0.0.0";
  port = pos 8005;
  transport = lit "streamable-http";
}

unfoldable pub ers_base : Config → Text
ers_base cfg = rstrip_slash (or_text cfg.ise_ers_base_url cfg.ise_base_url)

unfoldable pub mnt_base : Config → Text
mnt_base cfg = rstrip_slash (or_text cfg.ise_mnt_base_url cfg.ise_base_url)

unfoldable pub is_readonly : Config → Bool
is_readonly cfg = not (lower cfg.mcp_mode == lit "readwrite")
