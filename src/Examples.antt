-- ===== src/Examples.antt =====
-- The configuration, surroundings and world that the examples run in, and the examples by part.
mod Access
mod Sessions
mod Codes
mod Calls
mod Values
mod Server
mod Starting
mod System
-- A server with the defaults and the address of ISE, and one in read-write mode.
use cisco_ise_mcp.Prelude.{[], false, none, ◌*◌, ◌∷◌}
use cisco_ise_mcp.Auth.Context.{AuthContext}
use cisco_ise_mcp.Auth.Provider.{passthrough}
use cisco_ise_mcp.Auth.Store.{SessionStore, empty_store}
use cisco_ise_mcp.Config.Record.{Config, default_config}
use cisco_ise_mcp.Prelude.Int.{pos}
use cisco_ise_mcp.Text.{lit}
use cisco_ise_mcp.Tools.{Deps}
use cisco_ise_mcp.World.{Env, HttpResponse, World, response}

abbrev pub sample_cfg : Config
sample_cfg = record default_config { ise_base_url = lit "https://ise" }

abbrev pub writing_cfg : Config
writing_cfg = record default_config { mcp_mode = lit "ReadWrite" }

abbrev pub sample_deps : Deps
sample_deps = record { cfg = sample_cfg; provider = passthrough }

abbrev pub sample_accepted : HttpResponse
sample_accepted = record {
  status_code = 200;
  retry_after = none;
  text = [];
  has_content = false;
  json = none;
}

-- The clock goes one second a reading; ISE accepts everything.
abbrev pub sample_env : Env
sample_env = record {
  clock = λ n. n * 1000000;
  token_urlsafe = λ n. 116 ∷ n ∷ [];
  ise = λ sent req. response sample_accepted;
  float_ms = λ s. none;
  decode_base64 = λ s. none;
  code_challenge = λ s. 35 ∷ s;
  parse_xml = λ s. none;
  request_headers = [];
}

abbrev pub sample_store : SessionStore
sample_store = empty_store (pos 3600) (pos 900)

abbrev pub sample_world : World
sample_world = record {
  store = sample_store;
  codes = [];
  readings = 0;
  tokens = 0;
  sent = [];
  slept = [];
  audits = [];
}

abbrev pub sample_identity : AuthContext
sample_identity = record {
  username = 97 ∷ [];
  mode = lit "passthrough";
  password = 112 ∷ [];
  encoded = [];
}
