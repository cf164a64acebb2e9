-- ===== src/System.antt =====
-- server.py: the running server, as the requests that it serves one after the other
pub mod Tracks
pub mod Tracking
pub mod Runs
pub mod Sessions
pub mod Codes
pub mod Callers
pub mod ReadOnly
use cisco_ise_mcp.Prelude.{List, Option, [], none, some}
use cisco_ise_mcp.Auth.Store.{empty_store}
use cisco_ise_mcp.Config.Record.{Config}
use cisco_ise_mcp.Exec.{Exec, pure, ◌>>=◌, ◌>>◌}
use cisco_ise_mcp.Server.{Answer, HttpCall, lowered}
use cisco_ise_mcp.Server.Authorize.{authorize_get, authorize_post}
use cisco_ise_mcp.Server.Gate.{require_auth}
use cisco_ise_mcp.Server.Token.{token_endpoint}
use cisco_ise_mcp.Text.{Text}
use cisco_ise_mcp.Tools.{Deps}
use cisco_ise_mcp.Tools.Calls.{ToolCall, call_tool}
use cisco_ise_mcp.Value.{Value, null}
use cisco_ise_mcp.World.{Env, World}

-- What comes in: a request to the MCP endpoint, which may call a tool, a tool call over stdio, or a
-- request to one of the other endpoints that have effects.
pub data Event : Type 0 where
  mcp_event : HttpCall → Option ToolCall → Event
  stdio_event : ToolCall → Event
  token_event form_event submit_event : HttpCall → Event

-- What a tool can see of its surroundings: for a request its headers, over stdio none.
abbrev pub during : Env → List (Text × Text) → Env
during env hs = record env { request_headers = lowered hs }

-- The application behind the gate, where `render` is how the MCP SDK answers.
abbrev pub app_for : (Value → Answer) → Deps → Option ToolCall → Exec Answer
app_for render deps none = pure (render null)
app_for render deps (some tool) = do v ← call_tool deps tool; pure (render v)

module _ (render : Value → Answer) (deps : Deps) (env : Env) where
  -- The world after one more request.
  unfoldable pub serve : Event → World → World
  serve (mcp_event call tool) w =
      (require_auth deps (app_for render deps tool) call (during env call.headers) w).1
  serve (stdio_event tool) w = (call_tool deps tool (during env []) w).1
  serve (token_event call) w = (token_endpoint deps call (during env call.headers) w).1
  serve (form_event call) w = (authorize_get deps call (during env call.headers) w).1
  serve (submit_event call) w = (authorize_post deps call (during env call.headers) w).1

  -- The worlds that the server reaches from another.
  pub data Reach (u : World) : World → Type 0 where
    at_start : Reach u u
    served : {w : World} → Reach u w → (event : Event) → Reach u (serve event w)

-- The world when the server starts: no sessions, no codes.
unfoldable pub start : Config → World
unfolding empty_store
start cfg = record {
  store = empty_store cfg.session_ttl_seconds cfg.session_idle_timeout_seconds;
  codes = [];
  readings = 0;
  tokens = 0;
  sent = [];
  slept = [];
  audits = [];
}
