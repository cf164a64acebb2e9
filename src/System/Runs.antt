-- ===== src/System/Runs.antt =====
-- What holds in every world that the server reaches.
use cisco_ise_mcp.Prelude.{List, Option, [], none, some, ◌∙◌, ◌≡◌}
use cisco_ise_mcp.Auth.Store.History.{Call, after}
use cisco_ise_mcp.Config.Record.{Config}
use cisco_ise_mcp.Exec.Effects.{Effect, Keeps, bind-Keeps, pure-Keeps}
use cisco_ise_mcp.Server.{Answer}
use cisco_ise_mcp.Server.Effects.{
  AdmitsServer, authorize_get-Keeps, authorize_post-Keeps, require_auth-Keeps, token_endpoint-Keeps,
}
use cisco_ise_mcp.System.{
  Event, Reach, app_for, at_start, during, form_event, mcp_event, serve, served, start, stdio_event,
  submit_event, token_event,
}
use cisco_ise_mcp.System.Tracking.{tracking, tracking-AdmitsServer, tracking-AdmitsTools}
use cisco_ise_mcp.System.Tracks.{Minted, Tracks, Tracks-during, apply_all-after}
use cisco_ise_mcp.Text.{Text}
use cisco_ise_mcp.Tools.{Deps}
use cisco_ise_mcp.Tools.Calls.{ToolCall, call_tool}
use cisco_ise_mcp.Tools.Calls.Kinds.{call_tool-Keeps}
use cisco_ise_mcp.Value.{Value}
use cisco_ise_mcp.World.{Env, World}

-- Relations that the parts of the server keep, the tools among them.
pub record AdmitsRequests (deps : Deps) (env : Env) (e : Effect) : Type 0 where
  pub server : AdmitsServer deps.cfg e
  pub at_tool :
      (env : Env) (w : World) (tool : ToolCall) → Effect.Rel e env w (call_tool deps tool env w).1
  pub same :
      (hs : List (Text × Text)) (u v : World)
      → Effect.Rel e (during env hs) u v
      → Effect.Rel e env u v

module _ (render : Value → Answer) (deps : Deps) (env : Env) where
  call_tool-Admitted : (tool : ToolCall) → Keeps (AdmitsRequests deps env) (call_tool deps tool)
  call_tool-Admitted tool = record { keeps = λ e l env w. l.at_tool env w tool }

  app_for-Keeps :
      (tool : Option ToolCall) → Keeps (AdmitsRequests deps env) (app_for render deps tool)
  app_for-Keeps none = pure-Keeps _
  app_for-Keeps (some tool) = bind-Keeps _ _ (call_tool-Admitted tool) (λ v. pure-Keeps (render v))

  -- Any relation that the parts of the server keep holds across a request.
  serve-Keeps :
      (e : Effect)
      → AdmitsRequests deps env e
      → (event : Event) (w : World) → Effect.Rel e env w (serve render deps env event w)
  unfolding serve
  serve-Keeps e l (mcp_event call tool) w = l.same call.headers w _ (
      (require_auth-Keeps deps call _ (λ e l. l.server.sessions) (app_for-Keeps tool)).keeps e l
        (during env call.headers) w)
  serve-Keeps e l (stdio_event tool) w = l.same [] w _ (l.at_tool (during env []) w tool)
  serve-Keeps e l (token_event call) w =
      l.same call.headers w _
        ((token_endpoint-Keeps deps call).keeps e l.server (during env call.headers) w)
  serve-Keeps e l (form_event call) w =
      l.same call.headers w _
        ((authorize_get-Keeps deps call).keeps e l.server (during env call.headers) w)
  serve-Keeps e l (submit_event call) w =
      l.same call.headers w _
        ((authorize_post-Keeps deps call).keeps e l.server (during env call.headers) w)

  pub Reach-Keeps :
      (e : Effect)
      → AdmitsRequests deps env e
      → {u w : World} → Reach render deps env u w
      → Effect.Rel e env u w
  Reach-Keeps e l {u} at_start = e.at_rest env u
  Reach-Keeps e l {u} (served {w} r event) =
      e.in_turn env u w _ (Reach-Keeps e l r) (serve-Keeps e l event w)

tracking-AdmitsRequests : (deps : Deps) (env : Env) → AdmitsRequests deps env (tracking deps.cfg)
tracking-AdmitsRequests deps env = record {
  server = tracking-AdmitsServer deps.cfg;
  at_tool = λ env w tool.
      (call_tool-Keeps deps tool).keeps (tracking deps.cfg) (tracking-AdmitsTools deps.cfg) env w;
  same = Tracks-during deps.cfg env;
}

pub Reach-Tracks :
    (render : Value → Answer) (deps : Deps) (env : Env) {u w : World}
    → Reach render deps env u w
    → Tracks deps.cfg env u w
Reach-Tracks render deps env r =
    Reach-Keeps render deps env (tracking deps.cfg) (tracking-AdmitsRequests deps env) r

-- The history of the session store in a world: how the store came about, from the empty one.
pub record HasHistory (cfg : Config) (env : Env) (w : World) : Type 0 where
  pub calls : List Call
  pub store : w.store ≡ after cfg.session_ttl_seconds cfg.session_idle_timeout_seconds calls
  pub minted : Minted cfg env w.sent 0 w.tokens calls

unfoldable pub Tracks-HasHistory :
    (cfg : Config) (env : Env) (w : World) → Tracks cfg env (start cfg) w → HasHistory cfg env w
unfolding start
Tracks-HasHistory cfg env w t = record {
  calls = t.calls;
  store =
      t.store ∙ apply_all-after cfg.session_ttl_seconds cfg.session_idle_timeout_seconds t.calls;
  minted = t.minted;
}

-- Whatever requests the server has served, its sessions come from a history of calls of the session
-- store that begins with the empty store, in which each session was created under a random token that
-- was drawn for it alone, for credentials, neither of them empty, for which ISE answered all four probes
-- with a status below 400.
pub Reach-HasHistory :
    (render : Value → Answer) (deps : Deps) (env : Env) (w : World)
    → Reach render deps env (start deps.cfg) w
    → HasHistory deps.cfg env w
Reach-HasHistory render deps env w r =
    Tracks-HasHistory deps.cfg env w (Reach-Tracks render deps env r)
