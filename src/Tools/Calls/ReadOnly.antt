-- ===== src/Tools/Calls/ReadOnly.antt =====
-- What the tools send on a read-only server.
use cisco_ise_mcp.Prelude.{All, List, [], subst, sym, true, ◌++◌, ◌≡◌}
use cisco_ise_mcp.Config.Record.{is_readonly}
use cisco_ise_mcp.Exec.{Exec}
use cisco_ise_mcp.Exec.Reads.{IsGet, Reads, reading}
use cisco_ise_mcp.Text.{lit}
use cisco_ise_mcp.Tools.{Deps}
use cisco_ise_mcp.Tools.Calls.{ToolCall, call_tool}
use cisco_ise_mcp.Tools.Calls.Framed.{IsFramed}
use cisco_ise_mcp.Tools.Calls.Kinds.{Kind, call_tool-Kind, reads, sessions_only, writes}
use cisco_ise_mcp.Tools.Queries.{reading-AdmitsSessions, run-Audited}
use cisco_ise_mcp.Value.{Value}
use cisco_ise_mcp.World.{Env, HttpRequest, World}

-- Whatever was sent between two worlds are GET requests.
pub record OnlyGets (w w' : World) : Type 0 where
  pub new : List HttpRequest
  pub sent : w'.sent ≡ new ++ w.sent
  pub gets : All IsGet new

framed-OnlyGets :
    (deps : Deps) (m : Exec Value) (env : Env) (w : World)
    → IsFramed (lit "GET") deps m
    → OnlyGets w (m env w).1
framed-OnlyGets deps m env w h =
    let a = run-Audited deps h.name h.params h.fn h.write env w h.requests in
    subst (λ n. OnlyGets w (n env w).1) (sym h.framed)
      (record { new = a.new; sent = a.sent; gets = a.gets })

Kind-OnlyGets :
    (deps : Deps) (m : Exec Value) (env : Env) (w : World)
    → is_readonly deps.cfg ≡ true
    → Kind deps m
    → OnlyGets w (m env w).1
Kind-OnlyGets deps m env w h (reads r) = framed-OnlyGets deps m env w r
Kind-OnlyGets deps m env w h (writes method f refused) =
    let r = refused env w h in record { new = []; sent = r.sent; gets = tt }
Kind-OnlyGets deps m env w h (sessions_only k) =
    let r : Reads w (m env w).1 = k.keeps reading (reading-AdmitsSessions deps.cfg) env w in
    record { new = r.new; sent = r.sent; gets = r.gets }

-- On a read-only server no call of any tool, whatever its arguments and its caller, sends anything to ISE
-- but GET requests.
pub call_tool-OnlyGets :
    (deps : Deps) (call : ToolCall) (env : Env) (w : World)
    → is_readonly deps.cfg ≡ true
    → OnlyGets w (call_tool deps call env w).1
call_tool-OnlyGets deps call env w h =
    Kind-OnlyGets deps (call_tool deps call) env w h (call_tool-Kind deps call)
