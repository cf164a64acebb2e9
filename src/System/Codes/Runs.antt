-- ===== src/System/Codes/Runs.antt =====
-- The codes that are held after any requests.
use cisco_ise_mcp.Config.Record.{Config}
use cisco_ise_mcp.Text.{Text}
use cisco_ise_mcp.Value.{Value}
use cisco_ise_mcp.World.{World}
