-- ===== src/Tools/Calls/Endpoints.antt =====
-- The parts of tools that several calls make are queries.
use cisco_ise_mcp.Prelude.{Bool, Option}
use cisco_ise_mcp.Auth.Context.{AuthContext}
use cisco_ise_mcp.Config.Record.{Config}
use cisco_ise_mcp.Exec.Effects.{IsQuery, keeping}
use cisco_ise_mcp.Ise.Models.{EndpointSummary}
use cisco_ise_mcp.Ise.Queries.{
  auth_status_by_mac-IsQuery, get_endpoint_by_mac-IsQuery, get_endpoint_group-IsQuery,
  get_profiler_profile-IsQuery, session_by_mac-IsQuery,
}
use cisco_ise_mcp.Prelude.Int.{ℤ}
use cisco_ise_mcp.Text.{Text}
use cisco_ise_mcp.Tools.{Deps}
use cisco_ise_mcp.Tools.Endpoint.{enrich, named_group, named_profile, shown_endpoint}
use cisco_ise_mcp.Tools.Listing.{page_of}
use cisco_ise_mcp.Tools.Policy.{build_context, context_endpoint}
use cisco_ise_mcp.Value.{Value}

named_group-IsQuery :
    (cfg : Config) (s : EndpointSummary) (auth : AuthContext) → IsQuery (named_group cfg s auth)
unfolding named_group
named_group-IsQuery cfg s auth = search (keeping, get_endpoint_group-IsQuery) depth 8

named_profile-IsQuery :
    (cfg : Config) (s : EndpointSummary) (auth : AuthContext) → IsQuery (named_profile cfg s auth)
unfolding named_profile
named_profile-IsQuery cfg s auth = search (keeping, get_profiler_profile-IsQuery) depth 8

pub enrich-IsQuery :
    (cfg : Config) (s : EndpointSummary) (auth : AuthContext) → IsQuery (enrich cfg s auth)
unfolding enrich
enrich-IsQuery cfg s auth = search (keeping, named_group-IsQuery, named_profile-IsQuery)

pub shown_endpoint-IsQuery :
    (cfg : Config) (raw : Value) (include_raw : Bool) (auth : AuthContext)
    → IsQuery (shown_endpoint cfg raw include_raw auth)
shown_endpoint-IsQuery cfg raw include_raw auth = search (keeping, enrich-IsQuery)

context_endpoint-IsQuery :
    (cfg : Config) (mac : Text) (auth : AuthContext) → IsQuery (context_endpoint cfg mac auth)
unfolding context_endpoint
context_endpoint-IsQuery cfg mac auth =
    search (keeping, get_endpoint_by_mac-IsQuery, enrich-IsQuery) depth 8

pub build_context-IsQuery :
    (cfg : Config) (mac : Text) (auth : AuthContext) → IsQuery (build_context cfg mac auth)
unfolding build_context
build_context-IsQuery cfg mac auth =
    search (keeping, context_endpoint-IsQuery, session_by_mac-IsQuery, auth_status_by_mac-IsQuery)
      depth 9

pub page_of-IsQuery :
    (deps : Deps) (raw : Value) (page size : ℤ) (include_raw : Option Bool)
    → IsQuery (page_of deps raw page size include_raw)
page_of-IsQuery deps raw page size include_raw = search keeping depth 7
