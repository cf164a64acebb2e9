-- ===== src/Tools/Policy.antt =====
-- tools/policy.py: the consolidated context of a MAC address, and its summary in words
pub mod Laws
use cisco_ise_mcp.Prelude.{Option, [], false, if◌then◌else◌, map, none, some, ◌++◌, ◌||◌, ◌∷◌}
use cisco_ise_mcp.Auth.Context.{AuthContext}
use cisco_ise_mcp.Config.Record.{Config}
use cisco_ise_mcp.Errors.{Result, err, ok, type_name}
use cisco_ise_mcp.Exec.{Exec, caught, lift, pure, ◌>>=◌, ◌>>◌}
use cisco_ise_mcp.Ise.Ers.{get_endpoint_by_mac, summarize_endpoint}
use cisco_ise_mcp.Ise.Mnt.{auth_status_by_mac, session_by_mac, summarize_session}
use cisco_ise_mcp.Ise.Models.{EndpointSummary, PolicyContext, SessionSummary, context_dict}
use cisco_ise_mcp.Prelude.Int.{pos}
use cisco_ise_mcp.Responses.{plain_response}
use cisco_ise_mcp.Text.{Text, join, lit}
use cisco_ise_mcp.Tools.{Deps, run}
use cisco_ise_mcp.Tools.Endpoint.{enrich}
use cisco_ise_mcp.Validation.Mac.{normalize_mac}
use cisco_ise_mcp.Value.{Value, dict, is_true, null, or_value, str}
use cisco_ise_mcp.Value.Format.{show_value}

abbrev pub with_endpoint : PolicyContext → Result EndpointSummary → PolicyContext
with_endpoint c (ok ep) = record c { endpoint = some ep }
with_endpoint c (err e) = record c {
  notes = c.notes ++ (lit "endpoint lookup failed: " ++ type_name e) ∷ [];
}

abbrev pub with_session : PolicyContext → Result Value → PolicyContext
with_session c (ok raw) = record c {
  active_session = some (summarize_session raw);
  security_group = (summarize_session raw).security_group;
}
with_session c (err e) = record c {
  notes = c.notes ++ (lit "active session unavailable (MNT): " ++ type_name e) ∷ [];
}

abbrev pub with_recent : PolicyContext → Result Value → PolicyContext
with_recent c (ok raw) = record c { recent_auth = if is_true raw then raw ∷ [] else [] }
with_recent c (err e) = record c {
  notes = c.notes ++ (lit "auth history unavailable (MNT): " ++ type_name e) ∷ [];
}

-- The endpoint part of `_build_context`.
unfoldable pub context_endpoint : Config → Text → AuthContext → Exec EndpointSummary
unfolding ◌>>=◌ get_endpoint_by_mac enrich
context_endpoint cfg mac auth = do
  raw ← get_endpoint_by_mac cfg mac auth
  s ← lift (summarize_endpoint raw)
  enrich cfg s auth

abbrev pub empty_context : Text → PolicyContext
empty_context mac = record {
  mac = mac;
  endpoint = none;
  active_session = none;
  recent_auth = [];
  security_group = null;
  notes = [];
}

-- `_build_context(deps, mac, auth)`
unfoldable pub build_context : Config → Text → AuthContext → Exec PolicyContext
unfolding ◌>>=◌ caught context_endpoint session_by_mac auth_status_by_mac
build_context cfg mac auth = do
  ep ← caught (context_endpoint cfg mac auth)
  sess ← caught (session_by_mac cfg mac auth)
  recent ← caught (auth_status_by_mac cfg mac auth (pos 86400) (pos 10))
  pure (with_recent (with_session (with_endpoint (empty_context mac) ep) sess) recent)

unfoldable pub ise_get_policy_context_by_mac : Deps → Text → Exec Value
unfolding ◌>>=◌ build_context
ise_get_policy_context_by_mac deps mac =
    run deps (lit "ise_get_policy_context_by_mac") (dict ((lit "mac", str mac) ∷ []))
      (λ auth. do
        m ← lift (normalize_mac mac)
        ctx ← build_context deps.cfg m auth
        pure (plain_response (context_dict ctx)))
      false

abbrev when_true : Value → Text → Text
when_true v s = if is_true v then s else []

abbrev endpoint_line : Option EndpointSummary → Text
endpoint_line none = lit "- Endpoint: not found in ISE."
endpoint_line (some ep) =
    lit "- Endpoint: "
    ++ (show_value (or_value ep.name ep.mac)
        ++ (when_true ep.ip_address (lit ", IP " ++ show_value ep.ip_address)
            ++ (when_true ep.identity_group
                  (lit ", group '" ++ (show_value ep.identity_group ++ lit "'"))
                ++ (when_true ep.profile
                      (lit ", profiled as '" ++ (show_value ep.profile ++ lit "'"))
                    ++ when_true ep.static_group_assignment (lit " [statically grouped]")))))

abbrev session_line : Option SessionSummary → Text
session_line none = lit "- Active session: none reported (or MNT not accessible)."
session_line (some s) =
    if is_true s.username || is_true s.nas_ip || is_true s.state
    then lit "- Active session: user '"
      ++ (show_value s.username
          ++ (lit "' on NAS "
              ++ (show_value s.nas_ip
                  ++ (lit " port "
                      ++ (show_value s.nas_port
                          ++ (lit ", authz '"
                              ++ (show_value s.authz_profile
                                  ++ (lit "', state " ++ (show_value s.state ++ lit ".")))))))))
    else lit "- Active session: none reported (or MNT not accessible)."

-- `_narrative(ctx)`
unfoldable pub narrative : PolicyContext → Text
unfolding join
narrative c = join (10 ∷ []) (
    (lit "ISE context for " ++ (c.mac ++ lit ":"))
    ∷ endpoint_line c.endpoint
    ∷ session_line c.active_session
    ∷ ((if is_true c.security_group
          then (lit "- SGT: " ++ (show_value c.security_group ++ lit ".")) ∷ []
          else [])
        ++ map (λ note. lit "- Note: " ++ note) c.notes))

unfoldable pub ise_get_incident_summary_by_mac : Deps → Text → Exec Value
unfolding ◌>>=◌ build_context
ise_get_incident_summary_by_mac deps mac =
    run deps (lit "ise_get_incident_summary_by_mac") (dict ((lit "mac", str mac) ∷ []))
      (λ auth. do
        m ← lift (normalize_mac mac)
        ctx ← build_context deps.cfg m auth
        pure (
            plain_response (
              dict
                ((lit "summary", str (narrative ctx)) ∷ (lit "context", context_dict ctx) ∷ []))))
      false
