-- ===== src/Tools/Calls/Kinds.antt =====
-- The three kinds of calls: those that run in the frame and read, those that run in the frame and write,
-- and those that reach no further than the sessions.
use cisco_ise_mcp.Prelude.{[], none, subst, sym, true, ◌≡◌}
use cisco_ise_mcp.Config.Record.{Config, is_readonly}
use cisco_ise_mcp.Exec.{Exec}
use cisco_ise_mcp.Exec.Effects.{Effect, Keeps, keeping, weaken}
use cisco_ise_mcp.Text.{Text, lit}
use cisco_ise_mcp.Tools.{Deps}
use cisco_ise_mcp.Tools.Calls.{
  ToolCall, assign_endpoint_group_call, auth_status_call, call_tool, create_endpoint_call,
  delete_endpoint_call, get_active_session_by_ip_call, get_active_session_by_mac_call,
  get_auth_logs_call, get_endpoint_by_id_call, get_endpoint_by_ip_call, get_endpoint_by_mac_call,
  get_endpoint_group_call, get_incident_summary_call, get_policy_context_call,
  get_user_sessions_call, health_check_call, list_authorization_profiles_call,
  list_network_devices_call, list_security_groups_call, list_sgacls_call, login_call, logout_call,
  search_endpoints_call, validate_session_call, whoami_call,
}
use cisco_ise_mcp.Tools.Calls.Framed.{
  IsFramed, ise_auth_status-IsFramed, ise_get_active_session_by_ip-IsFramed,
  ise_get_active_session_by_mac-IsFramed, ise_get_auth_logs_by_mac-IsFramed,
  ise_get_endpoint_by_id-IsFramed, ise_get_endpoint_by_ip-IsFramed,
  ise_get_endpoint_by_mac-IsFramed, ise_get_endpoint_group-IsFramed,
  ise_get_incident_summary_by_mac-IsFramed, ise_get_policy_context_by_mac-IsFramed,
  ise_get_user_sessions_by_username-IsFramed, ise_list_authorization_profiles-IsFramed,
  ise_list_network_devices-IsFramed, ise_list_security_groups-IsFramed, ise_list_sgacls-IsFramed,
  ise_search_endpoints-IsFramed, ise_validate_session-IsFramed, ise_whoami-IsFramed,
}
use cisco_ise_mcp.Tools.Calls.Writers.{
  ise_assign_endpoint_group-IsFramed, ise_create_endpoint-IsFramed, ise_delete_endpoint-IsFramed,
}
use cisco_ise_mcp.Tools.Effects.{
  AdmitsFrame, AdmitsSessions, ise_login-Keeps, ise_logout-Keeps, run-Keeps,
}
use cisco_ise_mcp.Tools.Health.{ise_health_check}
use cisco_ise_mcp.Tools.Safety.{Refused, readonly-Refused}
use cisco_ise_mcp.Value.{Value}
use cisco_ise_mcp.World.{Env, World}

pub data Kind (deps : Deps) (m : Exec Value) : Type 1 where
  reads : IsFramed (lit "GET") deps m → Kind deps m
  writes :
      (method : Text)
      → IsFramed method deps m
      → ((env : Env) (w : World) → is_readonly deps.cfg ≡ true → Refused w (m env w))
      → Kind deps m
  sessions_only : Keeps (AdmitsSessions deps.cfg) m → Kind deps m

ise_health_check-Keeps : (deps : Deps) → Keeps (AdmitsSessions deps.cfg) (ise_health_check deps)
unfolding ise_health_check
ise_health_check-Keeps deps = search keeping

pub call_tool-Kind : (deps : Deps) (call : ToolCall) → Kind deps (call_tool deps call)
unfolding call_tool
call_tool-Kind deps (get_endpoint_by_mac_call mac raw) =
    reads (ise_get_endpoint_by_mac-IsFramed deps mac raw)
call_tool-Kind deps (get_endpoint_by_id_call eid raw) =
    reads (ise_get_endpoint_by_id-IsFramed deps eid raw)
call_tool-Kind deps (get_endpoint_by_ip_call ip raw) =
    reads (ise_get_endpoint_by_ip-IsFramed deps ip raw)
call_tool-Kind deps (search_endpoints_call f page limit raw) =
    reads (ise_search_endpoints-IsFramed deps f page limit raw)
call_tool-Kind deps (get_user_sessions_call user raw) =
    reads (ise_get_user_sessions_by_username-IsFramed deps user raw)
call_tool-Kind deps (get_endpoint_group_call gid) = reads (ise_get_endpoint_group-IsFramed deps gid)
call_tool-Kind deps (list_security_groups_call page limit raw) =
    reads (ise_list_security_groups-IsFramed deps page limit raw)
call_tool-Kind deps (list_sgacls_call page limit raw) =
    reads (ise_list_sgacls-IsFramed deps page limit raw)
call_tool-Kind deps (list_authorization_profiles_call page limit raw) =
    reads (ise_list_authorization_profiles-IsFramed deps page limit raw)
call_tool-Kind deps (list_network_devices_call f page limit raw) =
    reads (ise_list_network_devices-IsFramed deps f page limit raw)
call_tool-Kind deps (get_policy_context_call mac) =
    reads (ise_get_policy_context_by_mac-IsFramed deps mac)
call_tool-Kind deps (get_incident_summary_call mac) =
    reads (ise_get_incident_summary_by_mac-IsFramed deps mac)
call_tool-Kind deps (get_active_session_by_mac_call mac raw) =
    reads (ise_get_active_session_by_mac-IsFramed deps mac raw)
call_tool-Kind deps (get_active_session_by_ip_call ip raw) =
    reads (ise_get_active_session_by_ip-IsFramed deps ip raw)
call_tool-Kind deps (get_auth_logs_call mac seconds records raw) =
    reads (ise_get_auth_logs_by_mac-IsFramed deps mac seconds records raw)
call_tool-Kind deps auth_status_call = reads (ise_auth_status-IsFramed deps)
call_tool-Kind deps validate_session_call = reads (ise_validate_session-IsFramed deps)
call_tool-Kind deps whoami_call = reads (ise_whoami-IsFramed deps)
call_tool-Kind deps health_check_call = sessions_only (ise_health_check-Keeps deps)
call_tool-Kind deps logout_call = sessions_only (ise_logout-Keeps deps)
call_tool-Kind deps (login_call username password) =
    sessions_only (ise_login-Keeps deps username password)
call_tool-Kind deps (create_endpoint_call mac gid description) =
    writes (lit "POST") (ise_create_endpoint-IsFramed deps mac gid description)
      (λ env w h. (readonly-Refused deps mac description [] [] gid env w h).0)
call_tool-Kind deps (assign_endpoint_group_call eid gid) =
    writes (lit "PUT") (ise_assign_endpoint_group-IsFramed deps eid gid)
      (λ env w h. (readonly-Refused deps [] [] eid gid none env w h).1)
call_tool-Kind deps (delete_endpoint_call eid) =
    writes (lit "DELETE") (ise_delete_endpoint-IsFramed deps eid)
      (λ env w h. (readonly-Refused deps [] [] eid [] none env w h).2)

-- Relations that requests with any method keep, and the frame.
abbrev pub AdmitsTools : Config → Effect → Type 0
AdmitsTools cfg e = (method : Text) → AdmitsFrame cfg method e

framed-Keeps :
    (deps : Deps) (method : Text) (m : Exec Value)
    → IsFramed method deps m
    → Keeps (AdmitsTools deps.cfg) m
framed-Keeps deps method m h =
    subst (Keeps (AdmitsTools deps.cfg)) (sym h.framed)
      (weaken _ (λ e l. l method) (run-Keeps deps method h.name h.params h.fn h.write h.requests))

-- A call of a tool leaves behind what its requests, its calls of the session store and its audit leave.
pub call_tool-Keeps :
    (deps : Deps) (call : ToolCall) → Keeps (AdmitsTools deps.cfg) (call_tool deps call)
call_tool-Keeps deps call = kept _ (call_tool-Kind deps call)
  where
    kept : (m : Exec Value) → Kind deps m → Keeps (AdmitsTools deps.cfg) m
    kept m (reads h) = framed-Keeps deps (lit "GET") m h
    kept m (writes method h r) = framed-Keeps deps method m h
    kept m (sessions_only h) = weaken m (λ e l. (l []).sessions) h
