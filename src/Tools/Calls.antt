-- ===== src/Tools/Calls.antt =====
-- tools/__init__.py: `register_all`, as the calls that a client can make
pub mod Endpoints
pub mod Framed
pub mod Writers
pub mod Kinds
pub mod ReadOnly
pub mod Names
pub mod Denied
-- A call of a registered tool, with its arguments.
use cisco_ise_mcp.Prelude.{Bool, Option}
use cisco_ise_mcp.Exec.{Exec}
use cisco_ise_mcp.Prelude.Int.{ℤ}
use cisco_ise_mcp.Text.{Text}
use cisco_ise_mcp.Tools.{Deps}
use cisco_ise_mcp.Tools.Endpoint.{
  ise_get_endpoint_by_id, ise_get_endpoint_by_ip, ise_get_endpoint_by_mac, ise_search_endpoints,
}
use cisco_ise_mcp.Tools.Health.{
  ise_auth_status, ise_health_check, ise_login, ise_logout, ise_validate_session, ise_whoami,
}
use cisco_ise_mcp.Tools.Identity.{ise_get_endpoint_group, ise_get_user_sessions_by_username}
use cisco_ise_mcp.Tools.Listing.{
  ise_list_authorization_profiles, ise_list_network_devices, ise_list_security_groups,
  ise_list_sgacls,
}
use cisco_ise_mcp.Tools.Policy.{ise_get_incident_summary_by_mac, ise_get_policy_context_by_mac}
use cisco_ise_mcp.Tools.Sessions.{
  ise_get_active_session_by_ip, ise_get_active_session_by_mac, ise_get_auth_logs_by_mac,
}
use cisco_ise_mcp.Tools.Write.{ise_assign_endpoint_group, ise_create_endpoint, ise_delete_endpoint}
use cisco_ise_mcp.Value.{Value}

pub data ToolCall : Type 0 where
  get_endpoint_by_mac_call get_endpoint_by_id_call get_endpoint_by_ip_call :
      Text → Option Bool → ToolCall
  search_endpoints_call : Option Text → ℤ → Option ℤ → Option Bool → ToolCall
  get_user_sessions_call : Text → Option Bool → ToolCall
  get_endpoint_group_call : Text → ToolCall
  list_security_groups_call list_sgacls_call list_authorization_profiles_call :
      ℤ → Option ℤ → Option Bool → ToolCall
  list_network_devices_call : Option Text → ℤ → Option ℤ → Option Bool → ToolCall
  get_policy_context_call get_incident_summary_call : Text → ToolCall
  get_active_session_by_mac_call get_active_session_by_ip_call : Text → Option Bool → ToolCall
  get_auth_logs_call : Text → ℤ → ℤ → Option Bool → ToolCall
  health_check_call auth_status_call validate_session_call logout_call whoami_call : ToolCall
  login_call : Text → Text → ToolCall
  create_endpoint_call : Text → Option Text → Text → ToolCall
  assign_endpoint_group_call : Text → Text → ToolCall
  delete_endpoint_call : Text → ToolCall

-- The tool that a call runs.
unfoldable pub call_tool : Deps → ToolCall → Exec Value
call_tool deps (get_endpoint_by_mac_call mac raw) = ise_get_endpoint_by_mac deps mac raw
call_tool deps (get_endpoint_by_id_call eid raw) = ise_get_endpoint_by_id deps eid raw
call_tool deps (get_endpoint_by_ip_call ip raw) = ise_get_endpoint_by_ip deps ip raw
call_tool deps (search_endpoints_call f page size raw) = ise_search_endpoints deps f page size raw
call_tool deps (get_user_sessions_call user raw) = ise_get_user_sessions_by_username deps user raw
call_tool deps (get_endpoint_group_call gid) = ise_get_endpoint_group deps gid
call_tool deps (list_security_groups_call page size raw) =
    ise_list_security_groups deps page size raw
call_tool deps (list_sgacls_call page size raw) = ise_list_sgacls deps page size raw
call_tool deps (list_authorization_profiles_call page size raw) =
    ise_list_authorization_profiles deps page size raw
call_tool deps (list_network_devices_call f page size raw) =
    ise_list_network_devices deps f page size raw
call_tool deps (get_policy_context_call mac) = ise_get_policy_context_by_mac deps mac
call_tool deps (get_incident_summary_call mac) = ise_get_incident_summary_by_mac deps mac
call_tool deps (get_active_session_by_mac_call mac raw) = ise_get_active_session_by_mac deps mac raw
call_tool deps (get_active_session_by_ip_call ip raw) = ise_get_active_session_by_ip deps ip raw
call_tool deps (get_auth_logs_call mac seconds records raw) =
    ise_get_auth_logs_by_mac deps mac seconds records raw
call_tool deps health_check_call = ise_health_check deps
call_tool deps auth_status_call = ise_auth_status deps
call_tool deps validate_session_call = ise_validate_session deps
call_tool deps logout_call = ise_logout deps
call_tool deps whoami_call = ise_whoami deps
call_tool deps (login_call username password) = ise_login deps username password
call_tool deps (create_endpoint_call mac gid description) =
    ise_create_endpoint deps mac gid description
call_tool deps (assign_endpoint_group_call eid gid) = ise_assign_endpoint_group deps eid gid
call_tool deps (delete_endpoint_call eid) = ise_delete_endpoint deps eid
