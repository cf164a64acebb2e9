-- ===== src/Tools/Calls/Names.antt =====
-- tools/: the names under which the tools are registered, and what runs in the frame
use cisco_ise_mcp.Prelude.{Bool, false, inl, inr, refl, true, ◌≡◌, ◌⊎◌}
use cisco_ise_mcp.Auth.Context.{AuthContext}
use cisco_ise_mcp.Auth.Store.{size}
use cisco_ise_mcp.Exec.{Exec}
use cisco_ise_mcp.Text.{Text, contains, lit, ◌==◌}
use cisco_ise_mcp.Tools.{Deps, run}
use cisco_ise_mcp.Tools.Calls.{
  ToolCall, assign_endpoint_group_call, auth_status_call, call_tool, create_endpoint_call,
  delete_endpoint_call, get_active_session_by_ip_call, get_active_session_by_mac_call,
  get_auth_logs_call, get_endpoint_by_id_call, get_endpoint_by_ip_call, get_endpoint_by_mac_call,
  get_endpoint_group_call, get_incident_summary_call, get_policy_context_call,
  get_user_sessions_call, health_check_call, list_authorization_profiles_call,
  list_network_devices_call, list_security_groups_call, list_sgacls_call, login_call, logout_call,
  search_endpoints_call, validate_session_call, whoami_call,
}
use cisco_ise_mcp.Tools.Endpoint.{
  ise_get_endpoint_by_id, ise_get_endpoint_by_ip, ise_get_endpoint_by_mac, ise_search_endpoints,
}
use cisco_ise_mcp.Tools.Health.{ise_auth_status, ise_validate_session, ise_whoami}
use cisco_ise_mcp.Tools.Identity.{ise_get_endpoint_group, ise_get_user_sessions_by_username}
use cisco_ise_mcp.Tools.Listing.{
  ise_list_authorization_profiles, ise_list_network_devices, ise_list_security_groups,
  ise_list_sgacls, list_tool,
}
use cisco_ise_mcp.Tools.Policy.{ise_get_incident_summary_by_mac, ise_get_policy_context_by_mac}
use cisco_ise_mcp.Tools.Sessions.{
  ise_get_active_session_by_ip, ise_get_active_session_by_mac, ise_get_auth_logs_by_mac,
}
use cisco_ise_mcp.Tools.Write.{ise_assign_endpoint_group, ise_create_endpoint, ise_delete_endpoint}
use cisco_ise_mcp.Validation.Gate.{dangerous_tools, write_tools}
use cisco_ise_mcp.Value.{Value}

-- The name of the tool: that of the function which `@mcp.tool()` registers.
abbrev pub tool_name : ToolCall → Text
tool_name (get_endpoint_by_mac_call _ _) = lit "ise_get_endpoint_by_mac"
tool_name (get_endpoint_by_id_call _ _) = lit "ise_get_endpoint_by_id"
tool_name (get_endpoint_by_ip_call _ _) = lit "ise_get_endpoint_by_ip"
tool_name (search_endpoints_call _ _ _ _) = lit "ise_search_endpoints"
tool_name (get_user_sessions_call _ _) = lit "ise_get_user_sessions_by_username"
tool_name (get_endpoint_group_call _) = lit "ise_get_endpoint_group"
tool_name (list_security_groups_call _ _ _) = lit "ise_list_security_groups"
tool_name (list_sgacls_call _ _ _) = lit "ise_list_sgacls"
tool_name (list_authorization_profiles_call _ _ _) = lit "ise_list_authorization_profiles"
tool_name (list_network_devices_call _ _ _ _) = lit "ise_list_network_devices"
tool_name (get_policy_context_call _) = lit "ise_get_policy_context_by_mac"
tool_name (get_incident_summary_call _) = lit "ise_get_incident_summary_by_mac"
tool_name (get_active_session_by_mac_call _ _) = lit "ise_get_active_session_by_mac"
tool_name (get_active_session_by_ip_call _ _) = lit "ise_get_active_session_by_ip"
tool_name (get_auth_logs_call _ _ _ _) = lit "ise_get_auth_logs_by_mac"
tool_name health_check_call = lit "ise_health_check"
tool_name auth_status_call = lit "ise_auth_status"
tool_name validate_session_call = lit "ise_validate_session"
tool_name logout_call = lit "ise_logout"
tool_name whoami_call = lit "ise_whoami"
tool_name (login_call _ _) = lit "ise_login"
tool_name (create_endpoint_call _ _ _) = lit "ise_create_endpoint"
tool_name (assign_endpoint_group_call _ _) = lit "ise_assign_endpoint_group"
tool_name (delete_endpoint_call _) = lit "ise_delete_endpoint"

-- All tools but the health check, the login and the logout run in the frame.
abbrev pub is_framed : ToolCall → Bool
is_framed health_check_call = false
is_framed logout_call = false
is_framed (login_call _ _) = false
is_framed _ = true

-- The call runs in the frame under this name, with the check for writes if it may be needed.
pub record RunsAs (deps : Deps) (name : Text) (m : Exec Value) : Type 0 where
  pub params : Value
  pub write : Bool
  pub fn : AuthContext → Exec Value
  pub runs : m ≡ run deps name params fn write
  pub checked :
      (write ≡ true)
      ⊎ ((contains write_tools name ≡ false) × (contains dangerous_tools name ≡ false))

module _ (deps : Deps) where
  reads_as :
      (name : Text) (params : Value) (fn : AuthContext → Exec Value)
      → contains write_tools name ≡ false
      → contains dangerous_tools name ≡ false
      → RunsAs deps name (run deps name params fn false)
  reads_as name params fn h k = record {
    params = params;
    write = false;
    fn = fn;
    runs = refl;
    checked = inr (h, k);
  }

  writes_as :
      (name : Text) (params : Value) (fn : AuthContext → Exec Value)
      → RunsAs deps name (run deps name params fn true)
  writes_as name params fn = record {
    params = params;
    write = true;
    fn = fn;
    runs = refl;
    checked = inl refl;
  }

  pub call_tool-RunsAs :
      (call : ToolCall) → is_framed call ≡ true → RunsAs deps (tool_name call) (call_tool deps call)
  unfolding call_tool contains ◌==◌ lit list_tool ise_get_endpoint_by_mac ise_get_endpoint_by_id
      ise_get_endpoint_by_ip ise_search_endpoints ise_get_user_sessions_by_username
      ise_get_endpoint_group ise_list_security_groups ise_list_sgacls
      ise_list_authorization_profiles ise_list_network_devices ise_get_policy_context_by_mac
      ise_get_incident_summary_by_mac ise_get_active_session_by_mac ise_get_active_session_by_ip
      ise_get_auth_logs_by_mac ise_auth_status ise_validate_session ise_whoami ise_create_endpoint
      ise_assign_endpoint_group ise_delete_endpoint
  call_tool-RunsAs (get_endpoint_by_mac_call mac raw) h = reads_as _ _ _ refl refl
  call_tool-RunsAs (get_endpoint_by_id_call eid raw) h = reads_as _ _ _ refl refl
  call_tool-RunsAs (get_endpoint_by_ip_call ip raw) h = reads_as _ _ _ refl refl
  call_tool-RunsAs (search_endpoints_call f page size raw) h = reads_as _ _ _ refl refl
  call_tool-RunsAs (get_user_sessions_call user raw) h = reads_as _ _ _ refl refl
  call_tool-RunsAs (get_endpoint_group_call gid) h = reads_as _ _ _ refl refl
  call_tool-RunsAs (list_security_groups_call page size raw) h = reads_as _ _ _ refl refl
  call_tool-RunsAs (list_sgacls_call page size raw) h = reads_as _ _ _ refl refl
  call_tool-RunsAs (list_authorization_profiles_call page size raw) h = reads_as _ _ _ refl refl
  call_tool-RunsAs (list_network_devices_call f page size raw) h = reads_as _ _ _ refl refl
  call_tool-RunsAs (get_policy_context_call mac) h = reads_as _ _ _ refl refl
  call_tool-RunsAs (get_incident_summary_call mac) h = reads_as _ _ _ refl refl
  call_tool-RunsAs (get_active_session_by_mac_call mac raw) h = reads_as _ _ _ refl refl
  call_tool-RunsAs (get_active_session_by_ip_call ip raw) h = reads_as _ _ _ refl refl
  call_tool-RunsAs (get_auth_logs_call mac seconds records raw) h = reads_as _ _ _ refl refl
  call_tool-RunsAs health_check_call h = cc
  call_tool-RunsAs auth_status_call h = reads_as _ _ _ refl refl
  call_tool-RunsAs validate_session_call h = reads_as _ _ _ refl refl
  call_tool-RunsAs logout_call h = cc
  call_tool-RunsAs whoami_call h = reads_as _ _ _ refl refl
  call_tool-RunsAs (login_call username password) h = cc
  call_tool-RunsAs (create_endpoint_call mac gid description) h = writes_as _ _ _
  call_tool-RunsAs (assign_endpoint_group_call eid gid) h = writes_as _ _ _
  call_tool-RunsAs (delete_endpoint_call eid) h = writes_as _ _ _
