-- ===== src/Tools/Calls/Framed.antt =====
-- Which tools run in the frame, with a code of their own that keeps what its requests keep: all but the
-- health check, the login and the logout.
use cisco_ise_mcp.Prelude.{Bool, Option, false, refl, ◌≡◌}
use cisco_ise_mcp.Auth.Context.{AuthContext}
use cisco_ise_mcp.Exec.{Exec}
use cisco_ise_mcp.Exec.Effects.{AdmitsMethod, IsQuery, Keeps, keeping}
use cisco_ise_mcp.Ise.Queries.{
  auth_status_by_mac-IsQuery, get_endpoint_by_id-IsQuery, get_endpoint_by_mac-IsQuery,
  get_endpoint_group-IsQuery, get_internal_user-IsQuery, list_authorization_profiles-IsQuery,
  list_network_devices-IsQuery, list_security_groups-IsQuery, list_sgacls-IsQuery,
  search_endpoints-IsQuery, session_by_ip-IsQuery, session_by_mac-IsQuery,
}
use cisco_ise_mcp.Prelude.Int.{ℤ}
use cisco_ise_mcp.Text.{Text, lit}
use cisco_ise_mcp.Tools.{Deps, run}
use cisco_ise_mcp.Tools.Calls.Endpoints.{
  build_context-IsQuery, page_of-IsQuery, shown_endpoint-IsQuery,
}
use cisco_ise_mcp.Tools.Endpoint.{
  ise_get_endpoint_by_id, ise_get_endpoint_by_ip, ise_get_endpoint_by_mac, ise_search_endpoints,
}
use cisco_ise_mcp.Tools.Health.{ise_auth_status, ise_validate_session, ise_whoami}
use cisco_ise_mcp.Tools.Identity.{ise_get_endpoint_group, ise_get_user_sessions_by_username}
use cisco_ise_mcp.Tools.Listing.{
  ise_list_authorization_profiles, ise_list_network_devices, ise_list_security_groups,
  ise_list_sgacls, list_tool,
}
use cisco_ise_mcp.Tools.Policy.{ise_get_incident_summary_by_mac, ise_get_policy_context_by_mac}
use cisco_ise_mcp.Tools.Sessions.{
  ise_get_active_session_by_ip, ise_get_active_session_by_mac, ise_get_auth_logs_by_mac,
}
use cisco_ise_mcp.Value.{Value}

-- The call runs in the frame, and its own code sends requests with one method only.
pub record IsFramed (method : Text) (deps : Deps) (m : Exec Value) : Type 1 where
  pub name : Text
  pub params : Value
  pub write : Bool
  pub fn : AuthContext → Exec Value
  pub requests : (auth : AuthContext) → Keeps (AdmitsMethod method) (fn auth)
  pub framed : m ≡ run deps name params fn write

module _ (deps : Deps) where
  abbrev IsReader : Exec Value → Type 1
  IsReader m = IsFramed (lit "GET") deps m

  reader :
      (name : Text) (params : Value) (fn : AuthContext → Exec Value)
      → ((auth : AuthContext) → IsQuery (fn auth))
      → IsReader (run deps name params fn false)
  reader name params fn h = record {
    name = name;
    params = params;
    write = false;
    fn = fn;
    requests = h;
    framed = refl;
  }

  pub ise_get_endpoint_by_mac-IsFramed :
      (mac : Text) (raw : Option Bool) → IsReader (ise_get_endpoint_by_mac deps mac raw)
  unfolding ise_get_endpoint_by_mac
  ise_get_endpoint_by_mac-IsFramed mac raw =
      reader _ _ _ (λ auth. search (keeping, get_endpoint_by_mac-IsQuery, shown_endpoint-IsQuery))

  pub ise_get_endpoint_by_id-IsFramed :
      (eid : Text) (raw : Option Bool) → IsReader (ise_get_endpoint_by_id deps eid raw)
  unfolding ise_get_endpoint_by_id
  ise_get_endpoint_by_id-IsFramed eid raw =
      reader _ _ _ (λ auth. search (keeping, get_endpoint_by_id-IsQuery, shown_endpoint-IsQuery))

  pub ise_get_endpoint_by_ip-IsFramed :
      (ip : Text) (raw : Option Bool) → IsReader (ise_get_endpoint_by_ip deps ip raw)
  unfolding ise_get_endpoint_by_ip
  ise_get_endpoint_by_ip-IsFramed ip raw =
      reader _ _ _ (λ auth. search (keeping, search_endpoints-IsQuery) depth 8)

  pub ise_search_endpoints-IsFramed :
      (f : Option Text) (page : ℤ) (limit : Option ℤ) (raw : Option Bool)
      → IsReader (ise_search_endpoints deps f page limit raw)
  unfolding ise_search_endpoints
  ise_search_endpoints-IsFramed f page limit raw =
      reader _ _ _ (λ auth. search (keeping, search_endpoints-IsQuery) depth 8)

  pub ise_get_user_sessions_by_username-IsFramed :
      (user : Text) (raw : Option Bool) → IsReader (ise_get_user_sessions_by_username deps user raw)
  unfolding ise_get_user_sessions_by_username
  ise_get_user_sessions_by_username-IsFramed user raw =
      reader _ _ _ (λ auth. search (keeping, get_internal_user-IsQuery) depth 8)

  pub ise_get_endpoint_group-IsFramed : (gid : Text) → IsReader (ise_get_endpoint_group deps gid)
  unfolding ise_get_endpoint_group
  ise_get_endpoint_group-IsFramed gid =
      reader _ _ _ (λ auth. search (keeping, get_endpoint_group-IsQuery))

  pub ise_list_security_groups-IsFramed :
      (page : ℤ) (limit : Option ℤ) (raw : Option Bool)
      → IsReader (ise_list_security_groups deps page limit raw)
  unfolding ise_list_security_groups list_tool
  ise_list_security_groups-IsFramed page limit raw =
      reader _ _ _ (λ auth. search (keeping, list_security_groups-IsQuery, page_of-IsQuery))

  pub ise_list_sgacls-IsFramed :
      (page : ℤ) (limit : Option ℤ) (raw : Option Bool)
      → IsReader (ise_list_sgacls deps page limit raw)
  unfolding ise_list_sgacls list_tool
  ise_list_sgacls-IsFramed page limit raw =
      reader _ _ _ (λ auth. search (keeping, list_sgacls-IsQuery, page_of-IsQuery))

  pub ise_list_authorization_profiles-IsFramed :
      (page : ℤ) (limit : Option ℤ) (raw : Option Bool)
      → IsReader (ise_list_authorization_profiles deps page limit raw)
  unfolding ise_list_authorization_profiles list_tool
  ise_list_authorization_profiles-IsFramed page limit raw =
      reader _ _ _ (λ auth. search (keeping, list_authorization_profiles-IsQuery, page_of-IsQuery))

  pub ise_list_network_devices-IsFramed :
      (f : Option Text) (page : ℤ) (limit : Option ℤ) (raw : Option Bool)
      → IsReader (ise_list_network_devices deps f page limit raw)
  unfolding ise_list_network_devices
  ise_list_network_devices-IsFramed f page limit raw =
      reader _ _ _ (λ auth. search (keeping, list_network_devices-IsQuery, page_of-IsQuery))

  pub ise_get_policy_context_by_mac-IsFramed :
      (mac : Text) → IsReader (ise_get_policy_context_by_mac deps mac)
  unfolding ise_get_policy_context_by_mac
  ise_get_policy_context_by_mac-IsFramed mac =
      reader _ _ _ (λ auth. search (keeping, build_context-IsQuery))

  pub ise_get_incident_summary_by_mac-IsFramed :
      (mac : Text) → IsReader (ise_get_incident_summary_by_mac deps mac)
  unfolding ise_get_incident_summary_by_mac
  ise_get_incident_summary_by_mac-IsFramed mac =
      reader _ _ _ (λ auth. search (keeping, build_context-IsQuery))

  pub ise_get_active_session_by_mac-IsFramed :
      (mac : Text) (raw : Option Bool) → IsReader (ise_get_active_session_by_mac deps mac raw)
  unfolding ise_get_active_session_by_mac
  ise_get_active_session_by_mac-IsFramed mac raw =
      reader _ _ _ (λ auth. search (keeping, session_by_mac-IsQuery))

  pub ise_get_active_session_by_ip-IsFramed :
      (ip : Text) (raw : Option Bool) → IsReader (ise_get_active_session_by_ip deps ip raw)
  unfolding ise_get_active_session_by_ip
  ise_get_active_session_by_ip-IsFramed ip raw =
      reader _ _ _ (λ auth. search (keeping, session_by_ip-IsQuery))

  pub ise_get_auth_logs_by_mac-IsFramed :
      (mac : Text) (seconds : ℤ) (records : ℤ) (raw : Option Bool)
      → IsReader (ise_get_auth_logs_by_mac deps mac seconds records raw)
  unfolding ise_get_auth_logs_by_mac
  ise_get_auth_logs_by_mac-IsFramed mac seconds records raw =
      reader _ _ _ (λ auth. search (keeping, auth_status_by_mac-IsQuery))

  pub ise_auth_status-IsFramed : IsReader (ise_auth_status deps)
  unfolding ise_auth_status
  ise_auth_status-IsFramed = reader _ _ _ (λ auth. search keeping)

  pub ise_validate_session-IsFramed : IsReader (ise_validate_session deps)
  unfolding ise_validate_session
  ise_validate_session-IsFramed = reader _ _ _ (λ auth. search keeping)

  pub ise_whoami-IsFramed : IsReader (ise_whoami deps)
  unfolding ise_whoami
  ise_whoami-IsFramed = reader _ _ _ (λ auth. search keeping)
