-- ===== src/Ise/Queries.antt =====
-- Which operations of ERS and MNT only query: all but those that create, update and delete.
use cisco_ise_mcp.Prelude.{List, Option, [], false, true, ◌++◌}
use cisco_ise_mcp.Auth.Context.{AuthContext}
use cisco_ise_mcp.Config.Record.{Config, ers_base, mnt_base}
use cisco_ise_mcp.Exec.Effects.{IsQuery, keeping}
use cisco_ise_mcp.Ise.Client.Effects.{request-Keeps}
use cisco_ise_mcp.Ise.Ers.{
  ers_get, get_endpoint_by_id, get_endpoint_by_mac, get_endpoint_group, get_identity_group,
  get_internal_user, get_profiler_profile, json_type, list_authorization_profiles,
  list_network_devices, list_security_groups, list_sgacls, search_endpoints,
}
use cisco_ise_mcp.Ise.Mnt.{auth_status_by_mac, fetched, get_xml, session_by_ip, session_by_mac}
use cisco_ise_mcp.Prelude.Int.{ℤ}
use cisco_ise_mcp.Text.{Text, lit}
use cisco_ise_mcp.Value.{Value, null}

ers_get-IsQuery :
    (cfg : Config) (path : Text) (auth : AuthContext) (params : List (Text × Value))
    → IsQuery (ers_get cfg path auth params)
unfolding ers_get
ers_get-IsQuery cfg path auth params =
    request-Keeps (lit "GET") cfg (ers_base cfg ++ path) auth params null json_type false

pub get_endpoint_by_mac-IsQuery :
    (cfg : Config) (key : Text) (auth : AuthContext) → IsQuery (get_endpoint_by_mac cfg key auth)
unfolding get_endpoint_by_mac
get_endpoint_by_mac-IsQuery cfg key auth = ers_get-IsQuery cfg _ auth _

pub get_endpoint_by_id-IsQuery :
    (cfg : Config) (key : Text) (auth : AuthContext) → IsQuery (get_endpoint_by_id cfg key auth)
unfolding get_endpoint_by_id
get_endpoint_by_id-IsQuery cfg key auth = ers_get-IsQuery cfg _ auth _

pub get_endpoint_group-IsQuery :
    (cfg : Config) (key : Text) (auth : AuthContext) → IsQuery (get_endpoint_group cfg key auth)
unfolding get_endpoint_group
get_endpoint_group-IsQuery cfg key auth = ers_get-IsQuery cfg _ auth _

pub get_profiler_profile-IsQuery :
    (cfg : Config) (key : Text) (auth : AuthContext) → IsQuery (get_profiler_profile cfg key auth)
unfolding get_profiler_profile
get_profiler_profile-IsQuery cfg key auth = ers_get-IsQuery cfg _ auth _

pub get_identity_group-IsQuery :
    (cfg : Config) (key : Text) (auth : AuthContext) → IsQuery (get_identity_group cfg key auth)
unfolding get_identity_group
get_identity_group-IsQuery cfg key auth = ers_get-IsQuery cfg _ auth _

pub get_internal_user-IsQuery :
    (cfg : Config) (key : Text) (auth : AuthContext) → IsQuery (get_internal_user cfg key auth)
unfolding get_internal_user
get_internal_user-IsQuery cfg key auth = ers_get-IsQuery cfg _ auth _

pub search_endpoints-IsQuery :
    (cfg : Config) (filter_expr : Option Text) (auth : AuthContext) (page size : ℤ)
    → IsQuery (search_endpoints cfg filter_expr auth page size)
unfolding search_endpoints
search_endpoints-IsQuery cfg filter_expr auth page size = ers_get-IsQuery cfg _ auth _

pub list_network_devices-IsQuery :
    (cfg : Config) (filter_expr : Option Text) (auth : AuthContext) (page size : ℤ)
    → IsQuery (list_network_devices cfg filter_expr auth page size)
unfolding list_network_devices
list_network_devices-IsQuery cfg filter_expr auth page size = ers_get-IsQuery cfg _ auth _

pub list_authorization_profiles-IsQuery :
    (cfg : Config) (auth : AuthContext) (page size : ℤ)
    → IsQuery (list_authorization_profiles cfg auth page size)
unfolding list_authorization_profiles
list_authorization_profiles-IsQuery cfg auth page size = ers_get-IsQuery cfg _ auth _

pub list_security_groups-IsQuery :
    (cfg : Config) (auth : AuthContext) (page size : ℤ)
    → IsQuery (list_security_groups cfg auth page size)
unfolding list_security_groups
list_security_groups-IsQuery cfg auth page size = ers_get-IsQuery cfg _ auth _

pub list_sgacls-IsQuery :
    (cfg : Config) (auth : AuthContext) (page size : ℤ) → IsQuery (list_sgacls cfg auth page size)
unfolding list_sgacls
list_sgacls-IsQuery cfg auth page size = ers_get-IsQuery cfg _ auth _

get_xml-IsQuery :
    (cfg : Config) (path : Text) (auth : AuthContext) → IsQuery (get_xml cfg path auth)
unfolding get_xml
get_xml-IsQuery cfg path auth =
    request-Keeps (lit "GET") cfg (mnt_base cfg ++ path) auth [] null (lit "application/xml") true

fetched-IsQuery :
    (cfg : Config) (path : Text) (auth : AuthContext) → IsQuery (fetched cfg path auth)
fetched-IsQuery cfg path auth = search (keeping, get_xml-IsQuery)

pub session_by_mac-IsQuery :
    (cfg : Config) (mac : Text) (auth : AuthContext) → IsQuery (session_by_mac cfg mac auth)
unfolding session_by_mac
session_by_mac-IsQuery cfg mac auth = fetched-IsQuery cfg _ auth

pub session_by_ip-IsQuery :
    (cfg : Config) (ip : Text) (auth : AuthContext) → IsQuery (session_by_ip cfg ip auth)
unfolding session_by_ip
session_by_ip-IsQuery cfg ip auth = fetched-IsQuery cfg _ auth

pub auth_status_by_mac-IsQuery :
    (cfg : Config) (mac : Text) (auth : AuthContext) (seconds records : ℤ)
    → IsQuery (auth_status_by_mac cfg mac auth seconds records)
unfolding auth_status_by_mac
auth_status_by_mac-IsQuery cfg mac auth seconds records = fetched-IsQuery cfg _ auth

pub ruleset ise_queries = (
  get_endpoint_by_mac-IsQuery, get_endpoint_by_id-IsQuery, get_endpoint_group-IsQuery,
  get_profiler_profile-IsQuery, get_internal_user-IsQuery, search_endpoints-IsQuery,
  list_network_devices-IsQuery, list_authorization_profiles-IsQuery, list_security_groups-IsQuery,
  list_sgacls-IsQuery, session_by_mac-IsQuery, session_by_ip-IsQuery, auth_status_by_mac-IsQuery,
)
