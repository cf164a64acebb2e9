-- ===== src/Ise/Ers.antt =====
-- ise/ers.py: the wrapper of the ERS API and the reading of endpoints
use cisco_ise_mcp.Prelude.{List, Option, [], false, none, some, ◌++◌, ◌∷◌}
use cisco_ise_mcp.Auth.Context.{AuthContext}
use cisco_ise_mcp.Config.Record.{Config, ers_base}
use cisco_ise_mcp.Errors.{Error, Result, err, ok, python_error}
use cisco_ise_mcp.Exec.{Exec}
use cisco_ise_mcp.Ise.Client.{request}
use cisco_ise_mcp.Ise.Models.{EndpointSummary}
use cisco_ise_mcp.Prelude.Int.{ℤ}
use cisco_ise_mcp.Text.{Text, lit}
use cisco_ise_mcp.Value.{
  Fields, Value, arr, bool, dict, float, get_field, int, null, obj, or_value, str,
}

abbrev pub json_type : Text
json_type = lit "application/json"

-- `_get(path, auth, params)`
unfoldable pub ers_get : Config → Text → AuthContext → List (Text × Value) → Exec Value
unfolding request
ers_get cfg path auth params =
    request cfg (lit "GET") (ers_base cfg ++ path) auth params null json_type false

unfoldable pub get_endpoint_by_mac : Config → Text → AuthContext → Exec Value
get_endpoint_by_mac cfg mac auth = ers_get cfg (lit "/ers/config/endpoint/name/" ++ mac) auth []

unfoldable pub get_endpoint_by_id : Config → Text → AuthContext → Exec Value
get_endpoint_by_id cfg endpoint_id auth =
    ers_get cfg (lit "/ers/config/endpoint/" ++ endpoint_id) auth []

abbrev page_params : ℤ → ℤ → List (Text × Value)
page_params page size = (lit "page", int page) ∷ (lit "size", int size) ∷ []

-- The parameters of a search; an empty filter is left out.
abbrev search_params : Option Text → ℤ → ℤ → List (Text × Value)
search_params none page size = page_params page size
search_params (some []) page size = page_params page size
search_params (some (c ∷ s)) page size = page_params page size ++ (lit "filter", str (c ∷ s)) ∷ []

unfoldable pub search_endpoints : Config → Option Text → AuthContext → ℤ → ℤ → Exec Value
search_endpoints cfg filter_expr auth page size =
    ers_get cfg (lit "/ers/config/endpoint") auth (search_params filter_expr page size)

unfoldable pub get_endpoint_group : Config → Text → AuthContext → Exec Value
get_endpoint_group cfg group_id auth =
    ers_get cfg (lit "/ers/config/endpointgroup/" ++ group_id) auth []

unfoldable pub get_profiler_profile : Config → Text → AuthContext → Exec Value
get_profiler_profile cfg profile_id auth =
    ers_get cfg (lit "/ers/config/profilerprofile/" ++ profile_id) auth []

unfoldable pub get_identity_group : Config → Text → AuthContext → Exec Value
get_identity_group cfg group_id auth =
    ers_get cfg (lit "/ers/config/identitygroup/" ++ group_id) auth []

unfoldable pub get_internal_user : Config → Text → AuthContext → Exec Value
get_internal_user cfg name auth = ers_get cfg (lit "/ers/config/internaluser/name/" ++ name) auth []

unfoldable pub list_network_devices : Config → Option Text → AuthContext → ℤ → ℤ → Exec Value
list_network_devices cfg filter_expr auth page size =
    ers_get cfg (lit "/ers/config/networkdevice") auth (search_params filter_expr page size)

unfoldable pub list_authorization_profiles : Config → AuthContext → ℤ → ℤ → Exec Value
list_authorization_profiles cfg auth page size =
    ers_get cfg (lit "/ers/config/authorizationprofile") auth (page_params page size)

unfoldable pub list_security_groups : Config → AuthContext → ℤ → ℤ → Exec Value
list_security_groups cfg auth page size =
    ers_get cfg (lit "/ers/config/sgt") auth (page_params page size)

unfoldable pub list_sgacls : Config → AuthContext → ℤ → ℤ → Exec Value
list_sgacls cfg auth page size = ers_get cfg (lit "/ers/config/sgacl") auth (page_params page size)

unfoldable pub create_endpoint : Config → List (Text × Value) → AuthContext → Exec Value
unfolding request
create_endpoint cfg body auth =
    request cfg (lit "POST") (ers_base cfg ++ lit "/ers/config/endpoint") auth []
      (dict ((lit "ERSEndPoint", dict body) ∷ [])) json_type false

unfoldable pub update_endpoint : Config → Text → List (Text × Value) → AuthContext → Exec Value
unfolding request
update_endpoint cfg endpoint_id body auth =
    request cfg (lit "PUT") (ers_base cfg ++ (lit "/ers/config/endpoint/" ++ endpoint_id)) auth []
      (dict ((lit "ERSEndPoint", dict body) ∷ [])) json_type false

unfoldable pub delete_endpoint : Config → Text → AuthContext → Exec Value
unfolding request
delete_endpoint cfg endpoint_id auth =
    request cfg (lit "DELETE") (ers_base cfg ++ (lit "/ers/config/endpoint/" ++ endpoint_id)) auth
      [] null json_type false

abbrev pub python_type : Value → Text
python_type null = lit "NoneType"
python_type (bool b) = lit "bool"
python_type (int n) = lit "int"
python_type (float m e) = lit "float"
python_type (str s) = lit "str"
python_type (arr xs) = lit "list"
python_type (obj fs) = lit "dict"

abbrev pub no_get : Value → Error
no_get v =
    python_error (lit "AttributeError")
      (39 ∷ (python_type v ++ lit "' object has no attribute 'get'"))

abbrev field_or : Value → Option Value → Value
field_or default none = default
field_or default (some v) = v

-- `v.get(key, default)`, which raises where `v` is no dict
unfoldable pub get_or : Value → Text → Value → Result Value
get_or (obj fs) key default = ok (field_or default (get_field key fs))
get_or v key default = err (no_get v)

-- `raw.get(wrapper, raw) if isinstance(raw, dict) else {}`
unfoldable pub unwrap : Value → Text → Value
unwrap (obj fs) wrapper = field_or (obj fs) (get_field wrapper fs)
unwrap v wrapper = dict []

abbrev in_fields : Fields → Text → Value
in_fields fs key = field_or null (get_field key fs)

-- The custom attributes: the inner dict, if the outer one holds one of that name.
abbrev custom_attributes_of : Value → Value
custom_attributes_of (obj fs) = field_or (obj fs) (get_field (lit "customAttributes") fs)
custom_attributes_of v = v

abbrev dict_or_empty : Value → Value
dict_or_empty (obj fs) = obj fs
dict_or_empty v = dict []

abbrev summary_of : Fields → EndpointSummary
summary_of ep = record {
  mac = in_fields ep (lit "mac");
  endpoint_id = in_fields ep (lit "id");
  name = in_fields ep (lit "name");
  ip_address = in_fields ep (lit "ipAddress");
  identity_group_id = in_fields ep (lit "groupId");
  identity_group = null;
  profile_id = in_fields ep (lit "profileId");
  profile = null;
  static_group_assignment = in_fields ep (lit "staticGroupAssignment");
  static_profile_assignment = in_fields ep (lit "staticProfileAssignment");
  portal_user = or_value (in_fields ep (lit "portalUser")) null;
  custom_attributes = dict_or_empty (custom_attributes_of (in_fields ep (lit "customAttributes")));
}

abbrev summarize_fields : Value → Result EndpointSummary
summarize_fields (obj ep) = ok (summary_of ep)
summarize_fields v = err (no_get v)

unfoldable pub summarize_endpoint : Value → Result EndpointSummary
unfolding unwrap or_value
summarize_endpoint raw = summarize_fields (unwrap raw (lit "ERSEndPoint"))

unfoldable pub name_of : Value → Text → Result Value
unfolding unwrap get_or
name_of raw wrapper = get_or (unwrap raw wrapper) (lit "name") null
