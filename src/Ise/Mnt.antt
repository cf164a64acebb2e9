-- ===== src/Ise/Mnt.antt =====
-- ise/mnt.py: the wrapper of the MNT API, and the reading of its XML
pub mod Laws
pub mod Children
use cisco_ise_mcp.Prelude.{
  Option, [], if◌then◌else◌, is_empty, none, some, take, true, ◌++◌, ◌||◌, ◌∷◌,
}
use cisco_ise_mcp.Auth.Context.{AuthContext}
use cisco_ise_mcp.Config.Record.{Config, mnt_base}
use cisco_ise_mcp.Exec.{Exec, asks, pure, ◌>>=◌, ◌>>◌}
use cisco_ise_mcp.Ise.Client.{request}
use cisco_ise_mcp.Ise.Models.{SessionSummary}
use cisco_ise_mcp.Prelude.Int.{ℤ}
use cisco_ise_mcp.Text.{Text, lit, show_ℤ, strip, ◌==◌}
use cisco_ise_mcp.Value.{
  Fields, Items, Value, arr, cons, dict, end, field, get_field, nil, null, obj, or_value, str,
}
use cisco_ise_mcp.World.{Element, Elements, child, element, none_left}

-- `_get_xml(path, auth)`
unfoldable pub get_xml : Config → Text → AuthContext → Exec Value
unfolding request
get_xml cfg path auth =
    request cfg (lit "GET") (mnt_base cfg ++ path) auth [] null (lit "application/xml") true

abbrev pub append_item : Items → Value → Items
append_item nil v = cons v nil
append_item (cons x xs) v = cons x (append_item xs v)

-- `d[k] = v`
unfoldable pub set_field : Text → Value → Fields → Fields
set_field k v end = field k v end
set_field k v (field j u fs) = if j == k then field j v fs else field j u (set_field k v fs)

-- A value that joins what stands at the tag of an earlier child.
abbrev pub joined : Option Value → Value → Value
joined none v = v
joined (some (arr xs)) v = arr (append_item xs v)
joined (some u) v = arr (cons u (cons v nil))

-- What one child adds to `out`, here `acc`.
unfoldable pub add_child : Text → Value → Fields → Fields
unfolding set_field
add_child tag v acc = set_field tag (joined (get_field tag acc) v) acc

abbrev pub text_or_none : Option Text → Value
text_or_none none = null
text_or_none (some s) = if is_empty (strip s) then null else str (strip s)

abbrev pub tag_of : Element → Text
tag_of (element tag text children) = tag

-- `_elem(node)`; `acc` holds what the earlier children have given.
unfoldable mutual
  unfolding add_child

  pub elem_value : Element → Value
  elem_value (element tag text none_left) = text_or_none text
  elem_value (element tag text (child e es)) =
      obj (children_fields es (add_child (tag_of e) (elem_value e) end))

  pub children_fields : Elements → Fields → Fields
  children_fields none_left acc = acc
  children_fields (child e es) acc = children_fields es (add_child (tag_of e) (elem_value e) acc)

abbrev parsed_or_text : Text → Option Element → Value
parsed_or_text xml none = dict ((lit "_text", str (take 1000 xml)) ∷ [])
parsed_or_text xml (some root) = dict ((tag_of root, elem_value root) ∷ [])

-- `_xml_to_dict(xml)`, where `parse` is `ET.fromstring`
unfoldable pub xml_to_dict : (Text → Option Element) → Text → Value
unfolding elem_value
xml_to_dict parse xml =
    if is_empty xml || is_empty (strip xml) then dict [] else parsed_or_text xml (parse xml)

-- The text that `request(..., parse="text")` returns.
abbrev text_of : Value → Text
text_of (str s) = s
text_of _ = []

abbrev pub fetched : Config → Text → AuthContext → Exec Value
fetched cfg path auth = do
  xml ← get_xml cfg path auth
  parse ← asks (λ env. env.parse_xml)
  pure (xml_to_dict parse (text_of xml))

unfoldable pub session_by_mac : Config → Text → AuthContext → Exec Value
unfolding ◌>>=◌ asks
session_by_mac cfg mac auth = fetched cfg (lit "/admin/API/mnt/Session/MACAddress/" ++ mac) auth

unfoldable pub session_by_ip : Config → Text → AuthContext → Exec Value
unfolding ◌>>=◌ asks
session_by_ip cfg ip auth = fetched cfg (lit "/admin/API/mnt/Session/IPAddress/" ++ ip) auth

unfoldable pub auth_status_by_mac : Config → Text → AuthContext → ℤ → ℤ → Exec Value
unfolding ◌>>=◌ asks
auth_status_by_mac cfg mac auth seconds records =
    fetched cfg
      (lit "/admin/API/mnt/AuthStatus/MACAddress/"
        ++ (mac ++ (b'/' ∷ (show_ℤ seconds ++ (b'/' ∷ (show_ℤ records ++ lit "/All"))))))
      auth

unfoldable pub active_list : Config → AuthContext → Exec Value
unfolding ◌>>=◌ asks
active_list cfg auth = fetched cfg (lit "/admin/API/mnt/Session/ActiveList") auth

-- `flat[k] = v` where `v is not None and k not in flat`
unfoldable pub add_flat : Text → Value → Fields → Fields
unfolding set_field
add_flat k null flat = flat
add_flat k v flat = elim (get_field k flat) [ none ↦ set_field k v flat | some u ↦ flat ]

-- `walk(obj)`: dicts and lists are gone through, the first value of each key is kept.
unfoldable mutual
  unfolding add_flat

  pub walk : Value → Fields → Fields
  walk (obj fs) flat = walk_fields fs flat
  walk (arr xs) flat = walk_items xs flat
  walk _ flat = flat

  pub walk_fields : Fields → Fields → Fields
  walk_fields end flat = flat
  walk_fields (field k (obj fs) rest) flat = walk_fields rest (walk (obj fs) flat)
  walk_fields (field k (arr xs) rest) flat = walk_fields rest (walk (arr xs) flat)
  walk_fields (field k v rest) flat = walk_fields rest (add_flat k v flat)

  pub walk_items : Items → Fields → Fields
  walk_items nil flat = flat
  walk_items (cons v xs) flat = walk_items xs (walk v flat)

abbrev flat_field : Fields → Text → Value
flat_field flat k = elim (get_field k flat) [ none ↦ null | some v ↦ v ]

abbrev either_field : Fields → Text → Text → Value
either_field flat a b = or_value (flat_field flat a) (flat_field flat b)

abbrev session_of : Fields → SessionSummary
session_of flat = record {
  mac = either_field flat (lit "calling_station_id") (lit "macAddress");
  ip_address = either_field flat (lit "framed_ip_address") (lit "ipAddress");
  username = either_field flat (lit "user_name") (lit "userName");
  nas_ip = either_field flat (lit "nas_ip_address") (lit "nasIpAddress");
  nas_port = either_field flat (lit "nas_port_id") (lit "nasPortId");
  authz_profile = either_field flat (lit "authorization_rule") (lit "authProfile");
  posture_status = flat_field flat (lit "posture_status");
  security_group = flat_field flat (lit "security_group");
  state = either_field flat (lit "session_state") (lit "state");
  server = either_field flat (lit "acs_server") (lit "server");
}

unfoldable pub summarize_session : Value → SessionSummary
unfolding walk or_value
summarize_session parsed = session_of (walk parsed end)
