-- ===== src/Ise/Models.antt =====
-- ise/models.py: the summaries that the tools return. A field that Python leaves None is `null`.
use cisco_ise_mcp.Prelude.{List, Option, [], map, none, some, ◌∷◌}
use cisco_ise_mcp.Text.{Text, lit}
use cisco_ise_mcp.Value.{Value, arr, dict, items, null, str}

pub record EndpointSummary : Type 0 where
  pub mac : Value
  pub endpoint_id : Value
  pub name : Value
  pub ip_address : Value
  pub identity_group_id : Value
  pub identity_group : Value
  pub profile_id : Value
  pub profile : Value
  pub static_group_assignment : Value
  pub static_profile_assignment : Value
  pub portal_user : Value
  pub custom_attributes : Value

-- `EndpointSummary.dict`
unfoldable pub endpoint_dict : EndpointSummary → Value
endpoint_dict s = dict (
    (lit "mac", s.mac)
    ∷ (lit "endpoint_id", s.endpoint_id)
    ∷ (lit "name", s.name)
    ∷ (lit "ip_address", s.ip_address)
    ∷ (lit "identity_group_id", s.identity_group_id)
    ∷ (lit "identity_group", s.identity_group)
    ∷ (lit "profile_id", s.profile_id)
    ∷ (lit "profile", s.profile)
    ∷ (lit "static_group_assignment", s.static_group_assignment)
    ∷ (lit "static_profile_assignment", s.static_profile_assignment)
    ∷ (lit "portal_user", s.portal_user)
    ∷ (lit "custom_attributes", s.custom_attributes)
    ∷ [])

pub record SessionSummary : Type 0 where
  pub mac : Value
  pub ip_address : Value
  pub username : Value
  pub nas_ip : Value
  pub nas_port : Value
  pub authz_profile : Value
  pub posture_status : Value
  pub security_group : Value
  pub state : Value
  pub server : Value

-- `SessionSummary.dict`
unfoldable pub session_dict : SessionSummary → Value
session_dict s = dict (
    (lit "mac", s.mac)
    ∷ (lit "ip_address", s.ip_address)
    ∷ (lit "username", s.username)
    ∷ (lit "nas_ip", s.nas_ip)
    ∷ (lit "nas_port", s.nas_port)
    ∷ (lit "authz_profile", s.authz_profile)
    ∷ (lit "posture_status", s.posture_status)
    ∷ (lit "security_group", s.security_group)
    ∷ (lit "state", s.state)
    ∷ (lit "server", s.server)
    ∷ [])

pub record PolicyContext : Type 0 where
  pub mac : Text
  pub endpoint : Option EndpointSummary
  pub active_session : Option SessionSummary
  pub recent_auth : List Value
  pub security_group : Value
  pub notes : List Text

abbrev optional_dict {ℓ} : {A : Type ℓ} → (A → Value) → Option A → Value
optional_dict f none = null
optional_dict f (some a) = f a

-- `PolicyContext.dict`
unfoldable pub context_dict : PolicyContext → Value
unfolding endpoint_dict session_dict
context_dict c = dict (
    (lit "mac", str c.mac)
    ∷ (lit "endpoint", optional_dict endpoint_dict c.endpoint)
    ∷ (lit "active_session", optional_dict session_dict c.active_session)
    ∷ (lit "recent_auth", arr (items c.recent_auth))
    ∷ (lit "security_group", c.security_group)
    ∷ (lit "notes", arr (items (map str c.notes)))
    ∷ [])
