-- ===== src/Tools/Identity.antt =====
-- tools/identity.py: users and endpoint groups
use cisco_ise_mcp.Prelude.{Bool, Option, [], false, ◌++◌, ◌∷◌}
use cisco_ise_mcp.Errors.{Result, err, ok, type_name}
use cisco_ise_mcp.Exec.{Exec, caught, lift, pure, ◌>>=◌}
use cisco_ise_mcp.Ise.Ers.{get_endpoint_group, get_internal_user}
use cisco_ise_mcp.Responses.{ok_response, plain_response}
use cisco_ise_mcp.Text.{Text, lit}
use cisco_ise_mcp.Tools.{Deps, run}
use cisco_ise_mcp.Tools.Endpoint.{include_raw_or}
use cisco_ise_mcp.Validation.Names.{validate_endpoint_id, validate_username}
use cisco_ise_mcp.Value.{Value, dict, str}

-- The record of the user, or a note where it cannot be had.
abbrev user_or_note : Result Value → Value
user_or_note (ok v) = v
user_or_note (err e) = dict ((lit "_note", str (lit "not found/available: " ++ type_name e)) ∷ [])

unfoldable pub ise_get_user_sessions_by_username : Deps → Text → Option Bool → Exec Value
unfolding ◌>>=◌ caught get_internal_user
ise_get_user_sessions_by_username deps username include_raw =
    run deps (lit "ise_get_user_sessions_by_username") (dict ((lit "username", str username) ∷ []))
      (λ auth. do
        user ← lift (validate_username username)
        found ← caught (get_internal_user deps.cfg user auth)
        let out = dict ((lit "internal_user", user_or_note found) ∷ [])
        pure (ok_response out out (include_raw_or deps.cfg include_raw) []))
      false

unfoldable pub ise_get_endpoint_group : Deps → Text → Exec Value
unfolding ◌>>=◌ get_endpoint_group
ise_get_endpoint_group deps group_id =
    run deps (lit "ise_get_endpoint_group") (dict ((lit "group_id", str group_id) ∷ []))
      (λ auth. do
        gid ← lift (validate_endpoint_id group_id)
        found ← get_endpoint_group deps.cfg gid auth
        pure (plain_response found))
      false
