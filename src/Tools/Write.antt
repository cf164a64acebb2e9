-- ===== src/Tools/Write.antt =====
-- tools/write_endpoint.py: the tools that write to ISE
use cisco_ise_mcp.Prelude.{List, Option, [], none, some, true, ◌++◌, ◌∷◌}
use cisco_ise_mcp.Errors.{Result, err, ok}
use cisco_ise_mcp.Exec.{Exec, lift, pure, ◌>>=◌}
use cisco_ise_mcp.Ise.Ers.{create_endpoint, delete_endpoint, update_endpoint}
use cisco_ise_mcp.Responses.{plain_response}
use cisco_ise_mcp.Text.{Text, lit}
use cisco_ise_mcp.Tools.{Deps, run}
use cisco_ise_mcp.Validation.Mac.{normalize_mac}
use cisco_ise_mcp.Validation.Names.{validate_endpoint_id}
use cisco_ise_mcp.Value.{Value, bool, dict, str}

abbrev create_body : Text → Text → List (Text × Value)
create_body mac description = (lit "mac", str mac) ∷ (lit "description", str description) ∷ []

-- The body of a new endpoint, with its group where one is given.
unfoldable pub endpoint_body : Text → Text → Option Text → Result (List (Text × Value))
endpoint_body mac description none = ok (create_body mac description)
endpoint_body mac description (some []) = ok (create_body mac description)
endpoint_body mac description (some (c ∷ group)) = elim (validate_endpoint_id (c ∷ group)) [
  | err e ↦ err e
  | ok gid ↦ ok (
      create_body mac description
      ++ (lit "groupId", str gid) ∷ (lit "staticGroupAssignment", bool true) ∷ [])
]

unfoldable pub ise_create_endpoint : Deps → Text → Option Text → Text → Exec Value
unfolding ◌>>=◌ create_endpoint
ise_create_endpoint deps mac group_id description =
    run deps (lit "ise_create_endpoint") (dict ((lit "mac", str mac) ∷ []))
      (λ auth. do
        m ← lift (normalize_mac mac)
        body ← lift (endpoint_body m description group_id)
        made ← create_endpoint deps.cfg body auth
        pure (plain_response made))
      true

unfoldable pub ise_assign_endpoint_group : Deps → Text → Text → Exec Value
unfolding ◌>>=◌ update_endpoint
ise_assign_endpoint_group deps endpoint_id group_id =
    run deps (lit "ise_assign_endpoint_group")
      (dict ((lit "endpoint_id", str endpoint_id) ∷ (lit "group_id", str group_id) ∷ []))
      (λ auth. do
        eid ← lift (validate_endpoint_id endpoint_id)
        gid ← lift (validate_endpoint_id group_id)
        made ←
            update_endpoint deps.cfg eid
              ((lit "id", str eid)
                ∷ (lit "groupId", str gid)
                ∷ (lit "staticGroupAssignment", bool true)
                ∷ [])
              auth
        pure (plain_response made))
      true

unfoldable pub ise_delete_endpoint : Deps → Text → Exec Value
unfolding ◌>>=◌ delete_endpoint
ise_delete_endpoint deps endpoint_id =
    run deps (lit "ise_delete_endpoint") (dict ((lit "endpoint_id", str endpoint_id) ∷ []))
      (λ auth. do
        eid ← lift (validate_endpoint_id endpoint_id)
        gone ← delete_endpoint deps.cfg eid auth
        pure (plain_response gone))
      true
