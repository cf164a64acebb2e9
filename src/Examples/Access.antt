-- ===== src/Examples/Access.antt =====
-- Runs of the gates, the frame of the tools and the configuration.
use cisco_ise_mcp.Prelude.{All, [], false, length, refl, true, ◌+◌, ◌∷◌, ◌≡◌}
use cisco_ise_mcp.Auth.Provider.{passthrough}
use cisco_ise_mcp.Config.Laws.{IsUsable, validate_iff}
use cisco_ise_mcp.Config.Lists.{IsTrimmed, load_config-IsTrimmed}
use cisco_ise_mcp.Config.Load.{load_config}
use cisco_ise_mcp.Config.Record.{default_config, is_readonly}
use cisco_ise_mcp.Config.Validate.{validate}
use cisco_ise_mcp.Dict.{Dict}
use cisco_ise_mcp.Errors.{Error, ok, tool_disabled}
use cisco_ise_mcp.Examples.{
  sample_cfg, sample_deps, sample_env, sample_identity, sample_world, writing_cfg,
}
use cisco_ise_mcp.Exec.{pure, raise}
use cisco_ise_mcp.Exec.Effects.{pure-Keeps}
use cisco_ise_mcp.Ise.Mnt.{auth_status_by_mac, session_by_mac}
use cisco_ise_mcp.Ise.Models.{PolicyContext}
use cisco_ise_mcp.Prelude.Int.{pos}
use cisco_ise_mcp.Text.{Text, contains, lit, lower, ◌==◌}
use cisco_ise_mcp.Tools.{Deps, run}
use cisco_ise_mcp.Tools.Calls.{call_tool, whoami_call}
use cisco_ise_mcp.Tools.Calls.Denied.{Denied, call_tool-Denied}
use cisco_ise_mcp.Tools.Calls.Names.{tool_name}
use cisco_ise_mcp.Tools.Policy.{build_context, context_endpoint}
use cisco_ise_mcp.Tools.Policy.Laws.{build_context-notes, failures}
use cisco_ise_mcp.Tools.Queries.{Audited, run-Audited}
use cisco_ise_mcp.Tools.Safety.{run-returns}
use cisco_ise_mcp.Validation.Gate.{assert_write_allowed, is_tool_enabled}
use cisco_ise_mcp.Validation.Gate.Laws.{MayWrite, assert_write_allowed_iff}
use cisco_ise_mcp.Value.{Value, null}

is_readonly_by_default : is_readonly sample_cfg ≡ true
unfolding is_readonly default_config lit ◌==◌ lower
is_readonly_by_default = refl

create_is_allowed : assert_write_allowed writing_cfg (lit "ise_create_endpoint") ≡ ok tt
unfolding assert_write_allowed is_readonly is_tool_enabled default_config lit ◌==◌ lower contains
create_is_allowed = refl

assert_write_allowed_iff_example : MayWrite writing_cfg (lit "ise_create_endpoint")
assert_write_allowed_iff_example =
    (assert_write_allowed_iff writing_cfg (lit "ise_create_endpoint")).0 create_is_allowed

abbrev disabled : Error
disabled = tool_disabled (lit "Tool 'x' is disabled by configuration")

whoami_is_disabled : contains (lit "ise_whoami" ∷ []) (lit "ise_whoami") ≡ true
unfolding contains ◌==◌ lit
whoami_is_disabled = refl

abbrev without_whoami : Deps
without_whoami = record {
  cfg = record sample_cfg { disabled_tools = lit "ise_whoami" ∷ [] };
  provider = passthrough;
}

whoami-not-MayWrite : ¬ MayWrite without_whoami.cfg (tool_name whoami_call)
whoami-not-MayWrite m = cc (whoami_is_disabled, MayWrite.not_disabled m)

call_tool-Denied_example :
    Denied without_whoami.cfg
      (tool_name whoami_call)
      sample_world
      (call_tool without_whoami whoami_call sample_env sample_world)
call_tool-Denied_example =
    call_tool-Denied without_whoami whoami_call sample_env sample_world refl whoami-not-MayWrite

run-returns_example :
    (v : Value) × ((run sample_deps
        (120 ∷ [])
        null
        (λ auth. raise disabled)
        false
        sample_env
        sample_world).0
      ≡ ok v)
run-returns_example =
    run-returns sample_deps (120 ∷ []) null (λ auth. raise disabled) false sample_env sample_world

cfg_validates : validate sample_cfg ≡ ok tt
unfolding validate default_config lit ◌==◌ lower contains
cfg_validates = refl

validate_iff_example : IsUsable sample_cfg
validate_iff_example = (validate_iff sample_cfg).0 cfg_validates

run-Audited_example :
    Audited sample_deps.cfg.audit_log_enabled
      (120 ∷ [])
      sample_world
      (run sample_deps (120 ∷ []) null (λ auth. pure null) false sample_env sample_world).1
run-Audited_example =
    run-Audited sample_deps (120 ∷ []) null (λ auth. pure null) false sample_env sample_world
      (λ auth. pure-Keeps null)

abbrev key_env : Dict Text
key_env = (lit "MCP_API_KEYS", lit " , k ,") ∷ []

load_config-IsTrimmed_example :
    All IsTrimmed (load_config key_env).api_keys
    × All IsTrimmed (load_config key_env).oauth_redirect_uris
    × All IsTrimmed (load_config key_env).allowed_tools
    × All IsTrimmed (load_config key_env).disabled_tools
    × All IsTrimmed (load_config key_env).allowed_endpoint_groups
load_config-IsTrimmed_example = load_config-IsTrimmed key_env

build_context-notes_example :
    let r1 = context_endpoint sample_cfg (97 ∷ []) sample_identity sample_env sample_world in
    let r2 = session_by_mac sample_cfg (97 ∷ []) sample_identity sample_env r1.1 in
    let r3 =
      auth_status_by_mac sample_cfg
        (97 ∷ [])
        sample_identity
        (pos 86400)
        (pos 10)
        sample_env
        r2.1 in
    (c : PolicyContext) × ((build_context sample_cfg
        (97 ∷ [])
        sample_identity
        sample_env
        sample_world).0
      ≡ ok c)
    × (length c.notes ≡ failures r1.0 + (failures r2.0 + failures r3.0))
build_context-notes_example =
    build_context-notes sample_cfg (97 ∷ []) sample_identity sample_env sample_world
