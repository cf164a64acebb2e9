-- ===== src/Server/Build.antt =====
-- server.py: how the server is put together and started
pub mod Laws
use cisco_ise_mcp.Prelude.{Option, if◌then◌else◌, none, some}
use cisco_ise_mcp.Auth.Provider.{Provider, passthrough, service_account_of}
use cisco_ise_mcp.Config.Load.{load_config}
use cisco_ise_mcp.Config.Record.{Config}
use cisco_ise_mcp.Config.Validate.{validate}
use cisco_ise_mcp.Dict.{Dict}
use cisco_ise_mcp.Errors.{Result, err, ok}
use cisco_ise_mcp.Exec.{Exec}
use cisco_ise_mcp.Logging.{RootLogger, configure_logging}
use cisco_ise_mcp.Prelude.Int.{ℤ}
use cisco_ise_mcp.Server.{Answer, HttpCall}
use cisco_ise_mcp.Server.Gate.{require_auth}
use cisco_ise_mcp.Text.{Text, lit, ◌==◌}
use cisco_ise_mcp.Tools.{Deps}

-- The provider that the mode of the configuration asks for.
unfoldable pub provider_of : Config → Result Provider
unfolding service_account_of
provider_of cfg =
    if cfg.auth_mode == lit "service_account" then service_account_of cfg else ok passthrough

abbrev pub deps_with : Config → Result Provider → Result Deps
deps_with cfg (err e) = err e
deps_with cfg (ok provider) = ok (record { cfg = cfg; provider = provider })

abbrev pub provided : Config → Result (Unit {0}) × RootLogger → Result Deps × RootLogger
provided cfg (err e, root) = (err e, root)
provided cfg (ok u, root) = (deps_with cfg (provider_of cfg), root)

abbrev pub configured : Config → RootLogger → Result (Unit {0}) → Result Deps × RootLogger
configured cfg root (err e) = (err e, root)
configured cfg root (ok u) = provided cfg (configure_logging cfg.log_level root)

-- `cfg or load_config()`
abbrev pub config_or_load : Option Config → Dict Text → Config
config_or_load none environ = load_config environ
config_or_load (some cfg) environ = cfg

-- `build(cfg)`, which may be given no configuration and then loads it: what the tools and the endpoints
-- work with, and the root logger.
unfoldable pub build : Option Config → Dict Text → RootLogger → Result Deps × RootLogger
unfolding load_config validate configure_logging provider_of
build given environ root =
    let cfg = config_or_load given environ in configured cfg root (validate cfg)

abbrev pub gated : (Deps → HttpCall → Exec Answer) → Result Deps → Result (HttpCall → Exec Answer)
gated app (err e) = err e
gated app (ok deps) = ok (λ call. require_auth deps (app deps call) call)

-- `build_http_app(cfg)`, where `app` is the application of the MCP SDK for the dependencies
unfoldable pub build_http_app :
    (Deps → HttpCall → Exec Answer)
    → Option Config
    → Dict Text
    → RootLogger
    → Result (HttpCall → Exec Answer) × RootLogger
unfolding build require_auth
build_http_app app given environ root =
    let (built, root') = build given environ root in (gated app built, root')

-- What `main` runs: the tools over stdio, or an application on a host and a port.
pub data Launch : Type 0 where
  over_stdio : Deps → Launch
  over_http : (HttpCall → Exec Answer) → Text → ℤ → Launch

abbrev pub stdio_launch : Result Deps → Result Launch
stdio_launch (err e) = err e
stdio_launch (ok deps) = ok (over_stdio deps)

abbrev pub http_launch : Config → Result (HttpCall → Exec Answer) → Result Launch
http_launch cfg (err e) = err e
http_launch cfg (ok app) = ok (over_http app cfg.host cfg.port)

-- The end of `main`, once the logger is configured.
abbrev pub launch :
    (Deps → HttpCall → Exec Answer) → Config → Dict Text → RootLogger → Result Launch × RootLogger
launch app cfg environ root =
    if cfg.transport == lit "stdio"
    then (let (built, root') = build (some cfg) environ root in (stdio_launch built, root'))
    else (let (built, root') = build_http_app app (some cfg) environ root in
        (http_launch cfg built, root'))

abbrev pub logged :
    (Deps → HttpCall → Exec Answer)
    → Config
    → Dict Text
    → Result (Unit {0}) × RootLogger
    → Result Launch × RootLogger
logged app cfg environ (err e, root) = (err e, root)
logged app cfg environ (ok u, root) = launch app cfg environ root

abbrev pub checked :
    (Deps → HttpCall → Exec Answer)
    → Config
    → Dict Text
    → RootLogger
    → Result (Unit {0})
    → Result Launch × RootLogger
checked app cfg environ root (err e) = (err e, root)
checked app cfg environ root (ok u) = logged app cfg environ (configure_logging cfg.log_level root)

-- `main()`
unfoldable pub main :
    (Deps → HttpCall → Exec Answer) → Dict Text → RootLogger → Result Launch × RootLogger
unfolding build build_http_app
main app environ root = let cfg = load_config environ in checked app cfg environ root (validate cfg)
