-- ===== src/Server/Build/Laws.antt =====
-- When the server can be built, and what it is.
use cisco_ise_mcp.Prelude.{
  Bool-cases, Option, [], ap, if◌then◌else◌, inl, inr, none, refl, some, sym, true, ℕ, ◌↔◌, ◌∙◌,
  ◌∷◌, ◌≡◌,
}
use cisco_ise_mcp.Auth.Provider.{passthrough, service_account, service_account_of}
use cisco_ise_mcp.Config.Laws.{IsUsable, validate_iff}
use cisco_ise_mcp.Config.Load.{load_config}
use cisco_ise_mcp.Config.Record.{Config}
use cisco_ise_mcp.Config.Validate.{has_service_credentials, validate}
use cisco_ise_mcp.Dict.{Dict}
use cisco_ise_mcp.Errors.{Result, err, ok}
use cisco_ise_mcp.Exec.{Exec}
use cisco_ise_mcp.Logging.{RootLogger, configure_logging, json_to_stdout, level_of, set_level}
use cisco_ise_mcp.Server.{Answer, HttpCall}
use cisco_ise_mcp.Server.Build.{
  Launch, build, build_http_app, checked, configured, deps_with, gated, http_launch, launch, logged,
  main, over_http, over_stdio, provided, provider_of, stdio_launch,
}
use cisco_ise_mcp.Server.Gate.{require_auth}
use cisco_ise_mcp.Server.Token.Laws.{ok_inj}
use cisco_ise_mcp.Text.{Text, lit, or_text, ◌==◌}
use cisco_ise_mcp.Text.Laws.{==_iff}
use cisco_ise_mcp.Tools.{Deps}

-- The dependencies of the tools, by the mode of the configuration.
abbrev pub deps_of : Config → Deps
deps_of cfg = record {
  cfg = cfg;
  provider =
      if cfg.auth_mode == lit "service_account"
      then service_account (record {
        username = or_text cfg.ise_username (lit "(encoded)");
        mode = lit "service_account";
        password = cfg.ise_password;
        encoded = cfg.ise_encoded_auth;
      })
      else passthrough;
}

-- The provider of a usable configuration can always be built.
usable-provider : (cfg : Config) → IsUsable cfg → provider_of cfg ≡ ok (deps_of cfg).provider
unfolding provider_of service_account_of
usable-provider cfg u = elim (Bool-cases (cfg.auth_mode == lit "service_account")) [
  | inl service ↦
      let creds : has_service_credentials cfg ≡ true =
        u.service_credentials ((==_iff cfg.auth_mode (lit "service_account")).0 service) in
      rw (service, creds) refl
  | inr other ↦ rw other refl
]

abbrev pub HasKnownLevel : Config → Type 0
HasKnownLevel cfg = (n : ℕ) × (level_of cfg.log_level ≡ some n)

module _ (cfg : Config) (deps : Deps) where
  by_level :
      (root : RootLogger) (level : Option ℕ)
      → (provided cfg (set_level cfg.log_level level root)).0 ≡ ok deps
      → ((n : ℕ) × (level ≡ some n)) × (deps_with cfg (provider_of cfg) ≡ ok deps)
  by_level root none h = cc
  by_level root (some n) h = ((n, refl), h)

  by_validation :
      (root : RootLogger) (valid : Result (Unit {0}))
      → (configured cfg root valid).0 ≡ ok deps
      → (valid ≡ ok tt) × HasKnownLevel cfg × (deps_with cfg (provider_of cfg) ≡ ok deps)
  unfolding configure_logging
  by_validation root (err e) h = cc
  by_validation root (ok u) h =
      let (known, made) = by_level _ (level_of cfg.log_level) h in (refl, known, made)

  made-eq : IsUsable cfg → deps_with cfg (provider_of cfg) ≡ ok (deps_of cfg)
  made-eq u = ap (deps_with cfg) (usable-provider cfg u)

-- The server is built exactly from a usable configuration whose log level has a name that Python knows in
-- some case. It then has the provider that the mode asks for: in service-account mode the identity of
-- the configured account, else the sessions of the callers.
pub build_iff :
    (cfg : Config) (environ : Dict Text) (root : RootLogger) (deps : Deps)
    → ((build (some cfg) environ root).0 ≡ ok deps)
      ↔ (IsUsable cfg × HasKnownLevel cfg × (deps ≡ deps_of cfg))
unfolding build configure_logging
build_iff cfg environ root deps = (
  λ h.
      let (valid, known, made) = by_validation cfg deps root (validate cfg) h in
      let usable = (validate_iff cfg).0 valid in
      (usable, known, ok_inj (sym made ∙ made-eq cfg deps usable)),
  λ h.
      let (usable, (n, known), same) = h in
      ap (λ v. (configured cfg root v).0) ((validate_iff cfg).1 usable)
      ∙ ap
          (λ l.
            (provided cfg
              (set_level cfg.log_level l (record root { handlers = json_to_stdout ∷ [] }))).0)
          known
      ∙ made-eq cfg deps usable
      ∙ ap ok (sym same),
)

module _ (app : Deps → HttpCall → Exec Answer) (cfg : Config) where
  -- The launch that the transport asks for.
  abbrev pub launch_of : Launch
  launch_of =
      if cfg.transport == lit "stdio"
      then over_stdio (deps_of cfg)
      else over_http (λ call. require_auth (deps_of cfg) (app (deps_of cfg) call) call) cfg.host
          cfg.port

  launch-built :
      (environ : Dict Text) (root : RootLogger)
      → IsUsable cfg
      → HasKnownLevel cfg
      → (launch app cfg environ root).0 ≡ ok launch_of
  unfolding build_http_app
  launch-built environ root u known =
      let built : (build (some cfg) environ root).0 ≡ ok (deps_of cfg) =
        (build_iff cfg environ root (deps_of cfg)).1 (u, known, refl) in
      elim (Bool-cases (cfg.transport == lit "stdio")) [
        | inl over ↦ rw over (ap stdio_launch built)
        | inr over ↦ rw over (ap (λ b. http_launch cfg (gated app b)) built)
      ]

-- With a usable configuration in the environment and a known log level the program starts: over stdio if the
-- transport says so, and otherwise as an application on the configured host and port in which the gate
-- stands in front of everything that the MCP SDK serves.
pub main-launches :
    (app : Deps → HttpCall → Exec Answer) (environ : Dict Text) (root : RootLogger)
    → IsUsable (load_config environ)
    → HasKnownLevel (load_config environ)
    → (main app environ root).0 ≡ ok (launch_of app (load_config environ))
unfolding main configure_logging
main-launches app environ root u (n, known) =
    let cfg = load_config environ in
    let root' : RootLogger = record root { handlers = json_to_stdout ∷ [] } in
    ap (λ v. (checked app cfg environ root v).0) ((validate_iff cfg).1 u)
    ∙ ap (λ l. (logged app cfg environ (set_level cfg.log_level l root')).0) known
    ∙ launch-built app cfg environ (record root' { level = n }) u (n, known)
