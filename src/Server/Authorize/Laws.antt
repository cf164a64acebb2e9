-- ===== src/Server/Authorize/Laws.antt =====
-- Where the submission of the login form sends the browser.
use cisco_ise_mcp.Prelude.{
  Bool, Bool-cases, all, ap, arith, false, inl, inr, refl, some, subst, true, ℕ, ◌∙◌, ◌≡◌,
}
use cisco_ise_mcp.Auth.Provider.{Provider, login, passthrough, service_account}
use cisco_ise_mcp.Auth.Provider.Login.{Issued, Login, login-Login}
use cisco_ise_mcp.Config.Record.{Config}
use cisco_ise_mcp.Dict.{Dict}
use cisco_ise_mcp.Errors.{Result, err, ok, status}
use cisco_ise_mcp.Exec.{lift, pure, ◌>>=◌}
use cisco_ise_mcp.Exec.Frame.{bind-ok}
use cisco_ise_mcp.Ise.Client.{probe_request}
use cisco_ise_mcp.Ise.Client.Probe.{is_accepting, replies}
use cisco_ise_mcp.Oauth.{compare_digest, login_and_issue_code, redirect_ok}
use cisco_ise_mcp.Oauth.Grants.{compare_digest-eq-true}
use cisco_ise_mcp.Server.{HttpCall, get_text, redirect_page}
use cisco_ise_mcp.Server.Authorize.{
  authorize_post, issue_code, login_outcome, submit_by, submit_for,
}
use cisco_ise_mcp.Server.Redirect.{redirect_with_code}
use cisco_ise_mcp.Server.Token.Laws.{ok_inj}
use cisco_ise_mcp.Text.{Text, contains, lit}
use cisco_ise_mcp.Tools.{Deps}
use cisco_ise_mcp.World.{Env, World}

-- What a redirection with a code stands on.
pub record MayRedirect (cfg : Config) (form : Dict Text) (env : Env) (w : World) (url : Text)
    : Type 0 where
  pub code : Text
  pub client : get_text form (lit "client_id") ≡ cfg.oauth_client_id
  pub listed : contains cfg.oauth_redirect_uris (get_text form (lit "redirect_uri")) ≡ true
  pub accepted :
      all is_accepting (
        replies env
          (probe_request cfg (get_text form (lit "username")) (get_text form (lit "password")))
          4
          w.sent)
      ≡ true
  pub target :
      url
      ≡ redirect_with_code (get_text form (lit "redirect_uri")) code (get_text form (lit "state"))

-- A code is issued only after a login.
issue-accepted :
    (cfg : Config) (username password client_id redirect_uri scope challenge code : Text)
    (env : Env) (w : World)
    → (login_and_issue_code cfg username password client_id redirect_uri scope challenge env w).0
      ≡ ok code
    → all is_accepting (replies env (probe_request cfg username password) 4 w.sent) ≡ true
unfolding login_and_issue_code
issue-accepted cfg username password client_id redirect_uri scope challenge code env w h =
    let (s, logged_in, rest) = bind-ok (login cfg username password) _ env w code h in
    Issued.accepted (
      subst (λ r. Login cfg username password env w (r, (login cfg username password env w).1))
        logged_in (login-Login cfg username password env w))

redirect_ok-listed :
    (cfg : Config) (uri : Text)
    → redirect_ok cfg (some uri) ≡ true
    → contains cfg.oauth_redirect_uris uri ≡ true
unfolding redirect_ok
redirect_ok-listed cfg uri h = ground arith

-- Which outcome of a login redirects.
redirects :
    (form : Dict Text) (r : Result Text) (status : ℕ) (url : Text)
    → login_outcome form r ≡ redirect_page status url
    → (code : Text) × (r ≡ ok code)
      × (url
          ≡ redirect_with_code
              (get_text form (lit "redirect_uri"))
              code
              (get_text form (lit "state")))
redirects form (ok code) status url h = (code, refl, cc)
redirects form (err e) status url h = cc

submit_for-redirects :
    (cfg : Config) (form : Dict Text) (env : Env) (w : World) (status : ℕ) (url : Text)
    → (submit_for cfg form true env w).0 ≡ ok (redirect_page status url)
    → get_text form (lit "client_id") ≡ cfg.oauth_client_id
    → MayRedirect cfg form env w url
unfolding submit_for
submit_for-redirects cfg form env w status url h c =
    let uri = get_text form (lit "redirect_uri") in
    elim (Bool-cases (redirect_ok cfg (some uri))) [
      | inl good ↦
          let (code, issued, target) =
            redirects form (issue_code cfg form env w).0 status url (ok_inj (rw good at h)) in
          record {
            code = code;
            client = c;
            listed = redirect_ok-listed cfg uri good;
            accepted =
                issue-accepted cfg (get_text form (lit "username")) (get_text form (lit "password"))
                  (get_text form (lit "client_id")) uri (get_text form (lit "scope"))
                  (get_text form (lit "code_challenge")) code env w issued;
            target = target;
          }
      | inr bad ↦ cc (rw bad at h)
    ]

-- A client that is not the configured one is not redirected.
known-submits :
    (cfg : Config) (form : Dict Text) (known : Bool) (env : Env) (w : World) (status : ℕ)
    (url : Text)
    → (submit_for cfg form known env w).0 ≡ ok (redirect_page status url)
    → known ≡ true
unfolding submit_for
known-submits cfg form true env w status url h = refl
known-submits cfg form false env w status url h = cc

submit_by-redirects :
    (provider : Provider) (cfg : Config) (call : HttpCall) (form : Dict Text) (env : Env)
    (w : World) (status : ℕ) (url : Text)
    → call.form ≡ ok form
    → (submit_by provider cfg call env w).0 ≡ ok (redirect_page status url)
    → MayRedirect cfg form env w url
unfolding ◌>>=◌ lift pure
submit_by-redirects (service_account auth) cfg call form env w status url f h = cc
submit_by-redirects passthrough cfg call form env w status url f h =
    let client = compare_digest (get_text form (lit "client_id")) cfg.oauth_client_id in
    let (known, compared, submitted) =
      bind-ok (lift client) (submit_for cfg form) env w (redirect_page status url) (rw f at h) in
    let same = known-submits cfg form known env w status url submitted in
    submit_for-redirects cfg form env w status url
      (subst (λ b. (submit_for cfg form b env w).0 ≡ ok (redirect_page status url)) same submitted)
      (compare_digest-eq-true _ _ (compared ∙ ap ok same))

-- The submission of the login form redirects the browser only to a redirection that the configuration
-- lists, with a code, for the configured client, after ISE has answered all four probes with the
-- credentials of the form with a status below 400.
pub authorize_post-redirects :
    (deps : Deps) (call : HttpCall) (form : Dict Text) (env : Env) (w : World) (status : ℕ)
    (url : Text)
    → call.form ≡ ok form
    → (authorize_post deps call env w).0 ≡ ok (redirect_page status url)
    → MayRedirect deps.cfg form env w url
unfolding authorize_post
authorize_post-redirects deps call form env w status url f h =
    submit_by-redirects deps.provider deps.cfg call form env w status url f h
