-- ===== src/System/Codes/Issue.antt =====
-- The code that the sign-in form issues.
use cisco_ise_mcp.Prelude.{ap, arith, inl, inr, refl, subst, sym, true, ◌∙◌, ◌≡◌}
use cisco_ise_mcp.Auth.Provider.{login}
use cisco_ise_mcp.Auth.Provider.Login.{Issued, Login, login-Login}
use cisco_ise_mcp.Auth.Session.{Session}
use cisco_ise_mcp.Auth.Store.{SessionStore, create}
use cisco_ise_mcp.Config.Record.{Config}
use cisco_ise_mcp.Dict.{Dict, lookup}
use cisco_ise_mcp.Errors.{Error, Result, err, ok}
use cisco_ise_mcp.Exec.{◌>>=◌}
use cisco_ise_mcp.Oauth.{login_and_issue_code, redirect_ok}
use cisco_ise_mcp.Oauth.Grants.{compare_digest-eq-true}
use cisco_ise_mcp.Oauth.RoundTrip.{issue_lem}
use cisco_ise_mcp.Server.{get_text}
use cisco_ise_mcp.Server.Authorize.{issue_code}
use cisco_ise_mcp.Server.Effects.{IsKnownForm}
use cisco_ise_mcp.System.Codes.{KeepsCodes, KeepsCodes-same, inserted}
use cisco_ise_mcp.System.Tracking.{Issued-Tracks, login-Tracks}
use cisco_ise_mcp.System.Tracks.{Follows, Tracks}
use cisco_ise_mcp.Text.{Text, contains, lit}
use cisco_ise_mcp.World.{AuthCode, Env, World}

module _ (cfg : Config) where
  session_token :
      (username password : Text) (env : Env) (w w' : World) (s : Session)
      → Issued cfg username password env w s w'
      → s.session_id ≡ env.token_urlsafe w.tokens
  unfolding create
  session_token username password env w w' s i =
      ap (λ (r : Session × SessionStore). r.0.session_id) i.stored

  issued-KeepsCodes :
      (form : Dict Text) (env : Env) (w w1 : World) (s : Session)
      → IsKnownForm cfg form
      → login cfg (get_text form (lit "username")) (get_text form (lit "password")) env w
        ≡ (ok s, w1)
      → KeepsCodes cfg env w (issue_code cfg form env w).1
  unfolding redirect_ok Issued-Tracks
  issued-KeepsCodes form env w w1 s known e =
      let username = get_text form (lit "username") in
      let password = get_text form (lit "password") in
      let i : Issued cfg username password env w s w1 =
        subst (Login cfg username password env w) e (login-Login cfg username password env w) in
      let f : Follows w1.sent w.sent =
        subst (λ (r : Result Session × World). Follows r.1.sent w.sent) e
          (login-Tracks cfg username password env w).sent in
      let r = known.redirection in
      let listed : contains cfg.oauth_redirect_uris (get_text form (lit "redirect_uri")) ≡ true =
        ground arith in
      subst (λ (r : Result Text × World). KeepsCodes cfg env w r.1)
        (sym (
          issue_lem cfg username password (get_text form (lit "client_id"))
            (get_text form (lit "redirect_uri")) (get_text form (lit "scope"))
            (get_text form (lit "code_challenge")) env w w1 s e))
        (record {
          tracks = Issued-Tracks cfg username password env w w1 _ s i f refl refl (omega arith);
          held = λ key rec h. elim (inserted (env.token_urlsafe w1.tokens) key _ rec w1.codes h) [
            | inl new ↦ inr (record {
              client = ap AuthCode.client_id (sym new) ∙ compare_digest-eq-true _ _ known.client;
              redirection =
                  ap (λ (a : AuthCode). contains cfg.oauth_redirect_uris a.redirect_uri) (sym new)
                  ∙ listed;
              session =
                  inl (
                    sym (session_token username password env w w1 s i)
                    ∙ ap AuthCode.session_id new);
            })
            | inr old ↦ inl (ap (lookup key) (sym i.codes) ∙ old)
          ];
        })

  -- A login that fails issues no code.
  refused-KeepsCodes :
      (form : Dict Text) (env : Env) (w w1 : World) (x : Error)
      → login cfg (get_text form (lit "username")) (get_text form (lit "password")) env w
        ≡ (err x, w1)
      → KeepsCodes cfg env w (issue_code cfg form env w).1
  unfolding login_and_issue_code ◌>>=◌
  refused-KeepsCodes form env w w1 x e =
      let still : Login cfg (get_text form (lit "username")) (get_text form (lit "password")) env w
          (err x, w1) =
        subst (Login cfg (get_text form (lit "username")) (get_text form (lit "password")) env w) e
          (login-Login cfg (get_text form (lit "username")) (get_text form (lit "password")) env
            w) in
      let t : Tracks cfg env w w1 =
        subst (λ (r : Result Session × World). Tracks cfg env w r.1) e
          (login-Tracks cfg (get_text form (lit "username")) (get_text form (lit "password")) env
            w) in
      rw e (KeepsCodes-same cfg env w w1 still.1.codes t)

  pub issue_code-KeepsCodes :
      (form : Dict Text) (env : Env) (w : World)
      → IsKnownForm cfg form
      → KeepsCodes cfg env w (issue_code cfg form env w).1
  issue_code-KeepsCodes form env w known = by_login _ refl
    where
      by_login :
          (done : Result Session × World)
          → login cfg (get_text form (lit "username")) (get_text form (lit "password")) env w ≡ done
          → KeepsCodes cfg env w (issue_code cfg form env w).1
      by_login (ok s, w1) e = issued-KeepsCodes form env w w1 s known e
      by_login (err x, w1) e = refused-KeepsCodes form env w w1 x e
