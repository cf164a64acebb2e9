-- ===== src/Server/Effects.antt =====
-- What the endpoints of the server leave behind, for any relation that the parts of the server keep.
use cisco_ise_mcp.Prelude.{
  Bool, Bool-cases, Option, [], false, inl, inr, none, refl, some, true, ◌∷◌, ◌≡◌,
}
use cisco_ise_mcp.Auth.Provider.{Provider, passthrough, service_account}
use cisco_ise_mcp.Config.Record.{Config}
use cisco_ise_mcp.Dict.{Dict}
use cisco_ise_mcp.Errors.{Result, err, ok}
use cisco_ise_mcp.Exec.{Exec, lift, ◌>>=◌}
use cisco_ise_mcp.Exec.Effects.{
  Effect, Keeps, bind-Keeps, caught-Keeps, if-Keeps, keeping, lift-Keeps, pure-Keeps, weaken,
}
use cisco_ise_mcp.Oauth.{
  compare_digest, exchange_code, pop_code, redeem, redeem_for, redirect_ok, refresh,
}
use cisco_ise_mcp.Server.{Answer, HttpCall, get_text}
use cisco_ise_mcp.Server.Authorize.{
  authorize_get, authorize_post, form_by, form_of, issue_code, login_outcome, submit_by, submit_for,
}
use cisco_ise_mcp.Server.Gate.{is_guarded, let_through, require_auth}
use cisco_ise_mcp.Server.Token.{client_credentials, grant, login_grant, token_endpoint, token_for}
use cisco_ise_mcp.Text.{Text, lit}
use cisco_ise_mcp.Tools.{Deps}
use cisco_ise_mcp.Tools.Effects.{AdmitsSessions, login-Keeps, session_valid-Keeps}
use cisco_ise_mcp.World.{AuthCode, Env, World}

-- The sign-in form comes from the configured client, for a redirection that the configuration lists.
pub record IsKnownForm (cfg : Config) (form : Dict Text) : Type 0 where
  pub client : compare_digest (get_text form (lit "client_id")) cfg.oauth_client_id ≡ ok true
  pub redirection : redirect_ok cfg (some (get_text form (lit "redirect_uri"))) ≡ true

-- Relations that the calls of the session store and the accesses to the authorization codes keep.
pub record AdmitsServer (cfg : Config) (e : Effect) : Type 0 where
  pub sessions : AdmitsSessions cfg e
  pub at_issue :
      (env : Env) (w : World) (form : Dict Text)
      → IsKnownForm cfg form
      → Effect.Rel e env w (issue_code cfg form env w).1
  pub at_pop :
      (env : Env) (w : World) (issued : Option Text) → Effect.Rel e env w (pop_code issued env w).1

-- A step on the value of a fallible one, which may be told that it is its value.
lift-bind-Keeps :
    {Laws : Effect → Type 0} {A B : Type 0} (r : Result A) (f : A → Exec B)
    → ((a : A) → r ≡ ok a → Keeps Laws (f a))
    → Keeps Laws (lift r >>= f)
unfolding ◌>>=◌ lift
lift-bind-Keeps (ok a) f h = record { keeps = λ e l env w. (h a refl).keeps e l env w }
lift-bind-Keeps (err x) f h = record { keeps = λ e l env w. e.at_rest env w }

module _ (cfg : Config) where
  of_sessions :
      {A : Type 0} (m : Exec A) → Keeps (AdmitsSessions cfg) m → Keeps (AdmitsServer cfg) m
  of_sessions m h = weaken m (λ e l. l.sessions) h

  pop_code-Keeps : (issued : Option Text) → Keeps (AdmitsServer cfg) (pop_code issued)
  pop_code-Keeps issued = record { keeps = λ e l env w. l.at_pop env w issued }

  issue_code-Keeps :
      (form : Dict Text) → IsKnownForm cfg form → Keeps (AdmitsServer cfg) (issue_code cfg form)
  issue_code-Keeps form h = record { keeps = λ e l env w. l.at_issue env w form h }

  redeem-Keeps :
      (redirect_uri client_id verifier : Option Text) (rec : Option AuthCode)
      → Keeps (AdmitsServer cfg) (redeem redirect_uri client_id verifier rec)
  unfolding redeem
  redeem-Keeps redirect_uri client_id verifier none = search keeping
  redeem-Keeps redirect_uri client_id verifier (some rec) = search keeping

  redeem_for-Keeps :
      (known : Bool) (issued redirect_uri client_id verifier : Option Text)
      → Keeps (AdmitsServer cfg) (redeem_for known issued redirect_uri client_id verifier)
  redeem_for-Keeps true issued redirect_uri client_id verifier =
      search (keeping, pop_code-Keeps, redeem-Keeps)
  redeem_for-Keeps false issued redirect_uri client_id verifier = search keeping

  exchange_code-Keeps :
      (issued redirect_uri client_id client_secret verifier : Option Text)
      → Keeps
          (AdmitsServer cfg)
          (exchange_code cfg issued redirect_uri client_id client_secret verifier)
  unfolding exchange_code
  exchange_code-Keeps issued redirect_uri client_id client_secret verifier =
      search (keeping, redeem_for-Keeps)

  refresh-Keeps : (cid csec : Option Text) → Keeps (AdmitsServer cfg) (refresh cfg cid csec)
  unfolding refresh
  refresh-Keeps cid csec = search keeping

  client_credentials-Keeps :
      (cid csec : Option Text) → Keeps (AdmitsServer cfg) (client_credentials cfg cid csec)
  unfolding client_credentials
  client_credentials-Keeps none csec = search keeping
  client_credentials-Keeps (some []) csec = search keeping
  client_credentials-Keeps (some (c ∷ cid)) none = search keeping
  client_credentials-Keeps (some (c ∷ cid)) (some []) = search keeping
  client_credentials-Keeps (some (c ∷ cid)) (some (d ∷ csec)) =
      bind-Keeps _ _ (caught-Keeps _ (of_sessions _ (login-Keeps cfg (c ∷ cid) (d ∷ csec))))
        (λ r. pure-Keeps (login_grant cfg r))

  grant-Keeps :
      (kind : Text) (form : Dict Text) (creds : Option Text × Option Text)
      → Keeps (AdmitsServer cfg) (grant cfg kind form creds)
  unfolding grant
  grant-Keeps kind form (cid, csec) =
      search (keeping, client_credentials-Keeps, exchange_code-Keeps, refresh-Keeps) depth 9

  token_for-Keeps :
      (provider : Provider) (call : HttpCall)
      → Keeps (AdmitsServer cfg) (token_for cfg provider call)
  token_for-Keeps (service_account auth) call = search keeping
  token_for-Keeps passthrough call = search (keeping, grant-Keeps)

  form_of-Keeps : (q : Dict Text) → Keeps (AdmitsServer cfg) (form_of cfg q)
  form_of-Keeps q = search keeping

  form_by-Keeps :
      (provider : Provider) (q : Dict Text) → Keeps (AdmitsServer cfg) (form_by provider cfg q)
  form_by-Keeps (service_account auth) q = search keeping
  form_by-Keeps passthrough q = form_of-Keeps q

  submit_for-Keeps :
      (form : Dict Text) (known : Bool)
      → compare_digest (get_text form (lit "client_id")) cfg.oauth_client_id ≡ ok known
      → Keeps (AdmitsServer cfg) (submit_for cfg form known)
  unfolding submit_for
  submit_for-Keeps form false h = pure-Keeps _
  submit_for-Keeps form true h =
      elim (Bool-cases (redirect_ok cfg (some (get_text form (lit "redirect_uri"))))) [
        | inl e ↦ rw e (
            bind-Keeps _ _
              (caught-Keeps _ (issue_code-Keeps form (record { client = h; redirection = e })))
              (λ r. pure-Keeps (login_outcome form r)))
        | inr e ↦ rw e (pure-Keeps _)
      ]

  submit_by-Keeps :
      (provider : Provider) (call : HttpCall)
      → Keeps (AdmitsServer cfg) (submit_by provider cfg call)
  submit_by-Keeps (service_account auth) call = search keeping
  submit_by-Keeps passthrough call =
      bind-Keeps _ _ (lift-Keeps call.form) (λ form. lift-bind-Keeps _ _ (submit_for-Keeps form))

module _ (deps : Deps) (call : HttpCall) where
  pub token_endpoint-Keeps : Keeps (AdmitsServer deps.cfg) (token_endpoint deps call)
  unfolding token_endpoint
  token_endpoint-Keeps = token_for-Keeps deps.cfg deps.provider call

  pub authorize_get-Keeps : Keeps (AdmitsServer deps.cfg) (authorize_get deps call)
  unfolding authorize_get
  authorize_get-Keeps = form_by-Keeps deps.cfg deps.provider call.query

  pub authorize_post-Keeps : Keeps (AdmitsServer deps.cfg) (authorize_post deps call)
  unfolding authorize_post
  authorize_post-Keeps = submit_by-Keeps deps.cfg deps.provider call

module _ {Laws : Effect → Type 0} (deps : Deps) (call : HttpCall) where
  let_through-Keeps :
      (app : Exec Answer) (valid : Bool) → Keeps Laws app → Keeps Laws (let_through call app valid)
  let_through-Keeps app true h = h
  let_through-Keeps app false h = pure-Keeps _

  pub require_auth-Keeps :
      (app : Exec Answer)
      → ((e : Effect) → Laws e → AdmitsSessions deps.cfg e)
      → Keeps Laws app
      → Keeps Laws (require_auth deps app call)
  unfolding require_auth
  require_auth-Keeps app sessions h =
      if-Keeps (is_guarded deps.cfg call) _ _
        (bind-Keeps _ _ (weaken _ sessions (session_valid-Keeps deps _))
          (λ valid. let_through-Keeps app valid h))
        h
