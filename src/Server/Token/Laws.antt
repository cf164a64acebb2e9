-- ===== src/Server/Token/Laws.antt =====
-- What a token that /token hands out stands on.
use cisco_ise_mcp.Prelude.{
  Bool, Bool-cases, List, Option, [], ap, arith, false, if◌then◌else◌, inl, inr, none, refl, some,
  true, ◌∷◌, ◌≡◌, ◌≢◌, ◌⊎◌,
}
use cisco_ise_mcp.Auth.Provider.{login}
use cisco_ise_mcp.Auth.Provider.Login.{Issued, Login, login-Login}
use cisco_ise_mcp.Auth.Session.{Session}
use cisco_ise_mcp.Auth.Store.History.{granted}
use cisco_ise_mcp.Config.Record.{Config}
use cisco_ise_mcp.Dict.{Dict, lookup}
use cisco_ise_mcp.Errors.{Result, err, ok}
use cisco_ise_mcp.Exec.{asks, caught, continue, lift, pure, ◌>>=◌}
use cisco_ise_mcp.Oauth.{
  Exchange, base_token, client_ok, granted_token, invalid_client, invalid_grant, refresh,
}
use cisco_ise_mcp.Oauth.Grants.{exchange_code-IsGrantable}
use cisco_ise_mcp.Oauth.Laws.{IsGrantable}
use cisco_ise_mcp.Server.{HttpCall, json_page}
use cisco_ise_mcp.Server.Gate.Laws.{by_session}
use cisco_ise_mcp.Server.Token.{
  client_credentials, client_creds, exchange_answer, form_or_empty, grant, login_grant, out,
  token_endpoint,
}
use cisco_ise_mcp.Text.{Text, lit, ◌==◌}
use cisco_ise_mcp.Value.{Value, dict, int, str}
use cisco_ise_mcp.World.{AuthCode, Env, World}

abbrev login_body : Config → Session → List (Text × Value)
login_body cfg sess =
    (lit "access_token", str sess.session_id)
    ∷ (lit "token_type", str (lit "Bearer"))
    ∷ (lit "expires_in", int cfg.session_ttl_seconds)
    ∷ []

-- A token for a login with the caller's own credentials.
pub record ByLogin (cfg : Config) (creds : Option Text × Option Text) (env : Env) (w : World)
    (body : Value) : Type 0 where
  pub username : Text
  pub password : Text
  pub session : Session
  pub world : World
  pub presented : creds ≡ (some username, some password)
  pub issued : Issued cfg username password env w session world
  pub answered : body ≡ dict (login_body cfg session)

-- A token for an authorization code.
pub record ByCode (cfg : Config) (form : Dict Text) (creds : Option Text × Option Text) (env : Env)
    (w : World) (body : Value) : Type 0 where
  pub rec : AuthCode
  pub grantable :
      IsGrantable cfg env w
        (lookup (lit "code") form)
        (lookup (lit "redirect_uri") form)
        creds.0
        creds.1
        (lookup (lit "code_verifier") form)
        rec
  pub answered : body ≡ dict (base_token cfg rec.session_id rec.scope)

pub ok_inj : {A : Type 0} {a b : A} → ok a ≡ ok b → a ≡ b
ok_inj h = cc

login_grant-200 :
    (cfg : Config) (username password : Text) (env : Env) (w : World) (hs : List (Text × Text))
    (body : Value) (r : Result Session) (w' : World)
    → Login cfg username password env w (r, w')
    → login_grant cfg r ≡ json_page 200 hs body
    → ByLogin cfg (some username, some password) env w body
unfolding out
login_grant-200 cfg username password env w hs body (err e) w' l h = absurd (ground arith)
login_grant-200 cfg username password env w hs body (ok s) w' l h = record {
  username = username;
  password = password;
  session = s;
  world = w';
  presented = refl;
  issued = l;
  answered = cc;
}

client_credentials-200 :
    (cfg : Config) (cid csec : Option Text) (env : Env) (w : World) (hs : List (Text × Text))
    (body : Value)
    → (client_credentials cfg cid csec env w).0 ≡ ok (json_page 200 hs body)
    → ByLogin cfg (cid, csec) env w body
unfolding client_credentials ◌>>=◌ caught pure out
client_credentials-200 cfg (some (c ∷ cid)) (some (d ∷ csec)) env w hs body h =
    let done = login cfg (c ∷ cid) (d ∷ csec) env w in
    login_grant-200 cfg (c ∷ cid) (d ∷ csec) env w hs body done.0 done.1
      (login-Login cfg (c ∷ cid) (d ∷ csec) env w) (ok_inj h)
client_credentials-200 cfg none csec env w hs body h = absurd (ground arith)
client_credentials-200 cfg (some []) csec env w hs body h = absurd (ground arith)
client_credentials-200 cfg (some (c ∷ cid)) none env w hs body h = absurd (ground arith)
client_credentials-200 cfg (some (c ∷ cid)) (some []) env w hs body h = absurd (ground arith)

-- Which outcome of an exchange is answered with a token.
answer-200 :
    (cfg : Config) (r : Exchange) (hs : List (Text × Text)) (body : Value)
    → exchange_answer cfg r ≡ json_page 200 hs body
    → (rec : AuthCode) × (r ≡ granted_token rec)
      × (body ≡ dict (base_token cfg rec.session_id rec.scope))
unfolding out
answer-200 cfg (granted_token rec) hs body h = (rec, refl, cc)
answer-200 cfg invalid_client hs body h = absurd (ground arith)
answer-200 cfg invalid_grant hs body h = absurd (ground arith)

exchange-200 :
    (cfg : Config) (r : Result Exchange) (env : Env) (w : World) (hs : List (Text × Text))
    (body : Value)
    → (continue r (λ x. pure (exchange_answer cfg x)) env w).0 ≡ ok (json_page 200 hs body)
    → (rec : AuthCode) × (r ≡ ok (granted_token rec))
      × (body ≡ dict (base_token cfg rec.session_id rec.scope))
unfolding pure
exchange-200 cfg (err e) env w hs body h = cc
exchange-200 cfg (ok r) env w hs body h =
    let (rec, e, b) = answer-200 cfg r hs body (ok_inj h) in (rec, ap ok e, b)

-- A refresh never gives a token.
refresh-not-granted :
    (cfg : Config) (cid csec : Option Text) (env : Env) (w : World) (rec : AuthCode)
    → (refresh cfg cid csec env w).0 ≢ ok (granted_token rec)
unfolding refresh ◌>>=◌ lift pure
refresh-not-granted cfg cid csec env w rec = for_known (client_ok cfg cid csec)
  where
    for_known :
        (r : Result Bool)
        → (continue r (λ known. pure (if known then invalid_grant else invalid_client)) env w).0
          ≢ ok (granted_token rec)
    for_known (err e) h = cc
    for_known (ok true) h = cc
    for_known (ok false) h = cc

grant-200 :
    (cfg : Config) (kind : Text) (form : Dict Text) (creds : Option Text × Option Text) (env : Env)
    (w : World) (hs : List (Text × Text)) (body : Value)
    → (grant cfg kind form creds env w).0 ≡ ok (json_page 200 hs body)
    → ByLogin cfg creds env w body ⊎ ByCode cfg form creds env w body
unfolding grant ◌>>=◌ out pure
grant-200 cfg kind form (cid, csec) env w hs body h =
    elim (Bool-cases (kind == lit "client_credentials")) [
      | inl e ↦ inl (client_credentials-200 cfg cid csec env w hs body (rw e at h))
      | inr e ↦ elim (Bool-cases (kind == lit "authorization_code")) [
        | inl f ↦
            let (rec, granted, answered) = exchange-200 cfg _ env _ hs body (rw (e, f) at h) in
            inr (record {
              rec = rec;
              grantable = exchange_code-IsGrantable cfg _ _ cid csec _ env w rec granted;
              answered = answered;
            })
        | inr f ↦ elim (Bool-cases (kind == lit "refresh_token")) [
          | inl g ↦
              let (rec, granted, answered) = exchange-200 cfg _ env _ hs body (rw (e, f, g) at h) in
              absurd (refresh-not-granted cfg cid csec env w rec granted)
          | inr g ↦ absurd (ground arith)
        ]
      ]
    ]

-- On a server in passthrough mode, an answer of /token with the status 200 hands out the id of a session
-- either for a login with the presented credentials, for which ISE answered all four probes with a
-- status below 400, or for an authorization code that could be redeemed under all its conditions: by its
-- client, for its redirection, in time, and with the proof of possession.
pub token_endpoint-200 :
    (cfg : Config) (call : HttpCall) (env : Env) (w : World) (hs : List (Text × Text))
    (body : Value)
    → (token_endpoint (by_session cfg) call env w).0 ≡ ok (json_page 200 hs body)
    → ByLogin cfg (client_creds env.decode_base64 call.headers (form_or_empty call.form)) env w body
      ⊎ ByCode cfg
          (form_or_empty call.form)
          (client_creds env.decode_base64 call.headers (form_or_empty call.form))
          env
          w
          body
unfolding token_endpoint ◌>>=◌ asks
token_endpoint-200 cfg call env w hs body h =
    grant-200 cfg _ (form_or_empty call.form) _ env w hs body h
