-- ===== src/Server/Serves.antt =====
-- What a client that logs in can count on.
use cisco_ise_mcp.Prelude.{
  Option, [], all, ap, false, is_empty, refl, some, subst, sym, true, within, ℕ, ◌∙◌, ◌∷◌, ◌≡◌, ◌≤◌,
}
use cisco_ise_mcp.Auth.Context.{AuthContext}
use cisco_ise_mcp.Auth.Provider.{get_session, login, passthrough, resolve, session_live}
use cisco_ise_mcp.Auth.Provider.Login.{Issued, Login, login-Login, login_accepted, own_auth}
use cisco_ise_mcp.Auth.Session.{Session, is_expired}
use cisco_ise_mcp.Auth.Store.{SessionStore, create, get, new_session}
use cisco_ise_mcp.Auth.Store.View.{IsWithin, get-eq-view, is_expired_iff, live, touched, view}
use cisco_ise_mcp.Config.Record.{Config}
use cisco_ise_mcp.Dict.{Dict, insert, lookup}
use cisco_ise_mcp.Dict.Laws.{lookup-insert_self}
use cisco_ise_mcp.Errors.{Result, ok}
use cisco_ise_mcp.Exec.{asks, caught, lift, on_store, pure, time, ◌>>=◌}
use cisco_ise_mcp.Ise.Client.{probe_request}
use cisco_ise_mcp.Ise.Client.Probe.{is_accepting, replies}
use cisco_ise_mcp.Prelude.Int.{ℤ}
use cisco_ise_mcp.Server.{Answer, HttpCall, get_text}
use cisco_ise_mcp.Server.Gate.Laws.{by_session}
use cisco_ise_mcp.Server.Token.{
  client_credentials, client_creds, form_or_empty, grant, login_grant, token_endpoint,
}
use cisco_ise_mcp.Text.{Text, lit, strip}
use cisco_ise_mcp.Text.Laws.{==_refl}
use cisco_ise_mcp.Tools.{is_api_key, resolve_token, session_valid}
use cisco_ise_mcp.World.{Env, World}

-- The session of a login, while it stands in the store as the login left it.
record IsStanding (username password : Text) (sid : Text) (created : ℕ) (ttl idle : ℤ) (w : World)
    : Type 0 where
  session : Session
  found : lookup sid w.store.sessions ≡ some session
  own : session.auth ≡ own_auth username password
  at : session.created_at ≡ created
  used : session.last_used_at ≡ created
  ttl_of : session.ttl_seconds ≡ ttl
  idle_of : session.idle_timeout_seconds ≡ idle

login-IsStanding :
    (cfg : Config) (username password : Text) (env : Env) (w w1 later : World) (s : Session)
    → Issued cfg username password env w s w1
    → lookup s.session_id later.store.sessions ≡ lookup s.session_id w1.store.sessions
    → IsStanding username password s.session_id s.created_at w.store.ttl w.store.idle later
unfolding create
login-IsStanding cfg username password env w w1 later s i same =
    let token = env.token_urlsafe w.tokens in
    let made =
      new_session w.store (env.clock w.readings) token username (own_auth username password) in
    let e : s ≡ made = ap (λ (r : Session × SessionStore). r.0) i.stored in
    let stored : w1.store.sessions ≡ insert token made w.store.sessions =
      ap (λ (r : Session × SessionStore). r.1.sessions) i.stored in
    let id : s.session_id ≡ token = ap (λ (x : Session). x.session_id) e in
    record {
      session = made;
      found =
          same
          ∙ ap (lookup s.session_id) stored
          ∙ ap (λ k. lookup k (insert token made w.store.sessions)) id
          ∙ lookup-insert_self token made w.store.sessions;
      own = refl;
      at = sym (ap (λ (x : Session). x.created_at) e);
      used = sym (ap (λ (x : Session). x.created_at) e);
      ttl_of = refl;
      idle_of = refl;
    }

-- The id of a standing session resolves to its identity within both limits.
standing-resolve :
    (username password : Text) (c : ℕ) (sid : Text) (created : ℕ) (ttl idle : ℤ) (env : Env)
    (w : World)
    → IsStanding username password (c ∷ sid) created ttl idle w
    → created ≤ env.clock w.readings
    → IsWithin created created (env.clock w.readings) ttl idle
    → ((session_live (some (c ∷ sid)) env w).0 ≡ ok true)
      × ((resolve passthrough (some (c ∷ sid)) env w).0 ≡ ok (own_auth username password))
unfolding session_live resolve ◌>>=◌ get_session pure time on_store lift view
standing-resolve username password c sid created ttl idle env w st le within =
    let now = env.clock w.readings in
    let alive : is_expired now st.session ≡ false =
      (is_expired_iff now st.session (rw st.at le) (rw st.used le)).1
        (rw (st.at, st.used, st.ttl_of, st.idle_of) within) in
    let got : (get now (some (c ∷ sid)) w.store).0
        ≡ some (record st.session { last_used_at = now }) =
      get-eq-view now c sid w.store
      ∙ ap (λ found. touched now (live now found)) st.found
      ∙ rw alive refl in
    (rw got refl, rw got (ap ok st.own))

granted_login :
    (cfg : Config) (cid csec : Text) (form : Dict Text) (env : Env) (w w1 : World) (s : Session)
    → is_empty cid ≡ false
    → is_empty csec ≡ false
    → login cfg cid csec env w ≡ (ok s, w1)
    → grant cfg (lit "client_credentials") form (some cid, some csec) env w
      ≡ (ok (login_grant cfg (ok s)), w1)
unfolding grant client_credentials ◌>>=◌ caught pure
granted_login cfg [] csec form env w w1 s h k e = cc
granted_login cfg (c ∷ cid) [] form env w w1 s h k e = cc
granted_login cfg (c ∷ cid) (d ∷ csec) form env w w1 s h k e =
    rw (==_refl (lit "client_credentials"))
      (ap (λ (r : Result Session × World). (ok (login_grant cfg r.0), r.1)) e)

token_login :
    (cfg : Config) (call : HttpCall) (username password : Text) (env : Env) (w w1 : World)
    (s : Session)
    → strip (get_text (form_or_empty call.form) (lit "grant_type")) ≡ lit "client_credentials"
    → client_creds env.decode_base64 call.headers (form_or_empty call.form)
      ≡ (some username, some password)
    → is_empty username ≡ false
    → is_empty password ≡ false
    → login cfg username password env w ≡ (ok s, w1)
    → token_endpoint (by_session cfg) call env w ≡ (ok (login_grant cfg (ok s)), w1)
unfolding token_endpoint ◌>>=◌ asks
token_login cfg call username password env w w1 s kind creds u p e =
    ap
      (λ k.
        grant cfg k (form_or_empty call.form)
          (client_creds env.decode_base64 call.headers (form_or_empty call.form)) env w)
      kind
    ∙ ap (λ k. grant cfg (lit "client_credentials") (form_or_empty call.form) k env w) creds
    ∙ granted_login cfg username password (form_or_empty call.form) env w w1 s u p e

-- An id that is no API key is looked up in the store.
no_key_valid :
    (cfg : Config) (tok : Option Text) (auth : AuthContext) (env : Env) (w : World)
    → is_api_key cfg tok ≡ ok false
    → ((session_live tok env w).0 ≡ ok true) × ((resolve passthrough tok env w).0 ≡ ok auth)
    → ((session_valid (by_session cfg) tok env w).0 ≡ ok true)
      × ((resolve_token (by_session cfg) tok env w).0 ≡ ok auth)
unfolding session_valid resolve_token ◌>>=◌ lift
no_key_valid cfg tok auth env w no_key (live_, own) = (rw no_key live_, rw no_key own)

-- A client that asks /token for a token with its ISE credentials, neither of them empty, gets one if ISE
-- answers four probes with them with a status below 400; and as long as its session stands in the store
-- as the login left it and neither timeout has passed, the token is valid and resolves to the client's
-- own identity, unless it is one of the API keys.
pub token_endpoint-serves :
    (cfg : Config) (call : HttpCall) (username password : Text) (c : ℕ) (sid : Text) (env : Env)
    (w later : World)
    → strip (get_text (form_or_empty call.form) (lit "grant_type")) ≡ lit "client_credentials"
    → client_creds env.decode_base64 call.headers (form_or_empty call.form)
      ≡ (some username, some password)
    → is_empty username ≡ false
    → is_empty password ≡ false
    → all is_accepting (replies env (probe_request cfg username password) 4 w.sent) ≡ true
    → env.token_urlsafe w.tokens ≡ c ∷ sid
    → is_api_key cfg (some (c ∷ sid)) ≡ ok false
    → lookup (c ∷ sid) later.store.sessions
      ≡ lookup (c ∷ sid) (token_endpoint (by_session cfg) call env w).1.store.sessions
    → env.clock w.readings ≤ env.clock later.readings
    → IsWithin
        (env.clock w.readings)
        (env.clock w.readings)
        (env.clock later.readings)
        w.store.ttl
        w.store.idle
    → (s : Session) × (s.session_id ≡ c ∷ sid)
      × ((token_endpoint (by_session cfg) call env w).0 ≡ ok (login_grant cfg (ok s)))
      × ((session_valid (by_session cfg) (some (c ∷ sid)) env later).0 ≡ ok true)
      × ((resolve_token (by_session cfg) (some (c ∷ sid)) env later).0
          ≡ ok (own_auth username password))
token_endpoint-serves cfg call username password c sid env w later kind creds u p accepted drawn
      no_key same le within =
    let (s, w1, e) = login_accepted cfg username password env w u p accepted in
    let i : Issued cfg username password env w s w1 =
      subst (Login cfg username password env w) e (login-Login cfg username password env w) in
    let answered = token_login cfg call username password env w w1 s kind creds u p e in
    let made = ap (λ (r : Session × SessionStore). r.0) i.stored in
    let id : s.session_id ≡ c ∷ sid =
      ap (λ (x : Session). x.session_id) made ∙ unfold create in drawn in
    let created : s.created_at ≡ env.clock w.readings =
      ap (λ (x : Session). x.created_at) made ∙ unfold create in refl in
    let standing : IsStanding username password (c ∷ sid) (env.clock w.readings) w.store.ttl
        w.store.idle later =
      subst
        (λ k. IsStanding username password k (env.clock w.readings) w.store.ttl w.store.idle later)
        id
        (subst (λ t. IsStanding username password s.session_id t w.store.ttl w.store.idle later)
          created
          (login-IsStanding cfg username password env w w1 later s i (
            ap (λ k. lookup k later.store.sessions) id
            ∙ same
            ∙ ap (λ (r : Result Answer × World). lookup (c ∷ sid) r.1.store.sessions) answered
            ∙ ap (λ k. lookup k w1.store.sessions) (sym id)))) in
    let (valid, own) =
      no_key_valid cfg (some (c ∷ sid)) (own_auth username password) env later no_key (
        standing-resolve username password c sid (env.clock w.readings) w.store.ttl w.store.idle env
          later standing le within) in
    (s, id, ap (λ (r : Result Answer × World). r.0) answered, valid, own)
