-- ===== src/Oauth/RoundTrip.antt =====
-- A code that was issued is redeemed for the session of the login.
use cisco_ise_mcp.Prelude.{Option, ap, arith, refl, some, true, ℕ, ◌*◌, ◌+◌, ◌∙◌, ◌≡◌, ◌≤◌}
use cisco_ise_mcp.Auth.Provider.{login}
use cisco_ise_mcp.Auth.Session.{Session, microseconds}
use cisco_ise_mcp.Config.Record.{Config}
use cisco_ise_mcp.Dict.{insert, lookup}
use cisco_ise_mcp.Dict.Laws.{lookup-insert_self}
use cisco_ise_mcp.Errors.{ok}
use cisco_ise_mcp.Exec.{on_codes, pure, time, token, ◌>>=◌}
use cisco_ise_mcp.Oauth.{
  client_ok, code_ttl, exchange_code, granted_token, login_and_issue_code, pkce_ok,
}
use cisco_ise_mcp.Oauth.Laws.{exchange_known, popped, redeem_answer}
use cisco_ise_mcp.Text.{Text, or_text}
use cisco_ise_mcp.Text.Laws.{==_refl}
use cisco_ise_mcp.Tools.{session_id}
use cisco_ise_mcp.World.{AuthCode, Env, World}

-- The code that is stored for a login.
abbrev pub stored_code : Config → Text → Text → Text → Text → Text → ℕ → AuthCode
stored_code cfg client_id redirect_uri scope challenge session_id now = record {
  client_id = client_id;
  redirect_uri = redirect_uri;
  scope = or_text scope cfg.oauth_scopes;
  session_id = session_id;
  challenge = challenge;
  created = now;
}

pub issue_lem :
    (cfg : Config) (username password client_id redirect_uri scope challenge : Text) (env : Env)
    (w w1 : World) (s : Session)
    → login cfg username password env w ≡ (ok s, w1)
    → login_and_issue_code cfg username password client_id redirect_uri scope challenge env w ≡ (
      ok (env.token_urlsafe w1.tokens),
      record w1 {
        tokens = w1.tokens + 1;
        readings = w1.readings + 1;
        codes =
            insert
              (env.token_urlsafe w1.tokens)
              (stored_code cfg client_id redirect_uri scope challenge s.session_id
                (env.clock w1.readings))
              w1.codes;
      },
    )
unfolding login_and_issue_code ◌>>=◌ token time on_codes pure
issue_lem cfg username password client_id redirect_uri scope challenge env w w1 s h = rw h refl

popped_held :
    (key : Text) (rec : AuthCode) (env : Env) (w : World)
    → lookup key w.codes ≡ some rec
    → env.clock w.readings ≤ rec.created + code_ttl * microseconds
    → (popped (some key) env w).0 ≡ some rec
popped_held key rec env w held young = rw held (ground arith)

own_answer :
    (challenge_of : Text → Text) (verifier : Option Text) (rec : AuthCode)
    → pkce_ok challenge_of rec verifier ≡ ok true
    → redeem_answer challenge_of (some rec.redirect_uri) (some rec.client_id) verifier (some rec)
      ≡ ok (granted_token rec)
own_answer challenge_of verifier rec proven =
    rw (==_refl rec.client_id, ==_refl rec.redirect_uri, proven) refl

-- A client with the right credentials gets a token for a code that is held, was issued to it for this
-- redirection no longer ago than the time to live, and whose proof of possession is accepted.
pub exchange_held :
    (cfg : Config) (key : Text) (client_secret verifier : Option Text) (rec : AuthCode) (env : Env)
    (w : World)
    → lookup key w.codes ≡ some rec
    → client_ok cfg (some rec.client_id) client_secret ≡ ok true
    → pkce_ok env.code_challenge rec verifier ≡ ok true
    → env.clock w.readings ≤ rec.created + code_ttl * microseconds
    → (exchange_code cfg
        (some key)
        (some rec.redirect_uri)
        (some rec.client_id)
        client_secret
        verifier
        env
        w).0
      ≡ ok (granted_token rec)
exchange_held cfg key client_secret verifier rec env w held known proven young =
    ap (λ r. r.0)
      (exchange_known cfg (some key) (some rec.redirect_uri) (some rec.client_id) client_secret
        verifier env w known)
    ∙ ap (redeem_answer env.code_challenge (some rec.redirect_uri) (some rec.client_id) verifier)
        (popped_held key rec env w held young)
    ∙ own_answer env.code_challenge verifier rec proven

-- When the login of the sign-in form issues a session, the form issues a code; and while the codes are
-- those that it left, a client with the right credentials that presents this code with the redirection
-- and an accepted proof of possession, at most 120 seconds after the code was issued, gets a token for
-- that session.
pub issue-exchange :
    (cfg : Config) (username password client_id redirect_uri scope challenge : Text)
    (client_secret verifier : Option Text) (env : Env) (w w1 later : World) (s : Session)
    → login cfg username password env w ≡ (ok s, w1)
    → later.codes
      ≡ (login_and_issue_code cfg username password client_id redirect_uri scope challenge env
          w).1.codes
    → client_ok cfg (some client_id) client_secret ≡ ok true
    → pkce_ok env.code_challenge
        (stored_code cfg client_id redirect_uri scope challenge s.session_id
          (env.clock w1.readings))
        verifier
      ≡ ok true
    → env.clock later.readings ≤ env.clock w1.readings + code_ttl * microseconds
    → ((login_and_issue_code cfg username password client_id redirect_uri scope challenge env w).0
        ≡ ok (env.token_urlsafe w1.tokens))
      × ((exchange_code cfg
            (some (env.token_urlsafe w1.tokens))
            (some redirect_uri)
            (some client_id)
            client_secret
            verifier
            env
            later).0
          ≡ ok (
              granted_token (
                stored_code cfg client_id redirect_uri scope challenge s.session_id
                  (env.clock w1.readings))))
issue-exchange cfg username password client_id redirect_uri scope challenge client_secret verifier
      env w w1 later s logged_in same known proven young =
    let key = env.token_urlsafe w1.tokens in
    let rec =
      stored_code cfg client_id redirect_uri scope challenge s.session_id (env.clock w1.readings) in
    let issued =
      issue_lem cfg username password client_id redirect_uri scope challenge env w w1 s logged_in in
    let held : lookup key later.codes ≡ some rec =
      ap (lookup key) (same ∙ ap (λ r. r.1.codes) issued) ∙ lookup-insert_self key rec w1.codes in
    (
      ap (λ r. r.0) issued,
      exchange_held cfg key client_secret verifier rec env later held known proven young,
    )
