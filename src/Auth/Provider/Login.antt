-- ===== src/Auth/Provider/Login.antt =====
-- auth/passthrough.py: when a login issues a session
use cisco_ise_mcp.Prelude.{
  Bool, [], all, ap, false, if◌then◌else◌, is_empty, refl, true, ◌+◌, ◌||◌, ◌∙◌, ◌≡◌,
}
use cisco_ise_mcp.Auth.Context.{AuthContext}
use cisco_ise_mcp.Auth.Provider.{after_validation, create_session, login}
use cisco_ise_mcp.Auth.Session.{Session}
use cisco_ise_mcp.Auth.Store.{create}
use cisco_ise_mcp.Config.Record.{Config}
use cisco_ise_mcp.Errors.{Result, code, err, ok}
use cisco_ise_mcp.Exec.{Exec, caught, on_store, pure, raise, time, token, ◌>>=◌}
use cisco_ise_mcp.Exec.Still.{Still, Still-refl, requests-Still}
use cisco_ise_mcp.Ise.Client.{probe_request, validate_credentials}
use cisco_ise_mcp.Ise.Client.Effects.{validate_credentials-IsQuery}
use cisco_ise_mcp.Ise.Client.Probe.{
  is_accepting, replies, validate_credentials-eq-true, validate_credentials-sent,
}
use cisco_ise_mcp.Ise.Client.Retry.{repeated}
use cisco_ise_mcp.Text.{Text, lit}
use cisco_ise_mcp.World.{Env, World}

abbrev pub own_auth : Text → Text → AuthContext
own_auth username password = record {
  username = username;
  mode = lit "passthrough";
  password = password;
  encoded = [];
}

if-case {ℓ κ} :
    {A : Type ℓ} (P : A → Type κ) (b : Bool) (x y : A) → P x → P y → P (if b then x else y)
if-case P true x y h k = h
if-case P false x y h k = k

if-false {ℓ} : {A : Type ℓ} (b : Bool) (x y : A) → b ≡ false → (if b then x else y) ≡ y
if-false true x y h = cc
if-false false x y h = refl

-- The outcome of a login: a session with the caller's own credentials, for which ISE answered all
-- four probes with a status below 400, stored as `create` stores it; or an authentication error, and
-- the sessions as they were.
pub record Issued (cfg : Config) (username password : Text) (env : Env) (w : World) (s : Session)
    (w' : World) : Type 0 where
  pub username_given : is_empty username ≡ false
  pub password_given : is_empty password ≡ false
  pub accepted :
      all is_accepting (replies env (probe_request cfg username password) 4 w.sent) ≡ true
  pub stored :
      (s, w'.store)
      ≡ create
          (env.clock w.readings)
          (env.token_urlsafe w.tokens)
          username
          (own_auth username password)
          w.store
  pub tokens : w'.tokens ≡ w.tokens + 1
  pub codes : w'.codes ≡ w.codes
  pub sent : w'.sent ≡ repeated 4 (probe_request cfg username password) w.sent

abbrev pub Login : Config → Text → Text → Env → World → Result Session × World → Type 0
Login cfg username password env w (ok s, w') = Issued cfg username password env w s w'
Login cfg username password env w (err e, w') = (code e ≡ lit "auth_error") × Still w w'

after-Login :
    (cfg : Config) (username password : Text) (env : Env) (w w' : World) (r : Result Bool)
    → Still w w'
    → (r ≡ ok true
        → (is_empty username ≡ false)
          × (is_empty password ≡ false)
          × (all is_accepting (replies env (probe_request cfg username password) 4 w.sent) ≡ true)
          × (w'.sent ≡ repeated 4 (probe_request cfg username password) w.sent))
    → Login cfg username password env w (after_validation username password r env w')
unfolding after_validation raise code create_session ◌>>=◌ time token on_store pure
after-Login cfg username password env w w' (err e) same h = (refl, same)
after-Login cfg username password env w w' (ok false) same h = (refl, same)
after-Login cfg username password env w w' (ok true) same h =
    let (u, p, a, probed) = h refl in
    let ap_create : create (env.clock w'.readings) (env.token_urlsafe w'.tokens) username
          (own_auth username password) w'.store
        ≡ create (env.clock w.readings) (env.token_urlsafe w.tokens) username
            (own_auth username password) w.store =
      rw (same.store, same.tokens, same.readings) in
    record {
      username_given = u;
      password_given = p;
      accepted = a;
      stored = ap_create;
      tokens = ap (λ n. n + 1) same.tokens;
      codes = same.codes;
      sent = probed;
    }

-- A login either issues a session with the caller's own credentials, both of them not empty, under the
-- next random token, after it sent ISE four probes with them and nothing else, each of which ISE answered
-- with a status below 400; or it fails with an authentication error and changes neither the sessions, nor
-- the codes, nor the log, and reads no
-- token and no clock.
pub login-Login :
    (cfg : Config) (username password : Text) (env : Env) (w : World)
    → Login cfg username password env w (login cfg username password env w)
unfolding login ◌>>=◌ caught raise code
login-Login cfg username password env w =
    if-case (λ (m : Exec Session). Login cfg username password env w (m env w))
      (is_empty username || is_empty password) _ _ (refl, Still-refl w)
      (after-Login cfg username password env w _ _
        (requests-Still _ env w (validate_credentials-IsQuery cfg username password))
        (λ e.
          let (u, p, a) = (validate_credentials-eq-true cfg username password env w).0 e in
          (u, p, a, validate_credentials-sent cfg username password env w e)))

-- A login for which ISE accepts all four probes succeeds.
pub login_accepted :
    (cfg : Config) (username password : Text) (env : Env) (w : World)
    → is_empty username ≡ false
    → is_empty password ≡ false
    → all is_accepting (replies env (probe_request cfg username password) 4 w.sent) ≡ true
    → (s : Session) × (w' : World) × (login cfg username password env w ≡ (ok s, w'))
unfolding login ◌>>=◌ caught after_validation create_session time token on_store
login_accepted cfg username password env w u p a =
    let valid : (validate_credentials cfg username password env w).0 ≡ ok true =
      (validate_credentials-eq-true cfg username password env w).1 (u, p, a) in
    let w1 = (validate_credentials cfg username password env w).1 in
    let done =
      create (env.clock w1.readings) (env.token_urlsafe w1.tokens) username
        (own_auth username password) w1.store in
    (
      done.0,
      record w1 { readings = w1.readings + 1; tokens = w1.tokens + 1; store = done.1 },
      ap (λ (m : Exec Session). m env w)
            (if-false (is_empty username || is_empty password) _ _ (rw (u, p) refl))
          ∙ ap (λ r. after_validation username password r env w1) valid,
    )
