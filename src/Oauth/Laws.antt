-- ===== src/Oauth/Laws.antt =====
-- What an exchange of a code for a token asks for, and what it does to the codes.
use cisco_ise_mcp.Prelude.{
  Bool, Bool-cases, Option, [], false, if◌then◌else◌, inl, inr, none, refl, some, true, ◌*◌, ◌+◌,
  ◌≡◌, ◌≢◌, ◌≤◌, ◌⊎◌,
}
use cisco_ise_mcp.Auth.Session.{microseconds}
use cisco_ise_mcp.Config.Record.{Config}
use cisco_ise_mcp.Dict.{lookup, remove}
use cisco_ise_mcp.Errors.{Result, err, ok}
use cisco_ise_mcp.Exec.{asks, continue, on_codes, pure, time, ◌>>=◌}
use cisco_ise_mcp.Exec.Frame.{lift-bind-pure, map_result}
use cisco_ise_mcp.Oauth.{
  Exchange, client_ok, code_ttl, exchange_code, fresh, granted_token, invalid_grant, issued_to,
  pkce_ok, pkce_result, pop_code, pop_fresh, redeem, redeem_for,
}
use cisco_ise_mcp.Text.{Text}
use cisco_ise_mcp.World.{AuthCode, Env, World}

-- The proof of possession that a code asks for.
abbrev pub IsProven : (Text → Text) → AuthCode → Option Text → Type 0
IsProven challenge_of rec verifier =
    (rec.challenge ≡ []) ⊎ ((v : Text) × (verifier ≡ some v) × (challenge_of v ≡ rec.challenge))

-- Everything that a granted token stands on: the client's own credentials, and a code that was held,
-- was issued to this client and this redirection, is not too old, and is proven.
pub record IsGrantable (cfg : Config) (env : Env) (w : World)
    (issued redirect_uri client_id secret verifier : Option Text) (rec : AuthCode) : Type 0 where
  pub client : client_ok cfg client_id secret ≡ ok true
  pub key : Text
  pub presented : issued ≡ some key
  pub held : lookup key w.codes ≡ some rec
  pub same_client : client_id ≡ some rec.client_id
  pub same_redirect : redirect_uri ≡ some rec.redirect_uri
  pub young : env.clock w.readings ≤ rec.created + code_ttl * microseconds
  pub proven : IsProven env.code_challenge rec verifier

-- What `redeem` answers. It only reads.
abbrev pub redeem_answer :
    (Text → Text) → Option Text → Option Text → Option Text → Option AuthCode → Result Exchange
redeem_answer challenge_of redirect_uri client_id verifier none = ok invalid_grant
redeem_answer challenge_of redirect_uri client_id verifier (some rec) =
    if issued_to client_id redirect_uri rec
    then map_result (pkce_result rec) (pkce_ok challenge_of rec verifier)
    else ok invalid_grant

redeem_lem :
    (redirect_uri client_id verifier : Option Text) (found : Option AuthCode) (env : Env)
    (w : World)
    → redeem redirect_uri client_id verifier found env w
      ≡ (redeem_answer env.code_challenge redirect_uri client_id verifier found, w)
unfolding redeem
redeem_lem redirect_uri client_id verifier none env w = unfold pure in refl
redeem_lem redirect_uri client_id verifier (some rec) env w =
    elim (Bool-cases (issued_to client_id redirect_uri rec)) [
      | inl e ↦
          rw (e, ◌>>=◌)
            (unfold asks in
              lift-bind-pure (pkce_ok env.code_challenge rec verifier) (pkce_result rec) env w)
      | inr e ↦ rw e (unfold pure in refl)
    ]

-- What `pop_code` finds, and the world after it.
abbrev pub popped_at : Text → Option AuthCode → Env → World → Option AuthCode × World
popped_at key none env w = (none, record w { codes = remove key w.codes })
popped_at key (some rec) env w = (
  fresh (some rec) (env.clock w.readings),
  record w { codes = remove key w.codes; readings = w.readings + 1 },
)

abbrev pub popped : Option Text → Env → World → Option AuthCode × World
popped none env w = (none, w)
popped (some key) env w = popped_at key (lookup key w.codes) env w

pop_code_lem :
    (issued : Option Text) (env : Env) (w : World)
    → pop_code issued env w ≡ (ok (popped issued env w).0, (popped issued env w).1)
unfolding pop_code
pop_code_lem none env w = unfold ◌>>=◌ on_codes in refl
pop_code_lem (some key) env w = unfold ◌>>=◌ on_codes time in found_lem (lookup key w.codes)
  where
    found_lem :
        (found : Option AuthCode)
        → pop_fresh found env (record w { codes = remove key w.codes })
          ≡ (ok (popped_at key found env w).0, (popped_at key found env w).1)
    found_lem none = refl
    found_lem (some rec) = refl

-- An exchange by a client with the right credentials.
pub exchange_known :
    (cfg : Config) (issued redirect_uri client_id secret verifier : Option Text) (env : Env)
    (w : World)
    → client_ok cfg client_id secret ≡ ok true
    → exchange_code cfg issued redirect_uri client_id secret verifier env w ≡ (
      redeem_answer env.code_challenge redirect_uri client_id verifier (popped issued env w).0,
      (popped issued env w).1,
    )
unfolding exchange_code ◌>>=◌
exchange_known cfg issued redirect_uri client_id secret verifier env w h =
    rw (h, pop_code_lem issued env w)
      (redeem_lem redirect_uri client_id verifier (popped issued env w).0 env
        (popped issued env w).1)

-- Any other client changes nothing and gets no token.
pub exchange_unknown :
    (cfg : Config) (issued redirect_uri client_id secret verifier : Option Text) (env : Env)
    (w : World)
    → client_ok cfg client_id secret ≢ ok true
    → ((exchange_code cfg issued redirect_uri client_id secret verifier env w).1 ≡ w)
      × ((rec : AuthCode)
          → (exchange_code cfg issued redirect_uri client_id secret verifier env w).0
            ≢ ok (granted_token rec))
unfolding exchange_code ◌>>=◌
exchange_unknown cfg issued redirect_uri client_id secret verifier env w h =
    unknown (client_ok cfg client_id secret) h
  where
    unknown :
        (known : Result Bool)
        → known ≢ ok true
        → ((continue known (λ k. redeem_for k issued redirect_uri client_id verifier) env w).1 ≡ w)
          × ((rec : AuthCode)
              → (continue known (λ k. redeem_for k issued redirect_uri client_id verifier) env w).0
                ≢ ok (granted_token rec))
    unknown (ok true) ne = absurd (ne refl)
    unknown (ok false) ne = (refl, λ rec e. cc)
    unknown (err x) ne = (refl, λ rec e. cc)
