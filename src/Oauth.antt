-- ===== src/Oauth.antt =====
-- oauth.py: the authorization server of the sign-in flow
pub mod Laws
pub mod Grants
pub mod SingleUse
pub mod RoundTrip
use cisco_ise_mcp.Prelude.{
  Bool, List, Option, [], all, false, if◌then◌else◌, is_empty, ltb, none, not, some, true, ℕ, ◌&&◌,
  ◌*◌, ◌+◌, ◌||◌, ◌∷◌,
}
use cisco_ise_mcp.Auth.Provider.{login}
use cisco_ise_mcp.Auth.Session.{microseconds}
use cisco_ise_mcp.Config.Record.{Config}
use cisco_ise_mcp.Dict.{Dict, insert, lookup, remove}
use cisco_ise_mcp.Errors.{Result, err, ok, python_error}
use cisco_ise_mcp.Exec.{Exec, asks, lift, on_codes, pure, time, token, ◌>>=◌, ◌>>◌}
use cisco_ise_mcp.Text.{Text, contains, lit, or_text, ◌==◌}
use cisco_ise_mcp.Value.{Value, int, str}
use cisco_ise_mcp.World.{AuthCode}

abbrev pub code_ttl : ℕ
code_ttl = 120

-- `enabled`
unfoldable pub enabled : Config → Bool
enabled cfg = not (is_empty cfg.oauth_client_id) && not (is_empty cfg.oauth_client_secret)

-- `secrets.compare_digest(a, b)` for texts: it raises unless both are ASCII.
unfoldable pub compare_digest : Text → Text → Result Bool
compare_digest a b =
    if all (λ c. ltb c 128) a && all (λ c. ltb c 128) b
    then ok (a == b)
    else err (
        python_error (lit "TypeError")
          (lit "comparing strings with non-ASCII characters is not supported"))

abbrev and_then : Result Bool → Result Bool → Result Bool
and_then (err e) r = err e
and_then (ok false) r = ok false
and_then (ok true) r = r

-- `client_ok(cid, csec)`
unfoldable pub client_ok : Config → Option Text → Option Text → Result Bool
unfolding compare_digest
client_ok cfg none csec = ok false
client_ok cfg (some cid) none = ok false
client_ok cfg (some cid) (some csec) =
    if is_empty cid || is_empty csec
    then ok false
    else and_then (compare_digest cid cfg.oauth_client_id)
        (compare_digest csec cfg.oauth_client_secret)

-- `redirect_ok(uri)`
unfoldable pub redirect_ok : Config → Option Text → Bool
redirect_ok cfg none = false
redirect_ok cfg (some uri) = not (is_empty uri) && contains cfg.oauth_redirect_uris uri

-- `login_and_issue_code(...)`
unfoldable pub login_and_issue_code : Config → Text → Text → Text → Text → Text → Text → Exec Text
unfolding ◌>>=◌ login token time on_codes
login_and_issue_code cfg username password client_id redirect_uri scope challenge = do
  sess ← login cfg username password
  issued ← token
  now ← time
  on_codes (λ codes. (
    tt {0},
    insert issued
        (record {
          client_id = client_id;
          redirect_uri = redirect_uri;
          scope = or_text scope cfg.oauth_scopes;
          session_id = sess.session_id;
          challenge = challenge;
          created = now;
        })
        codes,
  ))
  pure issued

-- `self._codes.pop(code, None)`; a request without a code looks for None, which is no key.
abbrev pub pop : Option Text → Dict AuthCode → Option AuthCode × Dict AuthCode
pop none codes = (none, codes)
pop (some issued) codes = (lookup issued codes, remove issued codes)

-- A code that was popped, unless it is older than its time to live.
abbrev pub fresh : Option AuthCode → ℕ → Option AuthCode
fresh none now = none
fresh (some rec) now = if ltb (rec.created + code_ttl * microseconds) now then none else some rec

-- `_pop_code(code)`: the clock is read only if the code was there.
abbrev pub pop_fresh : Option AuthCode → Exec (Option AuthCode)
pop_fresh none = pure none
pop_fresh (some rec) = do now ← time; pure (fresh (some rec) now)

unfoldable pub pop_code : Option Text → Exec (Option AuthCode)
unfolding ◌>>=◌ on_codes time
pop_code issued = do rec ← on_codes (pop issued); pop_fresh rec

-- `_pkce_ok(rec, verifier)`, where `challenge_of` is the digest of a verifier
unfoldable pub pkce_ok : (Text → Text) → AuthCode → Option Text → Result Bool
unfolding compare_digest
pkce_ok challenge_of rec verifier = if is_empty rec.challenge then ok true else elim verifier [
  | none ↦ ok false
  | some v ↦ if is_empty v then ok false else compare_digest (challenge_of v) rec.challenge
]

-- `_base_token(session_id, scope)`
unfoldable pub base_token : Config → Text → Text → List (Text × Value)
base_token cfg session_id scope =
    (lit "access_token", str session_id)
    ∷ (lit "token_type", str (lit "Bearer"))
    ∷ (lit "expires_in", int cfg.session_ttl_seconds)
    ∷ (lit "scope", str scope)
    ∷ []

-- A token, or the code of an OAuth error.
pub data Exchange : Type 0 where
  granted_token : AuthCode → Exchange
  invalid_client invalid_grant : Exchange

-- `rec.client_id != client_id or rec.redirect_uri != redirect_uri` fails
abbrev pub issued_to : Option Text → Option Text → AuthCode → Bool
issued_to none redirect_uri rec = false
issued_to (some cid) none rec = false
issued_to (some cid) (some uri) rec = rec.client_id == cid && rec.redirect_uri == uri

abbrev pub pkce_result : AuthCode → Bool → Exchange
pkce_result rec true = granted_token rec
pkce_result rec false = invalid_grant

-- What `exchange_code` does with the code that it has popped.
unfoldable pub redeem : Option Text → Option Text → Option Text → Option AuthCode → Exec Exchange
unfolding ◌>>=◌ asks pkce_ok
redeem redirect_uri client_id verifier none = pure invalid_grant
redeem redirect_uri client_id verifier (some rec) =
    if issued_to client_id redirect_uri rec
    then (do
      challenge_of ← asks (λ env. env.code_challenge)
      proven ← lift (pkce_ok challenge_of rec verifier)
      pure (pkce_result rec proven))
    else pure invalid_grant

abbrev pub redeem_for : Bool → Option Text → Option Text → Option Text → Option Text → Exec Exchange
redeem_for false issued redirect_uri client_id verifier = pure invalid_client
redeem_for true issued redirect_uri client_id verifier = do
  rec ← pop_code issued
  redeem redirect_uri client_id verifier rec

-- `exchange_code(code=..., redirect_uri=..., client_id=..., client_secret=..., verifier=...)`
unfoldable pub exchange_code :
    Config → Option Text → Option Text → Option Text → Option Text → Option Text → Exec Exchange
unfolding ◌>>=◌ pop_code redeem client_ok
exchange_code cfg issued redirect_uri client_id client_secret verifier = do
  known ← lift (client_ok cfg client_id client_secret)
  redeem_for known issued redirect_uri client_id verifier

-- `refresh(...)`
unfoldable pub refresh : Config → Option Text → Option Text → Exec Exchange
unfolding ◌>>=◌ client_ok
refresh cfg client_id client_secret = do
  known ← lift (client_ok cfg client_id client_secret)
  pure (if known then invalid_grant else invalid_client)
