-- ===== src/Ise/Client.antt =====
-- ise/client.py: `IseClient`
pub mod Retry
pub mod Loop
pub mod Probe
pub mod Effects
use cisco_ise_mcp.Prelude.{
  Bool, List, Option, [], eqb, false, if◌then◌else◌, is_empty, leb, min, none, not, some, suc, take,
  true, zero, ℕ, ◌*◌, ◌++◌, ◌+◌, ◌^◌, ◌||◌, ◌∷◌,
}
use cisco_ise_mcp.Auth.Context.{AuthContext, basic_auth}
use cisco_ise_mcp.Config.Record.{Config, ers_base}
use cisco_ise_mcp.Errors.{Result, err, ise_api_error, not_found, ok, rate_limited, status}
use cisco_ise_mcp.Exec.{Exec, asks, lift, pure, raise, send, sleep, ◌>>=◌, ◌>>◌}
use cisco_ise_mcp.Prelude.Int.{min_ℤ, pos, ℤ}
use cisco_ise_mcp.Text.{Text, lit, show_ℕ}
use cisco_ise_mcp.Value.{Value, dict, null, str}
use cisco_ise_mcp.World.{HttpRequest, HttpResponse, Reply, response, transport_error}

-- `resp.text[:500]`
abbrev safe_body : HttpResponse → Text
safe_body r = take 500 r.text

abbrev json_or_text : HttpResponse → Option Value → Value
json_or_text r none = dict ((lit "_text", str r.text) ∷ [])
json_or_text r (some v) = v

-- `_handle(resp, parse)`: the flag says that `parse` is "text".
unfoldable pub handle : HttpResponse → Bool → Result Value
handle r as_text =
    if eqb r.status_code 404
    then err (not_found (lit "ISE resource not found") (some 404) none)
    else if eqb r.status_code 401
    then err (ise_api_error (lit "ISE authentication failed (401)") (some 401) none)
    else if eqb r.status_code 403
    then err (ise_api_error (lit "ISE authorization denied (403)") (some 403) none)
    else if leb 400 r.status_code
    then err (
        ise_api_error (lit "ISE returned " ++ show_ℕ r.status_code) (some r.status_code)
          (some (safe_body r)))
    else if as_text
    then ok (str r.text)
    else if not r.has_content
    then ok (dict [])
    else ok (json_or_text r r.json)

abbrev pub max_retries : ℕ
max_retries = 3

-- `status in _TRANSIENT`
abbrev pub is_transient : ℕ → Bool
is_transient status = eqb status 502 || eqb status 503 || eqb status 504

-- `min(2 ** attempt * 0.5, 8)` seconds, in milliseconds
abbrev pub exponential_ms : ℕ → ℤ
exponential_ms attempt = pos (min (2 ^ attempt * 500) 8000)

-- `min(float(retry_after), 30)` seconds, or the exponential pause where `float` raises.
abbrev pub pause_ms : (Text → Option ℤ) → ℕ → Option Text → ℤ
pause_ms float_ms attempt none = exponential_ms attempt
pause_ms float_ms attempt (some []) = exponential_ms attempt
pause_ms float_ms attempt (some (c ∷ s)) = elim (float_ms (c ∷ s)) [
  | none ↦ exponential_ms attempt
  | some ms ↦ min_ℤ ms (pos 30000)
]

-- `_backoff(attempt, retry_after)`
unfoldable pub backoff : ℕ → Option Text → Exec (Unit {0})
unfolding ◌>>=◌ asks sleep
backoff attempt retry_after = do
  ms ← asks (λ env. pause_ms env.float_ms attempt retry_after)
  sleep ms

-- What the loop does with a reply. `again` is the next round of the loop, and is `none` where
-- `attempt <= _MAX_RETRIES` fails.
unfoldable pub on_reply : Config → Bool → ℕ → Option (Exec Value) → Reply → Exec Value
unfolding backoff handle
on_reply cfg as_text attempt none (transport_error m) =
    raise (ise_api_error (lit "ISE transport error: " ++ m) none none)
on_reply cfg as_text attempt (some again) (transport_error m) = do backoff attempt none; again
on_reply cfg as_text attempt none (response r) =
    if eqb r.status_code 429
    then raise (rate_limited (lit "ISE rate limit exceeded") (some 429) none)
    else lift (handle r as_text)
on_reply cfg as_text attempt (some again) (response r) =
    if eqb r.status_code 429
    then (if cfg.rate_limit_wait
        then (do backoff attempt r.retry_after; again)
        else raise (rate_limited (lit "ISE rate limit exceeded") (some 429) none))
    else if is_transient r.status_code
    then (do backoff attempt none; again)
    else lift (handle r as_text)

-- The loop of `request`, with `left` retries left: `left + attempt` is `_MAX_RETRIES + 1`.
unfoldable pub request_loop : Config → Bool → HttpRequest → ℕ → ℕ → Exec Value
unfolding ◌>>=◌ send on_reply
request_loop cfg as_text req zero attempt = do
  reply ← send req
  on_reply cfg as_text attempt none reply
request_loop cfg as_text req (suc left) attempt =
    let again = request_loop cfg as_text req left (attempt + 1) in
    do reply ← send req; on_reply cfg as_text attempt (some again) reply

abbrev content_type : Value → List (Text × Text)
content_type null = []
content_type _ = (lit "Content-Type", lit "application/json") ∷ []

-- The request that `request` sends, with the credentials of the identity.
abbrev pub request_of : Text → Text → List (Text × Value) → Value → Text → Text × Text → HttpRequest
request_of method url params json_body accept creds = record {
  method = method;
  url = url;
  query = params;
  json_body = json_body;
  headers = (lit "Accept", accept) ∷ content_type json_body;
  user = creds.0;
  password = creds.1;
}

-- `request(method, base, path, auth, params=..., json_body=..., accept=..., parse=...)`
unfoldable pub request :
    Config → Text → Text → AuthContext → List (Text × Value) → Value → Text → Bool → Exec Value
unfolding ◌>>=◌ asks request_loop basic_auth
request cfg method url auth params json_body accept as_text = do
  decode ← asks (λ env. env.decode_base64)
  creds ← lift (basic_auth decode auth)
  request_loop cfg as_text (request_of method url params json_body accept creds) max_retries 1

abbrev pub probe_request : Config → Text → Text → HttpRequest
probe_request cfg username password = record {
  method = lit "GET";
  url = ers_base cfg ++ lit "/ers/config/node?size=1";
  query = [];
  json_body = null;
  headers = (lit "Accept", lit "application/json") ∷ (lit "Connection", lit "close") ∷ [];
  user = username;
  password = password;
}

-- What a probe makes of its reply; `next` are the probes that are left.
unfoldable pub on_probe : Exec Bool → Reply → Exec Bool
on_probe next (transport_error m) =
    raise (ise_api_error (lit "credential validation transport error: " ++ m) none none)
on_probe next (response r) =
    if eqb r.status_code 401
    then pure false
    else if leb 400 r.status_code
    then raise (
        ise_api_error (lit "unexpected validation status " ++ show_ℕ r.status_code)
          (some r.status_code) none)
    else next

unfoldable pub probes : HttpRequest → ℕ → Exec Bool
unfolding ◌>>=◌ send on_probe
probes req zero = pure true
probes req (suc n) = let next = probes req n in do reply ← send req; on_probe next reply

-- `validate_credentials(username, password)`
unfoldable pub validate_credentials : Config → Text → Text → Exec Bool
unfolding probes
validate_credentials cfg username password =
    if is_empty username || is_empty password
    then pure false
    else probes (probe_request cfg username password) 4
