-- ===== src/World.antt =====
-- The state that the server keeps and what it asks of its surroundings.
use cisco_ise_mcp.Prelude.{Bool, List, Option, ℕ}
use cisco_ise_mcp.Audit.{AuditRecord}
use cisco_ise_mcp.Auth.Store.{SessionStore}
use cisco_ise_mcp.Dict.{Dict}
use cisco_ise_mcp.Prelude.Int.{ℤ}
use cisco_ise_mcp.Text.{Text}
use cisco_ise_mcp.Value.{Value}

-- A request to ISE, as it is handed to httpx; a body `null` is none.
pub record HttpRequest : Type 0 where
  pub method : Text
  pub url : Text
  pub query : List (Text × Value)
  pub json_body : Value
  pub headers : List (Text × Text)
  pub user : Text
  pub password : Text

-- What the server reads of `httpx.Response`: `has_content` is whether the body has bytes, and
-- `json` is what `resp.json()` returns, `none` where it raises a ValueError.
pub record HttpResponse : Type 0 where
  pub status_code : ℕ
  pub retry_after : Option Text
  pub text : Text
  pub has_content : Bool
  pub json : Option Value

-- A response, or an `httpx.TransportError` with its message.
pub data Reply : Type 0 where
  transport_error : Text → Reply
  response : HttpResponse → Reply

-- An XML element as `xml.etree` has it: tag, text and children.
mutual
  pub data Element : Type 0 where
    element : Text → Option Text → Elements → Element

  pub data Elements : Type 0 where
    none_left : Elements
    child : Element → Elements → Elements

-- oauth.py: `_Code`
pub record AuthCode : Type 0 where
  pub client_id : Text
  pub redirect_uri : Text
  pub scope : Text
  pub session_id : Text
  pub challenge : Text
  pub created : ℕ

-- What the program does not implement. A reading of the clock, in microseconds, and a token of
-- `secrets.token_urlsafe(32)` depend on how many were read before; ISE's reply depends on the requests
-- before it, the newest first. `float_ms` is `float(s)` in milliseconds, `decode_base64` is
-- `b64decode(s).decode()`, `code_challenge` is the URL-safe base64 of the SHA-256 digest without its
-- padding, and `parse_xml` is `ET.fromstring`; each is `none` where the library raises.
-- `request_headers` are those of the request that the MCP SDK is serving, names in lower case.
pub record Env : Type 0 where
  pub clock : ℕ → ℕ
  pub token_urlsafe : ℕ → Text
  pub ise : List HttpRequest → HttpRequest → Reply
  pub float_ms : Text → Option ℤ
  pub decode_base64 : Text → Option Text
  pub code_challenge : Text → Text
  pub parse_xml : Text → Option Element
  pub request_headers : List (Text × Text)

-- The sessions, the authorization codes, how often the clock and the tokens were read, the requests
-- that were sent and the pauses that were made, both newest first, and the audit log, oldest first.
pub record World : Type 0 where
  pub store : SessionStore
  pub codes : Dict AuthCode
  pub readings : ℕ
  pub tokens : ℕ
  pub sent : List HttpRequest
  pub slept : List ℤ
  pub audits : List AuditRecord
