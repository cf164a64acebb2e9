-- ===== src/Server.antt =====
-- server.py: the requests and answers of the HTTP server
pub mod Gate
pub mod Token
pub mod Page
pub mod Redirect
pub mod Authorize
pub mod Discovery
pub mod Effects
pub mod Serves
pub mod Build
use cisco_ise_mcp.Prelude.{
  List, Option, [], eqb, if◌then◌else◌, ltb, map, none, refl, some, ℕ, ◌*◌, ◌++◌, ◌+◌, ◌-◌, ◌∷◌,
  ◌≡◌,
}
use cisco_ise_mcp.Dict.{Dict, insert, lookup}
use cisco_ise_mcp.Errors.{Result}
use cisco_ise_mcp.Text.{Text, lit, lower, or_text, split, strip}
use cisco_ise_mcp.Tools.{text_or_empty}
use cisco_ise_mcp.Value.{Value}

-- A request: ASGI's type, path and headers, as the bytes that were sent, the parameters of the query, and
-- what reading the form gives, which may raise.

pub record HttpCall : Type 0 where
  pub type : Text
  pub path : Text
  pub headers : List (Text × Text)
  pub query : Dict Text
  pub form : Result (Dict Text)

-- An answer, by the class that the code constructs: status, headers and body.
pub data Answer : Type 0 where
  raw_answer json_page : ℕ → List (Text × Text) → Value → Answer
  plain_page html_page redirect_page : ℕ → Text → Answer

-- A character whose bytes have begun: how many are missing, and its bits so far.
record Pending : Type 0 where
  more : ℕ
  bits : ℕ

abbrev begins : ℕ → Text × Pending
begins b =
    if ltb b 128
    then (b ∷ [], record { more = 0; bits = 0 })
    else if ltb b 224
    then ([], record { more = 1; bits = b - 192 })
    else if ltb b 240
    then ([], record { more = 2; bits = b - 224 })
    else ([], record { more = 3; bits = b - 240 })

-- The next byte: the character that it completes, if any, and what is pending.
abbrev next_byte : Pending → ℕ → Text × Pending
next_byte p b =
    let bits = p.bits * 64 + (b - 128) in
    if eqb p.more 0
    then begins b
    else if eqb p.more 1
    then (bits ∷ [], record { more = 0; bits = 0 })
    else ([], record { more = p.more - 1; bits = bits })

abbrev decode_from : Pending → Text → Text
decode_from p [] = []
decode_from p (b ∷ s) = let step = next_byte p b in step.0 ++ decode_from step.1 s

-- `bytes.decode()`, on bytes that are UTF-8. On others it raises: such requests are not modelled.
abbrev pub decode : Text → Text
decode s = decode_from (record { more = 0; bits = 0 }) s

-- U+00E9 and U+20AC
decode_test : decode (97 ∷ 195 ∷ 169 ∷ 226 ∷ 130 ∷ 172 ∷ []) ≡ 97 ∷ 233 ∷ 8364 ∷ []
decode_test = refl

abbrev add_header : Text × Text → Dict Text → Dict Text
add_header h d = insert (lower (decode h.0)) (decode h.1) d

abbrev pub headers_onto : Dict Text → List (Text × Text) → Dict Text
headers_onto d [] = d
headers_onto d (h ∷ hs) = headers_onto (add_header h d) hs

-- `{k.decode().lower(): v.decode() for k, v in scope.get("headers", [])}`
unfoldable pub headers_of : List (Text × Text) → Dict Text
unfolding insert lower
headers_of hs = headers_onto [] hs

-- Starlette's headers of a request: in their order, with the names in lower case. It decodes them as
-- latin-1, in which every byte is its own code point.
abbrev pub lowered : List (Text × Text) → List (Text × Text)
lowered hs = map (λ (h : Text × Text). (lower h.0, h.1)) hs

-- `d.get(k, "")`
abbrev pub get_text : Dict Text → Text → Text
get_text d k = text_or_empty (lookup k d)

abbrev first_of : List Text → Text
first_of [] = []
first_of (part ∷ parts) = part

abbrev https_or : Option Text → Text
https_or none = lit "https"
https_or (some s) = s

-- `_base_url_from_scope(scope)`
unfoldable pub base_url_from_scope : List (Text × Text) → Text
unfolding headers_of split strip
base_url_from_scope hs =
    let headers = headers_of hs in
    let host =
      or_text (text_or_empty (lookup (lit "x-forwarded-host") headers))
        (get_text headers (lit "host")) in
    let proto =
      strip (first_of (split b',' (https_or (lookup (lit "x-forwarded-proto") headers)))) in
    proto ++ (lit "://" ++ host)
