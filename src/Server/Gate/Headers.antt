-- ===== src/Server/Gate/Headers.antt =====
-- The gate and the tools read the session id of a request from the same headers.
use cisco_ise_mcp.Prelude.{
  Bool, List, Option, [], all, ap, arith, drop, if◌then◌else◌, ltb, none, refl, some, sym, take,
  true, ◌&&◌, ◌∙◌, ◌∷◌, ◌≡◌,
}
use cisco_ise_mcp.Config.Record.{Config}
use cisco_ise_mcp.Dict.{Dict, HasKeysApart, insert, lookup}
use cisco_ise_mcp.Dict.Laws.{lookup-insert}
use cisco_ise_mcp.Server.{decode, headers_of, headers_onto, lowered}
use cisco_ise_mcp.Server.Gate.{sid_of}
use cisco_ise_mcp.Text.{Text, lit, lower, or_else, starts_with, strip, truthy, ◌==◌}
use cisco_ise_mcp.Text.Laws.{==_iff, lower-lower, starts_with-eq-take, take-lower}
use cisco_ise_mcp.Tools.{mcp_session_id, text_or_empty}

abbrev first_or : Option Text → Option Text → Option Text
first_or none later = later
first_or (some s) later = some s

abbrev pub is_ascii : Text → Bool
is_ascii s = all (λ c. ltb c 128) s

abbrev pub in_ascii : Text × Text → Bool
in_ascii h = is_ascii h.0 && is_ascii h.1

decode-ascii : (s : Text) → is_ascii s ≡ true → decode s ≡ s
decode-ascii [] h = refl
decode-ascii (c ∷ s) h = ground (arith, decode-ascii s (ground arith))

-- The gate's dict of headers against the headers in their order, where no name stands twice.
lookup-headers_onto :
    (k : Text) (d : Dict Text) (hs : List (Text × Text))
    → all in_ascii hs ≡ true
    → HasKeysApart (lowered hs)
    → lookup k (headers_onto d hs) ≡ first_or (lookup k (lowered hs)) (lookup k d)
unfolding lookup
lookup-headers_onto k d [] a h = refl
lookup-headers_onto k d ((name, value) ∷ hs) a h =
    let n : decode name ≡ name = decode-ascii name (ground arith) in
    let v : decode value ≡ value = decode-ascii value (ground arith) in
    rw (n, v)
      (lookup-headers_onto k (insert (lower name) value d) hs (ground arith) h.1
        ∙ ground (arith, lookup-insert (lower name) k value d, ==_iff (lower name) k))

lookup-headers_of :
    (k : Text) (hs : List (Text × Text))
    → all in_ascii hs ≡ true
    → HasKeysApart (lowered hs)
    → lookup k (headers_of hs) ≡ lookup k (lowered hs)
unfolding headers_of lookup
lookup-headers_of k hs a h = lookup-headers_onto k [] hs a h ∙ ground arith

bearer_prefix :
    (authz : Text)
    → starts_with (lower authz) (lit "bearer ") ≡ (lower (take 7 authz) == lit "bearer ")
unfolding lit
bearer_prefix authz =
    starts_with-eq-take (lower authz) (lit "bearer ")
    ∙ ap (λ t. t == lit "bearer ") (take-lower 7 authz)

or_else_twice : (a b : Option Text) → or_else (or_else a b) b ≡ or_else a b
or_else_twice none none = refl
or_else_twice none (some []) = refl
or_else_twice none (some (c ∷ s)) = refl
or_else_twice (some []) none = refl
or_else_twice (some []) (some []) = refl
or_else_twice (some []) (some (c ∷ s)) = refl
or_else_twice (some (c ∷ s)) b = refl

-- The id that both readers come to, from the values of the headers that they look at.
abbrev chosen : Option Text → Option Text → Text → Option Text
chosen key own authz =
    let sid = or_else key own in
    if truthy sid
    then sid
    else if lower (take 7 authz) == lit "bearer "
    then some (strip (drop 7 authz))
    else sid

key_in_lower : lower (lit "x-api-key") ≡ lit "x-api-key"
unfolding lower lit
key_in_lower = refl

authorization_in_lower : lower (lit "authorization") ≡ lit "authorization"
unfolding lower lit
authorization_in_lower = refl

by_tool :
    (cfg : Config) (h : Text × Text) (hs : List (Text × Text))
    → mcp_session_id (h ∷ hs) cfg.session_header
      ≡ chosen
          (lookup (lit "x-api-key") (h ∷ hs))
          (lookup (lower cfg.session_header) (h ∷ hs))
          (text_or_empty (lookup (lit "authorization") (h ∷ hs)))
unfolding mcp_session_id
by_tool cfg h hs =
    rw (key_in_lower, authorization_in_lower, lower-lower, or_else_twice, bearer_prefix) refl

-- On a request whose headers are ASCII, and in which no header stands twice, whatever the case of its name,
-- the gate and the tools read the same session id.
pub sid_of-eq-mcp_session_id :
    (cfg : Config) (hs : List (Text × Text))
    → all in_ascii hs ≡ true
    → HasKeysApart (lowered hs)
    → sid_of cfg (headers_of hs) ≡ mcp_session_id (lowered hs) cfg.session_header
unfolding sid_of
sid_of-eq-mcp_session_id cfg [] a h = unfold headers_of lookup mcp_session_id lower lit ◌==◌ in refl
sid_of-eq-mcp_session_id cfg (x ∷ hs) a h =
    let d = headers_of (x ∷ hs) in
    let l = lowered (x ∷ hs) in
    let own = lower cfg.session_header in
    let authz = text_or_empty (lookup (lit "authorization") d) in
    ap (λ k. chosen k (lookup own d) authz) (lookup-headers_of (lit "x-api-key") (x ∷ hs) a h)
    ∙ ap (λ k. chosen (lookup (lit "x-api-key") l) k authz) (lookup-headers_of own (x ∷ hs) a h)
    ∙ ap (λ k. chosen (lookup (lit "x-api-key") l) (lookup own l) (text_or_empty k))
        (lookup-headers_of (lit "authorization") (x ∷ hs) a h)
    ∙ sym (by_tool cfg (lower x.0, x.1) (lowered hs))
