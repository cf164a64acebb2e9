-- ===== src/Server/Redirect.antt =====
-- oauth.py: `redirect_with_code`, with what it uses of urllib.parse
use cisco_ise_mcp.Prelude.{
  Bool, List, [], any, eqb, if◌then◌else◌, ltb, not, refl, within, ℕ, ◌%◌, ◌++◌, ◌+◌, ◌-◌, ◌/◌,
  ◌||◌, ◌∷◌, ◌≡◌,
}
use cisco_ise_mcp.Text.{Text, lit}

abbrev before_fragment : Text → Text
before_fragment [] = []
before_fragment (c ∷ s) = let rest = before_fragment s in if eqb c b'#' then [] else c ∷ rest

abbrev after_question_mark : Text → Text
after_question_mark [] = []
after_question_mark (c ∷ s) = let rest = after_question_mark s in if eqb c b'?' then s else rest

-- `bool(urlparse(url).query)`: what stands after the first `?` before the first `#`, without the tabs
-- and line ends that `urlparse` drops.
unfoldable pub has_query : Text → Bool
has_query url =
    any (λ c. not (eqb c 9 || eqb c 10 || eqb c 13)) (after_question_mark (before_fragment url))

-- A code point in UTF-8
unfoldable pub utf8 : ℕ → List ℕ
utf8 c =
    if ltb c 128
    then c ∷ []
    else if ltb c 2048
    then (192 + c / 64) ∷ (128 + c % 64) ∷ []
    else if ltb c 65536
    then (224 + c / 4096) ∷ (128 + c / 64 % 64) ∷ (128 + c % 64) ∷ []
    else (240 + c / 262144) ∷ (128 + c / 4096 % 64) ∷ (128 + c / 64 % 64) ∷ (128 + c % 64) ∷ []

abbrev hex_upper : ℕ → ℕ
hex_upper n = if ltb n 10 then b'0' + n else b'A' + (n - 10)

-- What `quote` leaves alone.
unfoldable pub is_unreserved : ℕ → Bool
is_unreserved c =
    within b'0' b'9' c
    || within b'A' b'Z' c
    || within b'a' b'z' c
    || eqb c b'_'
    || eqb c b'.'
    || eqb c b'-'
    || eqb c b'~'

abbrev quote_byte : ℕ → Text
quote_byte c =
    if is_unreserved c
    then c ∷ []
    else if eqb c 32
    then b'+' ∷ []
    else b'%' ∷ hex_upper (c / 16) ∷ hex_upper (c % 16) ∷ []

abbrev quote_bytes : List ℕ → Text
quote_bytes [] = []
quote_bytes (c ∷ s) = quote_byte c ++ quote_bytes s

-- `urllib.parse.quote_plus(s)`
unfoldable pub quote_plus : Text → Text
unfolding utf8 is_unreserved
quote_plus [] = []
quote_plus (c ∷ s) = quote_bytes (utf8 c) ++ quote_plus s

abbrev state_part : Text → Text
state_part [] = []
state_part (c ∷ s) = lit "&state=" ++ quote_plus (c ∷ s)

-- `redirect_with_code(redirect_uri, code, state)`
unfoldable pub redirect_with_code : Text → Text → Text → Text
unfolding has_query quote_plus
redirect_with_code redirect_uri issued state =
    redirect_uri
    ++ ((if has_query redirect_uri then lit "&" else lit "?")
        ++ (lit "code=" ++ (quote_plus issued ++ state_part state)))

redirect_test :
    redirect_with_code (lit "https://a/cb?x=1#f") (lit "c-1") (lit "a b/é")
    ≡ lit "https://a/cb?x=1#f&code=c-1&state=a+b%2F%C3%A9"
unfolding redirect_with_code lit
redirect_test = refl
