-- ===== src/Validation/Names.antt =====
-- validation.py: the checks of hostnames, user names and endpoint ids. Each pattern is applied to a
-- stripped text, so `$` stands only at its end.
use cisco_ise_mcp.Prelude.{
  Bool, [], all, eqb, false, if◌then◌else◌, leb, length, not, within, ℕ, ◌&&◌, ◌++◌, ◌||◌, ◌∷◌,
}
use cisco_ise_mcp.Errors.{Result, err, ok, validation_error}
use cisco_ise_mcp.Text.{Text, is_space, lit, repr, split, strip}
use cisco_ise_mcp.Validation.Mac.{is_hex}

abbrev is_letter_or_digit : ℕ → Bool
is_letter_or_digit c = within b'A' b'Z' c || within b'a' b'z' c || within b'0' b'9' c

-- `[A-Za-z0-9-]{1,63}`
abbrev label_re : Text → Bool
label_re s = all (λ c. is_letter_or_digit c || eqb c b'-') s && within 1 63 (length s)

abbrev starts_with_dash : Text → Bool
starts_with_dash [] = false
starts_with_dash (c ∷ s) = eqb c b'-'

-- `_HOSTNAME_RE.match(v)`: labels joined by dots
unfoldable pub hostname_re : Text → Bool
hostname_re v = within 1 253 (length v) && not (starts_with_dash v) && all label_re (split b'.' v)

-- `_USERNAME_RE.match(v)`: no white space and no control character
unfoldable pub username_re : Text → Bool
username_re v = all (λ c. not (is_space c) && not (leb c 31)) v && within 1 128 (length v)

-- `_UUID_RE.match(v)`
unfoldable pub uuid_re : Text → Bool
uuid_re v = all (λ c. is_hex c || eqb c b'-') v && within 8 64 (length v)

unfoldable pub validate_hostname : Text → Result Text
validate_hostname value =
    let v = strip value in
    if hostname_re v then ok v else err (validation_error (lit "Invalid hostname: " ++ repr value))

unfoldable pub validate_username : Text → Result Text
validate_username value =
    let v = strip value in
    if username_re v then ok v else err (validation_error (lit "Invalid username"))

unfoldable pub validate_endpoint_id : Text → Result Text
validate_endpoint_id value =
    let v = strip value in
    if uuid_re v then ok v else err (validation_error (lit "Invalid endpoint id: " ++ repr value))
