-- ===== src/Validation/Ip.antt =====
-- validation.py: `validate_ip` and its pattern
pub mod Laws
use cisco_ise_mcp.Prelude.{
  Bool, List, [], eqb, false, if◌then◌else◌, is_some, refl, within, ℕ, ◌&&◌, ◌++◌, ◌||◌, ◌∷◌, ◌≡◌,
}
use cisco_ise_mcp.Errors.{Result, err, ok, validation_error}
use cisco_ise_mcp.Text.{Text, digit_value, is_space, lit, repr, split, strip}

-- `\d` in a pattern for texts: a decimal digit of any script
unfoldable pub is_digit : ℕ → Bool
is_digit c = is_some (digit_value c)

-- `25[0-5]|2[0-4]\d|1?\d?\d`, up to the next dot or the end
unfoldable pub octet_re : Text → Bool
octet_re [] = false
octet_re (a ∷ []) = is_digit a
octet_re (a ∷ b ∷ []) = is_digit a && is_digit b
octet_re (a ∷ b ∷ c ∷ []) =
    (eqb a b'2' && eqb b b'5' && within b'0' b'5' c)
    || (eqb a b'2' && within b'0' b'4' b && is_digit c)
    || (eqb a b'1' && is_digit b && is_digit c)
octet_re (a ∷ b ∷ c ∷ d ∷ s) = false

abbrev pub four_octets : List Text → Bool
four_octets (a ∷ b ∷ c ∷ d ∷ []) = octet_re a && octet_re b && octet_re c && octet_re d
four_octets _ = false

-- `_IPV4_RE.match(v)` for a text that does not end in a newline, as none does after `strip`: an
-- octet holds no dot, so the text matches when it is cut at its dots into four octets.
unfoldable pub ipv4_re : Text → Bool
unfolding octet_re
ipv4_re v = four_octets (split b'.' v)

unfoldable pub validate_ip : Text → Result Text
unfolding ipv4_re
validate_ip value =
    if ipv4_re (strip value)
    then ok (strip value)
    else err (validation_error (lit "Invalid IPv4 address: " ++ repr value))

validate_ip_tests :
    (validate_ip (lit " 10.0.0.255 ") ≡ ok (lit "10.0.0.255"))
    × (validate_ip (lit "10.0.0.256")
        ≡ err (validation_error (lit "Invalid IPv4 address: '10.0.0.256'")))
unfolding validate_ip is_digit digit_value strip is_space split lit repr
validate_ip_tests = (refl, refl)
