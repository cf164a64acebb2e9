-- ===== src/Examples/Values.antt =====
-- Runs of the redaction and of the MAC addresses.
use cisco_ise_mcp.Prelude.{
  All, List, [], all, arith, length, none, refl, some, suc, true, zero, ℕ, ◌++◌, ◌∷◌, ◌≡◌,
}
use cisco_ise_mcp.Dict.{lookup}
use cisco_ise_mcp.Errors.{ok}
use cisco_ise_mcp.Logging.{LogRecord, base_payload, format_payload}
use cisco_ise_mcp.Logging.Laws.{exception_entry, extra_entry, format_payload-lookup, or_entry}
use cisco_ise_mcp.Redaction.{is_sensitive, redact}
use cisco_ise_mcp.Redaction.Depth.{Step, at_index, is_open, under_key, value_at, value_at-redact}
use cisco_ise_mcp.Redaction.Laws.{in_obj, masked_field, redact-hides, same_end}
use cisco_ise_mcp.Responses.{ok_response}
use cisco_ise_mcp.Responses.Laws.{ok_response-hides}
use cisco_ise_mcp.Text.{
  Text, contains, contains_text, digit_value, is_space, join, lit, lower, replace_char, repr, split,
  starts_with, strip, upper, ◌==◌,
}
use cisco_ise_mcp.Validation.Ip.{is_digit, validate_ip}
use cisco_ise_mcp.Validation.Ip.Laws.{IsOctet, validate_ip-IsOctet}
use cisco_ise_mcp.Validation.Mac.{is_hex, mac_re, normalize_mac, with_colons}
use cisco_ise_mcp.Validation.Mac.Laws.{IsReading}
use cisco_ise_mcp.Validation.Mac.Normal.{normalize_mac_iff}
use cisco_ise_mcp.Value.{Value, arr, cons, dict, get_field, nil, str}

abbrev login_body : Text → Value
login_body secret_text = dict ((112 ∷ lit "assword", str secret_text) ∷ [])

password_is_sensitive : is_sensitive (112 ∷ lit "assword") ≡ true
unfolding is_sensitive lit lower contains ◌==◌ contains_text starts_with
password_is_sensitive = refl

redact-hides_example : redact (login_body (97 ∷ [])) 0 ≡ redact (login_body (98 ∷ [])) 0
redact-hides_example =
    redact-hides (login_body (97 ∷ [])) (login_body (98 ∷ []))
      (in_obj (omega arith) (masked_field password_is_sensitive same_end))

abbrev in_lists : ℕ → Value → Value
in_lists zero v = v
in_lists (suc n) v = dict ((97 ∷ [], arr (cons (in_lists n v) nil)) ∷ [])

abbrev through_lists : ℕ → List Step
through_lists zero = []
through_lists (suc n) = under_key (97 ∷ []) ∷ at_index 0 ∷ through_lists n

is_on_path :
    value_at
      (through_lists 13 ++ under_key (112 ∷ lit "assword") ∷ [])
      (in_lists 13 (login_body (98 ∷ [])))
    ≡ some (str (98 ∷ []))
unfolding get_field ◌==◌ lit
is_on_path = refl

path_is_open : all is_open (through_lists 13) ≡ true
unfolding is_sensitive lit lower contains ◌==◌ contains_text starts_with
path_is_open = refl

value_at-redact_example :
    value_at
      (through_lists 13 ++ under_key (112 ∷ lit "assword") ∷ [])
      (redact (in_lists 13 (login_body (98 ∷ []))) 0)
    ≡ some (str (98 ∷ []))
value_at-redact_example =
    value_at-redact (through_lists 13) (112 ∷ lit "assword") (in_lists 13 (login_body (98 ∷ [])))
      (str (98 ∷ [])) path_is_open password_is_sensitive is_on_path

is_normal : normalize_mac (lit "aabbccddee0f") ≡ ok (lit "AA:BB:CC:DD:EE:0F")
unfolding normalize_mac with_colons mac_re is_hex strip is_space upper replace_char join lit repr
is_normal = refl

normalize_mac_iff_example : IsReading (strip (lit "aabbccddee0f")) (lit "AA:BB:CC:DD:EE:0F")
normalize_mac_iff_example =
    (normalize_mac_iff (lit "aabbccddee0f") (lit "AA:BB:CC:DD:EE:0F")).0 is_normal

ok_response-hides_example :
    ok_response (login_body (97 ∷ [])) (login_body (97 ∷ [])) true []
    ≡ ok_response (login_body (98 ∷ [])) (login_body (99 ∷ [])) true []
ok_response-hides_example =
    ok_response-hides (login_body (97 ∷ [])) (login_body (98 ∷ [])) (login_body (97 ∷ []))
      (login_body (99 ∷ [])) true []
      (in_obj (omega arith) (masked_field password_is_sensitive same_end))
      (in_obj (omega arith) (masked_field password_is_sensitive same_end))

ip_is_accepted : validate_ip (lit " 10.0.0.255 ") ≡ ok (lit "10.0.0.255")
unfolding validate_ip is_digit digit_value strip is_space split lit repr
ip_is_accepted = refl

validate_ip-IsOctet_example :
    (lit "10.0.0.255" ≡ strip (lit " 10.0.0.255 "))
    × (length (split b'.' (lit "10.0.0.255")) ≡ 4)
    × All IsOctet (split b'.' (lit "10.0.0.255"))
validate_ip-IsOctet_example =
    validate_ip-IsOctet (lit " 10.0.0.255 ") (lit "10.0.0.255") ip_is_accepted

abbrev build_record : LogRecord
build_record = record {
  time_text = [];
  levelname = lit "INFO";
  name = lit "cisco_ise_mcp.server";
  message_text = lit "server_built";
  attributes = (lit "auth_mode", str (lit "passthrough")) ∷ [];
  exception_text = none;
}

format_payload-lookup_example :
    lookup (lit "auth_mode") (format_payload build_record)
    ≡ or_entry (exception_entry (lit "auth_mode") none) (
        or_entry
          (extra_entry (lit "auth_mode") build_record.attributes)
          (lookup (lit "auth_mode") (base_payload build_record)))
format_payload-lookup_example =
    format_payload-lookup build_record (lit "auth_mode") (unfold lookup in (refl, tt))
