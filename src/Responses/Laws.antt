-- ===== src/Responses/Laws.antt =====
-- What an envelope shows of the payload.
use cisco_ise_mcp.Prelude.{Bool, List, refl, ℕ, ◌≡◌}
use cisco_ise_mcp.Redaction.Laws.{AgreeOutsideSecrets, equal_values, in_arr, in_obj, redact-hides}
use cisco_ise_mcp.Responses.{is_null, ok_response}
use cisco_ise_mcp.Text.{Text}
use cisco_ise_mcp.Value.{Value}

is_null-agrees : {d : ℕ} {v u : Value} → AgreeOutsideSecrets d v u → is_null v ≡ is_null u
is_null-agrees equal_values = refl
is_null-agrees (in_arr h a) = refl
is_null-agrees (in_obj h a) = refl

-- Two payloads and two raw documents that differ only under sensitive keys at depths up to 25 give the
-- same envelope, provided that the entries of meta are the same.
pub ok_response-hides :
    (v u raw raw' : Value) (include_raw : Bool) (meta : List (Text × Value))
    → AgreeOutsideSecrets 0 v u
    → AgreeOutsideSecrets 0 raw raw'
    → ok_response v raw include_raw meta ≡ ok_response u raw' include_raw meta
unfolding ok_response
ok_response-hides v u raw raw' include_raw meta h k =
    rw (redact-hides v u h, redact-hides raw raw' k, is_null-agrees k) refl
