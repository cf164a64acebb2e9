-- ===== src/Responses.antt =====
-- responses.py: the envelope of every tool response
pub mod Laws
use cisco_ise_mcp.Prelude.{Bool, List, [], false, if◌then◌else◌, length, not, true, ◌&&◌, ◌++◌, ◌∷◌}
use cisco_ise_mcp.Errors.{Error, python_error, to_dict}
use cisco_ise_mcp.Prelude.Int.{pos, ℤ}
use cisco_ise_mcp.Redaction.{redact}
use cisco_ise_mcp.Text.{Text, lit}
use cisco_ise_mcp.Value.{Value, arr, bool, dict, int, items, null, str}

abbrev if_any : Text → List (Text × Value) → List (Text × Value)
if_any key [] = []
if_any key (kv ∷ kvs) = (key, dict (kv ∷ kvs)) ∷ []

abbrev pub is_null : Value → Bool
is_null null = true
is_null _ = false

-- `ok(data, raw=..., include_raw=..., **meta)`
unfoldable pub ok_response : Value → Value → Bool → List (Text × Value) → Value
ok_response payload raw include_raw meta = dict (
    (lit "ok", bool true)
    ∷ (lit "data", redact payload 0)
    ∷ (if_any (lit "meta") meta
        ++ (if include_raw && not (is_null raw) then (lit "raw", redact raw 0) ∷ [] else [])))

-- `ok(data)`
unfoldable pub plain_response : Value → Value
unfolding ok_response
plain_response payload = ok_response payload null false []

-- `paged(items, ...)`; `total` is `null` for None.
unfoldable pub paged : List Value → ℤ → ℤ → Value → Value → Bool → Value
unfolding ok_response
paged found page page_size total raw include_raw = ok_response (arr (items found)) raw include_raw (
    (lit "page", int page)
    ∷ (lit "page_size", int page_size)
    ∷ (lit "returned", int (pos (length found)))
    ∷ (if is_null total then [] else (lit "total", total) ∷ []))

-- `error(err)`
unfoldable pub error_response : Error → Value
unfolding to_dict
error_response (python_error t m) = dict (
    (lit "ok", bool false)
    ∷ (lit "error", str (lit "internal_error"))
    ∷ (lit "message", str m)
    ∷ [])
error_response e = dict ((lit "ok", bool false) ∷ to_dict e)
