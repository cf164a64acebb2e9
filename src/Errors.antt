-- ===== src/Errors.antt =====
-- ise/errors.py: the exceptions that the server raises, one constructor for each class, and the
-- exceptions of Python and its libraries by class name and message.
use cisco_ise_mcp.Prelude.{List, Option, [], none, some, ℕ, ◌++◌, ◌∷◌}
use cisco_ise_mcp.Prelude.Int.{pos}
use cisco_ise_mcp.Text.{Text, lit}
use cisco_ise_mcp.Value.{Value, int, str}

pub data Error : Type 0 where
  validation_error auth_error session_error write_not_allowed tool_disabled : Text → Error
  ise_api_error not_found rate_limited : Text → Option ℕ → Option Text → Error
  python_error : Text → Text → Error

-- A call that may raise.
pub data Result {ℓ} (A : Type ℓ) : Type ℓ where
  ok : A → Result A
  err : Error → Result A

-- `code` of each class
unfoldable pub code : Error → Text
code (validation_error m) = lit "validation_error"
code (auth_error m) = lit "auth_error"
code (session_error m) = lit "session_error"
code (write_not_allowed m) = lit "write_not_allowed"
code (tool_disabled m) = lit "tool_disabled"
code (ise_api_error m s d) = lit "ise_api_error"
code (not_found m s d) = lit "not_found"
code (rate_limited m s d) = lit "rate_limited"
code (python_error t m) = lit "internal_error"

-- `type(exc).__name__`
unfoldable pub type_name : Error → Text
type_name (validation_error m) = lit "ValidationError"
type_name (auth_error m) = lit "AuthError"
type_name (session_error m) = lit "SessionError"
type_name (write_not_allowed m) = lit "WriteNotAllowedError"
type_name (tool_disabled m) = lit "ToolDisabledError"
type_name (ise_api_error m s d) = lit "IseApiError"
type_name (not_found m s d) = lit "NotFoundError"
type_name (rate_limited m s d) = lit "RateLimitError"
type_name (python_error t m) = t

-- `str(exc)`
unfoldable pub message : Error → Text
message (validation_error m) = m
message (auth_error m) = m
message (session_error m) = m
message (write_not_allowed m) = m
message (tool_disabled m) = m
message (ise_api_error m s d) = m
message (not_found m s d) = m
message (rate_limited m s d) = m
message (python_error t m) = m

unfoldable pub detail : Error → Option Text
detail (ise_api_error m s d) = d
detail (not_found m s d) = d
detail (rate_limited m s d) = d
detail _ = none

unfoldable pub status : Error → Option ℕ
status (ise_api_error m s d) = s
status (not_found m s d) = s
status (rate_limited m s d) = s
status _ = none

abbrev optional {ℓ} : {A : Type ℓ} → Text → (A → Value) → Option A → List (Text × Value)
optional key f none = []
optional key f (some a) = (key, f a) ∷ []

-- `IseMcpError.to_dict`, with the override of `IseApiError`
unfoldable pub to_dict : Error → List (Text × Value)
unfolding code message detail status
to_dict e =
    (lit "error", str (code e))
    ∷ (lit "message", str (message e))
    ∷ (optional (lit "detail") str (detail e)
        ++ optional (lit "status") (λ n. int (pos n)) (status e))
