-- ===== src/Auth/Context.antt =====
-- auth/base.py: `AuthContext`
use cisco_ise_mcp.Prelude.{
  Option, [], eqb, if◌then◌else◌, is_empty, none, not, refl, some, ◌++◌, ◌∷◌, ◌≡◌,
}
use cisco_ise_mcp.Errors.{Result, err, ok, python_error}
use cisco_ise_mcp.Redaction.{mask}
use cisco_ise_mcp.Text.{Text, lit, repr}

pub record AuthContext : Type 0 where
  pub username : Text
  pub mode : Text
  pub password : Text
  pub encoded : Text

-- `s.partition(":")` without its middle part
unfoldable pub partition_colon : Text → Text × Text
partition_colon [] = ([], [])
partition_colon (c ∷ s) =
    let rest = partition_colon s in if eqb c b':' then ([], s) else (c ∷ rest.0, rest.1)

abbrev decoded : Option Text → Result (Text × Text)
decoded none =
    err (python_error (lit "ValueError") (lit "ISE_ENCODED_AUTH is not valid base64 'user:pass'"))
decoded (some s) = ok (partition_colon s)

-- `basic_auth`; `decode` is `base64.b64decode(s).decode()`, `none` where that raises.
unfoldable pub basic_auth : (Text → Option Text) → AuthContext → Result (Text × Text)
basic_auth decode auth =
    if not (is_empty auth.encoded)
    then decoded (decode auth.encoded)
    else ok (auth.username, auth.password)

-- `__repr__`
unfoldable pub show : AuthContext → Text
show auth =
    lit "AuthContext(username="
    ++ (repr auth.username
        ++ (lit ", mode=" ++ (repr auth.mode ++ (lit ", password=" ++ (mask ++ lit ")")))))

-- What is printed of an identity depends on its name and mode alone, never on its secrets.
pub show-hides :
    (auth : AuthContext) (password encoded : Text)
    → show (record auth { password = password; encoded = encoded }) ≡ show auth
unfolding show
show-hides auth password encoded = refl
