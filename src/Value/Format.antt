-- ===== src/Value/Format.antt =====
-- How Python prints a value: `str(v)` and `repr(v)`. A float is printed with the digits that it was
-- given with.
use cisco_ise_mcp.Prelude.{Bool, [], false, suc, true, zero, ℕ, ◌%◌, ◌++◌, ◌+◌, ◌/◌, ◌^◌, ◌∷◌}
use cisco_ise_mcp.Prelude.Int.{negsuc, pos, ℤ}
use cisco_ise_mcp.Text.{Text, lit, repr, show_ℕ, show_ℤ}
use cisco_ise_mcp.Value.{
  Fields, Items, Value, arr, bool, cons, end, field, float, int, nil, null, obj, str,
}

abbrev decimals : ℕ → ℕ → Text
decimals zero n = []
decimals (suc e) n = decimals e (n / 10) ++ (b'0' + n % 10) ∷ []

abbrev show_float : ℤ → ℕ → Text
show_float (pos n) e = show_ℕ (n / 10 ^ e) ++ b'.' ∷ decimals e n
show_float (negsuc n) e = b'-' ∷ (show_ℕ (suc n / 10 ^ e) ++ b'.' ∷ decimals e (suc n))

abbrev show_bool : Bool → Text
show_bool true = lit "True"
show_bool false = lit "False"

unfoldable mutual
  pub repr_value : Value → Text
  repr_value null = lit "None"
  repr_value (bool b) = show_bool b
  repr_value (int n) = show_ℤ n
  repr_value (float m e) = show_float m e
  repr_value (str s) = repr s
  repr_value (arr nil) = lit "[]"
  repr_value (arr (cons v xs)) = b'[' ∷ (repr_value v ++ (repr_more xs ++ b']' ∷ []))
  repr_value (obj end) = lit "{}"
  repr_value (obj (field k v fs)) =
      b'{' ∷ (repr k ++ (lit ": " ++ (repr_value v ++ (repr_fields fs ++ b'}' ∷ []))))

  pub repr_more : Items → Text
  repr_more nil = []
  repr_more (cons v xs) = lit ", " ++ (repr_value v ++ repr_more xs)

  pub repr_fields : Fields → Text
  repr_fields end = []
  repr_fields (field k v fs) =
      lit ", " ++ (repr k ++ (lit ": " ++ (repr_value v ++ repr_fields fs)))

-- `str(v)`, and `{v}` in an f-string
unfoldable pub show_value : Value → Text
unfolding repr_value
show_value (str s) = s
show_value v = repr_value v
