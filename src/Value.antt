-- ===== src/Value.antt =====
-- The dynamic values of the program: what JSON and `dict` literals hold. `float m e` is m / 10 ** e;
-- the numbers that are no decimal fraction (NaN, the infinities) are left out.
pub mod Format
use cisco_ise_mcp.Prelude.{
  Bool, List, Option, [], false, if◌then◌else◌, is_empty, none, not, some, true, zero, ℕ, ◌∷◌,
}
use cisco_ise_mcp.Prelude.Int.{pos, ℤ}
use cisco_ise_mcp.Text.{Text, ◌==◌}

mutual
  pub data Value : Type 0 where
    null : Value
    bool : Bool → Value
    int : ℤ → Value
    float : ℤ → ℕ → Value
    str : Text → Value
    arr : Items → Value
    obj : Fields → Value

  pub data Items : Type 0 where
    nil : Items
    cons : Value → Items → Items

  pub data Fields : Type 0 where
    end : Fields
    field : Text → Value → Fields → Fields

abbrev pub fields : List (Text × Value) → Fields
fields [] = end
fields ((k, v) ∷ kvs) = field k v (fields kvs)

-- A `dict` literal.
abbrev pub dict : List (Text × Value) → Value
dict kvs = obj (fields kvs)

abbrev pub items : List Value → Items
items [] = nil
items (v ∷ vs) = cons v (items vs)

abbrev pub elements : Items → List Value
elements nil = []
elements (cons v xs) = v ∷ elements xs

-- `d.get(k)` on the fields, `none` for a key that is missing
unfoldable pub get_field : Text → Fields → Option Value
get_field k end = none
get_field k (field j v fs) = if j == k then some v else get_field k fs

abbrev is_zero : ℤ → Bool
is_zero (pos zero) = true
is_zero _ = false

-- `bool(v)`
unfoldable pub is_true : Value → Bool
is_true null = false
is_true (bool b) = b
is_true (int n) = not (is_zero n)
is_true (float m e) = not (is_zero m)
is_true (str s) = not (is_empty s)
is_true (arr nil) = false
is_true (arr (cons v xs)) = true
is_true (obj end) = false
is_true (obj (field k v fs)) = true

-- `a or b`
unfoldable pub or_value : Value → Value → Value
unfolding is_true
or_value a b = if is_true a then a else b

abbrev pub optional_text : Option Text → Value
optional_text none = null
optional_text (some s) = str s
