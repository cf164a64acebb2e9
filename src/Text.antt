-- ===== src/Text.antt =====
-- Python's `str` as the list of its code points, with the methods that the sources call: strip,
-- rstrip, split, lower, upper, replace, startswith, in, and the conversions of int() and repr().
-- `lower` and `upper` map the letters of ASCII; other letters are left alone.
pub mod Laws
use Prim.Native.Char.{code}
use mathlib.Core.Option
use cisco_ise_mcp.Prelude.{
  Bool, List, Option, String, [], any, eqb, false, if◌then◌else◌, is_empty, ltb, map, none, not,
  refl, reverse, some, suc, true, within, zero, ℕ, ◌%◌, ◌&&◌, ◌*◌, ◌++◌, ◌+◌, ◌-◌, ◌/◌, ◌||◌, ◌∷◌,
  ◌≡◌,
}
use cisco_ise_mcp.Prelude.Int.{negsuc, pos, ℤ}

abbrev pub Text : Type 0
Text = List ℕ

-- A literal of the sources. It is shut: two texts are compared by `==`.
unfoldable pub lit : String → Text
lit String.[] = []
lit (String.◌∷◌ c s) = code c ∷ lit s

infix 50 ◌==◌
unfoldable pub ◌==◌ : Text → Text → Bool
[] == [] = true
[] == (d ∷ t) = false
(c ∷ s) == [] = false
(c ∷ s) == (d ∷ t) = eqb c d && s == t

-- `x in xs` for a list or a set of texts
unfoldable pub contains : List Text → Text → Bool
contains [] x = false
contains (y ∷ ys) x = x == y || contains ys x

-- `str.isspace`, which is also `\s` of `re`
unfoldable pub is_space : ℕ → Bool
is_space c =
    within 9 13 c
    || within 28 32 c
    || eqb c 133
    || eqb c 160
    || eqb c 5760
    || within 8192 8202 c
    || within 8232 8233 c
    || eqb c 8239
    || eqb c 8287
    || eqb c 12288

unfoldable pub drop_while : (ℕ → Bool) → Text → Text
drop_while p [] = []
drop_while p (c ∷ s) = let rest = drop_while p s in if p c then rest else c ∷ s

unfoldable pub rstrip_if : (ℕ → Bool) → Text → Text
rstrip_if p [] = []
rstrip_if p (c ∷ s) = let rest = rstrip_if p s in if is_empty rest && p c then [] else c ∷ rest

unfoldable pub strip : Text → Text
unfolding rstrip_if drop_while
strip s = rstrip_if is_space (drop_while is_space s)

-- `s.rstrip("/")`
unfoldable pub rstrip_slash : Text → Text
unfolding rstrip_if
rstrip_slash s = rstrip_if (λ c. eqb c b'/') s

abbrev pub lower_char : ℕ → ℕ
lower_char c = if within b'A' b'Z' c then c + 32 else c

abbrev pub upper_char : ℕ → ℕ
upper_char c = if within b'a' b'z' c then c - 32 else c

unfoldable pub lower : Text → Text
lower s = map lower_char s

unfoldable pub upper : Text → Text
upper s = map upper_char s

-- `s.replace(a, b)` for single characters
unfoldable pub replace_char : ℕ → ℕ → Text → Text
replace_char a b s = map (λ c. if eqb c a then b else c) s

unfoldable pub starts_with : Text → Text → Bool
starts_with s [] = true
starts_with [] (d ∷ t) = false
starts_with (c ∷ s) (d ∷ t) = eqb c d && starts_with s t

-- `part in s` for texts
unfoldable pub contains_text : Text → Text → Bool
unfolding starts_with
contains_text part [] = starts_with [] part
contains_text part (c ∷ s) = starts_with (c ∷ s) part || contains_text part s

-- One step of `s.split(sep)` from the right: a character joins the first part.
abbrev join_first : ℕ → List Text → List Text
join_first c [] = (c ∷ []) ∷ []
join_first c (part ∷ parts) = (c ∷ part) ∷ parts

-- `s.split(sep)` for a separator of one character
unfoldable pub split : ℕ → Text → List Text
split sep [] = [] ∷ []
split sep (c ∷ s) = let parts = split sep s in if eqb c sep then [] ∷ parts else join_first c parts

-- `sep.join(parts)`
unfoldable pub join : Text → List Text → Text
join sep [] = []
join sep (part ∷ []) = part
join sep (part ∷ next ∷ parts) = part ++ (sep ++ join sep (next ∷ parts))

-- `a or b` for optional texts: `None` and the empty text are false.
abbrev pub truthy : Option Text → Bool
truthy none = false
truthy (some s) = not (is_empty s)

abbrev pub or_text : Text → Text → Text
or_text [] t = t
or_text (c ∷ s) t = c ∷ s

abbrev pub or_else : Option Text → Option Text → Option Text
or_else none t = t
or_else (some []) t = t
or_else (some (c ∷ s)) t = some (c ∷ s)

-- The code points of the digits 0 of Unicode's decimal digits (category Nd of Unicode 15), each
-- followed by its nine others. They are what `\d` of `re` and `int` read.
abbrev pub digit_zeros : List ℕ
digit_zeros =
    0x30 ∷ 0x660 ∷ 0x6F0 ∷ 0x7C0 ∷ 0x966 ∷ 0x9E6 ∷ 0xA66 ∷ 0xAE6 ∷ 0xB66 ∷ 0xBE6 ∷ 0xC66 ∷ 0xCE6
    ∷ 0xD66 ∷ 0xDE6 ∷ 0xE50 ∷ 0xED0 ∷ 0xF20 ∷ 0x1040 ∷ 0x1090 ∷ 0x17E0 ∷ 0x1810 ∷ 0x1946 ∷ 0x19D0
    ∷ 0x1A80 ∷ 0x1A90 ∷ 0x1B50 ∷ 0x1BB0 ∷ 0x1C40 ∷ 0x1C50 ∷ 0xA620 ∷ 0xA8D0 ∷ 0xA900 ∷ 0xA9D0
    ∷ 0xA9F0 ∷ 0xAA50 ∷ 0xABF0 ∷ 0xFF10 ∷ 0x104A0 ∷ 0x10D30 ∷ 0x11066 ∷ 0x110F0 ∷ 0x11136 ∷ 0x111D0
    ∷ 0x112F0 ∷ 0x11450 ∷ 0x114D0 ∷ 0x11650 ∷ 0x116C0 ∷ 0x11730 ∷ 0x118E0 ∷ 0x11950 ∷ 0x11C50
    ∷ 0x11D50 ∷ 0x11DA0 ∷ 0x11F50 ∷ 0x16A60 ∷ 0x16AC0 ∷ 0x16B50 ∷ 0x1D7CE ∷ 0x1D7D8 ∷ 0x1D7E2
    ∷ 0x1D7EC ∷ 0x1D7F6 ∷ 0x1E140 ∷ 0x1E2F0 ∷ 0x1E4D0 ∷ 0x1E950 ∷ 0x1FBF0 ∷ []

unfoldable pub digit_in : List ℕ → ℕ → Option ℕ
digit_in [] c = none
digit_in (z ∷ zs) c = if within z (z + 9) c then some (c - z) else digit_in zs c

-- The value of a decimal digit.
unfoldable pub digit_value : ℕ → Option ℕ
unfolding digit_in
digit_value c = digit_in digit_zeros c

-- The digits of `int(s)`: single underscores may stand between digits. The flag says that the
-- character before was a digit.
unfoldable pub int_digits : Text → Bool → ℕ → Option ℕ
int_digits [] after_digit n = if after_digit then some n else none
int_digits (c ∷ s) after_digit n = elim (digit_value c) [
  | some d ↦ int_digits s true (n * 10 + d)
  | none ↦ if eqb c b'_' && after_digit then int_digits s false n else none
]

abbrev negate : ℕ → ℤ
negate zero = pos 0
negate (suc n) = negsuc n

-- The number after an optional sign.
abbrev signed : Text → Option ℤ
signed [] = none
signed (c ∷ s) =
    if eqb c b'-'
    then Option.map negate (int_digits s false 0)
    else if eqb c b'+'
    then Option.map pos (int_digits s false 0)
    else Option.map pos (int_digits (c ∷ s) false 0)

-- `int(s)`, `none` for a ValueError
unfoldable pub int_of : Text → Option ℤ
unfolding int_digits digit_value strip
int_of s = signed (strip s)

int_of_tests :
    (int_of (lit " -1_0 ") ≡ some (negsuc 9))
    × (int_of (lit "1__0") ≡ none)
    × (int_of (lit "+") ≡ none)
unfolding int_of lit is_space
int_of_tests = (refl, refl, refl)

abbrev hex_char : ℕ → ℕ
hex_char n = if ltb n 10 then b'0' + n else b'a' + (n - 10)

-- A character inside `repr`, between the given quotes.
abbrev repr_char : ℕ → ℕ → Text
repr_char quote c =
    if eqb c quote || eqb c 92
    then 92 ∷ c ∷ []
    else if eqb c 10
    then lit "\\n"
    else if eqb c 13
    then lit "\\r"
    else if eqb c 9
    then lit "\\t"
    else if ltb c 32 || eqb c 127
    then 92 ∷ b'x' ∷ hex_char (c / 16) ∷ hex_char (c % 16) ∷ []
    else c ∷ []

repr_body : ℕ → Text → Text
repr_body quote [] = []
repr_body quote (c ∷ s) = repr_char quote c ++ repr_body quote s

-- `repr(s)`. Characters past ASCII are shown as they are; Python escapes those that do not print.
unfoldable pub repr : Text → Text
unfolding repr_body lit
repr s =
    let quote = if any (λ c. eqb c 39) s && not (any (λ c. eqb c 34) s) then 34 else 39 in
    quote ∷ (repr_body quote s ++ quote ∷ [])

repr_test : repr (lit "a'b\n") ≡ lit "\"a'b\\n\""
unfolding repr lit
repr_test = refl

-- The decimal digits of a number, `str(n)` for n >= 0: the last digit first, on fuel.
abbrev decimal_rev : ℕ → ℕ → Text
decimal_rev zero n = []
decimal_rev (suc f) n =
    let rest = decimal_rev f (n / 10) in
    if ltb n 10 then (b'0' + n) ∷ [] else (b'0' + n % 10) ∷ rest

-- `str(n)`: a number has at most as many digits as its value, and one more.
unfoldable pub show_ℕ : ℕ → Text
show_ℕ n = reverse (decimal_rev (suc n) n)

unfoldable pub show_ℤ : ℤ → Text
unfolding show_ℕ
show_ℤ (pos n) = show_ℕ n
show_ℤ (negsuc n) = b'-' ∷ show_ℕ (suc n)

show_ℤ_test : show_ℤ (negsuc 86399) ≡ lit "-86400"
unfolding show_ℤ lit
show_ℤ_test = refl
