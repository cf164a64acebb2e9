-- ===== src/Validation/Ip/Laws.antt =====
-- What an accepted address is.
use cisco_ise_mcp.Prelude.{
  All, Bool-cases, List, Option, Option-cases, [], arith, eqb, false≢true, inl, inr, length, none,
  refl, some, subst, sym, true, within, ℕ, ◌&&◌, ◌*◌, ◌+◌, ◌-◌, ◌∙◌, ◌∷◌, ◌≡◌, ◌≤◌,
}
use cisco_ise_mcp.Errors.{ok}
use cisco_ise_mcp.Text.{Text, digit_in, digit_value, digit_zeros, split, strip}
use cisco_ise_mcp.Validation.Ip.{four_octets, ipv4_re, is_digit, octet_re, validate_ip}

-- The number that decimal digits denote.
abbrev pub decimal : ℕ → Text → Option ℕ
decimal n [] = some n
decimal n (c ∷ s) = elim (digit_value c) [ none ↦ none | some d ↦ decimal (n * 10 + d) s ]

-- A text of decimal digits, of any script, that denotes a byte.
pub record IsOctet (s : Text) : Type 0 where
  pub value : ℕ
  pub denotes : decimal 0 s ≡ some value
  pub byte : value ≤ 255

digit_in-le : (zs : List ℕ) (c d : ℕ) → digit_in zs c ≡ some d → d ≤ 9
unfolding digit_in
digit_in-le [] c d h = cc
digit_in-le (z ∷ zs) c d h = ground (arith, digit_in-le zs c d)

digit_lem : (c : ℕ) → is_digit c ≡ true → (d : ℕ) × (digit_value c ≡ some d) × (d ≤ 9)
unfolding is_digit digit_value
digit_lem c h = elim (Option-cases (digit_value c)) [
  | inl e ↦ absurd (false≢true (rw e at h))
  | inr (d, e) ↦ (d, e, digit_in-le digit_zeros c d e)
]

-- The digits 0 to 9 of ASCII.
ascii_digit : (c : ℕ) → within b'0' b'9' c ≡ true → digit_value c ≡ some (c - 48)
unfolding digit_value digit_in
ascii_digit c h = rw h refl

decimal_step :
    (n c d : ℕ) (s : Text) → digit_value c ≡ some d → decimal n (c ∷ s) ≡ decimal (n * 10 + d) s
decimal_step n c d s e = rw (decimal, e) refl

three_digits :
    (a b c x y z : ℕ)
    → digit_value a ≡ some x
    → digit_value b ≡ some y
    → digit_value c ≡ some z
    → x * 100 + (y * 10 + z) ≤ 255
    → IsOctet (a ∷ b ∷ c ∷ [])
three_digits a b c x y z e f g le = record {
  value = ((0 * 10 + x) * 10 + y) * 10 + z;
  denotes =
      decimal_step 0 a x (b ∷ c ∷ []) e
      ∙ decimal_step (0 * 10 + x) b y (c ∷ []) f
      ∙ decimal_step ((0 * 10 + x) * 10 + y) c z [] g;
  byte = omega arith;
}

three_chars-IsOctet : (a b c : ℕ) → octet_re (a ∷ b ∷ c ∷ []) ≡ true → IsOctet (a ∷ b ∷ c ∷ [])
unfolding octet_re
three_chars-IsOctet a b c h = elim (Bool-cases (eqb a b'2' && eqb b b'5' && within b'0' b'5' c)) [
  | inl high ↦
      three_digits a b c _ _ _ (ascii_digit a (ground arith)) (ascii_digit b (ground arith))
        (ascii_digit c (ground arith)) (ground arith)
  | inr low ↦ elim (Bool-cases (eqb a b'2' && within b'0' b'4' b && is_digit c)) [
    | inl mid ↦
        let (z, e, le) = digit_lem c (ground arith) in
        three_digits a b c _ _ z (ascii_digit a (ground arith)) (ascii_digit b (ground arith)) e
          (ground arith)
    | inr small ↦
        let (y, f, le_y) = digit_lem b (ground arith) in
        let (z, e, le_z) = digit_lem c (ground arith) in
        three_digits a b c _ y z (ascii_digit a (ground arith)) f e (ground arith)
  ]
]

octet_re-IsOctet : (s : Text) → octet_re s ≡ true → IsOctet s
unfolding octet_re
octet_re-IsOctet [] h = absurd (false≢true h)
octet_re-IsOctet (a ∷ []) h =
    let (d, e, le) = digit_lem a h in
    record { value = 0 * 10 + d; denotes = decimal_step 0 a d [] e; byte = omega arith }
octet_re-IsOctet (a ∷ b ∷ []) h =
    let (x, e, le_x) = digit_lem a (ground arith) in
    let (y, f, le_y) = digit_lem b (ground arith) in
    record {
      value = (0 * 10 + x) * 10 + y;
      denotes = decimal_step 0 a x (b ∷ []) e ∙ decimal_step (0 * 10 + x) b y [] f;
      byte = omega arith;
    }
octet_re-IsOctet (a ∷ b ∷ c ∷ []) h = three_chars-IsOctet a b c h
octet_re-IsOctet (a ∷ b ∷ c ∷ d ∷ s) h = absurd (false≢true h)

four_octets-IsOctet :
    (parts : List Text) → four_octets parts ≡ true → (length parts ≡ 4) × All IsOctet parts
four_octets-IsOctet (a ∷ b ∷ c ∷ d ∷ []) h = (
  refl,
  (
    octet_re-IsOctet a (ground arith),
    (
      octet_re-IsOctet b (ground arith),
      (octet_re-IsOctet c (ground arith), (octet_re-IsOctet d (ground arith), tt)),
    ),
  ),
)
four_octets-IsOctet [] h = cc
four_octets-IsOctet (a ∷ []) h = cc
four_octets-IsOctet (a ∷ b ∷ []) h = cc
four_octets-IsOctet (a ∷ b ∷ c ∷ []) h = cc
four_octets-IsOctet (a ∷ b ∷ c ∷ d ∷ e ∷ ps) h = cc

-- What `validate_ip` accepts is four parts that are joined by dots, each of them decimal digits that
-- denote a number of at most 255; it returns the text without the white space around it.
pub validate_ip-IsOctet :
    (value v : Text)
    → validate_ip value ≡ ok v
    → (v ≡ strip value) × (length (split b'.' v) ≡ 4) × All IsOctet (split b'.' v)
unfolding validate_ip ipv4_re
validate_ip-IsOctet value v h =
    let matched : ipv4_re (strip value) ≡ true = ground arith in
    let same : strip value ≡ v = ground arith in
    let (four, octets) =
      four_octets-IsOctet (split b'.' v) (subst (λ t. ipv4_re t ≡ true) same matched) in
    (sym same, four, octets)
