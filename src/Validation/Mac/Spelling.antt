-- ===== src/Validation/Mac/Spelling.antt =====
-- Pairs of hexadecimal digits, the ways to write them, and how the pattern reads them.
use mathlib.Core.List.{append_assoc}
use cisco_ise_mcp.Prelude.{
  List, Option, [], ap, arith, eqb, if◌then◌else◌, length, none, refl, some, suc, sym, true, zero,
  ℕ, ◌++◌, ◌∙◌, ◌∷◌, ◌≡◌, ◌≢◌,
}
use cisco_ise_mcp.Text.{Text, join, replace_char, upper, upper_char}
use cisco_ise_mcp.Validation.Mac.{
  at_end, colon, groups, hex_pair, hex_run, is_hex, pairs_of, same_group, ◌>>=◌,
}

-- a, b, sep for each pair
abbrev pub spell_each : Text → List (ℕ × ℕ) → Text
spell_each sep [] = []
spell_each sep ((a, b) ∷ ps) = a ∷ b ∷ (sep ++ spell_each sep ps)

-- The pairs with the separator between them.
abbrev pub spell : Text → List (ℕ × ℕ) → Text
spell sep [] = []
spell sep ((a, b) ∷ []) = a ∷ b ∷ []
spell sep ((a, b) ∷ p ∷ ps) = a ∷ b ∷ (sep ++ spell sep (p ∷ ps))

abbrev pub AreHex : List (ℕ × ℕ) → Type 0
AreHex [] = Unit
AreHex ((a, b) ∷ ps) = (is_hex a ≡ true) × (is_hex b ≡ true) × AreHex ps

-- The group of the pattern: a colon, a dash or nothing.
pub data IsSeparator : Text → Type 0 where
  no_separator : IsSeparator []
  is_colon : IsSeparator (b':' ∷ [])
  is_dash : IsSeparator (b'-' ∷ [])

abbrev pub upper_pairs : List (ℕ × ℕ) → List (ℕ × ℕ)
upper_pairs [] = []
upper_pairs ((a, b) ∷ ps) = (upper_char a, upper_char b) ∷ upper_pairs ps

pub hex_pair-eq-some :
    (s r : Text)
    → hex_pair s ≡ some r
    → (a : ℕ) × (b : ℕ) × (is_hex a ≡ true) × (is_hex b ≡ true) × (s ≡ a ∷ b ∷ r)
unfolding hex_pair
hex_pair-eq-some [] r h = cc
hex_pair-eq-some (a ∷ []) r h = cc
hex_pair-eq-some (a ∷ b ∷ s) r h = (a, b, ground arith, ground arith, ground arith)

pub same_group-append : (g s : Text) → IsSeparator g → same_group g (g ++ s) ≡ some s
unfolding same_group
same_group-append g s no_separator = refl
same_group-append g s is_colon = refl
same_group-append g s is_dash = refl

same_group-eq-some : (g s r : Text) → IsSeparator g → same_group g s ≡ some r → s ≡ g ++ r
unfolding same_group
same_group-eq-some g s r no_separator h = ground arith
same_group-eq-some g [] r is_colon h = cc
same_group-eq-some g [] r is_dash h = cc
same_group-eq-some g (c ∷ s) r is_colon h = ground arith
same_group-eq-some g (c ∷ s) r is_dash h = ground arith

pub >>=-eq-some {ℓ κ} :
    {A : Type ℓ} {B : Type κ} (m : Option A) (f : A → Option B) {b : B}
    → (m >>= f) ≡ some b
    → (a : A) × (m ≡ some a) × (f a ≡ some b)
>>=-eq-some none f h = cc
>>=-eq-some (some a) f h = (a, refl, h)

-- What the repeated part reads is pairs that each end in the group.
pub groups-eq-some :
    (n : ℕ) (g s r : Text)
    → IsSeparator g
    → groups n g s ≡ some r
    → (ps : List (ℕ × ℕ)) × (length ps ≡ n) × AreHex ps × (s ≡ spell_each g ps ++ r)
unfolding groups
groups-eq-some zero g s r sep h = ([], refl, tt, ground arith)
groups-eq-some (suc n) g s r sep h =
    let (s1, h1, k1) = >>=-eq-some (hex_pair s) _ h in
    let (s2, h2, k2) = >>=-eq-some (same_group g s1) _ k1 in
    let (a, b, ha, hb, e) = hex_pair-eq-some s s1 h1 in
    let (ps, len, hex, e2) = groups-eq-some n g s2 r sep k2 in
    (
      (a, b) ∷ ps,
      omega (arith, len),
      (ha, hb, hex),
      e
          ∙ ap (λ x. a ∷ b ∷ x)
              (same_group-eq-some g s1 s2 sep h2
                ∙ ap (λ x. g ++ x) e2
                ∙ sym (append_assoc g (spell_each g ps) r)),
    )

-- And such text is read.
pub groups-spell_each :
    (g : Text) (ps : List (ℕ × ℕ)) (r : Text)
    → IsSeparator g
    → AreHex ps
    → groups (length ps) g (spell_each g ps ++ r) ≡ some r
unfolding groups
groups-spell_each g [] r sep h = refl
groups-spell_each g ((a, b) ∷ ps) r sep (ha, hb, h) =
    rw (ha, hb, append_assoc, same_group-append g (spell_each g ps ++ r) sep)
      (groups-spell_each g ps r sep h)

-- A spelling is its first pair, the inner pairs each with the separator, and the last pair.
pub spell-ends :
    (g : Text) (a b c d : ℕ) (ps : List (ℕ × ℕ))
    → spell g ((a, b) ∷ (ps ++ (c, d) ∷ [])) ≡ a ∷ b ∷ (g ++ (spell_each g ps ++ c ∷ d ∷ []))
spell-ends g a b c d [] = refl
spell-ends g a b c d ((x, y) ∷ ps) =
    ap (λ t. a ∷ b ∷ (g ++ t))
      (spell-ends g x y c d ps
        ∙ ap (λ t. x ∷ y ∷ t) (sym (append_assoc g (spell_each g ps) (c ∷ d ∷ []))))

pub spell_each-no_separator : (ps : List (ℕ × ℕ)) → spell [] ps ≡ spell_each [] ps
spell_each-no_separator [] = refl
spell_each-no_separator ((a, b) ∷ []) = refl
spell_each-no_separator ((a, b) ∷ p ∷ ps) = ap (λ t. a ∷ b ∷ t) (spell_each-no_separator (p ∷ ps))

abbrev pub double : ℕ → ℕ
double zero = zero
double (suc n) = suc (suc (double n))

pub hex_run-spell_each :
    (ps : List (ℕ × ℕ)) → AreHex ps → hex_run (double (length ps)) (spell_each [] ps) ≡ true
unfolding hex_run
hex_run-spell_each [] h = refl
hex_run-spell_each ((a, b) ∷ ps) (ha, hb, h) = rw (ha, hb) (hex_run-spell_each ps h)

pub hex_run-eq-true :
    (n : ℕ) (v : Text)
    → hex_run (double n) v ≡ true
    → (ps : List (ℕ × ℕ)) × (r : Text) × (length ps ≡ n)
      × AreHex ps
      × (v ≡ spell_each [] ps ++ r)
      × (at_end r ≡ true)
unfolding hex_run
hex_run-eq-true zero v h = ([], v, refl, tt, refl, h)
hex_run-eq-true (suc n) [] h = cc
hex_run-eq-true (suc n) (a ∷ []) h = ground arith
hex_run-eq-true (suc n) (a ∷ b ∷ v) h =
    let (ps, r, len, hex, e, done) = hex_run-eq-true n v (ground arith) in
    (
      (a, b) ∷ ps,
      r,
      omega (arith, len),
      (ground arith, ground arith, hex),
      ap (λ t. a ∷ b ∷ t) e,
      done,
    )

pub join-pairs_of :
    (ps : List (ℕ × ℕ)) → join colon (pairs_of (length ps) (spell_each [] ps)) ≡ spell colon ps
unfolding join pairs_of
join-pairs_of [] = refl
join-pairs_of ((a, b) ∷ []) = refl
join-pairs_of ((a, b) ∷ p ∷ ps) = ap (λ t. a ∷ b ∷ b':' ∷ t) (join-pairs_of (p ∷ ps))

hex_kept : (a : ℕ) → is_hex a ≡ true → upper_char (if eqb a b'-' then b':' else a) ≡ upper_char a
unfolding is_hex
hex_kept a h = ground arith

-- The separator becomes a colon and the digits upper case.
pub upper-replace_char-spell :
    (g : Text) (ps : List (ℕ × ℕ))
    → IsSeparator g
    → g ≢ []
    → AreHex ps
    → upper (replace_char b'-' b':' (spell g ps)) ≡ spell colon (upper_pairs ps)
unfolding upper replace_char
upper-replace_char-spell g [] sep ne h = refl
upper-replace_char-spell g ((a, b) ∷ []) sep ne (ha, hb, h) = cc (hex_kept a ha, hex_kept b hb)
upper-replace_char-spell g ((a, b) ∷ p ∷ ps) no_separator ne h = absurd (ne refl)
upper-replace_char-spell g ((a, b) ∷ p ∷ ps) is_colon ne (ha, hb, h) =
    cc (hex_kept a ha, hex_kept b hb, upper-replace_char-spell colon (p ∷ ps) is_colon ne h)
upper-replace_char-spell g ((a, b) ∷ p ∷ ps) is_dash ne (ha, hb, h) =
    cc (hex_kept a ha, hex_kept b hb, upper-replace_char-spell (b'-' ∷ []) (p ∷ ps) is_dash ne h)
