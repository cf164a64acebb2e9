-- ===== src/Validation/Mac/Laws.antt =====
-- The laws of `normalize_mac`: which texts it accepts, and what it makes of them.
use cisco_ise_mcp.Prelude.{
  Bool-cases, List, [], ap, append_assoc, arith, eqb, eqb_iff, false, inl, inr, length,
  length-append, refl, some, subst, suc, sym, true, zero, ℕ, ◌++◌, ◌↔◌, ◌∷◌, ◌≡◌, ◌≢◌,
}
use cisco_ise_mcp.Errors.{ok}
use cisco_ise_mcp.Text.{Text, is_space, join, strip}
use cisco_ise_mcp.Text.Laws.{strip-last}
use cisco_ise_mcp.Validation.Mac.{
  at_end, colon, groups, hex_pair, hex_run, is_hex, mac_re, mac_rest, normalize_mac, pairs_of,
  separator, with_colons,
}
use cisco_ise_mcp.Validation.Mac.Spelling.{
  >>=-eq-some, AreHex, IsSeparator, double, groups-eq-some, groups-spell_each, hex_pair-eq-some,
  hex_run-spell_each, is_colon, is_dash, join-pairs_of, no_separator, spell, spell-ends, spell_each,
  spell_each-no_separator, upper-replace_char-spell, upper_pairs,
}

-- What the check makes of a stripped text: six pairs of hexadecimal digits, written with colons,
-- with dashes or together, become the pairs in upper case with colons.
pub record IsReading (v m : Text) : Type 0 where
  pub group : Text
  pub pairs : List (ℕ × ℕ)
  pub is_separator : IsSeparator group
  pub six : length pairs ≡ 6
  pub hex : AreHex pairs
  pub written : v ≡ spell group pairs
  pub canonical : m ≡ spell colon (upper_pairs pairs)

-- Six pairs, taken apart as the pattern reads them.
abbrev six_pairs : ℕ → ℕ → List (ℕ × ℕ) → ℕ → ℕ → List (ℕ × ℕ)
six_pairs a b ps c d = (a, b) ∷ (ps ++ (c, d) ∷ [])

split_last :
    (n : ℕ) (ps : List (ℕ × ℕ))
    → length ps ≡ suc n
    → (qs : List (ℕ × ℕ)) × (c : ℕ) × (d : ℕ) × (length qs ≡ n) × (ps ≡ qs ++ (c, d) ∷ [])
split_last n [] h = absurd (omega arith)
split_last zero ((c, d) ∷ []) h = ([], c, d, refl, refl)
split_last zero ((c, d) ∷ p ∷ ps) h = absurd (omega arith)
split_last (suc n) ((a, b) ∷ ps) h =
    let (qs, c, d, len, e) = split_last n ps (omega arith) in
    ((a, b) ∷ qs, c, d, omega (arith, len), ap (λ t. (a, b) ∷ t) e)

AreHex-append :
    (ps : List (ℕ × ℕ)) (c d : ℕ)
    → AreHex (ps ++ (c, d) ∷ []) ↔ (AreHex ps × (is_hex c ≡ true) × (is_hex d ≡ true))
AreHex-append [] c d = ground arith
AreHex-append ((a, b) ∷ ps) c d = ground (arith, AreHex-append ps c d)

-- The pattern's group is read back where a hexadecimal digit follows it.
separator-append :
    (g : Text) (c : ℕ) (s : Text)
    → IsSeparator g
    → is_hex c ≡ true
    → separator (g ++ c ∷ s) ≡ (g, c ∷ s)
unfolding separator is_hex
separator-append g c s no_separator h = ground arith
separator-append g c s is_colon h = refl
separator-append g c s is_dash h = refl

separator-IsSeparator :
    (s : Text) → IsSeparator (separator s).0 × (s ≡ (separator s).0 ++ (separator s).1)
unfolding separator
separator-IsSeparator [] = (no_separator, refl)
separator-IsSeparator (c ∷ s) = elim (Bool-cases (eqb c b':')) [
  | inl e ↦ rw ((eqb_iff c b':').0 e) (is_colon, refl)
  | inr e ↦ elim (Bool-cases (eqb c b'-')) [
    | inl k ↦ rw ((eqb_iff c b'-').0 k) (is_dash, refl)
    | inr k ↦ rw (e, k) (no_separator, refl)
  ]
]

-- Any spelling of six pairs is read to its end.
mac_rest-spell :
    (g : Text) (a b x y c d : ℕ) (ps : List (ℕ × ℕ))
    → IsSeparator g
    → length ps ≡ 3
    → AreHex (six_pairs a b ((x, y) ∷ ps) c d)
    → mac_rest (spell g (six_pairs a b ((x, y) ∷ ps) c d)) ≡ some []
unfolding mac_rest
mac_rest-spell g a b x y c d ps sep len (ha, hb, h) =
    let (inner, hc, hd) = (AreHex-append ((x, y) ∷ ps) c d).0 h in
    let text : Text = spell_each g ((x, y) ∷ ps) ++ c ∷ d ∷ [] in
    let e : groups 4 g text ≡ some (c ∷ d ∷ []) =
      subst (λ n. groups n g text ≡ some (c ∷ d ∷ [])) (ap suc len)
        (groups-spell_each g ((x, y) ∷ ps) (c ∷ d ∷ []) sep inner) in
    subst (λ t. mac_rest t ≡ some []) (sym (spell-ends g a b c d ((x, y) ∷ ps)))
      (rw (ha, hb) (rw (separator-append g x _ sep inner.0) (rw e (rw (hc, hd)))))

length-six_pairs :
    (a b c d : ℕ) (ps : List (ℕ × ℕ)) → length ps ≡ 4 → length (six_pairs a b ps c d) ≡ 6
length-six_pairs a b c d ps len = omega (arith, length-append {0} ps ((c, d) ∷ []))

assemble :
    (v s t s2 g r : Text) (a b c d : ℕ) (ps : List (ℕ × ℕ))
    → v ≡ a ∷ b ∷ s
    → s ≡ g ++ t
    → t ≡ spell_each g ps ++ s2
    → s2 ≡ c ∷ d ∷ r
    → v ≡ spell g (six_pairs a b ps c d) ++ r
assemble v s t s2 g r a b c d ps e1 e2 e3 e4 =
    subst (λ x. v ≡ x ++ r) (sym (spell-ends g a b c d ps))
      (rw (e1, e2, e3, e4) (simp append_assoc))

-- And whatever is read is a spelling of six pairs.
pub mac_rest-eq-some :
    (v r : Text)
    → mac_rest v ≡ some r
    → (g : Text) × (ps : List (ℕ × ℕ)) × IsSeparator g
      × (length ps ≡ 6)
      × AreHex ps
      × (v ≡ spell g ps ++ r)
unfolding mac_rest
mac_rest-eq-some v r h =
    let (s, h1, k1) = >>=-eq-some (hex_pair v) _ h in
    let (a, b, ha, hb, e1) = hex_pair-eq-some v s h1 in
    let (sep, e2) = separator-IsSeparator s in
    let g = (separator s).0 in
    let (s2, h2, k2) = >>=-eq-some (groups 4 g (separator s).1) hex_pair k1 in
    let (ps, len, hex, e3) = groups-eq-some 4 g (separator s).1 s2 sep h2 in
    let (c, d, hc, hd, e4) = hex_pair-eq-some s2 r k2 in
    (
      g,
      six_pairs a b ps c d,
      sep,
      length-six_pairs a b c d ps len,
      (ha, hb, (AreHex-append ps c d).1 (hex, hc, hd)),
      assemble v s _ s2 g r a b c d ps e1 e2 e3 e4,
    )

newline_is_space : (c : ℕ) → c ≡ 10 → is_space c ≢ false
unfolding is_space
newline_is_space c e h = cc (subst (λ x. is_space x ≡ false) e h)

-- At the end of a stripped text `$` matches nothing but the end.
pub at_end_of_strip : (value w r : Text) → strip value ≡ w ++ r → at_end r ≡ true → r ≡ []
unfolding at_end
at_end_of_strip value w [] e h = refl
at_end_of_strip value w (c ∷ []) e h =
    absurd (newline_is_space c (ground arith) (strip-last value w c e))
at_end_of_strip value w (c ∷ d ∷ r) e h = ground arith

mac_re-spell :
    (g : Text) (ps : List (ℕ × ℕ))
    → IsSeparator g
    → length ps ≡ 6
    → AreHex ps
    → mac_re (spell g ps) ≡ true
unfolding mac_re
mac_re-spell g [] sep len h = absurd (omega arith)
mac_re-spell g (p ∷ []) sep len h = absurd (omega arith)
mac_re-spell g ((a, b) ∷ (x, y) ∷ ps) sep len h =
    let (qs, c, d, len3, e) = split_last 3 ps (omega arith) in
    subst (λ t. AreHex ((a, b) ∷ (x, y) ∷ t) → mac_re (spell g ((a, b) ∷ (x, y) ∷ t)) ≡ true)
      (sym e) (λ hex. rw (mac_rest-spell g a b x y c d qs sep len3 hex)) h

-- Texts with separators do not match the pattern for plain digits.
hex_run-spell :
    (g : Text) (ps : List (ℕ × ℕ))
    → IsSeparator g
    → g ≢ []
    → length ps ≡ 6
    → hex_run 12 (spell g ps) ≡ false
unfolding hex_run is_hex
hex_run-spell g [] sep ne len = absurd (omega arith)
hex_run-spell g (p ∷ []) sep ne len = absurd (omega arith)
hex_run-spell g ((a, b) ∷ (x, y) ∷ ps) no_separator ne len = absurd (ne refl)
hex_run-spell g ((a, b) ∷ (x, y) ∷ ps) is_colon ne len = ground arith
hex_run-spell g ((a, b) ∷ (x, y) ∷ ps) is_dash ne len = ground arith

pub hex_run-no_separator :
    (ps : List (ℕ × ℕ)) → length ps ≡ 6 → AreHex ps → hex_run 12 (spell [] ps) ≡ true
hex_run-no_separator ps len h =
    subst (λ t. hex_run 12 t ≡ true) (sym (spell_each-no_separator ps))
      (subst (λ n. hex_run (double n) (spell_each [] ps) ≡ true) len (hex_run-spell_each ps h))

pub with_colons-spell_each :
    (ps : List (ℕ × ℕ)) → length ps ≡ 6 → AreHex ps → with_colons (spell [] ps) ≡ spell colon ps
unfolding with_colons
with_colons-spell_each ps len h = rw (hex_run-no_separator ps len h) (
    subst (λ t. join colon (pairs_of 6 t) ≡ spell colon ps) (sym (spell_each-no_separator ps))
      (subst (λ n. join colon (pairs_of n (spell_each [] ps)) ≡ spell colon ps) len
        (join-pairs_of ps)))

pub with_colons-spell :
    (g : Text) (ps : List (ℕ × ℕ))
    → IsSeparator g
    → g ≢ []
    → length ps ≡ 6
    → with_colons (spell g ps) ≡ spell g ps
unfolding with_colons
with_colons-spell g ps sep ne len = rw (hex_run-spell g ps sep ne len)

pub colon_ne_nil : colon ≢ []
colon_ne_nil e = cc

-- A spelling of six pairs, once the colons are in, is accepted.
pub accepts :
    (value g : Text) (ps : List (ℕ × ℕ))
    → with_colons (strip value) ≡ spell g ps
    → IsSeparator g
    → g ≢ []
    → length ps ≡ 6
    → AreHex ps
    → normalize_mac value ≡ ok (spell colon (upper_pairs ps))
unfolding normalize_mac
accepts value g ps e sep ne len h =
    rw e (rw (mac_re-spell g ps sep len h) (rw (upper-replace_char-spell g ps sep ne h)))
