-- ===== src/Text/Laws.antt =====
-- The laws of the text operations.
use cisco_ise_mcp.Prelude.{
  Bool, [], ap, arith, eqb, false, length, refl, subst, suc, take, true, zero, ℕ, ◌&&◌, ◌++◌, ◌↔◌,
  ◌∷◌, ◌≡◌,
}
use cisco_ise_mcp.Text.{
  Text, drop_while, is_space, lower, lower_char, rstrip_if, starts_with, strip, ◌==◌,
}

pub ==_refl : (s : Text) → (s == s) ≡ true
unfolding ◌==◌
==_refl [] = refl
==_refl (c ∷ s) = ground (arith, ==_refl s)

eq_of_== : (s t : Text) → (s == t) ≡ true → s ≡ t
unfolding ◌==◌
eq_of_== [] [] h = refl
eq_of_== [] (d ∷ t) h = cc
eq_of_== (c ∷ s) [] h = cc
eq_of_== (c ∷ s) (d ∷ t) h = ground (arith, eq_of_== s t)

pub ==_iff : (s t : Text) → ((s == t) ≡ true) ↔ (s ≡ t)
==_iff s t = (eq_of_== s t, λ e. subst (λ x. (s == x) ≡ true) e (==_refl s))

-- What `rstrip` leaves does not end in a character that it strips.
pub rstrip_if-last : (p : ℕ → Bool) (s u : Text) (c : ℕ) → rstrip_if p s ≡ u ++ c ∷ [] → p c ≡ false
unfolding rstrip_if
rstrip_if-last p [] [] c h = cc
rstrip_if-last p [] (x ∷ u) c h = cc
rstrip_if-last p (d ∷ s) [] c h = ground arith
rstrip_if-last p (d ∷ s) (x ∷ u) c h = ground (arith, rstrip_if-last p s u c)

-- Stripped text does not end in white space.
pub strip-last : (s u : Text) (c : ℕ) → strip s ≡ u ++ c ∷ [] → is_space c ≡ false
unfolding strip
strip-last s u c h = rstrip_if-last is_space (drop_while is_space s) u c h

lower_char_idem : (c : ℕ) → lower_char (lower_char c) ≡ lower_char c
lower_char_idem c = ground arith

-- Lower case is in lower case.
pub lower-lower : (s : Text) → lower (lower s) ≡ lower s
unfolding lower
lower-lower [] = refl
lower-lower (c ∷ s) = ground (arith, lower_char_idem c, lower-lower s)

pub take-lower : (n : ℕ) (s : Text) → take n (lower s) ≡ lower (take n s)
unfolding lower
take-lower zero s = refl
take-lower (suc n) [] = refl
take-lower (suc n) (c ∷ s) = ap (λ t. lower_char c ∷ t) (take-lower n s)

-- A text starts with another exactly if its first characters are the other.
pub starts_with-eq-take : (s p : Text) → starts_with s p ≡ (take (length p) s == p)
unfolding starts_with ◌==◌
starts_with-eq-take s [] = refl
starts_with-eq-take [] (d ∷ p) = refl
starts_with-eq-take (c ∷ s) (d ∷ p) = ap (λ b. eqb c d && b) (starts_with-eq-take s p)
