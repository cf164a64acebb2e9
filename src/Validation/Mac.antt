-- ===== src/Validation/Mac.antt =====
-- validation.py: `normalize_mac` and the two patterns that it tries
pub mod Spelling
pub mod Laws
pub mod Normal
use cisco_ise_mcp.Prelude.{
  Bool, List, Option, [], drop, eqb, false, if◌then◌else◌, is_empty, none, refl, some, suc, take,
  true, within, zero, ℕ, ◌&&◌, ◌++◌, ◌||◌, ◌∷◌, ◌≡◌,
}
use cisco_ise_mcp.Errors.{Result, err, ok, validation_error}
use cisco_ise_mcp.Text.{Text, is_space, join, lit, replace_char, repr, strip, upper}

infixl 5 ◌>>=◌
abbrev pub ◌>>=◌ {ℓ κ} : {A : Type ℓ} {B : Type κ} → Option A → (A → Option B) → Option B
none >>= f = none
some a >>= f = f a

unfoldable pub is_hex : ℕ → Bool
is_hex c = within b'0' b'9' c || within b'A' b'F' c || within b'a' b'f' c

-- `$`: the end of the text, or a newline that ends it
unfoldable pub at_end : Text → Bool
at_end [] = true
at_end (c ∷ s) = eqb c 10 && is_empty s

-- `[0-9A-Fa-f]{2}`: what is left after it
unfoldable pub hex_pair : Text → Option Text
hex_pair [] = none
hex_pair (a ∷ []) = none
hex_pair (a ∷ b ∷ s) = if is_hex a && is_hex b then some s else none

-- `([:-]?)`: the group and what is left. A separator is no hexadecimal digit, so that taking none
-- where one stands never leads to a match.
unfoldable pub separator : Text → Text × Text
separator [] = ([], [])
separator (c ∷ s) = if eqb c b':' || eqb c b'-' then (c ∷ [], s) else ([], c ∷ s)

-- `\1`, for a group of at most one character
unfoldable pub same_group : Text → Text → Option Text
same_group [] s = some s
same_group (g ∷ gs) [] = none
same_group (g ∷ gs) (c ∷ s) = if eqb c g then some s else none

-- `(?:[0-9A-Fa-f]{2}\1){n}`
unfoldable pub groups : ℕ → Text → Text → Option Text
unfolding hex_pair same_group
groups zero group s = some s
groups (suc n) group s = do s1 ← hex_pair s; s2 ← same_group group s1; groups n group s2

abbrev ends_with : Option Text → Bool
ends_with none = false
ends_with (some s) = at_end s

-- What is left of the text after `_MAC_RE` without its `$`.
unfoldable pub mac_rest : Text → Option Text
unfolding hex_pair separator groups
mac_rest v = do s ← hex_pair v; let (group, s1) = separator s; s2 ← groups 4 group s1; hex_pair s2

-- `_MAC_RE.match(v)`
unfoldable pub mac_re : Text → Bool
unfolding at_end mac_rest
mac_re v = ends_with (mac_rest v)

-- `[0-9A-Fa-f]{n}$`
unfoldable pub hex_run : ℕ → Text → Bool
unfolding at_end
hex_run zero s = at_end s
hex_run (suc n) [] = false
hex_run (suc n) (c ∷ s) = is_hex c && hex_run n s

-- `v[i : i + 2] for i in range(0, 2 * n, 2)`
unfoldable pub pairs_of : ℕ → Text → List Text
pairs_of zero s = []
pairs_of (suc n) s = take 2 s ∷ pairs_of n (drop 2 s)

abbrev pub colon : Text
colon = b':' ∷ []

-- The text with colons, if it matches `_MAC_PLAIN_RE`.
unfoldable pub with_colons : Text → Text
unfolding hex_run pairs_of
with_colons v = if hex_run 12 v then join colon (pairs_of 6 v) else v

unfoldable pub normalize_mac : Text → Result Text
normalize_mac value =
    let v = with_colons (strip value) in
    if mac_re v
    then ok (upper (replace_char b'-' b':' v))
    else err (validation_error (lit "Invalid MAC address: " ++ repr value))

normalize_mac_tests :
    (normalize_mac (lit " aa-bb-cc-dd-ee-0f\n") ≡ ok (lit "AA:BB:CC:DD:EE:0F"))
    × (normalize_mac (lit "aabbccddee0f") ≡ ok (lit "AA:BB:CC:DD:EE:0F"))
    × (normalize_mac (lit "aa:bb-cc:dd:ee:0f")
        ≡ err (validation_error (lit "Invalid MAC address: 'aa:bb-cc:dd:ee:0f'")))
unfolding normalize_mac with_colons mac_re is_hex strip is_space upper replace_char join lit repr
normalize_mac_tests = (refl, refl, refl)
