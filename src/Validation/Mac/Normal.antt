-- ===== src/Validation/Mac/Normal.antt =====
-- What `normalize_mac` accepts and what it returns.
use cisco_ise_mcp.Prelude.{
  Bool-cases, List, Option-cases, [], ap, append-nil, arith, false, false≢true, inl, inr, length,
  sym, true, ℕ, ◌++◌, ◌↔◌, ◌∙◌, ◌∷◌, ◌≡◌, ◌≢◌,
}
use cisco_ise_mcp.Errors.{ok}
use cisco_ise_mcp.Text.{Text, strip}
use cisco_ise_mcp.Validation.Mac.{colon, hex_run, mac_re, mac_rest, normalize_mac, with_colons}
use cisco_ise_mcp.Validation.Mac.Laws.{
  IsReading, accepts, at_end_of_strip, colon_ne_nil, mac_rest-eq-some, with_colons-spell,
  with_colons-spell_each,
}
use cisco_ise_mcp.Validation.Mac.Spelling.{
  AreHex, IsSeparator, hex_run-eq-true, is_colon, is_dash, no_separator, spell, spell_each,
  spell_each-no_separator, upper_pairs,
}

abbrev dash : Text
dash = b'-' ∷ []

dash_ne_nil : dash ≢ []
dash_ne_nil e = cc

-- A text without separators gets its colons.
plain_reading :
    (value : Text)
    → hex_run 12 (strip value) ≡ true
    → (ps : List (ℕ × ℕ)) × (length ps ≡ 6) × AreHex ps × (strip value ≡ spell [] ps)
plain_reading value h =
    let (ps, r, len, hex, e, done) = hex_run-eq-true 6 (strip value) h in
    let nothing = at_end_of_strip value (spell_each [] ps) r e done in
    (
      ps,
      len,
      hex,
      e ∙ ap (λ t. spell_each [] ps ++ t) nothing ∙ append-nil _ ∙ sym (spell_each-no_separator ps),
    )

mac_re_reading :
    (value : Text)
    → mac_re (strip value) ≡ true
    → (g : Text) × (ps : List (ℕ × ℕ)) × IsSeparator g
      × (length ps ≡ 6)
      × AreHex ps
      × (strip value ≡ spell g ps)
unfolding mac_re
mac_re_reading value h = elim (Option-cases (mac_rest (strip value))) [
  | inl e ↦ absurd (false≢true (rw e at h))
  | inr (r, e) ↦
      let (g, ps, sep, len, hex, w) = mac_rest-eq-some (strip value) r e in
      let nothing = at_end_of_strip value (spell g ps) r w (rw e at h) in
      (g, ps, sep, len, hex, w ∙ ap (λ t. spell g ps ++ t) nothing ∙ append-nil _)
]

normalizes :
    (value g : Text) (ps : List (ℕ × ℕ))
    → IsSeparator g
    → length ps ≡ 6
    → AreHex ps
    → strip value ≡ spell g ps
    → normalize_mac value ≡ ok (spell colon (upper_pairs ps))
normalizes value g ps no_separator len hex e =
    accepts value colon ps (ap with_colons e ∙ with_colons-spell_each ps len hex) is_colon
      colon_ne_nil len hex
normalizes value g ps is_colon len hex e =
    accepts value colon ps (ap with_colons e ∙ with_colons-spell colon ps is_colon colon_ne_nil len)
      is_colon colon_ne_nil len hex
normalizes value g ps is_dash len hex e =
    accepts value dash ps (ap with_colons e ∙ with_colons-spell dash ps is_dash dash_ne_nil len)
      is_dash dash_ne_nil len hex

reading :
    (value m g : Text) (ps : List (ℕ × ℕ))
    → IsSeparator g
    → length ps ≡ 6
    → AreHex ps
    → strip value ≡ spell g ps
    → normalize_mac value ≡ ok m
    → IsReading (strip value) m
reading value m g ps sep len hex e h = record {
  group = g;
  pairs = ps;
  is_separator = sep;
  six = len;
  hex = hex;
  written = e;
  canonical = cc (normalizes value g ps sep len hex e);
}

-- Without twelve plain digits, an accepted text matches the pattern with separators.
accepted_by_mac_re :
    (value m : Text)
    → normalize_mac value ≡ ok m
    → hex_run 12 (strip value) ≡ false
    → mac_re (strip value) ≡ true
unfolding normalize_mac with_colons
accepted_by_mac_re value m h plain = ground arith

normalize_mac_sound : (value m : Text) → normalize_mac value ≡ ok m → IsReading (strip value) m
normalize_mac_sound value m h = elim (Bool-cases (hex_run 12 (strip value))) [
  | inl plain ↦
      let (ps, len, hex, e) = plain_reading value plain in
      reading value m [] ps no_separator len hex e h
  | inr parted ↦
      let (g, ps, sep, len, hex, e) = mac_re_reading value (accepted_by_mac_re value m h parted) in
      reading value m g ps sep len hex e h
]

-- `normalize_mac` returns `m` exactly if the stripped text is six pairs of hexadecimal digits that
-- are all joined by colons, all joined by dashes, or written together, and `m` is those pairs in
-- upper case with colons. For every other text it raises.
pub normalize_mac_iff : (value m : Text) → (normalize_mac value ≡ ok m) ↔ IsReading (strip value) m
normalize_mac_iff value m = (
  normalize_mac_sound value m,
  λ r.
      normalizes value r.group r.pairs r.is_separator r.six r.hex r.written
      ∙ ap ok (sym r.canonical),
)
