-- ===== src/Redaction/Laws.antt =====
-- What redaction hides, and what it leaves alone.
use cisco_ise_mcp.Prelude.{arith, refl, true, ℕ, ◌+◌, ◌<◌, ◌≡◌, ◌≤◌}
use cisco_ise_mcp.Redaction.{is_sensitive, redact, redact_fields, redact_items}
use cisco_ise_mcp.Text.{Text}
use cisco_ise_mcp.Value.{Fields, Items, Value, arr, cons, end, field, nil, obj}

-- Two values that differ at most under sensitive keys of dicts at depths up to 25.
mutual
  pub data AgreeOutsideSecrets : ℕ → Value → Value → Type 0 where
    equal_values : {d : ℕ} {v : Value} → AgreeOutsideSecrets d v v
    in_arr :
        {d : ℕ} {xs ys : Items}
        → d ≤ 25
        → AgreeItems (d + 1) xs ys
        → AgreeOutsideSecrets d (arr xs) (arr ys)
    in_obj :
        {d : ℕ} {fs gs : Fields}
        → d ≤ 25
        → AgreeFields (d + 1) fs gs
        → AgreeOutsideSecrets d (obj fs) (obj gs)

  pub data AgreeItems : ℕ → Items → Items → Type 0 where
    at_nil : {d : ℕ} → AgreeItems d nil nil
    at_cons :
        {d : ℕ} {v u : Value} {xs ys : Items}
        → AgreeOutsideSecrets d v u
        → AgreeItems d xs ys
        → AgreeItems d (cons v xs) (cons u ys)

  pub data AgreeFields : ℕ → Fields → Fields → Type 0 where
    same_end : {d : ℕ} → AgreeFields d end end
    masked_field :
        {d : ℕ} {k : Text} {v u : Value} {fs gs : Fields}
        → is_sensitive k ≡ true
        → AgreeFields d fs gs
        → AgreeFields d (field k v fs) (field k u gs)
    open_field :
        {d : ℕ} {k : Text} {v u : Value} {fs gs : Fields}
        → AgreeOutsideSecrets d v u
        → AgreeFields d fs gs
        → AgreeFields d (field k v fs) (field k u gs)

mutual
  unfolding redact

  hides_value : {d : ℕ} {v u : Value} → AgreeOutsideSecrets d v u → redact v d ≡ redact u d
  hides_value equal_values = refl
  hides_value (in_arr h a) = ground (arith, hides_items a)
  hides_value (in_obj h a) = ground (arith, hides_fields a)

  hides_items : {d : ℕ} {xs ys : Items} → AgreeItems d xs ys → redact_items xs d ≡ redact_items ys d
  hides_items at_nil = refl
  hides_items (at_cons a b) = cc (hides_value a, hides_items b)

  hides_fields :
      {d : ℕ} {fs gs : Fields} → AgreeFields d fs gs → redact_fields fs d ≡ redact_fields gs d
  hides_fields same_end = refl
  hides_fields (masked_field e b) = ground (arith, hides_fields b)
  hides_fields (open_field a b) = ground (arith, hides_value a, hides_fields b)

-- Redaction from depth 0 gives the same result for two values that differ only under sensitive keys
-- at depths up to 25: nothing of such a secret can be read from the result.
pub redact-hides : (v u : Value) → AgreeOutsideSecrets 0 v u → redact v 0 ≡ redact u 0
redact-hides v u a = hides_value a

mutual
  unfolding redact

  twice_value : (v : Value) (d : ℕ) → redact (redact v d) d ≡ redact v d
  twice_value (arr xs) d = ground (arith, twice_items xs (d + 1))
  twice_value (obj fs) d = ground (arith, twice_fields fs (d + 1))
  twice_value _ d = refl

  twice_items : (xs : Items) (d : ℕ) → redact_items (redact_items xs d) d ≡ redact_items xs d
  twice_items nil d = refl
  twice_items (cons v xs) d = cc (twice_value v d, twice_items xs d)

  twice_fields : (fs : Fields) (d : ℕ) → redact_fields (redact_fields fs d) d ≡ redact_fields fs d
  twice_fields end d = refl
  twice_fields (field k v fs) d = ground (arith, twice_value v d, twice_fields fs d)

-- Redacting a second time changes nothing.
pub redact_idem : (v : Value) (d : ℕ) → redact (redact v d) d ≡ redact v d
redact_idem v d = twice_value v d

pub stops_below : (v : Value) (d : ℕ) → 25 < d → redact v d ≡ v
unfolding redact
stops_below (arr xs) d h = ground arith
stops_below (obj fs) d h = ground arith
stops_below _ d h = refl
