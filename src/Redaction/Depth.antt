-- ===== src/Redaction/Depth.antt =====
-- Where redaction masks and where it stops, by the path that leads to a value.
use cisco_ise_mcp.Prelude.{
  Bool, Bool-cases, List, Option, [], all, ap, arith, if◌then◌else◌, inl, inr, leb, length, ltb,
  none, not, refl, some, suc, true, zero, ℕ, ◌++◌, ◌+◌, ◌∙◌, ◌∷◌, ◌≡◌, ◌≤◌,
}
use cisco_ise_mcp.Ise.Mnt.Laws.{here}
use cisco_ise_mcp.Redaction.{is_sensitive, mask, redact, redact_fields, redact_items}
use cisco_ise_mcp.Redaction.Laws.{stops_below}
use cisco_ise_mcp.Text.{Text}
use cisco_ise_mcp.Text.Laws.{==_iff}
use cisco_ise_mcp.Value.{Fields, Items, Value, arr, cons, end, field, get_field, nil, obj, str}

-- A step from a container to what it holds.
pub data Step : Type 0 where
  under_key : Text → Step
  at_index : ℕ → Step

abbrev item_at : ℕ → Items → Option Value
item_at n nil = none
item_at zero (cons v xs) = some v
item_at (suc n) (cons v xs) = item_at n xs

abbrev pub child : Step → Value → Option Value
child (under_key k) (obj fs) = get_field k fs
child (at_index n) (arr xs) = item_at n xs
child _ _ = none

-- What stands at the end of the path.
abbrev pub value_at : List Step → Value → Option Value
value_at [] v = some v
value_at (s ∷ path) v = elim (child s v) [ none ↦ none | some u ↦ value_at path u ]

abbrev pub is_open : Step → Bool
is_open (under_key k) = not (is_sensitive k)
is_open (at_index n) = true

item_at-redact :
    (n d : ℕ) (xs : Items) (u : Value)
    → item_at n xs ≡ some u
    → item_at n (redact_items xs d) ≡ some (redact u d)
unfolding redact
item_at-redact n d nil u h = cc
item_at-redact zero d (cons v xs) u h = ground arith
item_at-redact (suc n) d (cons v xs) u h = item_at-redact n d xs u h

get_field-redact :
    (k : Text) (d : ℕ) (fs : Fields) (u : Value)
    → get_field k fs ≡ some u
    → get_field k (redact_fields fs d) ≡ some (if is_sensitive k then str mask else redact u d)
unfolding redact get_field
get_field-redact k d end u h = cc
get_field-redact k d (field j v fs) u h =
    ground (arith, get_field-redact k d fs u, ==_iff k j, ==_iff j k)

child-redact :
    (s : Step) (d : ℕ) (v u : Value)
    → d ≤ 25
    → is_open s ≡ true
    → child s v ≡ some u
    → child s (redact v d) ≡ some (redact u (d + 1))
unfolding redact
child-redact (under_key k) d (obj fs) u le h e = ground (arith, get_field-redact k (d + 1) fs u e)
child-redact (at_index n) d (arr xs) u le h e = ground (arith, item_at-redact n (d + 1) xs u e)
child-redact _ d _ u le h e = ground arith

child-masked :
    (k : Text) (d : ℕ) (v u : Value)
    → d ≤ 25
    → is_sensitive k ≡ true
    → child (under_key k) v ≡ some u
    → child (under_key k) (redact v d) ≡ some (str mask)
unfolding redact
child-masked k d (obj fs) u le h e = ground (arith, get_field-redact k (d + 1) fs u e)
child-masked k d _ u le h e = ground arith

abbrev or_shown : ℕ → Value → Value
or_shown d x = if leb d 25 then str mask else x

abbrev then_at : List Step → Option Value → Option Value
then_at path none = none
then_at path (some u) = value_at path u

-- The value that a path goes through is there.
found_child :
    (path : List Step) (found : Option Value) (x : Value)
    → then_at path found ≡ some x
    → (u : Value) × (found ≡ some u) × (value_at path u ≡ some x)
found_child path none x h = cc
found_child path (some u) x h = (u, refl, h)

value_at-below :
    (path : List Step) (k : Text) (d : ℕ) (v x : Value)
    → all is_open path ≡ true
    → is_sensitive k ≡ true
    → value_at (path ++ under_key k ∷ []) v ≡ some x
    → value_at (path ++ under_key k ∷ []) (redact v d) ≡ some (or_shown (d + length path) x)
value_at-below [] k d v x o h e = elim (Bool-cases (ltb 25 d)) [
  | inl deep ↦ rw (stops_below v d (ground arith)) (e ∙ ground arith)
  | inr near ↦
      let (u, at, here) = found_child [] (child (under_key k) v) x e in
      ap (then_at []) (child-masked k d v u (ground arith) h at) ∙ ground arith
]
value_at-below (s ∷ path) k d v x o h e = elim (Bool-cases (ltb 25 d)) [
  | inl deep ↦ rw (stops_below v d (ground arith)) (e ∙ ground arith)
  | inr near ↦
      let next = path ++ under_key k ∷ [] in
      let (u, at, rest) = found_child next (child s v) x e in
      ap (then_at next) (child-redact s d v u (ground arith) (ground arith) at)
      ∙ value_at-below path k (d + 1) u x (ground arith) h rest
      ∙ ap (λ n. some (or_shown n x)) (omega arith)
]

-- A value under a sensitive key, on a path from the root on which no other key is sensitive, is masked if
-- at most 25 containers, dicts and lists alike, stand around the dict with the key; under more of them it
-- is shown as it is.
pub value_at-redact :
    (path : List Step) (k : Text) (v x : Value)
    → all is_open path ≡ true
    → is_sensitive k ≡ true
    → value_at (path ++ under_key k ∷ []) v ≡ some x
    → value_at (path ++ under_key k ∷ []) (redact v 0)
      ≡ some (if leb (length path) 25 then str mask else x)
value_at-redact path k v x o h e =
    value_at-below path k 0 v x o h e ∙ ap (λ n. some (or_shown n x)) (omega arith)
