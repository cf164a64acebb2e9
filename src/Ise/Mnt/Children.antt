-- ===== src/Ise/Mnt/Children.antt =====
-- The reading of an XML element keeps every child.
use cisco_ise_mcp.Prelude.{
  All, Bool-cases, List, Option, [], ap, append-nil, append_assoc, false, if◌then◌else◌, inl, inr,
  is_empty, none, refl, some, sym, ◌++◌, ◌∙◌, ◌∷◌, ◌≡◌,
}
use cisco_ise_mcp.Ise.Mnt.{
  add_child, append_item, children_fields, elem_value, joined, tag_of, text_or_none,
}
use cisco_ise_mcp.Ise.Mnt.Laws.{get_field-set_field}
use cisco_ise_mcp.Text.{Text, strip, ◌==◌}
use cisco_ise_mcp.Text.Laws.{==_iff}
use cisco_ise_mcp.Value.{
  Fields, Value, arr, bool, cons, end, float, get_field, int, items, null, obj, str,
}
use cisco_ise_mcp.World.{Element, Elements, child, element, none_left}

-- The values of the children with a tag, in the order of the document.
abbrev pub values_at : Text → Elements → List Value
values_at k none_left = []
values_at k (child e es) =
    let rest = values_at k es in if tag_of e == k then elem_value e ∷ rest else rest

-- How they are shown: one alone as it is, several as a list.
abbrev pub grouped : List Value → Option Value
grouped [] = none
grouped (v ∷ []) = some v
grouped (v ∷ u ∷ vs) = some (arr (items (v ∷ u ∷ vs)))

abbrev IsNoList : Value → Type 0
IsNoList (arr xs) = ⊥
IsNoList _ = Unit

text-IsNoList : (text : Option Text) → IsNoList (text_or_none text)
text-IsNoList none = tt
text-IsNoList (some s) = elim (Bool-cases (is_empty (strip s))) [
  | inl e ↦ rw e tt
  | inr e ↦ rw e tt
]

elem-IsNoList : (e : Element) → IsNoList (elem_value e)
unfolding elem_value
elem-IsNoList (element tag text none_left) = text-IsNoList text
elem-IsNoList (element tag text (child e es)) = tt

append_item-items : (vs : List Value) (v : Value) → append_item (items vs) v ≡ items (vs ++ v ∷ [])
append_item-items [] v = refl
append_item-items (u ∷ vs) v = ap (cons u) (append_item-items vs v)

joined_pair : (u v : Value) → IsNoList u → joined (some u) v ≡ arr (items (u ∷ v ∷ []))
joined_pair null v h = refl
joined_pair (bool b) v h = refl
joined_pair (int n) v h = refl
joined_pair (float m e) v h = refl
joined_pair (str s) v h = refl
joined_pair (obj fs) v h = refl
joined_pair (arr xs) v h = absurd h

joined-grouped :
    (vs : List Value) (v : Value)
    → All IsNoList vs
    → some (joined (grouped vs) v) ≡ grouped (vs ++ v ∷ [])
joined-grouped [] v h = refl
joined-grouped (u ∷ []) v h = ap some (joined_pair u v h.0)
joined-grouped (u ∷ t ∷ vs) v h =
    ap (λ xs. some (arr (cons u (cons t xs)))) (append_item-items vs v)

All-snoc :
    (vs : List Value) (v : Value) → All IsNoList vs → IsNoList v → All IsNoList (vs ++ v ∷ [])
All-snoc [] v h k = (k, tt)
All-snoc (u ∷ vs) v h k = (h.0, All-snoc vs v h.1 k)

added_same :
    (k tag : Text) (v : Value) (fs : Fields) (vs : List Value)
    → tag ≡ k
    → All IsNoList vs
    → get_field k fs ≡ grouped vs
    → get_field k (add_child tag v fs) ≡ grouped (vs ++ v ∷ [])
unfolding add_child
added_same k tag v fs vs same h e =
    get_field-set_field k tag (joined (get_field tag fs) v) fs
    ∙ rw ((==_iff tag k).1 same) (ap (λ t. some (joined (get_field t fs) v)) same)
    ∙ ap (λ found. some (joined found v)) e
    ∙ joined-grouped vs v h

added_other :
    (k tag : Text) (v : Value) (fs : Fields)
    → (tag == k) ≡ false
    → get_field k (add_child tag v fs) ≡ get_field k fs
unfolding add_child
added_other k tag v fs other =
    get_field-set_field k tag (joined (get_field tag fs) v) fs ∙ rw other refl

-- What is under a tag, when `vs` were the values under it before.
get_field-children :
    (k : Text) (es : Elements) (fs : Fields) (vs : List Value)
    → All IsNoList vs
    → get_field k fs ≡ grouped vs
    → get_field k (children_fields es fs) ≡ grouped (vs ++ values_at k es)
unfolding children_fields
get_field-children k none_left fs vs h e = e ∙ ap grouped (sym (append-nil vs))
get_field-children k (child c es) fs vs h e = elim (Bool-cases (tag_of c == k)) [
  | inl same ↦
      get_field-children k es (add_child (tag_of c) (elem_value c) fs) (vs ++ elem_value c ∷ [])
        (All-snoc vs (elem_value c) h (elem-IsNoList c))
        (added_same k (tag_of c) (elem_value c) fs vs ((==_iff (tag_of c) k).0 same) h e)
      ∙ ap grouped (append_assoc vs (elem_value c ∷ []) (values_at k es))
      ∙ rw same refl
  | inr other ↦
      get_field-children k es (add_child (tag_of c) (elem_value c) fs) vs h
        (added_other k (tag_of c) (elem_value c) fs other ∙ e)
      ∙ rw other refl
]

-- An XML element with children is read as a dict which has under each tag the values of all children with
-- that tag, in the order of the document: one alone as it is, several as a list, and nothing under a
-- tag that no child has.
pub elem_value-children :
    (tag : Text) (text : Option Text) (e : Element) (es : Elements) (k : Text)
    → (fs : Fields) × (elem_value (element tag text (child e es)) ≡ obj fs)
      × (get_field k fs ≡ grouped (values_at k (child e es)))
unfolding elem_value get_field
elem_value-children tag text e es k =
    (children_fields (child e es) end, refl, get_field-children k (child e es) end [] tt refl)
