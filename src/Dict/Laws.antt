-- ===== src/Dict/Laws.antt =====
-- The laws of dicts.
use cisco_ise_mcp.Prelude.{
  Bool, Bool-cases, List, [], ap, arith, false, if◌then◌else◌, inl, inr, length, none, refl, some,
  ◌+◌, ◌∙◌, ◌∷◌, ◌≡◌,
}
use cisco_ise_mcp.Dict.{Dict, HasKeysApart, drop_if, insert, keys_where, lookup, remove, remove_all}
use cisco_ise_mcp.Text.{Text, contains, ◌==◌}
use cisco_ise_mcp.Text.Laws.{==_iff, ==_refl}

module _ {ℓ} {V : Type ℓ} where
  pub lookup-insert :
      (k j : Text) (v : V) (d : Dict V)
      → lookup j (insert k v d) ≡ (if k == j then some v else lookup j d)
  unfolding lookup insert
  lookup-insert k j v [] = refl
  lookup-insert k j v ((i, w) ∷ d) =
      ground (arith, ==_iff k j, ==_iff i k, ==_iff i j, lookup-insert k j v d)

  pub lookup-insert_self : (k : Text) (v : V) (d : Dict V) → lookup k (insert k v d) ≡ some v
  lookup-insert_self k v d = rw (lookup-insert, ==_refl)

  pub lookup-remove :
      (k j : Text) (d : Dict V) → lookup j (remove k d) ≡ (if k == j then none else lookup j d)
  unfolding lookup remove
  lookup-remove k j [] = ground arith
  lookup-remove k j ((i, w) ∷ d) =
      ground (arith, ==_iff k j, ==_iff i k, ==_iff i j, lookup-remove k j d)

  pub insert-HasKeysApart :
      (k : Text) (v : V) (d : Dict V) → HasKeysApart d → HasKeysApart (insert k v d)
  unfolding lookup insert
  insert-HasKeysApart k v [] h = (refl, tt)
  insert-HasKeysApart k v ((i, w) ∷ d) h =
      ground (arith, ==_iff i k, ==_iff k i, lookup-insert k i v d, insert-HasKeysApart k v d)

  pub remove-HasKeysApart : (k : Text) (d : Dict V) → HasKeysApart d → HasKeysApart (remove k d)
  unfolding remove
  remove-HasKeysApart k [] h = tt
  remove-HasKeysApart k ((i, w) ∷ d) h =
      ground (arith, ==_iff k i, lookup-remove k i d, remove-HasKeysApart k d)

  pub lookup-drop_if :
      (p : V → Bool) (j : Text) (d : Dict V)
      → HasKeysApart d
      → lookup j (drop_if p d)
        ≡ elim (lookup j d) [ none ↦ none | some v ↦ if p v then none else some v ]
  unfolding lookup drop_if
  lookup-drop_if p j [] h = refl
  lookup-drop_if p j ((i, w) ∷ d) h = ground (arith, ==_iff i j, lookup-drop_if p j d)

  remove_absent : (k : Text) (d : Dict V) → lookup k d ≡ none → remove k d ≡ d
  unfolding lookup remove
  remove_absent k [] h = refl
  remove_absent k ((i, w) ∷ d) h = ground (arith, remove_absent k d)

  remove_all-cons :
      (ks : List Text) (j : Text) (v : V) (d : Dict V)
      → contains ks j ≡ false
      → remove_all ks ((j, v) ∷ d) ≡ (j, v) ∷ remove_all ks d
  unfolding contains remove_all
  remove_all-cons [] j v d h = refl
  remove_all-cons (k ∷ ks) j v d h = ground (arith, remove_all-cons ks j v (remove k d))

  contains-keys_where :
      (p : V → Bool) (j : Text) (d : Dict V)
      → lookup j d ≡ none
      → contains (keys_where p d) j ≡ false
  unfolding contains lookup keys_where
  contains-keys_where p j [] h = refl
  contains-keys_where p j ((i, w) ∷ d) h =
      ground (arith, ==_iff i j, ==_iff j i, contains-keys_where p j d)

  remove_self : (j : Text) (v : V) (d : Dict V) → lookup j d ≡ none → remove j ((j, v) ∷ d) ≡ d
  unfolding remove
  remove_self j v d h = ground (arith, ==_refl j, remove_absent j d)

  remove_all-cons_self :
      (ks : List Text) (j : Text) (v : V) (d : Dict V)
      → lookup j d ≡ none
      → remove_all (j ∷ ks) ((j, v) ∷ d) ≡ remove_all ks d
  unfolding remove_all
  remove_all-cons_self ks j v d h = ap (remove_all ks) (remove_self j v d h)

  -- Deleting the keys whose values pass a test one by one drops just those entries.
  pub remove_all-keys_where :
      (p : V → Bool) (d : Dict V) → HasKeysApart d → remove_all (keys_where p d) d ≡ drop_if p d
  unfolding keys_where drop_if
  remove_all-keys_where p [] h = unfold remove_all in refl
  remove_all-keys_where p ((j, v) ∷ d) (fresh, h) = elim (Bool-cases (p v)) [
    | inl e ↦ rw e (remove_all-cons_self (keys_where p d) j v d fresh ∙ remove_all-keys_where p d h)
    | inr e ↦ rw e (
        remove_all-cons (keys_where p d) j v d (contains-keys_where p j d fresh)
        ∙ ap (λ t. (j, v) ∷ t) (remove_all-keys_where p d h))
  ]

  pub length-drop_if :
      (p : V → Bool) (d : Dict V) → length (keys_where p d) + length (drop_if p d) ≡ length d
  unfolding keys_where drop_if
  length-drop_if p [] = refl
  length-drop_if p ((j, v) ∷ d) = ground (arith, length-drop_if p d)
