-- ===== src/Dict.antt =====
-- Python's `dict` with text keys as an association list in the order of insertion.
pub mod Laws
use cisco_ise_mcp.Prelude.{Bool, List, Option, [], if◌then◌else◌, none, some, ◌∷◌, ◌≡◌}
use cisco_ise_mcp.Text.{Text, ◌==◌}

abbrev pub Dict {ℓ} : Type ℓ → Type ℓ
Dict V = List (Text × V)

module _ {ℓ} {V : Type ℓ} where
  -- `d.get(k)`
  unfoldable pub lookup : Text → Dict V → Option V
  lookup k [] = none
  lookup k ((j, v) ∷ d) = if j == k then some v else lookup k d

  -- `d[k] = v` keeps the place of a key that is there.
  unfoldable pub insert : Text → V → Dict V → Dict V
  insert k v [] = (k, v) ∷ []
  insert k v ((j, w) ∷ d) = if j == k then (j, v) ∷ d else (j, w) ∷ insert k v d

  -- `del d[k]` and `d.pop(k, None)`
  unfoldable pub remove : Text → Dict V → Dict V
  remove k [] = []
  remove k ((j, v) ∷ d) = let rest = remove k d in if j == k then rest else (j, v) ∷ rest

  -- The entries whose value fails the test.
  unfoldable pub drop_if : (V → Bool) → Dict V → Dict V
  drop_if p [] = []
  drop_if p ((j, v) ∷ d) = let rest = drop_if p d in if p v then rest else (j, v) ∷ rest

  -- `[k for k, v in d.items() if p(v)]`
  unfoldable pub keys_where : (V → Bool) → Dict V → List Text
  keys_where p [] = []
  keys_where p ((j, v) ∷ d) = let rest = keys_where p d in if p v then j ∷ rest else rest

  -- `for k in ks: del d[k]`
  unfoldable pub remove_all : List Text → Dict V → Dict V
  unfolding remove
  remove_all [] d = d
  remove_all (k ∷ ks) d = remove_all ks (remove k d)

  -- The keys of a dict are distinct.
  abbrev pub HasKeysApart : Dict V → Type ℓ
  HasKeysApart [] = Unit
  HasKeysApart ((j, v) ∷ d) = (lookup j d ≡ none) × HasKeysApart d
