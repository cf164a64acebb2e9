-- ===== src/Config/Lists.antt =====
-- What a list that is read from the environment can hold.
use cisco_ise_mcp.Prelude.{
  All, Bool, Bool-cases, List, [], ap, arith, false, inl, inr, is_empty, ℕ, ◌&&◌, ◌++◌, ◌∷◌, ◌≡◌,
}
use cisco_ise_mcp.Config.Load.{env_csv, load_config, strip_nonempty}
use cisco_ise_mcp.Dict.{Dict}
use cisco_ise_mcp.Text.{Text, drop_while, is_space, rstrip_if, strip}
use cisco_ise_mcp.Text.Laws.{strip-last}

-- A text that is not empty and has no white space at its ends.
pub record IsTrimmed (s : Text) : Type 0 where
  pub nonempty : is_empty s ≡ false
  pub first : (c : ℕ) (u : Text) → s ≡ c ∷ u → is_space c ≡ false
  pub last : (u : Text) (c : ℕ) → s ≡ u ++ c ∷ [] → is_space c ≡ false

drop_while-first : (p : ℕ → Bool) (s u : Text) (c : ℕ) → drop_while p s ≡ c ∷ u → p c ≡ false
unfolding drop_while
drop_while-first p [] u c h = cc
drop_while-first p (d ∷ s) u c h = ground (arith, drop_while-first p s u c)

rstrip_if-first :
    (p : ℕ → Bool) (s u : Text) (c : ℕ) → rstrip_if p s ≡ c ∷ u → (v : Text) × (s ≡ c ∷ v)
unfolding rstrip_if
rstrip_if-first p [] u c h = cc
rstrip_if-first p (d ∷ s) u c h = elim (Bool-cases (is_empty (rstrip_if p s) && p d)) [
  | inl e ↦ cc (rw e at h)
  | inr e ↦ let same : d ≡ c = cc (rw e at h) in (s, ap (λ x. x ∷ s) same)
]

strip-first : (s u : Text) (c : ℕ) → strip s ≡ c ∷ u → is_space c ≡ false
unfolding strip
strip-first s u c h =
    let (v, e) = rstrip_if-first is_space (drop_while is_space s) u c h in
    drop_while-first is_space s v c e

strip-IsTrimmed : (s : Text) → is_empty (strip s) ≡ false → IsTrimmed (strip s)
strip-IsTrimmed s h = record {
  nonempty = h;
  first = λ c u e. strip-first s u c e;
  last = λ u c e. strip-last s u c e;
}

strip_nonempty-IsTrimmed : (xs : List Text) → All IsTrimmed (strip_nonempty xs)
unfolding strip_nonempty
strip_nonempty-IsTrimmed [] = tt
strip_nonempty-IsTrimmed (x ∷ xs) = elim (Bool-cases (is_empty (strip x))) [
  | inl e ↦ rw e (strip_nonempty-IsTrimmed xs)
  | inr e ↦ rw e (strip-IsTrimmed x e, strip_nonempty-IsTrimmed xs)
]

-- Whatever the environment, the lists of API keys, redirections, allowed and disabled tools and allowed
-- endpoint groups of a loaded configuration hold only texts that are not empty and have no white space at
-- their ends.
pub load_config-IsTrimmed :
    (env : Dict Text)
    → All IsTrimmed (load_config env).api_keys
      × All IsTrimmed (load_config env).oauth_redirect_uris
      × All IsTrimmed (load_config env).allowed_tools
      × All IsTrimmed (load_config env).disabled_tools
      × All IsTrimmed (load_config env).allowed_endpoint_groups
unfolding load_config env_csv
load_config-IsTrimmed env = (
  strip_nonempty-IsTrimmed _,
  strip_nonempty-IsTrimmed _,
  strip_nonempty-IsTrimmed _,
  strip_nonempty-IsTrimmed _,
  strip_nonempty-IsTrimmed _,
)
