-- ===== src/System/Sessions.antt =====
-- Whose identity a caller of the running server can have.
use cisco_ise_mcp.Prelude.{
  Bool-cases, List, Option, [], arith, inl, inr, none, refl, some, subst, sym, ℕ, ◌++◌, ◌<◌, ◌∙◌,
  ◌∷◌, ◌≡◌, ◌≤◌, ◌⊎◌,
}
use cisco_ise_mcp.Auth.Store.History.{
  Call, Grant, create_call, delete_call, get_call, granted, names, purge_call,
}
use cisco_ise_mcp.Config.Record.{Config}
use cisco_ise_mcp.System.Tracks.{IsVouched, Minted, Minted-le}
use cisco_ise_mcp.Text.{Text, ◌==◌}
use cisco_ise_mcp.Text.Laws.{==_iff}
use cisco_ise_mcp.World.{Env, HttpRequest}

-- An id that the history gives out is a token of the history, and its identity is vouched for.
pub record IsIssued (cfg : Config) (env : Env) (total : List HttpRequest) (lo hi : ℕ) (id : Text)
    (g : Grant) : Type 0 where
  pub n : ℕ
  pub drawn : id ≡ env.token_urlsafe n
  pub from : lo ≤ n
  pub below : n < hi
  pub vouched : IsVouched cfg env total g.username g.auth

module _ (cfg : Config) (env : Env) (total : List HttpRequest) where
  IsIssued-more :
      (lo mid hi : ℕ) (id : Text) (g : Grant)
      → mid < hi
      → IsIssued cfg env total lo mid id g
      → IsIssued cfg env total lo hi id g
  IsIssued-more lo mid hi id g le i = record {
    n = i.n;
    drawn = i.drawn;
    from = i.from;
    below = omega (arith, i.below);
    vouched = i.vouched;
  }

  pub granted-IsIssued :
      (lo hi : ℕ) (calls : List Call) (id : Text) (g : Grant)
      → Minted cfg env total lo hi calls
      → granted calls id ≡ some g
      → IsIssued cfg env total lo hi id g
  unfolding granted
  granted-IsIssued lo hi [] id g h e = cc
  granted-IsIssued lo hi (create_call now sid username auth ∷ earlier) id g (n, at, below, v, rest)
        e =
      elim (Bool-cases (sid == id)) [
        | inl same ↦
            let here : some (record { username = username; auth = auth; at = now }) ≡ some g =
              rw same at e in
            subst
              (λ (x : Option Grant). elim x [
                | none ↦ ⊥
                | some k ↦ IsIssued cfg env total lo hi id k
              ])
              here
              (record {
                n = n;
                drawn = sym ((==_iff sid id).0 same) ∙ at;
                from = Minted-le cfg env total lo n earlier rest;
                below = below;
                vouched = v;
              })
        | inr other ↦
            IsIssued-more lo n hi id g below
              (granted-IsIssued lo n earlier id g rest (rw other at e))
      ]
  granted-IsIssued lo hi (get_call now sid ∷ earlier) id g h e =
      granted-IsIssued lo hi earlier id g h e
  granted-IsIssued lo hi (delete_call sid ∷ earlier) id g h e = elim (Bool-cases (names sid id)) [
    | inl same ↦ cc (rw same at e)
    | inr other ↦ granted-IsIssued lo hi earlier id g h (rw other at e)
  ]
  granted-IsIssued lo hi (purge_call now ∷ earlier) id g h e =
      granted-IsIssued lo hi earlier id g h e

  -- Later calls give out other ids: an earlier id keeps its identity or loses it.
  pub granted-later :
      (lo hi n : ℕ) (new old : List Call)
      → ((a b : ℕ) → env.token_urlsafe a ≡ env.token_urlsafe b → a ≡ b)
      → Minted cfg env total lo hi new
      → n < lo
      → (granted (new ++ old) (env.token_urlsafe n) ≡ none)
        ⊎ (granted (new ++ old) (env.token_urlsafe n) ≡ granted old (env.token_urlsafe n))
  unfolding granted
  granted-later lo hi n [] old inj h le = inr refl
  granted-later lo hi n (create_call now sid username auth ∷ new) old inj (m, at, below, v, rest)
        le =
      elim (Bool-cases (sid == env.token_urlsafe n)) [
        | inl same ↦
            let e : m ≡ n = inj m n (sym at ∙ (==_iff sid (env.token_urlsafe n)).0 same) in
            absurd (omega (arith, Minted-le cfg env total lo m new rest))
        | inr other ↦ rw other (granted-later lo m n new old inj rest le)
      ]
  granted-later lo hi n (get_call now sid ∷ new) old inj h le =
      granted-later lo hi n new old inj h le
  granted-later lo hi n (delete_call sid ∷ new) old inj h le =
      elim (Bool-cases (names sid (env.token_urlsafe n))) [
        | inl same ↦ rw same (inl refl)
        | inr other ↦ rw other (granted-later lo hi n new old inj h le)
      ]
  granted-later lo hi n (purge_call now ∷ new) old inj h le = granted-later lo hi n new old inj h le
