-- ===== src/Oauth/SingleUse.antt =====
-- A code is redeemed at most once.
use cisco_ise_mcp.Prelude.{
  Bool, Bool-cases, List, Option, [], ap, arith, false, if◌then◌else◌, inl, inr, none, refl, some,
  subst, suc, sym, true, ℕ, ◌&&◌, ◌∙◌, ◌∷◌, ◌≡◌, ◌≢◌, ◌≤◌,
}
use cisco_ise_mcp.Config.Record.{Config}
use cisco_ise_mcp.Dict.{lookup}
use cisco_ise_mcp.Dict.Laws.{lookup-remove}
use cisco_ise_mcp.Errors.{Result, err, ok}
use cisco_ise_mcp.Exec.{Exec}
use cisco_ise_mcp.Oauth.{
  Exchange, client_ok, exchange_code, granted_token, invalid_client, invalid_grant,
}
use cisco_ise_mcp.Oauth.Grants.{exchange_code-IsGrantable, known-cases}
use cisco_ise_mcp.Oauth.Laws.{exchange_known, exchange_unknown, popped, popped_at}
use cisco_ise_mcp.Text.{Text, ◌==◌}
use cisco_ise_mcp.Text.Laws.{==_iff}
use cisco_ise_mcp.World.{AuthCode, Env, World}

-- The parameters of one exchange.
pub record Attempt : Type 0 where
  pub issued : Option Text
  pub redirect_uri : Option Text
  pub client_id : Option Text
  pub client_secret : Option Text
  pub verifier : Option Text

abbrev pub exchange : Config → Attempt → Exec Exchange
exchange cfg a = exchange_code cfg a.issued a.redirect_uri a.client_id a.client_secret a.verifier

abbrev pub presents : Text → Option Text → Bool
presents key none = false
presents key (some k) = k == key

unfoldable pub is_granted : Result Exchange → Bool
is_granted (ok (granted_token rec)) = true
is_granted _ = false

-- Exchanges one after the other, in whatever order they take the lock; how many of those that present
-- the code are granted a token.
unfoldable pub grants_of : Config → Text → List Attempt → Env → World → ℕ
grants_of cfg key [] env w = 0
grants_of cfg key (a ∷ later) env w =
    let rest = grants_of cfg key later env (exchange cfg a env w).1 in
    if presents key a.issued && is_granted (exchange cfg a env w).0 then suc rest else rest

popped_codes :
    (issued : Option Text) (key : Text) (env : Env) (w : World)
    → lookup key (popped issued env w).1.codes
      ≡ (if presents key issued then none else lookup key w.codes)
popped_codes none key env w = refl
popped_codes (some k) key env w = at_key (lookup k w.codes)
  where
    at_key :
        (found : Option AuthCode)
        → lookup key (popped_at k found env w).1.codes
          ≡ (if k == key then none else lookup key w.codes)
    at_key none = lookup-remove k key w.codes
    at_key (some rec) = lookup-remove k key w.codes

-- What the codes are after an exchange by a client with the right credentials.
exchange_codes :
    (cfg : Config) (a : Attempt) (key : Text) (env : Env) (w : World)
    → client_ok cfg a.client_id a.client_secret ≡ ok true
    → lookup key (exchange cfg a env w).1.codes
      ≡ (if presents key a.issued then none else lookup key w.codes)
exchange_codes cfg a key env w known =
    ap (λ r. lookup key r.1.codes)
      (exchange_known cfg a.issued a.redirect_uri a.client_id a.client_secret a.verifier env w
        known)
    ∙ popped_codes a.issued key env w

none_either_way : {A : Type 0} (b : Bool) (o : Option A) → o ≡ none → (if b then none else o) ≡ none
none_either_way true o h = refl
none_either_way false o h = h

-- An exchange adds no code.
exchange_absent :
    (cfg : Config) (a : Attempt) (key : Text) (env : Env) (w : World)
    → lookup key w.codes ≡ none
    → lookup key (exchange cfg a env w).1.codes ≡ none
exchange_absent cfg a key env w h = elim (known-cases (client_ok cfg a.client_id a.client_secret)) [
  | inl known ↦ exchange_codes cfg a key env w known ∙ none_either_way (presents key a.issued) _ h
  | inr unknown ↦
      ap (λ v. lookup key v.codes)
        (exchange_unknown cfg a.issued a.redirect_uri a.client_id a.client_secret a.verifier env w
          unknown).0
      ∙ h
]

is_granted-eq-true :
    (r : Result Exchange) → is_granted r ≡ true → (rec : AuthCode) × (r ≡ ok (granted_token rec))
unfolding is_granted
is_granted-eq-true (ok (granted_token rec)) h = (rec, refl)
is_granted-eq-true (ok invalid_client) h = cc
is_granted-eq-true (ok invalid_grant) h = cc
is_granted-eq-true (err e) h = cc

presents-eq-true :
    (key k : Text) (issued : Option Text) → presents key issued ≡ true → issued ≡ some k → k ≡ key
presents-eq-true key k none h e = cc
presents-eq-true key k (some j) h e = sym (cc e) ∙ (==_iff j key).0 h

-- A grant takes the code that is presented, which was held.
granted_held :
    (cfg : Config) (a : Attempt) (key : Text) (env : Env) (w : World)
    → presents key a.issued ≡ true
    → is_granted (exchange cfg a env w).0 ≡ true
    → (lookup key w.codes ≢ none) × (lookup key (exchange cfg a env w).1.codes ≡ none)
granted_held cfg a key env w p h =
    let (rec, e) = is_granted-eq-true (exchange cfg a env w).0 h in
    let g =
      exchange_code-IsGrantable cfg a.issued a.redirect_uri a.client_id a.client_secret a.verifier
        env w rec e in
    let own = presents-eq-true key g.key a.issued p g.presented in
    (
      λ missing. cc (subst (λ k. lookup k w.codes ≡ some rec) own g.held, missing),
      exchange_codes cfg a key env w g.client ∙ rw p refl,
    )

grants_of_absent :
    (cfg : Config) (key : Text) (attempts : List Attempt) (env : Env) (w : World)
    → lookup key w.codes ≡ none
    → grants_of cfg key attempts env w ≡ 0
unfolding grants_of
grants_of_absent cfg key [] env w h = refl
grants_of_absent cfg key (a ∷ later) env w h =
    let ih =
      grants_of_absent cfg key later env (exchange cfg a env w).1
        (exchange_absent cfg a key env w h) in
    elim (Bool-cases (presents key a.issued && is_granted (exchange cfg a env w).0)) [
      | inl both ↦ absurd ((granted_held cfg a key env w (ground arith) (ground arith)).0 h)
      | inr fails ↦ rw fails ih
    ]

-- Of any sequence of exchanges, at most one that presents a given code is granted a token.
pub grants_of-le-one :
    (cfg : Config) (key : Text) (attempts : List Attempt) (env : Env) (w : World)
    → grants_of cfg key attempts env w ≤ 1
unfolding grants_of
grants_of-le-one cfg key [] env w = omega arith
grants_of-le-one cfg key (a ∷ later) env w =
    let ih = grants_of-le-one cfg key later env (exchange cfg a env w).1 in
    elim (Bool-cases (presents key a.issued && is_granted (exchange cfg a env w).0)) [
      | inl both ↦
          let gone = (granted_held cfg a key env w (ground arith) (ground arith)).1 in
          rw (both, grants_of_absent cfg key later env (exchange cfg a env w).1 gone) (omega arith)
      | inr fails ↦ rw fails ih
    ]
