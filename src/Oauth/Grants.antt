-- ===== src/Oauth/Grants.antt =====
-- What a granted token stands on.
use cisco_ise_mcp.Prelude.{
  Bool, Bool-cases, Option, [], ap, arith, false, inl, inr, is_empty, none, refl, some, subst, sym,
  true, ◌*◌, ◌+◌, ◌∙◌, ◌∷◌, ◌≡◌, ◌≢◌, ◌≤◌, ◌⊎◌,
}
use cisco_ise_mcp.Auth.Session.{microseconds}
use cisco_ise_mcp.Config.Record.{Config}
use cisco_ise_mcp.Dict.{lookup}
use cisco_ise_mcp.Errors.{Result, err, ok}
use cisco_ise_mcp.Exec.Frame.{map_result}
use cisco_ise_mcp.Oauth.{
  client_ok, code_ttl, compare_digest, exchange_code, granted_token, issued_to, pkce_ok,
  pkce_result,
}
use cisco_ise_mcp.Oauth.Laws.{
  IsGrantable, IsProven, exchange_known, exchange_unknown, popped, popped_at, redeem_answer,
}
use cisco_ise_mcp.Text.{Text}
use cisco_ise_mcp.Text.Laws.{==_iff}
use cisco_ise_mcp.World.{AuthCode, Env, World}

pkce_result-eq-granted :
    (x : AuthCode) (proven : Result Bool) (rec : AuthCode)
    → map_result (pkce_result x) proven ≡ ok (granted_token rec)
    → (x ≡ rec) × (proven ≡ ok true)
pkce_result-eq-granted x (ok true) rec h = ground arith
pkce_result-eq-granted x (ok false) rec h = cc
pkce_result-eq-granted x (err e) rec h = cc

redeem_answer-eq-granted :
    (challenge_of : Text → Text) (redirect_uri client_id verifier : Option Text)
    (found : Option AuthCode) (rec : AuthCode)
    → redeem_answer challenge_of redirect_uri client_id verifier found ≡ ok (granted_token rec)
    → (found ≡ some rec)
      × (issued_to client_id redirect_uri rec ≡ true)
      × (pkce_ok challenge_of rec verifier ≡ ok true)
redeem_answer-eq-granted challenge_of redirect_uri client_id verifier none rec h = cc
redeem_answer-eq-granted challenge_of redirect_uri client_id verifier (some x) rec h =
    elim (Bool-cases (issued_to client_id redirect_uri x)) [
      | inl e ↦
          let (now_rec, proven) = pkce_result-eq-granted x _ rec (rw e at h) in
          (
            ap some now_rec,
            subst (λ r. issued_to client_id redirect_uri r ≡ true) now_rec e,
            subst (λ r. pkce_ok challenge_of r verifier ≡ ok true) now_rec proven,
          )
      | inr e ↦ cc (rw e at h)
    ]

issued_to-eq-true :
    (client_id redirect_uri : Option Text) (rec : AuthCode)
    → issued_to client_id redirect_uri rec ≡ true
    → (client_id ≡ some rec.client_id) × (redirect_uri ≡ some rec.redirect_uri)
issued_to-eq-true none redirect_uri rec h = cc
issued_to-eq-true (some cid) none rec h = cc
issued_to-eq-true (some cid) (some uri) rec h =
    ground (arith, ==_iff rec.client_id cid, ==_iff rec.redirect_uri uri)

is_empty-eq-true : (s : Text) → is_empty s ≡ true → s ≡ []
is_empty-eq-true [] h = refl
is_empty-eq-true (c ∷ s) h = cc

pub compare_digest-eq-true : (a b : Text) → compare_digest a b ≡ ok true → a ≡ b
unfolding compare_digest
compare_digest-eq-true a b h = ground (arith, ==_iff a b)

pkce_ok-IsProven :
    (challenge_of : Text → Text) (rec : AuthCode) (verifier : Option Text)
    → pkce_ok challenge_of rec verifier ≡ ok true
    → IsProven challenge_of rec verifier
unfolding pkce_ok
pkce_ok-IsProven challenge_of rec none h = ground (arith, is_empty-eq-true rec.challenge)
pkce_ok-IsProven challenge_of rec (some v) h = elim (Bool-cases (is_empty rec.challenge)) [
  | inl e ↦ inl (is_empty-eq-true rec.challenge e)
  | inr e ↦ inr (v, refl, compare_digest-eq-true (challenge_of v) rec.challenge (ground arith))
]

popped_at-eq-some :
    (key : Text) (found : Option AuthCode) (env : Env) (w : World) (rec : AuthCode)
    → (popped_at key found env w).0 ≡ some rec
    → (found ≡ some rec) × (env.clock w.readings ≤ rec.created + code_ttl * microseconds)
popped_at-eq-some key none env w rec h = cc
popped_at-eq-some key (some x) env w rec h = ground arith

popped-eq-some :
    (issued : Option Text) (env : Env) (w : World) (rec : AuthCode)
    → (popped issued env w).0 ≡ some rec
    → (key : Text) × (issued ≡ some key)
      × (lookup key w.codes ≡ some rec)
      × (env.clock w.readings ≤ rec.created + code_ttl * microseconds)
popped-eq-some none env w rec h = cc
popped-eq-some (some key) env w rec h =
    let (held, young) = popped_at-eq-some key (lookup key w.codes) env w rec h in
    (key, refl, held, young)

pub known-cases : (known : Result Bool) → (known ≡ ok true) ⊎ (known ≢ ok true)
known-cases (ok true) = inl refl
known-cases (ok false) = inr (λ e. cc)
known-cases (err x) = inr (λ e. cc)

-- A token is granted only to a client with its own credentials, for a code that was held, that was
-- issued to this client for this redirection at most 120 seconds ago, and whose challenge, if it has
-- one, is the digest of the verifier.
pub exchange_code-IsGrantable :
    (cfg : Config) (issued redirect_uri client_id client_secret verifier : Option Text) (env : Env)
    (w : World) (rec : AuthCode)
    → (exchange_code cfg issued redirect_uri client_id client_secret verifier env w).0
      ≡ ok (granted_token rec)
    → IsGrantable cfg env w issued redirect_uri client_id client_secret verifier rec
exchange_code-IsGrantable cfg issued redirect_uri client_id client_secret verifier env w rec h =
    elim (known-cases (client_ok cfg client_id client_secret)) [
      | inl known ↦
          let answer =
            ap (λ r. r.0)
              (sym (
                exchange_known cfg issued redirect_uri client_id client_secret verifier env w
                  known))
            ∙ h in
          let (found, own, proven) =
            redeem_answer-eq-granted env.code_challenge redirect_uri client_id verifier
              (popped issued env w).0 rec answer in
          let (key, presented, held, young) = popped-eq-some issued env w rec found in
          let (client, redirect) = issued_to-eq-true client_id redirect_uri rec own in
          record {
            client = known;
            key = key;
            presented = presented;
            held = held;
            same_client = client;
            same_redirect = redirect;
            young = young;
            proven = pkce_ok-IsProven env.code_challenge rec verifier proven;
          }
      | inr unknown ↦ absurd (
          (exchange_unknown cfg issued redirect_uri client_id client_secret verifier env w
              unknown).1
            rec h)
    ]
