-- ===== src/Ise/Client/Probe.antt =====
-- The credential probe of the client.
use mathlib.Core.Bool.{and-eq-true_iff}
use cisco_ise_mcp.Prelude.{
  Bool, Bool-cases, List, [], all, ap, arith, false, inl, inr, is_empty, ltb, refl, suc, true, zero,
  ℕ, ◌||◌, ◌↔◌, ◌∙◌, ◌∷◌, ◌≡◌,
}
use cisco_ise_mcp.Config.Record.{Config}
use cisco_ise_mcp.Errors.{ok}
use cisco_ise_mcp.Exec.{Exec, pure, raise, send, ◌>>=◌}
use cisco_ise_mcp.Ise.Client.{on_probe, probe_request, probes, validate_credentials}
use cisco_ise_mcp.Ise.Client.Retry.{repeated}
use cisco_ise_mcp.Text.{Text}
use cisco_ise_mcp.World.{Env, HttpRequest, Reply, World, response, transport_error}

abbrev pub is_accepting : Reply → Bool
is_accepting (transport_error m) = false
is_accepting (response r) = ltb r.status_code 400

-- The replies to the same request, sent `n` times.
abbrev pub replies : Env → HttpRequest → ℕ → List HttpRequest → List Reply
replies env req zero sent = []
replies env req (suc n) sent = env.ise sent req ∷ replies env req n (req ∷ sent)

on_probe-eq-true :
    (next : Exec Bool) (p : Reply) (env : Env) (w : World)
    → ((on_probe next p env w).0 ≡ ok true) ↔ ((is_accepting p ≡ true) × ((next env w).0 ≡ ok true))
unfolding on_probe pure raise
on_probe-eq-true next (transport_error m) env w = ground arith
on_probe-eq-true next (response r) env w = ground arith

module _ (env : Env) (req : HttpRequest) where
  probes-eq-true :
      (n : ℕ) (w : World)
      → ((probes req n env w).0 ≡ ok true) ↔ (all is_accepting (replies env req n w.sent) ≡ true)
  unfolding probes ◌>>=◌ send
  probes-eq-true zero w = ground arith
  probes-eq-true (suc n) w =
      let w' = record w { sent = req ∷ w.sent } in
      let (to, from) = on_probe-eq-true (probes req n) (env.ise w.sent req) env w' in
      let (ih, hi) = probes-eq-true n w' in
      (
        λ e. (and-eq-true_iff _ _).1 ((to e).0, ih (to e).1),
        λ a. from (((and-eq-true_iff _ _).0 a).0, hi ((and-eq-true_iff _ _).0 a).1),
      )

-- The probe fails closed: it says yes exactly if the name and the password are not empty and ISE
-- answers all four probes with a status below 400.
pub validate_credentials-eq-true :
    (cfg : Config) (username password : Text) (env : Env) (w : World)
    → ((validate_credentials cfg username password env w).0 ≡ ok true) ↔ (
        (is_empty username ≡ false)
        × (is_empty password ≡ false)
        × (all is_accepting (replies env (probe_request cfg username password) 4 w.sent) ≡ true))
unfolding validate_credentials pure
validate_credentials-eq-true cfg username password env w =
    elim (Bool-cases (is_empty username || is_empty password)) [
      | inl missing ↦ rw missing (λ e. absurd (ground arith), λ a. absurd (ground arith))
      | inr given ↦
          let (to, from) = probes-eq-true env (probe_request cfg username password) 4 w in
          rw given (λ e. (ground arith, ground arith, to e), λ a. from a.2)
    ]

-- A probe that says yes has left the world as the probes after it leave it.
on_probe-world :
    (next : Exec Bool) (p : Reply) (env : Env) (w : World)
    → (on_probe next p env w).0 ≡ ok true
    → (on_probe next p env w).1 ≡ (next env w).1
unfolding on_probe pure raise
on_probe-world next (transport_error m) env w h = cc
on_probe-world next (response r) env w h = ground arith

probes-sent :
    (env : Env) (req : HttpRequest) (n : ℕ) (w : World)
    → (probes req n env w).0 ≡ ok true
    → (probes req n env w).1.sent ≡ repeated n req w.sent
unfolding probes ◌>>=◌ send pure
probes-sent env req zero w h = refl
probes-sent env req (suc n) w h =
    let w' = record w { sent = req ∷ w.sent } in
    ap (λ (v : World). v.sent) (on_probe-world (probes req n) (env.ise w.sent req) env w' h)
    ∙ probes-sent env req n w' ((on_probe-eq-true (probes req n) (env.ise w.sent req) env w').0 h).1

-- A probe that says yes has sent four requests and nothing else.
pub validate_credentials-sent :
    (cfg : Config) (username password : Text) (env : Env) (w : World)
    → (validate_credentials cfg username password env w).0 ≡ ok true
    → (validate_credentials cfg username password env w).1.sent
      ≡ repeated 4 (probe_request cfg username password) w.sent
unfolding validate_credentials pure
validate_credentials-sent cfg username password env w h =
    elim (Bool-cases (is_empty username || is_empty password)) [
      | inl missing ↦ cc
      | inr given ↦
          rw given (probes-sent env (probe_request cfg username password) 4 w (rw given at h))
    ]
