-- ===== src/Server/Gate/Laws.antt =====
-- Who passes the gate in front of the tools.
use cisco_ise_mcp.Prelude.{
  Bool, Bool-cases, List, Option, Option-cases, [], ap, false, inl, inr, is_some, none, refl, some,
  subst, true, ℕ, ◌∙◌, ◌∷◌, ◌≡◌, ◌⊎◌,
}
use cisco_ise_mcp.Auth.Provider.{get_session, passthrough, session_live}
use cisco_ise_mcp.Auth.Session.{outlives}
use cisco_ise_mcp.Auth.Store.{get}
use cisco_ise_mcp.Auth.Store.Granted.{get-after-granted}
use cisco_ise_mcp.Auth.Store.History.{Call, Grant, after, grant_of, granted}
use cisco_ise_mcp.Auth.Store.View.{live}
use cisco_ise_mcp.Config.Record.{Config}
use cisco_ise_mcp.Errors.{ok}
use cisco_ise_mcp.Exec.{Exec, lift, on_store, pure, time, ◌>>=◌}
use cisco_ise_mcp.Prelude.Int.{ℤ}
use cisco_ise_mcp.Server.{Answer, HttpCall, headers_of}
use cisco_ise_mcp.Server.Gate.{is_guarded, let_through, require_auth, sid_of, unauthorized}
use cisco_ise_mcp.Text.{Text}
use cisco_ise_mcp.Tools.{Deps, any_digest, is_api_key, session_valid}
use cisco_ise_mcp.World.{Env, World}

-- The id was given out in the history, was not logged out later, and is young enough.
pub record IsGranted (ttl : ℤ) (calls : List Call) (sid : Option Text) (now : ℕ) : Type 0 where
  pub id : Text
  pub grant : Grant
  pub presented : sid ≡ some id
  pub given : granted calls id ≡ some grant
  pub young : outlives now grant.at ttl ≡ false

live-IsGranted :
    (ttl idle : ℤ) (calls : List Call) (sid : Option Text) (env : Env) (w : World)
    → w.store ≡ after ttl idle calls
    → (session_live sid env w).0 ≡ ok true
    → IsGranted ttl calls sid (env.clock w.readings)
unfolding session_live ◌>>=◌ get_session pure time on_store
live-IsGranted ttl idle calls none env w e h = cc
live-IsGranted ttl idle calls (some []) env w e h = cc
live-IsGranted ttl idle calls (some (c ∷ sid)) env w e h =
    elim (Option-cases (get (env.clock w.readings) (some (c ∷ sid)) w.store).0) [
      | inl missing ↦ cc (rw missing at h)
      | inr (s, found) ↦
          let (g, young) =
            get-after-granted ttl idle calls (env.clock w.readings) c sid s
              (subst (λ st. (get (env.clock w.readings) (some (c ∷ sid)) st).0 ≡ some s) e found) in
          record { id = c ∷ sid; grant = grant_of s; presented = refl; given = g; young = young }
    ]

live-ok :
    (sid : Option Text) (env : Env) (w : World) → (b : Bool) × ((session_live sid env w).0 ≡ ok b)
unfolding session_live ◌>>=◌ get_session pure time on_store
live-ok none env w = (false, refl)
live-ok (some []) env w = (false, refl)
live-ok (some (c ∷ sid)) env w =
    (is_some (get (env.clock w.readings) (some (c ∷ sid)) w.store).0, refl)

live-sent : (sid : Option Text) (env : Env) (w : World) → (session_live sid env w).1.sent ≡ w.sent
unfolding session_live ◌>>=◌ get_session pure time on_store
live-sent none env w = refl
live-sent (some []) env w = refl
live-sent (some (c ∷ sid)) env w = refl

no_keys : (cfg : Config) (sid : Option Text) → cfg.api_keys ≡ [] → is_api_key cfg sid ≡ ok false
unfolding is_api_key any_digest
no_keys cfg none h = refl
no_keys cfg (some []) h = refl
no_keys cfg (some (c ∷ sid)) h = rw h refl

valid-eq-live :
    (cfg : Config) (sid : Option Text) (env : Env) (w : World)
    → cfg.api_keys ≡ []
    → session_valid (record { cfg = cfg; provider = passthrough }) sid env w
      ≡ session_live sid env w
unfolding session_valid ◌>>=◌ lift
valid-eq-live cfg sid env w h = rw (no_keys cfg sid h) refl

abbrev pub by_session : Config → Deps
by_session cfg = record { cfg = cfg; provider = passthrough }

refuses :
    (call : HttpCall) (app : Exec Answer) (sid : Option Text) (env : Env) (w : World)
    → (session_live sid env w).0 ≡ ok false
    → (session_live sid >>= let_through call app) env w
      ≡ (ok (unauthorized call), (session_live sid env w).1)
unfolding ◌>>=◌
refuses call app sid env w h = rw h (unfold pure in refl)

require_auth_lem :
    (cfg : Config) (app : Exec Answer) (call : HttpCall) (env : Env) (w : World)
    → cfg.api_keys ≡ []
    → is_guarded cfg call ≡ true
    → require_auth (by_session cfg) app call env w
      ≡ (session_live (sid_of cfg (headers_of call.headers)) >>= let_through call app) env w
unfolding require_auth ◌>>=◌
require_auth_lem cfg app call env w keys guarded =
    rw (guarded, valid-eq-live cfg (sid_of cfg (headers_of call.headers)) env w keys) refl

-- On a server in passthrough mode without API keys whose store has come about by a history of calls, a
-- request on /mcp either is answered with 401 and nothing is sent to ISE, whatever the application
-- behind the gate does; or it presents a session id that was given out in the history, was not logged
-- out later, and is no older than the time to live.
pub require_auth-IsGranted :
    (ttl idle : ℤ) (calls : List Call) (cfg : Config) (app : Exec Answer) (call : HttpCall)
    (env : Env) (w : World)
    → w.store ≡ after ttl idle calls
    → cfg.api_keys ≡ []
    → is_guarded cfg call ≡ true
    → ((require_auth (by_session cfg) app call env w).0 ≡ ok (unauthorized call)
        × ((require_auth (by_session cfg) app call env w).1.sent ≡ w.sent))
      ⊎ IsGranted ttl calls (sid_of cfg (headers_of call.headers)) (env.clock w.readings)
require_auth-IsGranted ttl idle calls cfg app call env w e keys guarded =
    let sid = sid_of cfg (headers_of call.headers) in
    let (live, known) = live-ok sid env w in
    elim (Bool-cases live) [
      | inl found ↦ inr (live-IsGranted ttl idle calls sid env w e (known ∙ ap ok found))
      | inr missing ↦
          let answer =
            require_auth_lem cfg app call env w keys guarded
            ∙ refuses call app sid env w (known ∙ ap ok missing) in
          inl (ap (λ r. r.0) answer, ap (λ r. r.1.sent) answer ∙ live-sent sid env w)
    ]
