-- ===== src/Auth/Provider/Resolve.antt =====
-- auth/passthrough.py: whose identity a session id stands for
use cisco_ise_mcp.Prelude.{List, Option, [], false, none, refl, some, subst, ◌∷◌, ◌≡◌}
use cisco_ise_mcp.Auth.Context.{AuthContext}
use cisco_ise_mcp.Auth.Provider.{get_session, identity_of, passthrough, resolve}
use cisco_ise_mcp.Auth.Session.{Session, outlives}
use cisco_ise_mcp.Auth.Store.{get}
use cisco_ise_mcp.Auth.Store.Granted.{get-after-granted}
use cisco_ise_mcp.Auth.Store.History.{Call, Grant, after, grant_of, granted}
use cisco_ise_mcp.Errors.{ok}
use cisco_ise_mcp.Exec.{lift, on_store, pure, time, ◌>>=◌}
use cisco_ise_mcp.Prelude.Int.{ℤ}
use cisco_ise_mcp.Text.{Text}
use cisco_ise_mcp.World.{Env, World}

identity-ok :
    (found : Option Session) (auth : AuthContext)
    → identity_of found ≡ ok auth
    → (s : Session) × (found ≡ some s) × (s.auth ≡ auth)
identity-ok none auth h = cc
identity-ok (some s) auth h = (s, refl, cc)

-- Where the store has come about by a history of calls, the provider resolves a session id to an
-- identity only if the id was given out in the history with that identity and was not logged out
-- later; and the login is no longer ago than the time to live when the clock is read.
pub resolve-granted :
    (ttl idle : ℤ) (calls : List Call) (sid : Option Text) (auth : AuthContext) (env : Env)
    (w : World)
    → w.store ≡ after ttl idle calls
    → (resolve passthrough sid env w).0 ≡ ok auth
    → (id : Text) × (g : Grant) × (sid ≡ some id)
      × (granted calls id ≡ some g)
      × (g.auth ≡ auth)
      × (outlives (env.clock w.readings) g.at ttl ≡ false)
unfolding resolve ◌>>=◌ get_session pure time on_store lift
resolve-granted ttl idle calls none auth env w e h = cc
resolve-granted ttl idle calls (some []) auth env w e h = cc
resolve-granted ttl idle calls (some (c ∷ sid)) auth env w e h =
    let now = env.clock w.readings in
    let (s, found, own) = identity-ok (get now (some (c ∷ sid)) w.store).0 auth h in
    let (g, young) =
      get-after-granted ttl idle calls now c sid s
        (subst (λ st. (get now (some (c ∷ sid)) st).0 ≡ some s) e found) in
    (c ∷ sid, grant_of s, refl, g, own, young)
