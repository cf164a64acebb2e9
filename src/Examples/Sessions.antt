-- ===== src/Examples/Sessions.antt =====
-- Runs of the session store, its history and the two providers.
use cisco_ise_mcp.Prelude.{List, [], arith, false, refl, some, ℕ, ◌↔◌, ◌∷◌, ◌≡◌}
use cisco_ise_mcp.Auth.Provider.{get_session, login, passthrough, resolve}
use cisco_ise_mcp.Auth.Provider.Login.{Login, login-Login}
use cisco_ise_mcp.Auth.Provider.Resolve.{resolve-granted}
use cisco_ise_mcp.Auth.Session.{Session, is_expired, outlives}
use cisco_ise_mcp.Auth.Store.{SessionStore, create, delete, empty_store, get}
use cisco_ise_mcp.Auth.Store.Abstract.{abstract_after, after-abstract}
use cisco_ise_mcp.Auth.Store.Granted.{get-after-granted}
use cisco_ise_mcp.Auth.Store.History.{
  Call, Grant, after, after-IsInOrder, create_call, delete_call, get_call, grant_of, granted,
}
use cisco_ise_mcp.Auth.Store.Laws.{IsInOrder}
use cisco_ise_mcp.Auth.Store.View.{IsWithin, is_expired_iff, live, touched}
use cisco_ise_mcp.Dict.{insert, lookup, remove}
use cisco_ise_mcp.Errors.{ok}
use cisco_ise_mcp.Examples.{sample_cfg, sample_env, sample_identity, sample_store, sample_world}
use cisco_ise_mcp.Exec.{lift, on_store, time, ◌>>=◌}
use cisco_ise_mcp.Prelude.Int.{pos}
use cisco_ise_mcp.Text.{Text, ◌==◌}
use cisco_ise_mcp.World.{World}

abbrev issued_id : Text
issued_id = 116 ∷ 0 ∷ []

-- A login at time 0, a use a second later, and the logout of another id.
abbrev calls : List Call
calls =
    delete_call (some (120 ∷ []))
    ∷ get_call 1000000 (some issued_id)
    ∷ create_call 0 issued_id (97 ∷ []) sample_identity
    ∷ []

abbrev used_at : ℕ → Session
used_at now = record {
  session_id = issued_id;
  username = 97 ∷ [];
  auth = sample_identity;
  created_at = 0;
  last_used_at = now;
  ttl_seconds = pos 3600;
  idle_timeout_seconds = pos 900;
}

is_found :
    (get 2000000 (some issued_id) (after (pos 3600) (pos 900) calls)).0 ≡ some (used_at 2000000)
unfolding get after create delete empty_store is_expired outlives lookup insert remove ◌==◌
is_found = refl

get-after-granted_example :
    (granted calls issued_id ≡ some (grant_of (used_at 2000000)))
    × (outlives 2000000 0 (pos 3600) ≡ false)
get-after-granted_example =
    get-after-granted (pos 3600) (pos 900) calls 2000000 116 (0 ∷ []) (used_at 2000000) is_found

after-IsInOrder_example : IsInOrder (after (pos 3600) (pos 900) calls)
after-IsInOrder_example = after-IsInOrder (pos 3600) (pos 900) calls

abbrev later_world : World
later_world = record sample_world { store = after (pos 3600) (pos 900) calls; readings = 2 }

is_resolved : (resolve passthrough (some issued_id) sample_env later_world).0 ≡ ok sample_identity
unfolding resolve get_session ◌>>=◌ time on_store lift get after create delete empty_store
    is_expired outlives lookup insert remove ◌==◌
is_resolved = refl

resolve-granted_example :
    (id : Text) × (g : Grant) × (some issued_id ≡ some id)
    × (granted calls id ≡ some g)
    × (g.auth ≡ sample_identity)
    × (outlives (sample_env.clock 2) g.at (pos 3600) ≡ false)
resolve-granted_example =
    resolve-granted (pos 3600) (pos 900) calls (some issued_id) sample_identity sample_env
      later_world refl is_resolved

login-Login_example :
    Login sample_cfg
      (97 ∷ [])
      (112 ∷ [])
      sample_env
      sample_world
      (login sample_cfg (97 ∷ []) (112 ∷ []) sample_env sample_world)
login-Login_example = login-Login sample_cfg (97 ∷ []) (112 ∷ []) sample_env sample_world

is_expired_iff_example :
    (is_expired 900000000 (used_at 0) ≡ false) ↔ IsWithin 0 0 900000000 (pos 3600) (pos 900)
is_expired_iff_example = is_expired_iff 900000000 (used_at 0) (omega arith) (omega arith)

abbrev one_session : SessionStore
one_session = (create 0 issued_id (97 ∷ []) sample_identity sample_store).1

after-abstract_example :
    (lookup issued_id (after (pos 3600) (pos 900) calls).sessions
      ≡ abstract_after (pos 3600) (pos 900) calls issued_id)
    × ((get 2000000 (some (116 ∷ 0 ∷ [])) (after (pos 3600) (pos 900) calls)).0
        ≡ touched 2000000 (live 2000000 (abstract_after (pos 3600) (pos 900) calls (116 ∷ 0 ∷ []))))
after-abstract_example = after-abstract (pos 3600) (pos 900) calls issued_id 2000000 116 (0 ∷ [])
