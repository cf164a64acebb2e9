-- ===== src/Auth/Store.antt =====
-- auth/session_store.py: `SessionStore`. Each method holds the lock for its whole access to the dict,
-- so that calls of several tasks are one after the other: a history is a list of calls, each with
-- the time that it reads.
pub mod Laws
pub mod View
pub mod Purge
pub mod History
pub mod Granted
pub mod Abstract
use cisco_ise_mcp.Prelude.{
  Bool, Option, [], false, if◌then◌else◌, is_some, length, none, some, ℕ, ◌∷◌,
}
use cisco_ise_mcp.Auth.Context.{AuthContext}
use cisco_ise_mcp.Auth.Session.{Session, is_expired}
use cisco_ise_mcp.Dict.{Dict, insert, keys_where, lookup, remove, remove_all}
use cisco_ise_mcp.Prelude.Int.{ℤ}
use cisco_ise_mcp.Text.{Text}

pub record SessionStore : Type 0 where
  pub ttl : ℤ
  pub idle : ℤ
  pub sessions : Dict Session

unfoldable pub empty_store : ℤ → ℤ → SessionStore
empty_store ttl idle = record { ttl = ttl; idle = idle; sessions = [] }

abbrev pub new_session : SessionStore → ℕ → Text → Text → AuthContext → Session
new_session store now sid username auth = record {
  session_id = sid;
  username = username;
  auth = auth;
  created_at = now;
  last_used_at = now;
  ttl_seconds = store.ttl;
  idle_timeout_seconds = store.idle;
}

-- `create(username, auth)` at time `now`, where `secrets.token_urlsafe` returns `sid`
unfoldable pub create : ℕ → Text → Text → AuthContext → SessionStore → Session × SessionStore
create now sid username auth store =
    let sess = new_session store now sid username auth in
    (sess, record store { sessions = insert sid sess store.sessions })

-- The branches of `get` on what the dict holds.
abbrev pub use_session : ℕ → Text → SessionStore → Option Session → Option Session × SessionStore
use_session now sid store none = (none, store)
use_session now sid store (some sess) =
    if is_expired now sess
    then (none, record store { sessions = remove sid store.sessions })
    else let used = record sess { last_used_at = now } in
      (some used, record store { sessions = insert sid used store.sessions })

-- `get(session_id)` at time `now`. The session that is returned is the object in the dict: it is
-- stored back with its new `last_used_at`.
unfoldable pub get : ℕ → Option Text → SessionStore → Option Session × SessionStore
get now none store = (none, store)
get now (some []) store = (none, store)
get now (some (c ∷ sid)) store = use_session now (c ∷ sid) store (lookup (c ∷ sid) store.sessions)

-- `delete(session_id)`
unfoldable pub delete : Option Text → SessionStore → Bool × SessionStore
delete none store = (false, store)
delete (some []) store = (false, store)
delete (some (c ∷ sid)) store = (
  is_some (lookup (c ∷ sid) store.sessions),
  record store { sessions = remove (c ∷ sid) store.sessions },
)

-- `purge_expired()` at time `now`
unfoldable pub purge_expired : ℕ → SessionStore → ℕ × SessionStore
purge_expired now store =
    let dead = keys_where (is_expired now) store.sessions in
    (length dead, record store { sessions = remove_all dead store.sessions })

-- `len(store)`
unfoldable pub size : SessionStore → ℕ
size store = length store.sessions
