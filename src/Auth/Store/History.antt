-- ===== src/Auth/Store/History.antt =====
-- Any interleaving of calls, as the list of the calls in the order in which they take the lock, the
-- newest first.
use cisco_ise_mcp.Prelude.{Bool, List, Option, [], false, if◌then◌else◌, none, some, ℕ, ◌∷◌}
use cisco_ise_mcp.Auth.Context.{AuthContext}
use cisco_ise_mcp.Auth.Session.{Session}
use cisco_ise_mcp.Auth.Store.{SessionStore, create, delete, empty_store, get, purge_expired}
use cisco_ise_mcp.Auth.Store.Laws.{
  IsInOrder, create-IsInOrder, delete-IsInOrder, empty_store-IsInOrder, get-IsInOrder,
  purge_expired-IsInOrder,
}
use cisco_ise_mcp.Prelude.Int.{ℤ}
use cisco_ise_mcp.Text.{Text, ◌==◌}

pub data Call : Type 0 where
  create_call : ℕ → Text → Text → AuthContext → Call
  get_call : ℕ → Option Text → Call
  delete_call : Option Text → Call
  purge_call : ℕ → Call

-- The store after one more call.
unfoldable pub apply : Call → SessionStore → SessionStore
apply (create_call now sid username auth) store = (create now sid username auth store).1
apply (get_call now sid) store = (get now sid store).1
apply (delete_call sid) store = (delete sid store).1
apply (purge_call now) store = (purge_expired now store).1

module _ (ttl idle : ℤ) where
  -- The store after a history that begins with the empty store.
  unfoldable pub after : List Call → SessionStore
  unfolding apply
  after [] = empty_store ttl idle
  after (call ∷ earlier) = apply call (after earlier)

-- Whom an id was given to, and when.
pub record Grant : Type 0 where
  pub username : Text
  pub auth : AuthContext
  pub at : ℕ

abbrev pub grant_of : Session → Grant
grant_of s = record { username = s.username; auth = s.auth; at = s.created_at }

abbrev pub names : Option Text → Text → Bool
names none j = false
names (some []) j = false
names (some (c ∷ sid)) j = (c ∷ sid) == j

-- The specification: the last login that was given the id, unless a logout of the id came later.
unfoldable pub granted : List Call → Text → Option Grant
granted [] j = none
granted (create_call now sid username auth ∷ earlier) j =
    if sid == j
    then some (record { username = username; auth = auth; at = now })
    else granted earlier j
granted (delete_call sid ∷ earlier) j = if names sid j then none else granted earlier j
granted (get_call now sid ∷ earlier) j = granted earlier j
granted (purge_call now ∷ earlier) j = granted earlier j

apply-IsInOrder :
    (call : Call) (store : SessionStore) → IsInOrder store → IsInOrder (apply call store)
unfolding apply
apply-IsInOrder (create_call now sid username auth) store h =
    create-IsInOrder now sid username auth store h
apply-IsInOrder (get_call now sid) store h = get-IsInOrder now sid store h
apply-IsInOrder (delete_call sid) store h = delete-IsInOrder sid store h
apply-IsInOrder (purge_call now) store h = purge_expired-IsInOrder now store h

-- After any history of calls the store is in order: the keys are distinct, and every session stands
-- under its own id and has the timeouts of the store.
pub after-IsInOrder : (ttl idle : ℤ) (calls : List Call) → IsInOrder (after ttl idle calls)
unfolding after
after-IsInOrder ttl idle [] = empty_store-IsInOrder ttl idle
after-IsInOrder ttl idle (call ∷ earlier) =
    apply-IsInOrder call (after ttl idle earlier) (after-IsInOrder ttl idle earlier)
