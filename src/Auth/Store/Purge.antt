-- ===== src/Auth/Store/Purge.antt =====
-- `purge_expired` removes the sessions that have expired, and no other.
use cisco_ise_mcp.Prelude.{Option, ap, if◌then◌else◌, none, refl, some, ℕ, ◌+◌, ◌∙◌, ◌≡◌}
use cisco_ise_mcp.Auth.Session.{Session, is_expired}
use cisco_ise_mcp.Auth.Store.{SessionStore, purge_expired, size}
use cisco_ise_mcp.Auth.Store.Laws.{IsInOrder}
use cisco_ise_mcp.Auth.Store.View.{live, view}
use cisco_ise_mcp.Dict.{lookup}
use cisco_ise_mcp.Dict.Laws.{length-drop_if, lookup-drop_if, remove_all-keys_where}
use cisco_ise_mcp.Text.{Text}

-- After `purge_expired` an id leads to its session if that has not expired, and to none otherwise.
pub view-purge_expired :
    (now : ℕ) (j : Text) (store : SessionStore)
    → IsInOrder store
    → lookup j (purge_expired now store).1.sessions ≡ view store now j
unfolding purge_expired view
view-purge_expired now j store h =
    ap (lookup j) (remove_all-keys_where (is_expired now) store.sessions h.keys)
    ∙ lookup-drop_if (is_expired now) j store.sessions h.keys
    ∙ live_lem (lookup j store.sessions)
  where
    live_lem :
        (found : Option Session)
        → elim found [ none ↦ none | some v ↦ if is_expired now v then none else some v ]
          ≡ live now found
    live_lem none = refl
    live_lem (some s) = refl

-- In a store in order, the number that `purge_expired` returns is by how many sessions the store has shrunk.
pub size-purge_expired :
    (now : ℕ) (store : SessionStore)
    → IsInOrder store
    → (purge_expired now store).0 + size (purge_expired now store).1 ≡ size store
unfolding purge_expired size
size-purge_expired now store h =
    rw (remove_all-keys_where (is_expired now) store.sessions h.keys)
      (length-drop_if (is_expired now) store.sessions)
