-- ===== src/Auth/Store/Abstract.antt =====
-- The store as a function from session ids to sessions, which the calls change at the id that they name.
use cisco_ise_mcp.Prelude.{
  List, Option, [], ap, arith, fun_ext, if◌then◌else◌, none, refl, some, ℕ, ◌∙◌, ◌∷◌, ◌≡◌,
}
use cisco_ise_mcp.Auth.Session.{Session}
use cisco_ise_mcp.Auth.Store.{SessionStore, create, delete, empty_store, get, new_session}
use cisco_ise_mcp.Auth.Store.Granted.{timeouts-after}
use cisco_ise_mcp.Auth.Store.History.{
  Call, after, after-IsInOrder, apply, create_call, delete_call, get_call, names, purge_call,
}
use cisco_ise_mcp.Auth.Store.Laws.{IsInOrder}
use cisco_ise_mcp.Auth.Store.Purge.{view-purge_expired}
use cisco_ise_mcp.Auth.Store.View.{get-eq-view, live, lookup-get, touched, view}
use cisco_ise_mcp.Dict.{lookup}
use cisco_ise_mcp.Dict.Laws.{lookup-insert, lookup-remove}
use cisco_ise_mcp.Prelude.Int.{ℤ}
use cisco_ise_mcp.Text.{Text, ◌==◌}
use cisco_ise_mcp.Text.Laws.{==_iff}

module _ (ttl idle : ℤ) where
  -- What one call does to the function.
  unfoldable pub change : Call → (Text → Option Session) → Text → Option Session
  change (create_call now sid username auth) m j =
      if sid == j then some (new_session (empty_store ttl idle) now sid username auth) else m j
  change (get_call now sid) m j = if names sid j then touched now (live now (m j)) else m j
  change (delete_call sid) m j = if names sid j then none else m j
  change (purge_call now) m j = live now (m j)

  unfoldable pub abstract_after : List Call → Text → Option Session
  unfolding change
  abstract_after [] j = none
  abstract_after (call ∷ earlier) j = change call (abstract_after earlier) j

  -- One call on a store in order with these timeouts.
  pub lookup-apply :
      (call : Call) (store : SessionStore) (j : Text)
      → IsInOrder store
      → store.ttl ≡ ttl
      → store.idle ≡ idle
      → lookup j (apply call store).sessions ≡ change call (λ k. lookup k store.sessions) j
  unfolding apply change empty_store
  lookup-apply (create_call now sid username auth) store j h t i =
      unfold create in rw (lookup-insert, t, i) refl
  lookup-apply (get_call now none) store j h t i = unfold get in refl
  lookup-apply (get_call now (some [])) store j h t i = unfold get in refl
  lookup-apply (get_call now (some (c ∷ sid))) store j h t i =
      lookup-get now c sid j store ∙ unfold view in ground (arith, ==_iff (c ∷ sid) j)
  lookup-apply (delete_call none) store j h t i = unfold delete in refl
  lookup-apply (delete_call (some [])) store j h t i = unfold delete in refl
  lookup-apply (delete_call (some (c ∷ sid))) store j h t i =
      unfold delete in lookup-remove (c ∷ sid) j store.sessions
  lookup-apply (purge_call now) store j h t i = unfold view in view-purge_expired now j store h

  lookup-after :
      (calls : List Call) (j : Text)
      → lookup j (after ttl idle calls).sessions ≡ abstract_after calls j
  unfolding after abstract_after empty_store lookup
  lookup-after [] j = refl
  lookup-after (call ∷ earlier) j =
      let (t, i) = timeouts-after ttl idle earlier in
      lookup-apply call (after ttl idle earlier) j (after-IsInOrder ttl idle earlier) t i
      ∙ ap (λ m. change call m j) (fun_ext (lookup-after earlier))

  -- After any history of calls every id leads in the dict to the session that it has in the function, and
  -- `get` returns that session, used at its time, unless it has expired by then.
  pub after-abstract :
      (calls : List Call) (j : Text) (now c : ℕ) (sid : Text)
      → (lookup j (after ttl idle calls).sessions ≡ abstract_after calls j)
        × ((get now (some (c ∷ sid)) (after ttl idle calls)).0
            ≡ touched now (live now (abstract_after calls (c ∷ sid))))
  unfolding view
  after-abstract calls j now c sid = (
    lookup-after calls j,
    get-eq-view now c sid (after ttl idle calls)
        ∙ ap (λ found. touched now (live now found)) (lookup-after calls (c ∷ sid)),
  )
