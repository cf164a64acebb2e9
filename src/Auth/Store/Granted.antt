-- ===== src/Auth/Store/Granted.antt =====
-- The store after any history, against the specification by the logins and logouts alone.
use cisco_ise_mcp.Prelude.{
  Bool-cases, List, Option, [], arith, false, inl, inr, none, refl, some, subst, sym, ℕ, ◌∙◌, ◌∷◌,
  ◌≡◌,
}
use cisco_ise_mcp.Auth.Context.{AuthContext}
use cisco_ise_mcp.Auth.Session.{Session, is_expired, outlives}
use cisco_ise_mcp.Auth.Store.{SessionStore, create, delete, empty_store, get, purge_expired}
use cisco_ise_mcp.Auth.Store.History.{
  Call, after, after-IsInOrder, apply, create_call, delete_call, get_call, grant_of, granted,
  purge_call,
}
use cisco_ise_mcp.Auth.Store.Laws.{Stands-lookup}
use cisco_ise_mcp.Auth.Store.View.{get-eq-view, live, lookup-get, touched, view}
use cisco_ise_mcp.Dict.{Dict, keys_where, lookup, remove, remove_all}
use cisco_ise_mcp.Dict.Laws.{lookup-insert, lookup-remove}
use cisco_ise_mcp.Prelude.Int.{ℤ}
use cisco_ise_mcp.Text.{Text, ◌==◌}
use cisco_ise_mcp.Text.Laws.{==_iff}

abbrev Granted : List Call → Text → Option Session → Type 0
Granted calls j none = Unit
Granted calls j (some s) = granted calls j ≡ some (grant_of s)

Granted-eq :
    (calls earlier : List Call) (j : Text) (found : Option Session)
    → granted calls j ≡ granted earlier j
    → Granted earlier j found
    → Granted calls j found
Granted-eq calls earlier j none e h = tt
Granted-eq calls earlier j (some s) e h = e ∙ h

-- What is left after removals was there before.
lookup-remove_all :
    (ks : List Text) (j : Text) (d : Dict Session) (P : Option Session → Type 0)
    → P none
    → P (lookup j d)
    → P (lookup j (remove_all ks d))
unfolding remove_all
lookup-remove_all [] j d P none_ok h = h
lookup-remove_all (k ∷ ks) j d P none_ok h =
    lookup-remove_all ks j (remove k d) P none_ok
      (rw lookup-remove (elim (Bool-cases (k == j)) [ inl e ↦ rw e none_ok | inr e ↦ rw e h ]))

Granted-live :
    (calls : List Call) (now : ℕ) (j : Text) (found : Option Session)
    → Granted calls j found
    → Granted calls j (touched now (live now found))
Granted-live calls now j none h = tt
Granted-live calls now j (some s) h = elim (Bool-cases (is_expired now s)) [
  | inl e ↦ rw e tt
  | inr e ↦ rw e h
]

module _ (earlier : List Call) (store : SessionStore)
    (h : (j : Text) → Granted earlier j (lookup j store.sessions)) where
  Granted-created :
      (now : ℕ) (sid username : Text) (auth : AuthContext) (j : Text)
      → Granted
          (create_call now sid username auth ∷ earlier)
          j
          (lookup j (create now sid username auth store).1.sessions)
  unfolding create granted
  Granted-created now sid username auth j = rw lookup-insert (elim (Bool-cases (sid == j)) [
    | inl e ↦ rw e (rw e refl)
    | inr e ↦
        rw e (Granted-eq (create_call now sid username auth ∷ earlier) earlier j _ (rw e) (h j))
  ])

  Granted-got :
      (now c : ℕ) (sid j : Text)
      → Granted
          (get_call now (some (c ∷ sid)) ∷ earlier)
          j
          (lookup j (get now (some (c ∷ sid)) store).1.sessions)
  unfolding granted view
  Granted-got now c sid j = rw lookup-get (elim (Bool-cases ((c ∷ sid) == j)) [
    | inl e ↦ rw e (
        subst (λ k. Granted earlier k (touched now (live now (lookup (c ∷ sid) store.sessions))))
          ((==_iff (c ∷ sid) j).0 e) (Granted-live earlier now (c ∷ sid) _ (h (c ∷ sid))))
    | inr e ↦ rw e (h j)
  ])

  Granted-deleted :
      (c : ℕ) (sid j : Text)
      → Granted
          (delete_call (some (c ∷ sid)) ∷ earlier)
          j
          (lookup j (delete (some (c ∷ sid)) store).1.sessions)
  unfolding delete granted
  Granted-deleted c sid j = rw lookup-remove (elim (Bool-cases ((c ∷ sid) == j)) [
    | inl e ↦ rw e tt
    | inr e ↦ rw e (Granted-eq (delete_call (some (c ∷ sid)) ∷ earlier) earlier j _ (rw e) (h j))
  ])

  Granted-purged :
      (now : ℕ) (j : Text)
      → Granted (purge_call now ∷ earlier) j (lookup j (purge_expired now store).1.sessions)
  unfolding purge_expired granted
  Granted-purged now j =
      lookup-remove_all (keys_where (is_expired now) store.sessions) j store.sessions
        (λ found. Granted earlier j found) tt (h j)

Granted-apply :
    (call : Call) (earlier : List Call) (store : SessionStore)
    → ((j : Text) → Granted earlier j (lookup j store.sessions))
    → (j : Text) → Granted (call ∷ earlier) j (lookup j (apply call store).sessions)
unfolding apply granted
Granted-apply (create_call now sid username auth) earlier store h j =
    Granted-created earlier store h now sid username auth j
Granted-apply (get_call now none) earlier store h j = unfold get in h j
Granted-apply (get_call now (some [])) earlier store h j = unfold get in h j
Granted-apply (get_call now (some (c ∷ sid))) earlier store h j =
    Granted-got earlier store h now c sid j
Granted-apply (delete_call none) earlier store h j = unfold delete in h j
Granted-apply (delete_call (some [])) earlier store h j = unfold delete in h j
Granted-apply (delete_call (some (c ∷ sid))) earlier store h j =
    Granted-deleted earlier store h c sid j
Granted-apply (purge_call now) earlier store h j = Granted-purged earlier store h now j

Granted-after :
    (ttl idle : ℤ) (calls : List Call) (j : Text)
    → Granted calls j (lookup j (after ttl idle calls).sessions)
unfolding after
Granted-after ttl idle [] j = unfold empty_store lookup in tt
Granted-after ttl idle (call ∷ earlier) j =
    Granted-apply call earlier (after ttl idle earlier) (Granted-after ttl idle earlier) j

-- The store keeps its timeouts.
timeouts-apply :
    (call : Call) (store : SessionStore)
    → ((apply call store).ttl ≡ store.ttl) × ((apply call store).idle ≡ store.idle)
unfolding apply create get delete purge_expired
timeouts-apply (create_call now sid username auth) store = (refl, refl)
timeouts-apply (get_call now none) store = (refl, refl)
timeouts-apply (get_call now (some [])) store = (refl, refl)
timeouts-apply (get_call now (some (c ∷ sid))) store = ground arith
timeouts-apply (delete_call none) store = (refl, refl)
timeouts-apply (delete_call (some [])) store = (refl, refl)
timeouts-apply (delete_call (some (c ∷ sid))) store = (refl, refl)
timeouts-apply (purge_call now) store = (refl, refl)

pub timeouts-after :
    (ttl idle : ℤ) (calls : List Call)
    → ((after ttl idle calls).ttl ≡ ttl) × ((after ttl idle calls).idle ≡ idle)
unfolding after
timeouts-after ttl idle [] = unfold empty_store in (refl, refl)
timeouts-after ttl idle (call ∷ earlier) =
    let (t, i) = timeouts-apply call (after ttl idle earlier) in
    let (t', i') = timeouts-after ttl idle earlier in (t ∙ t', i ∙ i')

-- What a session that `get` returns was before.
returned :
    (calls : List Call) (now : ℕ) (j : Text) (found : Option Session) (s : Session)
    → Granted calls j found
    → touched now (live now found) ≡ some s
    → (granted calls j ≡ some (grant_of s))
      × (x : Session) × (found ≡ some x)
      × (is_expired now x ≡ false)
      × (s ≡ record x { last_used_at = now })
returned calls now j none s h e = cc
returned calls now j (some x) s h e = elim (Bool-cases (is_expired now x)) [
  | inl dead ↦ cc (rw dead at e)
  | inr alive ↦
      let now_used : record x { last_used_at = now } ≡ s = cc (rw alive at e) in
      (subst (λ y. granted calls j ≡ some (grant_of y)) now_used h, x, refl, alive, sym now_used)
]

ttl_of_alive :
    (now : ℕ) (x : Session)
    → is_expired now x ≡ false
    → outlives now x.created_at x.ttl_seconds ≡ false
unfolding is_expired
ttl_of_alive now x h = ground arith

-- After any history, a session that `get` returns for an id is that of the last login that was given
-- the id, with the identity and the time of that login; no logout of the id came later; and that
-- login is no longer ago than the store's time to live.
pub get-after-granted :
    (ttl idle : ℤ) (calls : List Call) (now c : ℕ) (sid : Text) (s : Session)
    → (get now (some (c ∷ sid)) (after ttl idle calls)).0 ≡ some s
    → (granted calls (c ∷ sid) ≡ some (grant_of s)) × (outlives now s.created_at ttl ≡ false)
unfolding view
get-after-granted ttl idle calls now c sid s h =
    let store = after ttl idle calls in
    let (g, x, e, alive, now_used) =
      returned calls now (c ∷ sid) (lookup (c ∷ sid) store.sessions) s
        (Granted-after ttl idle calls (c ∷ sid)) (sym (get-eq-view now c sid store) ∙ h) in
    let (_, own, _) =
      Stands-lookup store (c ∷ sid) store.sessions x (after-IsInOrder ttl idle calls).stands e in
    (
      g,
      subst (λ y. outlives now y.created_at ttl ≡ false) (sym now_used)
          (subst (λ t. outlives now x.created_at t ≡ false)
            (own ∙ (timeouts-after ttl idle calls).0) (ttl_of_alive now x alive)),
    )
