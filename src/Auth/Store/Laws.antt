-- ===== src/Auth/Store/Laws.antt =====
-- What the methods of the store return and change.
use cisco_ise_mcp.Prelude.{
  Bool-cases, List, Option, [], arith, inl, inr, none, refl, some, ℕ, ◌∷◌, ◌≡◌,
}
use cisco_ise_mcp.Auth.Context.{AuthContext}
use cisco_ise_mcp.Auth.Session.{Session, is_expired}
use cisco_ise_mcp.Auth.Store.{
  SessionStore, create, delete, empty_store, get, purge_expired, use_session,
}
use cisco_ise_mcp.Dict.{Dict, HasKeysApart, insert, lookup, remove, remove_all}
use cisco_ise_mcp.Dict.Laws.{insert-HasKeysApart, remove-HasKeysApart}
use cisco_ise_mcp.Prelude.Int.{ℤ}
use cisco_ise_mcp.Text.{Text}
use cisco_ise_mcp.Text.Laws.{==_iff}

-- A store in order: the keys of its dict are distinct, each session stands under its own id, and
-- has the timeouts of the store.
abbrev pub Stands : SessionStore → Dict Session → Type 0
Stands store [] = Unit
Stands store ((k, s) ∷ d) =
    (s.session_id ≡ k)
    × (s.ttl_seconds ≡ store.ttl)
    × (s.idle_timeout_seconds ≡ store.idle)
    × Stands store d

pub record IsInOrder (store : SessionStore) : Type 0 where
  pub keys : HasKeysApart store.sessions
  pub stands : Stands store store.sessions

Stands-insert :
    (store : SessionStore) (k : Text) (s : Session) (d : Dict Session)
    → s.session_id ≡ k
    → s.ttl_seconds ≡ store.ttl
    → s.idle_timeout_seconds ≡ store.idle
    → Stands store d
    → Stands store (insert k s d)
unfolding insert
Stands-insert store k s [] a b c h = (a, b, c, tt)
Stands-insert store k s ((j, x) ∷ d) a b c h =
    ground (arith, ==_iff j k, Stands-insert store k s d a b c)

Stands-remove :
    (store : SessionStore) (k : Text) (d : Dict Session)
    → Stands store d
    → Stands store (remove k d)
unfolding remove
Stands-remove store k [] h = tt
Stands-remove store k ((j, x) ∷ d) h = ground (arith, Stands-remove store k d)

Stands-remove_all :
    (store : SessionStore) (ks : List Text) (d : Dict Session)
    → Stands store d
    → Stands store (remove_all ks d)
unfolding remove_all
Stands-remove_all store [] d h = h
Stands-remove_all store (k ∷ ks) d h =
    Stands-remove_all store ks (remove k d) (Stands-remove store k d h)

remove_all-HasKeysApart :
    (ks : List Text) (d : Dict Session) → HasKeysApart d → HasKeysApart (remove_all ks d)
unfolding remove_all
remove_all-HasKeysApart [] d h = h
remove_all-HasKeysApart (k ∷ ks) d h =
    remove_all-HasKeysApart ks (remove k d) (remove-HasKeysApart k d h)

-- A session of the dict stands under its id.
pub Stands-lookup :
    (store : SessionStore) (k : Text) (d : Dict Session) (s : Session)
    → Stands store d
    → lookup k d ≡ some s
    → (s.session_id ≡ k) × (s.ttl_seconds ≡ store.ttl) × (s.idle_timeout_seconds ≡ store.idle)
unfolding lookup
Stands-lookup store k [] s h e = cc
Stands-lookup store k ((j, x) ∷ d) s h e = ground (arith, ==_iff j k, Stands-lookup store k d s)

pub empty_store-IsInOrder : (ttl idle : ℤ) → IsInOrder (empty_store ttl idle)
unfolding empty_store
empty_store-IsInOrder ttl idle = record { keys = tt; stands = tt }

pub create-IsInOrder :
    (now : ℕ) (sid username : Text) (auth : AuthContext) (store : SessionStore)
    → IsInOrder store
    → IsInOrder (create now sid username auth store).1
unfolding create
create-IsInOrder now sid username auth store h = record {
  keys = insert-HasKeysApart sid _ store.sessions h.keys;
  stands = Stands-insert store sid _ store.sessions refl refl refl h.stands;
}

get_found-IsInOrder :
    (now : ℕ) (sid : Text) (store : SessionStore) (found : Option Session)
    → lookup sid store.sessions ≡ found
    → IsInOrder store
    → IsInOrder (use_session now sid store found).1
get_found-IsInOrder now sid store none e h = h
get_found-IsInOrder now sid store (some s) e h = elim (Bool-cases (is_expired now s)) [
  | inl dead ↦ rw dead (record {
    keys = remove-HasKeysApart sid store.sessions h.keys;
    stands = Stands-remove store sid store.sessions h.stands;
  })
  | inr alive ↦
      let (a, b, c) = Stands-lookup store sid store.sessions s h.stands e in
      rw alive (record {
        keys = insert-HasKeysApart sid _ store.sessions h.keys;
        stands = Stands-insert store sid _ store.sessions a b c h.stands;
      })
]

pub get-IsInOrder :
    (now : ℕ) (sid : Option Text) (store : SessionStore)
    → IsInOrder store
    → IsInOrder (get now sid store).1
unfolding get
get-IsInOrder now none store h = h
get-IsInOrder now (some []) store h = h
get-IsInOrder now (some (c ∷ sid)) store h =
    get_found-IsInOrder now (c ∷ sid) store (lookup (c ∷ sid) store.sessions) refl h

pub delete-IsInOrder :
    (sid : Option Text) (store : SessionStore) → IsInOrder store → IsInOrder (delete sid store).1
unfolding delete
delete-IsInOrder none store h = h
delete-IsInOrder (some []) store h = h
delete-IsInOrder (some (c ∷ sid)) store h = record {
  keys = remove-HasKeysApart (c ∷ sid) store.sessions h.keys;
  stands = Stands-remove store (c ∷ sid) store.sessions h.stands;
}

pub purge_expired-IsInOrder :
    (now : ℕ) (store : SessionStore) → IsInOrder store → IsInOrder (purge_expired now store).1
unfolding purge_expired
purge_expired-IsInOrder now store h = record {
  keys = remove_all-HasKeysApart _ store.sessions h.keys;
  stands = Stands-remove_all store _ store.sessions h.stands;
}
