-- ===== src/Auth/Store/View.antt =====
-- What a client can see of a store, as a function from session ids and times to sessions.
use cisco_ise_mcp.Prelude.{
  Bool-cases, Option, arith, false, if◌then◌else◌, inl, inr, none, refl, some, suc, true, zero, ℕ,
  ◌*◌, ◌+◌, ◌↔◌, ◌∷◌, ◌≡◌, ◌≤◌, ◌⊎◌,
}
use cisco_ise_mcp.Auth.Session.{Session, is_expired, microseconds, outlives}
use cisco_ise_mcp.Auth.Store.{SessionStore, get, use_session}
use cisco_ise_mcp.Dict.{lookup}
use cisco_ise_mcp.Dict.Laws.{lookup-insert, lookup-remove}
use cisco_ise_mcp.Prelude.Int.{negsuc, pos, ℤ}
use cisco_ise_mcp.Text.{Text, ◌==◌}
use cisco_ise_mcp.Text.Laws.{==_iff}

abbrev pub live : ℕ → Option Session → Option Session
live now none = none
live now (some s) = if is_expired now s then none else some s

-- The session that an id leads to at a time.
unfoldable pub view : SessionStore → ℕ → Text → Option Session
view store now sid = live now (lookup sid store.sessions)

abbrev pub touched : ℕ → Option Session → Option Session
touched now none = none
touched now (some s) = some (record s { last_used_at = now })

-- `get` returns the session that is seen at its time, used at that time.
pub get-eq-view :
    (now c : ℕ) (sid : Text) (store : SessionStore)
    → (get now (some (c ∷ sid)) store).0 ≡ touched now (view store now (c ∷ sid))
unfolding get view
get-eq-view now c sid store = ground arith

lookup-use_session :
    (now : ℕ) (k j : Text) (store : SessionStore) (found : Option Session)
    → lookup k store.sessions ≡ found
    → lookup j (use_session now k store found).1.sessions
      ≡ (if k == j then touched now (live now found) else lookup j store.sessions)
lookup-use_session now k j store none e = ground (arith, ==_iff k j)
lookup-use_session now k j store (some s) e = elim (Bool-cases (is_expired now s)) [
  | inl dead ↦ rw dead (lookup-remove k j store.sessions)
  | inr alive ↦ rw alive (lookup-insert k j _ store.sessions)
]

-- The dict after `get`: another id keeps its session; the id itself keeps what was returned.
pub lookup-get :
    (now c : ℕ) (sid j : Text) (store : SessionStore)
    → lookup j (get now (some (c ∷ sid)) store).1.sessions
      ≡ (if (c ∷ sid) == j then touched now (view store now (c ∷ sid)) else lookup j store.sessions)
unfolding get view
lookup-get now c sid j store =
    lookup-use_session now (c ∷ sid) j store (lookup (c ∷ sid) store.sessions) refl

-- At which times a session that was last used at `used` has not expired.
pub record IsWithin (created used now : ℕ) (ttl idle : ℤ) : Type 0 where
  pub in_ttl : (ttl ≡ pos 0) ⊎ ((n : ℕ) × (ttl ≡ pos n) × (now ≤ created + n * microseconds))
  pub in_idle : (idle ≡ pos 0) ⊎ ((n : ℕ) × (idle ≡ pos n) × (now ≤ used + n * microseconds))

outlives_iff :
    (now since : ℕ) (limit : ℤ)
    → since ≤ now
    → (outlives now since limit ≡ false)
      ↔ ((limit ≡ pos 0) ⊎ ((n : ℕ) × (limit ≡ pos n) × (now ≤ since + n * microseconds)))
unfolding outlives
outlives_iff now since (pos zero) h = ground arith
outlives_iff now since (pos (suc n)) h = (
  λ e. inr (suc n, refl, ground arith),
  λ c. elim c [ inl e ↦ absurd (ground arith) | inr (x, e, le) ↦ ground arith ],
)
outlives_iff now since (negsuc n) h = (
  λ e. absurd (ground arith),
  λ c. elim c [ inl e ↦ absurd (ground arith) | inr (x, e, le) ↦ absurd (ground arith) ],
)

-- Whether a session that was created and used no later than now has expired, in terms of its two timeouts: 0 switches a timeout off, and a
-- session is good up to and including the last moment of each. A negative timeout ends it at once.
pub is_expired_iff :
    (now : ℕ) (s : Session)
    → s.created_at ≤ now
    → s.last_used_at ≤ now
    → (is_expired now s ≡ false)
      ↔ IsWithin s.created_at s.last_used_at now s.ttl_seconds s.idle_timeout_seconds
unfolding is_expired
is_expired_iff now s h k =
    let (t, t') = outlives_iff now s.created_at s.ttl_seconds h in
    let (u, u') = outlives_iff now s.last_used_at s.idle_timeout_seconds k in
    (
      λ e. record { in_ttl = t (ground arith); in_idle = u (ground arith) },
      λ w. rw (t' w.in_ttl, u' w.in_idle),
    )

outlives_later :
    (now t since : ℕ) (limit : ℤ)
    → now ≤ t
    → outlives now since limit ≡ true
    → outlives t since limit ≡ true
unfolding outlives
outlives_later now t since (pos zero) h e = e
outlives_later now t since (pos (suc n)) h e = ground arith
outlives_later now t since (negsuc n) h e = ground arith

-- Once expired, a session stays expired.
pub is_expired_later :
    (now t : ℕ) (s : Session) → now ≤ t → is_expired now s ≡ true → is_expired t s ≡ true
unfolding is_expired
is_expired_later now t s h e = ground (
  arith,
  outlives_later now t s.created_at s.ttl_seconds h,
  outlives_later now t s.last_used_at s.idle_timeout_seconds h,
)
