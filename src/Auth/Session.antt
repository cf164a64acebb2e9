-- ===== src/Auth/Session.antt =====
-- auth/session_store.py: `Session`. The clock's floats are read as whole microseconds.
use cisco_ise_mcp.Prelude.{
  Bool, [], false, if◌then◌else◌, ltb, suc, true, zero, ℕ, ◌*◌, ◌+◌, ◌/◌, ◌∷◌,
}
use cisco_ise_mcp.Auth.Context.{AuthContext}
use cisco_ise_mcp.Prelude.Int.{negsuc, pos, ℤ}
use cisco_ise_mcp.Text.{Text, lit}
use cisco_ise_mcp.Value.{Value, dict, int, str}

pub record Session : Type 0 where
  pub session_id : Text
  pub username : Text
  pub auth : AuthContext
  pub created_at : ℕ
  pub last_used_at : ℕ
  pub ttl_seconds : ℤ
  pub idle_timeout_seconds : ℤ

abbrev pub microseconds : ℕ
microseconds = 1000000

-- `limit and now - since > limit`, for a limit in seconds
unfoldable pub outlives : ℕ → ℕ → ℤ → Bool
outlives now since (pos zero) = false
outlives now since (pos (suc n)) = ltb (since + suc n * microseconds) now
outlives now since (negsuc n) = ltb since (now + suc n * microseconds)

unfoldable pub is_expired : ℕ → Session → Bool
unfolding outlives
is_expired now s =
    if outlives now s.created_at s.ttl_seconds
    then true
    else if outlives now s.last_used_at s.idle_timeout_seconds
    then true
    else false

-- `public()`
unfoldable pub public : Session → Value
public s = dict (
    (lit "session_id", str s.session_id)
    ∷ (lit "username", str s.username)
    ∷ (lit "mode", str s.auth.mode)
    ∷ (lit "created_at", int (pos (s.created_at / microseconds)))
    ∷ (lit "last_used_at", int (pos (s.last_used_at / microseconds)))
    ∷ (lit "ttl_seconds", int s.ttl_seconds)
    ∷ (lit "idle_timeout_seconds", int s.idle_timeout_seconds)
    ∷ [])
