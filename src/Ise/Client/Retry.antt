-- ===== src/Ise/Client/Retry.antt =====
-- The retry loop of the client, against a description by the replies of ISE alone.
use cisco_ise_mcp.Prelude.{
  All, Bool, Bool-cases, List, Option, [], arith, eqb, false, if◌then◌else◌, inl, inr, none, refl,
  some, suc, true, zero, ℕ, ◌++◌, ◌+◌, ◌∷◌, ◌≡◌, ◌≤◌,
}
use cisco_ise_mcp.Config.Record.{Config}
use cisco_ise_mcp.Errors.{Result, err, ise_api_error, rate_limited}
use cisco_ise_mcp.Exec.{Exec, asks, lift, raise, send, sleep, ◌>>=◌}
use cisco_ise_mcp.Ise.Client.{handle, is_transient, on_reply, pause_ms, request_loop}
use cisco_ise_mcp.Prelude.Int.{pos, ℤ, ◌≤ℤ◌}
use cisco_ise_mcp.Text.{Text, lit}
use cisco_ise_mcp.Value.{Value}
use cisco_ise_mcp.World.{Env, HttpRequest, Reply, World, response, transport_error}

-- Which replies the client tries again after.
unfoldable pub should_retry : Config → Reply → Bool
should_retry cfg (transport_error m) = true
should_retry cfg (response r) =
    if eqb r.status_code 429 then cfg.rate_limit_wait else is_transient r.status_code

-- What the caller gets for the last reply.
unfoldable pub outcome : Bool → Reply → Result Value
outcome as_text (transport_error m) =
    err (ise_api_error (lit "ISE transport error: " ++ m) none none)
outcome as_text (response r) =
    if eqb r.status_code 429
    then err (rate_limited (lit "ISE rate limit exceeded") (some 429) none)
    else handle r as_text

-- The last reply to the same request sent again and again, at most `left` times more; and how often
-- it was sent.
module _ (cfg : Config) (env : Env) (req : HttpRequest) where
  unfoldable pub last_reply : ℕ → List HttpRequest → Reply
  last_reply zero sent = env.ise sent req
  last_reply (suc left) sent =
      let later = last_reply left (req ∷ sent) in
      if should_retry cfg (env.ise sent req) then later else env.ise sent req

  unfoldable pub rounds : ℕ → List HttpRequest → ℕ
  rounds zero sent = 1
  rounds (suc left) sent =
      let later = rounds left (req ∷ sent) in
      if should_retry cfg (env.ise sent req) then suc later else 1

  -- A request is sent at least once, and at most `left` times more than that.
  pub rounds_bounds :
      (left : ℕ) (sent : List HttpRequest) → (1 ≤ rounds left sent) × (rounds left sent ≤ left + 1)
  unfolding rounds
  rounds_bounds zero sent = omega arith
  rounds_bounds (suc left) sent = ground (arith, rounds_bounds left (req ∷ sent))

-- The request on top of the history, `n` times.
abbrev pub repeated : ℕ → HttpRequest → List HttpRequest → List HttpRequest
repeated zero req sent = sent
repeated (suc n) req sent = repeated n req (req ∷ sent)

abbrev pub IsShort : ℤ → Type 0
IsShort ms = ms ≤ℤ pos 30000

pause_ms-IsShort :
    (float_ms : Text → Option ℤ) (attempt : ℕ) (retry_after : Option Text)
    → IsShort (pause_ms float_ms attempt retry_after)
pause_ms-IsShort float_ms attempt none = omega arith
pause_ms-IsShort float_ms attempt (some []) = omega arith
pause_ms-IsShort float_ms attempt (some (c ∷ s)) = ground arith

module _ (cfg : Config) (as_text : Bool) (attempt : ℕ) (env : Env) (w : World) where
  stops_at_last : (p : Reply) → on_reply cfg as_text attempt none p env w ≡ (outcome as_text p, w)
  unfolding on_reply outcome raise lift
  stops_at_last (transport_error m) = refl
  stops_at_last (response r) = ground arith

  stops :
      (again : Exec Value) (p : Reply)
      → should_retry cfg p ≡ false
      → on_reply cfg as_text attempt (some again) p env w ≡ (outcome as_text p, w)
  unfolding on_reply outcome should_retry raise lift
  stops again (transport_error m) h = cc
  stops again (response r) h = ground arith

  pauses :
      (again : Exec Value) (p : Reply)
      → should_retry cfg p ≡ true
      → (ms : ℤ) × IsShort ms
        × (on_reply cfg as_text attempt (some again) p env w
            ≡ again env (record w { slept = ms ∷ w.slept }))
  unfolding on_reply should_retry ◌>>=◌ asks sleep
  pauses again (transport_error m) h =
      (pause_ms env.float_ms attempt none, pause_ms-IsShort env.float_ms attempt none, refl)
  pauses again (response r) h = elim (Bool-cases (eqb r.status_code 429)) [
    | inl limited ↦ (
      pause_ms env.float_ms attempt r.retry_after,
      pause_ms-IsShort env.float_ms attempt r.retry_after,
      let waits : cfg.rate_limit_wait ≡ true = ground arith in rw (limited, waits),
    )
    | inr free ↦ (
      pause_ms env.float_ms attempt none,
      pause_ms-IsShort env.float_ms attempt none,
      let transient : is_transient r.status_code ≡ true = ground arith in rw (free, transient),
    )
  ]

module _ (cfg : Config) (as_text : Bool) (env : Env) (req : HttpRequest) where
  -- With `left` retries left, the loop returns or raises what the last reply amounts to, after it has
  -- sent the same request as often as the replies ask for and nothing else.
  pub request_loop_lem :
      (left attempt : ℕ) (w : World)
      → ((request_loop cfg as_text req left attempt env w).0
          ≡ outcome as_text (last_reply cfg env req left w.sent))
        × ((request_loop cfg as_text req left attempt env w).1.sent
            ≡ repeated (rounds cfg env req left w.sent) req w.sent)
  unfolding request_loop last_reply rounds ◌>>=◌ send
  request_loop_lem zero attempt w =
      let w' = record w { sent = req ∷ w.sent } in
      rw (stops_at_last cfg as_text attempt env w' (env.ise w.sent req)) (refl, refl)
  request_loop_lem (suc left) attempt w =
      let again = request_loop cfg as_text req left (attempt + 1) in
      let w' = record w { sent = req ∷ w.sent } in
      elim (Bool-cases (should_retry cfg (env.ise w.sent req))) [
        | inl retry ↦
            let (ms, short, e) =
              pauses cfg as_text attempt env w' again (env.ise w.sent req) retry in
            rw (e, retry) (request_loop_lem left (attempt + 1) (record w' { slept = ms ∷ w.slept }))
        | inr stop ↦
            rw (stops cfg as_text attempt env w' again (env.ise w.sent req) stop, stop) (refl, refl)
      ]

  -- If no pause so far was longer than 30 seconds, none is after the loop.
  pub request_loop-IsShort :
      (left attempt : ℕ) (w : World)
      → All IsShort w.slept
      → All IsShort (request_loop cfg as_text req left attempt env w).1.slept
  unfolding request_loop ◌>>=◌ send
  request_loop-IsShort zero attempt w h =
      let w' = record w { sent = req ∷ w.sent } in
      rw (stops_at_last cfg as_text attempt env w' (env.ise w.sent req)) h
  request_loop-IsShort (suc left) attempt w h =
      let again = request_loop cfg as_text req left (attempt + 1) in
      let w' = record w { sent = req ∷ w.sent } in
      elim (Bool-cases (should_retry cfg (env.ise w.sent req))) [
        | inl retry ↦
            let (ms, short, e) =
              pauses cfg as_text attempt env w' again (env.ise w.sent req) retry in
            rw e (
              request_loop-IsShort left (attempt + 1) (record w' { slept = ms ∷ w.slept })
                (short, h))
        | inr stop ↦ rw (stops cfg as_text attempt env w' again (env.ise w.sent req) stop) h
      ]
