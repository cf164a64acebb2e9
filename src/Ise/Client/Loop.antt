-- ===== src/Ise/Client/Loop.antt =====
-- The loop of `request` as the code has it, `while True` with a counter of attempts, and that it ends.
use cisco_ise_mcp.Prelude.{
  Bool, Bool-cases, Option, ap, arith, eqb, if◌then◌else◌, inl, inr, leb, none, refl, some, suc,
  sym, zero, ℕ, ◌&&◌, ◌++◌, ◌+◌, ◌<◌, ◌∙◌, ◌∷◌, ◌≡◌, ◌≤◌,
}
use cisco_ise_mcp.Config.Record.{Config}
use cisco_ise_mcp.Errors.{Result, err, ise_api_error, rate_limited}
use cisco_ise_mcp.Exec.{Exec, asks, lift, raise, send, sleep, ◌>>=◌}
use cisco_ise_mcp.Ise.Client.{backoff, handle, is_transient, max_retries, on_reply, request_loop}
use cisco_ise_mcp.Ise.Client.Retry.{rounds}
use cisco_ise_mcp.Text.{lit}
use cisco_ise_mcp.Value.{Value}
use cisco_ise_mcp.World.{Env, HttpRequest, Reply, World, response, transport_error}

-- What a round of the loop comes to: a pause and `continue`, or the end by a return or a raise.
pub data Turn : Type 0 where
  pause_and_continue : Exec (Unit {0}) → Turn
  leave : Result Value → Turn

-- The body of the loop after the request was sent, in the order of its tests.
unfoldable pub turn : Config → Bool → ℕ → Reply → Turn
unfolding handle
turn cfg as_text attempt (transport_error m) =
    if leb attempt max_retries
    then pause_and_continue (backoff attempt none)
    else leave (err (ise_api_error (lit "ISE transport error: " ++ m) none none))
turn cfg as_text attempt (response r) =
    if eqb r.status_code 429
    then (if cfg.rate_limit_wait && leb attempt max_retries
        then pause_and_continue (backoff attempt r.retry_after)
        else leave (err (rate_limited (lit "ISE rate limit exceeded") (some 429) none)))
    else if is_transient r.status_code && leb attempt max_retries
    then pause_and_continue (backoff attempt none)
    else leave (handle r as_text)

module _ (cfg : Config) (as_text : Bool) (req : HttpRequest) (env : Env) where
  -- The loop with `attempt` rounds behind it, for at most so many rounds more: `none` means that it
  -- has not ended by then.
  unfoldable pub while_true : ℕ → ℕ → World → Option (Result Value × World)
  while_true zero attempt w = none
  while_true (suc rounds) attempt w =
      let w' = record w { sent = req ∷ w.sent } in
      elim (turn cfg as_text (attempt + 1) (env.ise w.sent req)) [
        | leave r ↦ some (r, w')
        | pause_and_continue pause ↦ while_true rounds (attempt + 1) (pause env w').1
      ]

  -- A round is what the counted loop makes of the reply.
  on_turn : Exec Value → Turn → World → Result Value × World
  on_turn again (leave r) w = (r, w)
  on_turn again (pause_and_continue pause) w = again env (pause env w).1

  last_turn :
      (attempt : ℕ) (p : Reply) (w : World)
      → max_retries < attempt
      → (r : Result Value) × (turn cfg as_text attempt p ≡ leave r)
        × (on_reply cfg as_text attempt none p env w ≡ (r, w))
  unfolding turn on_reply raise lift
  last_turn attempt (transport_error m) w h =
      (err (ise_api_error (lit "ISE transport error: " ++ m) none none), ground arith, refl)
  last_turn attempt (response r) w h = elim (Bool-cases (eqb r.status_code 429)) [
    | inl limited ↦ (
      err (rate_limited (lit "ISE rate limit exceeded") (some 429) none),
      ground arith,
      ground arith,
    )
    | inr free ↦ (handle r as_text, ground arith, ground arith)
  ]

  more_turn :
      (again : Exec Value) (attempt : ℕ) (p : Reply) (w : World)
      → attempt ≤ max_retries
      → on_reply cfg as_text attempt (some again) p env w
        ≡ on_turn again (turn cfg as_text attempt p) w
  unfolding turn on_reply raise lift backoff ◌>>=◌ asks sleep on_turn
  more_turn again attempt (transport_error m) w h = ground arith
  more_turn again attempt (response r) w h = ground arith

  -- A round of the loop whose body has come to `t`, with the rounds after it.
  after_turn :
      (rounds attempt : ℕ) (again : Exec Value) (t : Turn) (w : World)
      → ((v : World) → while_true rounds attempt v ≡ some (again env v))
      → elim t [
        | leave r ↦ some (r, w)
        | pause_and_continue pause ↦ while_true rounds attempt (pause env w).1
      ]
        ≡ some (on_turn again t w)
  unfolding on_turn
  after_turn rounds attempt again (leave r) w h = refl
  after_turn rounds attempt again (pause_and_continue pause) w h = h (pause env w).1

  -- With `attempt` rounds behind it and `left` retries left, the loop ends after at most `left + 1` rounds
  -- more, whatever ISE answers; and it does what the loop does that counts the retries down.
  pub while_true_ends :
      (left rounds attempt : ℕ) (w : World)
      → left + attempt ≡ max_retries
      → left < rounds
      → while_true rounds attempt w ≡ some (request_loop cfg as_text req left (attempt + 1) env w)
  unfolding while_true request_loop ◌>>=◌ send
  while_true_ends left zero attempt w e h = absurd (omega arith)
  while_true_ends zero (suc rounds) attempt w e h =
      let w' = record w { sent = req ∷ w.sent } in
      let (r, left_, same) = last_turn (attempt + 1) (env.ise w.sent req) w' (omega arith) in
      ap
        (λ (t : Turn). elim t [
          | leave x ↦ some (x, w')
          | pause_and_continue pause ↦ while_true rounds (attempt + 1) (pause env w').1
        ])
        left_
      ∙ ap some (sym same)
  while_true_ends (suc left) (suc rounds) attempt w e h =
      let w' = record w { sent = req ∷ w.sent } in
      let again = request_loop cfg as_text req left (attempt + 1 + 1) in
      after_turn rounds (attempt + 1) again (turn cfg as_text (attempt + 1) (env.ise w.sent req)) w'
        (λ v. while_true_ends left rounds (attempt + 1) v (omega arith) (omega arith))
      ∙ ap some (sym (more_turn again (attempt + 1) (env.ise w.sent req) w' (omega arith)))
