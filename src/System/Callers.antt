-- ===== src/System/Callers.antt =====
-- The identity that a tool call on the running server has.
use cisco_ise_mcp.Prelude.{
  Bool, List, Option, ap, false, if◌then◌else◌, inl, inr, some, subst, sym, true, ℕ, ◌++◌, ◌∙◌, ◌≡◌,
  ◌⊎◌,
}
use cisco_ise_mcp.Auth.Context.{AuthContext}
use cisco_ise_mcp.Auth.Provider.{passthrough, resolve}
use cisco_ise_mcp.Auth.Provider.Resolve.{resolve-granted}
use cisco_ise_mcp.Auth.Store.History.{Grant}
use cisco_ise_mcp.Config.Record.{Config}
use cisco_ise_mcp.Errors.{ok}
use cisco_ise_mcp.Exec.{asks, lift, pure, ◌>>=◌}
use cisco_ise_mcp.Exec.Frame.{bind-ok}
use cisco_ise_mcp.Server.{Answer}
use cisco_ise_mcp.Server.Gate.Laws.{by_session}
use cisco_ise_mcp.System.{Reach, during, start}
use cisco_ise_mcp.System.Runs.{Reach-HasHistory, Reach-Tracks}
use cisco_ise_mcp.System.Sessions.{granted-IsIssued, granted-later}
use cisco_ise_mcp.System.Tracks.{IsVouched, apply_all, apply_all-after_append}
use cisco_ise_mcp.Text.{Text}
use cisco_ise_mcp.Tools.{
  admit, gate, is_api_key, key_identity, mcp_session_id, resolve_auth, resolve_token, session_id,
}
use cisco_ise_mcp.Value.{Value}
use cisco_ise_mcp.World.{Env, HttpRequest, World}

-- Why the frame of a tool lets a caller through, with an identity.
pub record IsAdmitted (cfg : Config) (name : Text) (write : Bool) (tok : Option Text) (env : Env)
    (w : World) (auth : AuthContext) : Type 0 where
  pub allowed : gate cfg name write ≡ ok tt
  pub caller :
      ((is_api_key cfg tok ≡ ok true) × (auth ≡ key_identity cfg))
      ⊎ IsVouched cfg env w.sent auth.username auth

-- The same voucher for a grant and for the identity of the grant.
of_grant :
    (cfg : Config) (env : Env) (total : List HttpRequest) (g : Grant) (auth : AuthContext)
    → g.auth ≡ auth
    → IsVouched cfg env total g.username g.auth
    → IsVouched cfg env total auth.username auth
of_grant cfg env total g auth same v =
    let named : g.username ≡ auth.username =
      ap (λ (a : AuthContext). a.username) (sym v.own ∙ same) in
    subst (λ (u : Text). IsVouched cfg env total u auth) named
      (subst (λ (a : AuthContext). IsVouched cfg env total g.username a) same v)

module _ (render : Value → Answer) (cfg : Config) (env : Env) (w : World)
    (reached : Reach render (by_session cfg) env (start cfg) w) where
  resolve-IsVouched :
      (hs : List (Text × Text)) (tok : Option Text) (auth : AuthContext)
      → (resolve passthrough tok (during env hs) w).0 ≡ ok auth
      → IsVouched cfg env w.sent auth.username auth
  resolve-IsVouched hs tok auth h =
      let history = Reach-HasHistory render (by_session cfg) env w reached in
      let (id, g, presented, given, own, young) =
        resolve-granted cfg.session_ttl_seconds cfg.session_idle_timeout_seconds history.calls tok
          auth (during env hs) w history.store h in
      of_grant cfg env w.sent g auth own
        (granted-IsIssued cfg env w.sent 0 w.tokens history.calls id g history.minted given).vouched

  resolve_token-IsAdmitted :
      (hs : List (Text × Text)) (tok : Option Text) (auth : AuthContext)
      → (resolve_token (by_session cfg) tok (during env hs) w).0 ≡ ok auth
      → ((is_api_key cfg tok ≡ ok true) × (auth ≡ key_identity cfg))
        ⊎ IsVouched cfg env w.sent auth.username auth
  unfolding resolve_token lift
  resolve_token-IsAdmitted hs tok auth h =
      let (key, keyed, then_) = bind-ok (lift (is_api_key cfg tok)) _ (during env hs) w auth h in
      of_key key keyed then_
    where
      of_key :
          (key : Bool)
          → is_api_key cfg tok ≡ ok key
          → ((if key then pure (key_identity cfg) else resolve passthrough tok) (during env hs) w).0
            ≡ ok auth
          → ((is_api_key cfg tok ≡ ok true) × (auth ≡ key_identity cfg))
            ⊎ IsVouched cfg env w.sent auth.username auth
      of_key true keyed e = inl (keyed, unfold pure in cc)
      of_key false keyed e = inr (resolve-IsVouched hs tok auth e)

  -- On a server in passthrough mode that has served any requests, the frame of a tool lets a caller
  -- through only if the settings allow the tool; and then the caller presented an API key and has the
  -- identity of the configured account, or has the identity of a login: the server has sent ISE four
  -- probes with exactly these credentials, neither of them empty, and ISE has answered each of them with
  -- a status below 400.
  pub admit-IsAdmitted :
      (hs : List (Text × Text)) (name : Text) (write : Bool) (auth : AuthContext)
      → (admit (by_session cfg) name write (during env hs) w).0 ≡ ok auth
      → IsAdmitted cfg name write
          (mcp_session_id (during env hs).request_headers cfg.session_header)
          env
          w
          auth
  unfolding admit resolve_auth session_id asks lift
  admit-IsAdmitted hs name write auth h =
      let (u, gated, then_) = bind-ok (lift (gate cfg name write)) _ (during env hs) w auth h in
      record {
        allowed = gated;
        caller =
            resolve_token-IsAdmitted hs
              (mcp_session_id (during env hs).request_headers cfg.session_header) auth
              (unfold ◌>>=◌ in then_);
      }

-- A session id does not change hands: if the random tokens are all different, and an id resolves to an
-- identity on a server in passthrough mode that has served any requests, then after any further requests
-- it resolves to the same identity if it resolves at all.
pub resolve-same :
    (render : Value → Answer) (cfg : Config) (env : Env) (w later : World)
    (hs later_hs : List (Text × Text)) (sid : Option Text) (auth other : AuthContext)
    → ((a b : ℕ) → env.token_urlsafe a ≡ env.token_urlsafe b → a ≡ b)
    → Reach render (by_session cfg) env (start cfg) w
    → Reach render (by_session cfg) env w later
    → (resolve passthrough sid (during env hs) w).0 ≡ ok auth
    → (resolve passthrough sid (during env later_hs) later).0 ≡ ok other
    → other ≡ auth
resolve-same render cfg env w later hs later_hs sid auth other apart reached further h k =
    let history = Reach-HasHistory render (by_session cfg) env w reached in
    let more = Reach-Tracks render (by_session cfg) env further in
    let ttl = cfg.session_ttl_seconds in
    let idle = cfg.session_idle_timeout_seconds in
    let (id, g, presented, given, own, young) =
      resolve-granted ttl idle history.calls sid auth (during env hs) w history.store h in
    let issued =
      granted-IsIssued cfg env w.sent 0 w.tokens history.calls id g history.minted given in
    let (id', g', presented', given', own', young') =
      resolve-granted ttl idle (more.calls ++ history.calls) sid other (during env later_hs) later
        (more.store
          ∙ ap (apply_all more.calls) history.store
          ∙ apply_all-after_append ttl idle more.calls history.calls)
        k in
    let same : some id ≡ some id' = sym presented ∙ presented' in
    let here : id ≡ id' = cc in
    elim (granted-later cfg env later.sent w.tokens later.tokens issued.n more.calls history.calls
      apart more.minted issued.below) [ inl gone ↦ cc | inr kept ↦ cc ]
