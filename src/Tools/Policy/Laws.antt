-- ===== src/Tools/Policy/Laws.antt =====
-- What a policy context says when parts of it cannot be had.
use cisco_ise_mcp.Prelude.{List, [], arith, length, refl, ℕ, ◌++◌, ◌+◌, ◌∷◌, ◌≡◌}
use cisco_ise_mcp.Auth.Context.{AuthContext}
use cisco_ise_mcp.Config.Record.{Config}
use cisco_ise_mcp.Errors.{Result, err, ok}
use cisco_ise_mcp.Exec.{caught, pure, ◌>>=◌}
use cisco_ise_mcp.Ise.Mnt.{auth_status_by_mac, session_by_mac}
use cisco_ise_mcp.Ise.Models.{EndpointSummary, PolicyContext}
use cisco_ise_mcp.Prelude.Int.{pos}
use cisco_ise_mcp.Text.{Text}
use cisco_ise_mcp.Tools.Policy.{
  build_context, context_endpoint, empty_context, with_endpoint, with_recent, with_session,
}
use cisco_ise_mcp.Value.{Value}
use cisco_ise_mcp.World.{Env, World}

-- How many of the three look-ups failed.
abbrev pub failures : {A : Type 0} → Result A → ℕ
failures (ok a) = 0
failures (err e) = 1

length-++ : (xs ys : List Text) → length (xs ++ ys) ≡ length xs + length ys
length-++ [] ys = omega arith
length-++ (x ∷ xs) ys = ground (arith, length-++ xs ys)

with_endpoint-notes :
    (c : PolicyContext) (r : Result EndpointSummary)
    → length (with_endpoint c r).notes ≡ length c.notes + failures r
with_endpoint-notes c (ok a) = omega arith
with_endpoint-notes c (err e) = length-++ c.notes _

with_session-notes :
    (c : PolicyContext) (r : Result Value)
    → length (with_session c r).notes ≡ length c.notes + failures r
with_session-notes c (ok a) = omega arith
with_session-notes c (err e) = length-++ c.notes _

with_recent-notes :
    (c : PolicyContext) (r : Result Value)
    → length (with_recent c r).notes ≡ length c.notes + failures r
with_recent-notes c (ok a) = omega arith
with_recent-notes c (err e) = length-++ c.notes _

notes_of :
    (mac : Text) (ep : Result EndpointSummary) (sess recent : Result Value)
    → length (with_recent (with_session (with_endpoint (empty_context mac) ep) sess) recent).notes
      ≡ failures ep + (failures sess + failures recent)
notes_of mac ep sess recent =
    let c1 = with_endpoint (empty_context mac) ep in
    let c2 = with_session c1 sess in
    omega (
      arith,
      with_endpoint-notes (empty_context mac) ep,
      with_session-notes c1 sess,
      with_recent-notes c2 recent,
    )

-- A context is always built: whatever ISE answers, no failure of a look-up is raised, and there is
-- exactly one note for each of the three look-ups that failed.
pub build_context-notes :
    (cfg : Config) (mac : Text) (auth : AuthContext) (env : Env) (w : World)
    → let r1 = context_endpoint cfg mac auth env w in
      let r2 = session_by_mac cfg mac auth env r1.1 in
      let r3 = auth_status_by_mac cfg mac auth (pos 86400) (pos 10) env r2.1 in
      (c : PolicyContext) × ((build_context cfg mac auth env w).0 ≡ ok c)
      × (length c.notes ≡ failures r1.0 + (failures r2.0 + failures r3.0))
unfolding build_context ◌>>=◌ caught pure
build_context-notes cfg mac auth env w =
    let r1 = context_endpoint cfg mac auth env w in
    let r2 = session_by_mac cfg mac auth env r1.1 in
    let r3 = auth_status_by_mac cfg mac auth (pos 86400) (pos 10) env r2.1 in
    (
      with_recent (with_session (with_endpoint (empty_context mac) r1.0) r2.0) r3.0,
      refl,
      notes_of mac r1.0 r2.0 r3.0,
    )
