-- ===== src/Tools/Sessions.antt =====
-- tools/session.py: the session and authentication-log queries
use cisco_ise_mcp.Prelude.{Bool, Option, [], false, ◌∷◌}
use cisco_ise_mcp.Exec.{Exec, lift, pure, ◌>>=◌}
use cisco_ise_mcp.Ise.Mnt.{auth_status_by_mac, session_by_ip, session_by_mac, summarize_session}
use cisco_ise_mcp.Ise.Models.{session_dict}
use cisco_ise_mcp.Prelude.Int.{max_ℤ, min_ℤ, pos, ℤ}
use cisco_ise_mcp.Responses.{ok_response}
use cisco_ise_mcp.Text.{Text, lit}
use cisco_ise_mcp.Tools.{Deps, run}
use cisco_ise_mcp.Tools.Endpoint.{include_raw_or}
use cisco_ise_mcp.Validation.Ip.{validate_ip}
use cisco_ise_mcp.Validation.Mac.{normalize_mac}
use cisco_ise_mcp.Value.{Value, dict, int, str}

unfoldable pub ise_get_active_session_by_mac : Deps → Text → Option Bool → Exec Value
unfolding ◌>>=◌ session_by_mac
ise_get_active_session_by_mac deps mac include_raw =
    run deps (lit "ise_get_active_session_by_mac") (dict ((lit "mac", str mac) ∷ []))
      (λ auth. do
        m ← lift (normalize_mac mac)
        raw ← session_by_mac deps.cfg m auth
        pure (
            ok_response (session_dict (summarize_session raw)) raw
              (include_raw_or deps.cfg include_raw) []))
      false

unfoldable pub ise_get_active_session_by_ip : Deps → Text → Option Bool → Exec Value
unfolding ◌>>=◌ session_by_ip
ise_get_active_session_by_ip deps ip include_raw =
    run deps (lit "ise_get_active_session_by_ip") (dict ((lit "ip", str ip) ∷ []))
      (λ auth. do
        addr ← lift (validate_ip ip)
        raw ← session_by_ip deps.cfg addr auth
        pure (
            ok_response (session_dict (summarize_session raw)) raw
              (include_raw_or deps.cfg include_raw) []))
      false

unfoldable pub ise_get_auth_logs_by_mac : Deps → Text → ℤ → ℤ → Option Bool → Exec Value
unfolding ◌>>=◌ auth_status_by_mac
ise_get_auth_logs_by_mac deps mac seconds records include_raw =
    run deps (lit "ise_get_auth_logs_by_mac")
      (dict
        ((lit "mac", str mac) ∷ (lit "seconds", int seconds) ∷ (lit "records", int records) ∷ []))
      (λ auth. do
        m ← lift (normalize_mac mac)
        let records_n = max_ℤ (pos 1) (min_ℤ records (pos 500))
        raw ← auth_status_by_mac deps.cfg m auth seconds records_n
        pure (ok_response raw raw (include_raw_or deps.cfg include_raw) []))
      false
