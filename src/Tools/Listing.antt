-- ===== src/Tools/Listing.antt =====
-- tools/sgt.py and tools/network_device.py: the paged lists of ids and names
use cisco_ise_mcp.Prelude.{Bool, List, Option, [], false, none, some, ◌∷◌}
use cisco_ise_mcp.Auth.Context.{AuthContext}
use cisco_ise_mcp.Config.Record.{Config}
use cisco_ise_mcp.Errors.{Result, ok}
use cisco_ise_mcp.Exec.{Exec, lift, pure, ◌>>=◌}
use cisco_ise_mcp.Ise.Ers.{
  get_or, list_authorization_profiles, list_network_devices, list_security_groups, list_sgacls,
}
use cisco_ise_mcp.Prelude.Int.{ℤ}
use cisco_ise_mcp.Responses.{paged}
use cisco_ise_mcp.Text.{Text, lit}
use cisco_ise_mcp.Tools.{Deps, run}
use cisco_ise_mcp.Tools.Endpoint.{include_raw_or, iterate, ◌|>◌}
use cisco_ise_mcp.Validation.Gate.{clamp_page_size}
use cisco_ise_mcp.Value.{Value, arr, dict, get_field, int, nil, null, obj, optional_text, or_value}

-- `raw.get("SearchResult", {}) if isinstance(raw, dict) else {}`
abbrev search_result : Value → Value
search_result (obj fs) = elim (get_field (lit "SearchResult") fs) [ none ↦ dict [] | some v ↦ v ]
search_result raw = dict []

-- `[{"id": r.get("id"), "name": r.get("name")} for r in rs]`
unfoldable pub ids_and_names : List Value → Result (List Value)
unfolding get_or
ids_and_names [] = ok []
ids_and_names (r ∷ rs) =
    let rest = ids_and_names rs in
    get_or r (lit "id") null |> (λ id.
      get_or r (lit "name") null
      |> (λ name. rest |> (λ found. ok (dict ((lit "id", id) ∷ (lit "name", name) ∷ []) ∷ found))))

unfoldable pub listed : Value → Result (List Value)
unfolding ids_and_names
listed res =
    get_or res (lit "resources") (arr nil)
    |> (λ found. iterate (or_value found (arr nil)) |> ids_and_names)

-- The page that both modules make of a reply.
abbrev pub page_of : Deps → Value → ℤ → ℤ → Option Bool → Exec Value
page_of deps raw page size include_raw = do
  let res = search_result raw
  found ← lift (listed res)
  total ← lift (get_or res (lit "total") null)
  pure (paged found page size total raw (include_raw_or deps.cfg include_raw))

-- `_list_tool(name, fetch, wrapper)`
unfoldable pub list_tool :
    Text
    → (Config → AuthContext → ℤ → ℤ → Exec Value)
    → Deps
    → ℤ
    → Option ℤ
    → Option Bool
    → Exec Value
unfolding ◌>>=◌ listed
list_tool name fetch deps page page_size include_raw =
    run deps name (dict ((lit "page", int page) ∷ []))
      (λ auth. do
        let size = clamp_page_size deps.cfg page_size
        raw ← fetch deps.cfg auth page size
        page_of deps raw page size include_raw)
      false

unfoldable pub ise_list_security_groups : Deps → ℤ → Option ℤ → Option Bool → Exec Value
unfolding list_tool
ise_list_security_groups = list_tool (lit "ise_list_security_groups") list_security_groups

unfoldable pub ise_list_sgacls : Deps → ℤ → Option ℤ → Option Bool → Exec Value
unfolding list_tool
ise_list_sgacls = list_tool (lit "ise_list_sgacls") list_sgacls

unfoldable pub ise_list_authorization_profiles : Deps → ℤ → Option ℤ → Option Bool → Exec Value
unfolding list_tool
ise_list_authorization_profiles =
    list_tool (lit "ise_list_authorization_profiles") list_authorization_profiles

unfoldable pub ise_list_network_devices :
    Deps → Option Text → ℤ → Option ℤ → Option Bool → Exec Value
unfolding ◌>>=◌ listed
ise_list_network_devices deps filter_expression page page_size include_raw =
    run deps (lit "ise_list_network_devices")
      (dict ((lit "filter", optional_text filter_expression) ∷ (lit "page", int page) ∷ []))
      (λ auth. do
        let size = clamp_page_size deps.cfg page_size
        raw ← list_network_devices deps.cfg filter_expression auth page size
        page_of deps raw page size include_raw)
      false
