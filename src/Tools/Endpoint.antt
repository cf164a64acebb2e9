-- ===== src/Tools/Endpoint.antt =====
-- tools/endpoint.py: the endpoint queries
use cisco_ise_mcp.Prelude.{Bool, List, Option, [], false, if◌then◌else◌, none, some, ◌++◌, ◌∷◌}
use cisco_ise_mcp.Auth.Context.{AuthContext}
use cisco_ise_mcp.Config.Record.{Config}
use cisco_ise_mcp.Errors.{Result, err, ok, python_error}
use cisco_ise_mcp.Exec.{Exec, caught, lift, pure, ◌>>=◌}
use cisco_ise_mcp.Ise.Ers.{
  get_endpoint_by_id, get_endpoint_by_mac, get_endpoint_group, get_or, get_profiler_profile,
  name_of, python_type, search_endpoints, summarize_endpoint,
}
use cisco_ise_mcp.Ise.Models.{EndpointSummary, endpoint_dict}
use cisco_ise_mcp.Prelude.Int.{pos, ℤ}
use cisco_ise_mcp.Responses.{ok_response, paged}
use cisco_ise_mcp.Text.{Text, lit}
use cisco_ise_mcp.Tools.{Deps, run}
use cisco_ise_mcp.Validation.Gate.{clamp_page_size}
use cisco_ise_mcp.Validation.Ip.{validate_ip}
use cisco_ise_mcp.Validation.Mac.{normalize_mac}
use cisco_ise_mcp.Validation.Names.{validate_endpoint_id}
use cisco_ise_mcp.Value.{
  Fields, Value, arr, dict, elements, end, field, int, is_true, items, nil, null, obj,
  optional_text, or_value, str,
}
use cisco_ise_mcp.Value.Format.{show_value}

-- `deps.cfg.include_raw_default if v is None else bool(v)`
abbrev pub include_raw_or : Config → Option Bool → Bool
include_raw_or cfg none = cfg.include_raw_default
include_raw_or cfg (some b) = b

abbrev or_null : Result Value → Value
or_null (ok v) = v
or_null (err e) = null

-- The name of the group, or None where it cannot be had.
unfoldable pub named_group : Config → EndpointSummary → AuthContext → Exec EndpointSummary
unfolding ◌>>=◌ caught get_endpoint_group name_of
named_group cfg s auth =
    if is_true s.identity_group_id
    then (do
      name ← caught (do
        g ← get_endpoint_group cfg (show_value s.identity_group_id) auth
        lift (name_of g (lit "EndPointGroup")))
      pure (record s { identity_group = or_null name }))
    else pure s

unfoldable pub named_profile : Config → EndpointSummary → AuthContext → Exec EndpointSummary
unfolding ◌>>=◌ caught get_profiler_profile name_of
named_profile cfg s auth =
    if is_true s.profile_id
    then (do
      name ← caught (do
        p ← get_profiler_profile cfg (show_value s.profile_id) auth
        lift (name_of p (lit "ProfilerProfile")))
      pure (record s { profile = or_null name }))
    else pure s

-- `_enrich`, before its result becomes a dict. The summary starts with both names None.
unfoldable pub enrich : Config → EndpointSummary → AuthContext → Exec EndpointSummary
unfolding ◌>>=◌ named_group named_profile
enrich cfg s auth = do grouped ← named_group cfg s auth; named_profile cfg grouped auth

-- The end of the two look-ups of one endpoint.
abbrev pub shown_endpoint : Config → Value → Bool → AuthContext → Exec Value
shown_endpoint cfg raw include_raw auth = do
  s ← lift (summarize_endpoint raw)
  full ← enrich cfg s auth
  pure (ok_response (endpoint_dict full) raw include_raw [])

unfoldable pub ise_get_endpoint_by_mac : Deps → Text → Option Bool → Exec Value
unfolding ◌>>=◌ enrich
ise_get_endpoint_by_mac deps mac include_raw =
    run deps (lit "ise_get_endpoint_by_mac") (dict ((lit "mac", str mac) ∷ []))
      (λ auth. do
        m ← lift (normalize_mac mac)
        raw ← get_endpoint_by_mac deps.cfg m auth
        shown_endpoint deps.cfg raw (include_raw_or deps.cfg include_raw) auth)
      false

unfoldable pub ise_get_endpoint_by_id : Deps → Text → Option Bool → Exec Value
unfolding ◌>>=◌ enrich
ise_get_endpoint_by_id deps endpoint_id include_raw =
    run deps (lit "ise_get_endpoint_by_id") (dict ((lit "endpoint_id", str endpoint_id) ∷ []))
      (λ auth. do
        eid ← lift (validate_endpoint_id endpoint_id)
        raw ← get_endpoint_by_id deps.cfg eid auth
        shown_endpoint deps.cfg raw (include_raw_or deps.cfg include_raw) auth)
      false

abbrev chars : Text → List Value
chars [] = []
chars (c ∷ s) = str (c ∷ []) ∷ chars s

abbrev keys : Fields → List Value
keys end = []
keys (field k v fs) = str k ∷ keys fs

-- What `for x in v` goes through.
unfoldable pub iterate : Value → Result (List Value)
iterate (arr xs) = ok (elements xs)
iterate (obj fs) = ok (keys fs)
iterate (str s) = ok (chars s)
iterate v =
    err (python_error (lit "TypeError") (39 ∷ (python_type v ++ lit "' object is not iterable")))

infixl 6 ◌|>◌
abbrev pub ◌|>◌ {ℓ κ} : {A : Type ℓ} {B : Type κ} → Result A → (A → Result B) → Result B
ok a |> f = f a
err e |> f = err e

-- `_resources(raw)`, as the list that the comprehension goes through
unfoldable pub resources : Value → Result (List Value)
unfolding get_or iterate
resources (obj fs) = get_or (obj fs) (lit "SearchResult") (dict []) |> (λ found.
    get_or found (lit "resources") (arr nil)
    |> (λ found_items. iterate (or_value found_items (arr nil))))
resources raw = ok []

-- `[summarize_endpoint(r).dict() for r in rs]`
unfoldable pub summarize_all : List Value → Result (List Value)
unfolding summarize_endpoint
summarize_all [] = ok []
summarize_all (r ∷ rs) =
    let rest = summarize_all rs in
    summarize_endpoint r |> (λ s. rest |> (λ ss. ok (endpoint_dict s ∷ ss)))

unfoldable pub summaries : Value → Result (List Value)
unfolding resources summarize_all
summaries raw = resources raw |> summarize_all

-- `raw.get("SearchResult", {}).get("total") if isinstance(raw, dict) else None`
unfoldable pub total_of : Value → Result Value
unfolding get_or
total_of (obj fs) =
    get_or (obj fs) (lit "SearchResult") (dict []) |> (λ found. get_or found (lit "total") null)
total_of raw = ok null

unfoldable pub ise_get_endpoint_by_ip : Deps → Text → Option Bool → Exec Value
unfolding ◌>>=◌ search_endpoints
ise_get_endpoint_by_ip deps ip include_raw =
    run deps (lit "ise_get_endpoint_by_ip") (dict ((lit "ip", str ip) ∷ []))
      (λ auth. do
        addr ← lift (validate_ip ip)
        raw ←
            search_endpoints deps.cfg (some (lit "ipAddress.EQUALS." ++ addr)) auth (pos 1)
              (clamp_page_size deps.cfg none)
        found ← lift (summaries raw)
        pure (ok_response (arr (items found)) raw (include_raw_or deps.cfg include_raw) []))
      false

unfoldable pub ise_search_endpoints : Deps → Option Text → ℤ → Option ℤ → Option Bool → Exec Value
unfolding ◌>>=◌ search_endpoints
ise_search_endpoints deps filter_expression page page_size include_raw =
    run deps (lit "ise_search_endpoints")
      (dict ((lit "filter", optional_text filter_expression) ∷ (lit "page", int page) ∷ []))
      (λ auth. do
        let size = clamp_page_size deps.cfg page_size
        raw ← search_endpoints deps.cfg filter_expression auth page size
        found ← lift (summaries raw)
        total ← lift (total_of raw)
        pure (paged found page size total raw (include_raw_or deps.cfg include_raw)))
      false
