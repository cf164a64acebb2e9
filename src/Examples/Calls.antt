-- ===== src/Examples/Calls.antt =====
-- Runs of the client against an ISE that is busy at first.
use cisco_ise_mcp.Prelude.{List, [], all, arith, false, none, refl, some, true, ◌+◌, ◌∷◌, ◌≡◌, ◌≤◌}
use cisco_ise_mcp.Errors.{ok}
use cisco_ise_mcp.Examples.{sample_accepted, sample_cfg, sample_env, sample_world}
use cisco_ise_mcp.Ise.Client.{probe_request, request_loop, validate_credentials}
use cisco_ise_mcp.Ise.Client.Loop.{while_true, while_true_ends}
use cisco_ise_mcp.Ise.Client.Probe.{is_accepting, replies, validate_credentials-eq-true}
use cisco_ise_mcp.Ise.Client.Retry.{
  last_reply, outcome, repeated, request_loop_lem, rounds, rounds_bounds,
}
use cisco_ise_mcp.Ise.Mnt.{elem_value, summarize_session}
use cisco_ise_mcp.Ise.Mnt.Children.{elem_value-children, grouped, values_at}
use cisco_ise_mcp.Ise.Mnt.Laws.{first_value, summarize_session-first, summary_by, value_or_null}
use cisco_ise_mcp.Text.{Text, lit}
use cisco_ise_mcp.Value.{Fields, Value, end, field, get_field, obj, str}
use cisco_ise_mcp.World.{Element, Env, HttpRequest, Reply, child, element, none_left, response}

abbrev busy_once : List HttpRequest → Reply
busy_once [] = response (record sample_accepted { status_code = 503 })
busy_once (r ∷ rs) = response sample_accepted

abbrev busy_env : Env
busy_env = record sample_env { ise = λ sent req. busy_once sent }

abbrev probe : HttpRequest
probe = probe_request sample_cfg (97 ∷ []) (112 ∷ [])

request_loop_lem_example :
    ((request_loop sample_cfg false probe 3 1 busy_env sample_world).0
      ≡ outcome false (last_reply sample_cfg busy_env probe 3 []))
    × ((request_loop sample_cfg false probe 3 1 busy_env sample_world).1.sent
        ≡ repeated (rounds sample_cfg busy_env probe 3 []) probe [])
request_loop_lem_example = request_loop_lem sample_cfg false busy_env probe 3 1 sample_world

rounds_bounds_example :
    (1 ≤ rounds sample_cfg busy_env probe 3 []) × (rounds sample_cfg busy_env probe 3 [] ≤ 3 + 1)
rounds_bounds_example = rounds_bounds sample_cfg busy_env probe 3 []

all_accepted : all is_accepting (replies sample_env probe 4 []) ≡ true
all_accepted = refl

validate_credentials-eq-true_example :
    (validate_credentials sample_cfg (97 ∷ []) (112 ∷ []) sample_env sample_world).0 ≡ ok true
validate_credentials-eq-true_example =
    (validate_credentials-eq-true sample_cfg (97 ∷ []) (112 ∷ []) sample_env sample_world).1
      (refl, refl, all_accepted)

while_true_ends_example :
    while_true sample_cfg false (probe_request sample_cfg [] []) sample_env 4 0 sample_world
    ≡ some (
        request_loop sample_cfg false
          (probe_request sample_cfg [] [])
          3
          (0 + 1)
          sample_env
          sample_world)
while_true_ends_example =
    while_true_ends sample_cfg false (probe_request sample_cfg [] []) sample_env 3 4 0 sample_world
      (omega arith) (omega arith)

abbrev session_doc : Value
session_doc =
    obj (field (lit "sessionParameters") (obj (field (lit "user_name") (str (97 ∷ [])) end)) end)

summarize_session-first_example :
    summarize_session session_doc ≡ summary_by (λ k. value_or_null (first_value k session_doc))
summarize_session-first_example = summarize_session-first session_doc

abbrev leaf : Text → Element
leaf s = element (lit "mac") (some s) none_left

elem_value-children_example :
    (fs : Fields) × (elem_value
        (element (lit "list") none (child (leaf (97 ∷ [])) (child (leaf (98 ∷ [])) none_left)))
      ≡ obj fs)
    × (get_field (lit "mac") fs
        ≡ grouped
            (values_at (lit "mac") (child (leaf (97 ∷ [])) (child (leaf (98 ∷ [])) none_left))))
elem_value-children_example =
    elem_value-children (lit "list") none (leaf (97 ∷ [])) (child (leaf (98 ∷ [])) none_left)
      (lit "mac")
