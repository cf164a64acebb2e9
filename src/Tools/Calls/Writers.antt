-- ===== src/Tools/Calls/Writers.antt =====
-- The tools that write run in the frame, and send requests with one method each.
use cisco_ise_mcp.Prelude.{Option, refl}
use cisco_ise_mcp.Exec.Effects.{keeping}
use cisco_ise_mcp.Ise.Client.Effects.{request-Keeps}
use cisco_ise_mcp.Ise.Ers.{create_endpoint, delete_endpoint, update_endpoint}
use cisco_ise_mcp.Text.{Text, lit}
use cisco_ise_mcp.Tools.{Deps}
use cisco_ise_mcp.Tools.Calls.Framed.{IsFramed}
use cisco_ise_mcp.Tools.Write.{ise_assign_endpoint_group, ise_create_endpoint, ise_delete_endpoint}

module _ (deps : Deps) where
  pub ise_create_endpoint-IsFramed :
      (mac : Text) (gid : Option Text) (description : Text)
      → IsFramed (lit "POST") deps (ise_create_endpoint deps mac gid description)
  unfolding ise_create_endpoint create_endpoint
  ise_create_endpoint-IsFramed mac gid description = record {
    name = _;
    params = _;
    write = _;
    fn = _;
    requests = λ auth. search (keeping, request-Keeps);
    framed = refl;
  }

  pub ise_assign_endpoint_group-IsFramed :
      (eid gid : Text) → IsFramed (lit "PUT") deps (ise_assign_endpoint_group deps eid gid)
  unfolding ise_assign_endpoint_group update_endpoint
  ise_assign_endpoint_group-IsFramed eid gid = record {
    name = _;
    params = _;
    write = _;
    fn = _;
    requests = λ auth. search (keeping, request-Keeps);
    framed = refl;
  }

  pub ise_delete_endpoint-IsFramed :
      (eid : Text) → IsFramed (lit "DELETE") deps (ise_delete_endpoint deps eid)
  unfolding ise_delete_endpoint delete_endpoint
  ise_delete_endpoint-IsFramed eid = record {
    name = _;
    params = _;
    write = _;
    fn = _;
    requests = λ auth. search (keeping, request-Keeps);
    framed = refl;
  }
