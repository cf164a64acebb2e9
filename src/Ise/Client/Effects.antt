-- ===== src/Ise/Client/Effects.antt =====
-- What a request leaves behind is what requests with its method leave behind, however often it is sent
-- again; the probe of a login only reads.
use cisco_ise_mcp.Prelude.{
  Bool, List, Option, is_empty, none, refl, some, suc, zero, ℕ, ◌+◌, ◌||◌, ◌≡◌,
}
use cisco_ise_mcp.Auth.Context.{AuthContext}
use cisco_ise_mcp.Config.Record.{Config}
use cisco_ise_mcp.Exec.{Exec}
use cisco_ise_mcp.Exec.Effects.{
  AdmitsMethod, IsQuery, Keeps, bind-Keeps, if-Keeps, keeping, pure-Keeps, send-Keeps,
}
use cisco_ise_mcp.Exec.Reads.{IsGet}
use cisco_ise_mcp.Ise.Client.{
  backoff, on_probe, on_reply, probe_request, probes, request, request_loop, validate_credentials,
}
use cisco_ise_mcp.Text.{Text}
use cisco_ise_mcp.Value.{Value}
use cisco_ise_mcp.World.{HttpRequest, Reply, response, transport_error}

module _ (method : Text) where
  backoff-Keeps :
      (attempt : ℕ) (retry_after : Option Text)
      → Keeps (AdmitsMethod method) (backoff attempt retry_after)
  unfolding backoff
  backoff-Keeps attempt retry_after = search keeping

  on_last-Keeps :
      (cfg : Config) (as_text : Bool) (attempt : ℕ) (p : Reply)
      → Keeps (AdmitsMethod method) (on_reply cfg as_text attempt none p)
  unfolding on_reply
  on_last-Keeps cfg as_text attempt (transport_error m) = search keeping
  on_last-Keeps cfg as_text attempt (response r) = search keeping

  on_reply-Keeps :
      (cfg : Config) (as_text : Bool) (attempt : ℕ) (again : Exec Value) (p : Reply)
      → Keeps (AdmitsMethod method) again
      → Keeps (AdmitsMethod method) (on_reply cfg as_text attempt (some again) p)
  unfolding on_reply
  on_reply-Keeps cfg as_text attempt again (transport_error m) h = search (keeping, backoff-Keeps)
  on_reply-Keeps cfg as_text attempt again (response r) h = search (keeping, backoff-Keeps) depth 8

  request_loop-Keeps :
      (cfg : Config) (as_text : Bool) (req : HttpRequest) (left attempt : ℕ)
      → req.method ≡ method
      → Keeps (AdmitsMethod method) (request_loop cfg as_text req left attempt)
  unfolding request_loop
  request_loop-Keeps cfg as_text req zero attempt h = search (keeping, send-Keeps, on_last-Keeps)
  request_loop-Keeps cfg as_text req (suc left) attempt h =
      bind-Keeps _ _ (send-Keeps method req h) (λ reply.
        on_reply-Keeps cfg as_text attempt _ reply
          (request_loop-Keeps cfg as_text req left (attempt + 1) h))

  pub request-Keeps :
      (cfg : Config) (url : Text) (auth : AuthContext) (params : List (Text × Value))
      (json_body : Value) (accept : Text) (as_text : Bool)
      → Keeps (AdmitsMethod method) (request cfg method url auth params json_body accept as_text)
  unfolding request
  request-Keeps cfg url auth params json_body accept as_text = search (keeping, request_loop-Keeps)

on_probe-IsQuery : (next : Exec Bool) (p : Reply) → IsQuery next → IsQuery (on_probe next p)
unfolding on_probe
on_probe-IsQuery next (transport_error m) h = search keeping
on_probe-IsQuery next (response r) h = search keeping

probes-IsQuery : (req : HttpRequest) (n : ℕ) → IsGet req → IsQuery (probes req n)
unfolding probes
probes-IsQuery req zero h = search keeping
probes-IsQuery req (suc n) h =
    bind-Keeps _ _ (send-Keeps _ req h) (λ reply. on_probe-IsQuery _ reply (probes-IsQuery req n h))

pub validate_credentials-IsQuery :
    (cfg : Config) (username password : Text) → IsQuery (validate_credentials cfg username password)
unfolding validate_credentials
validate_credentials-IsQuery cfg username password =
    if-Keeps (is_empty username || is_empty password) _ _ (pure-Keeps _)
      (probes-IsQuery (probe_request cfg username password) 4 refl)
