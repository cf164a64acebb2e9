-- ===== src/System/Tracks.antt =====
-- How the store changes while the server runs: by a list of calls, in which each session is created for
-- credentials that ISE has accepted, under the next random token.
use cisco_ise_mcp.Prelude.{
  List, [], all, ap, append_assoc, arith, false, is_empty, refl, sym, true, ℕ, ◌++◌, ◌<◌, ◌∙◌, ◌∷◌,
  ◌≡◌, ◌≤◌,
}
use cisco_ise_mcp.Auth.Context.{AuthContext}
use cisco_ise_mcp.Auth.Provider.Login.{own_auth}
use cisco_ise_mcp.Auth.Store.{SessionStore, empty_store}
use cisco_ise_mcp.Auth.Store.History.{
  Call, after, apply, create_call, delete_call, get_call, purge_call,
}
use cisco_ise_mcp.Config.Record.{Config}
use cisco_ise_mcp.Ise.Client.{probe_request}
use cisco_ise_mcp.Ise.Client.Probe.{is_accepting, replies}
use cisco_ise_mcp.Ise.Client.Retry.{repeated}
use cisco_ise_mcp.Prelude.Int.{ℤ}
use cisco_ise_mcp.System.{during}
use cisco_ise_mcp.Text.{Text}
use cisco_ise_mcp.World.{Env, HttpRequest, World}

-- The store after further calls, the newest first.
unfoldable pub apply_all : List Call → SessionStore → SessionStore
unfolding apply
apply_all [] store = store
apply_all (call ∷ earlier) store = apply call (apply_all earlier store)

pub apply_all-append :
    (new old : List Call) (store : SessionStore)
    → apply_all (new ++ old) store ≡ apply_all new (apply_all old store)
unfolding apply_all
apply_all-append [] old store = refl
apply_all-append (call ∷ new) old store = ap (apply call) (apply_all-append new old store)

pub apply_all-after :
    (ttl idle : ℤ) (calls : List Call)
    → apply_all calls (empty_store ttl idle) ≡ after ttl idle calls
unfolding apply_all after
apply_all-after ttl idle [] = refl
apply_all-after ttl idle (call ∷ earlier) = ap (apply call) (apply_all-after ttl idle earlier)

pub apply_all-after_append :
    (ttl idle : ℤ) (new old : List Call)
    → apply_all new (after ttl idle old) ≡ after ttl idle (new ++ old)
unfolding apply_all after
apply_all-after_append ttl idle [] old = refl
apply_all-after_append ttl idle (call ∷ new) old =
    ap (apply call) (apply_all-after_append ttl idle new old)

-- The requests of `total`, the newest first, begin with those of `old`.
abbrev pub Follows : List HttpRequest → List HttpRequest → Type 0
Follows total old = (new : List HttpRequest) × (total ≡ new ++ old)

-- The server has sent ISE four probes with the credentials, one after the other, and ISE has answered
-- each of them with a status below 400; `total` are all requests so far.
pub record IsVouched (cfg : Config) (env : Env) (total : List HttpRequest) (username : Text)
    (auth : AuthContext) : Type 0 where
  pub password : Text
  pub before : List HttpRequest
  pub own : auth ≡ own_auth username password
  pub given : (is_empty username ≡ false) × (is_empty password ≡ false)
  pub probed : Follows total (repeated 4 (probe_request cfg username password) before)
  pub accepted :
      all is_accepting (replies env (probe_request cfg username password) 4 before) ≡ true

-- The sessions that the calls create are vouched for, and stand under different tokens from `lo` up to
-- but not including `hi`, in this order.
abbrev pub Minted : Config → Env → List HttpRequest → ℕ → ℕ → List Call → Type 0
Minted cfg env total lo hi [] = lo ≤ hi
Minted cfg env total lo hi (create_call now sid username auth ∷ earlier) =
    (n : ℕ) × (sid ≡ env.token_urlsafe n)
    × (n < hi)
    × IsVouched cfg env total username auth
    × Minted cfg env total lo n earlier
Minted cfg env total lo hi (get_call now sid ∷ earlier) = Minted cfg env total lo hi earlier
Minted cfg env total lo hi (delete_call sid ∷ earlier) = Minted cfg env total lo hi earlier
Minted cfg env total lo hi (purge_call now ∷ earlier) = Minted cfg env total lo hi earlier

pub record Tracks (cfg : Config) (env : Env) (w w' : World) : Type 0 where
  pub calls : List Call
  pub store : w'.store ≡ apply_all calls w.store
  pub sent : Follows w'.sent w.sent
  pub minted : Minted cfg env w'.sent w.tokens w'.tokens calls

pub Follows-refl : (total : List HttpRequest) → Follows total total
Follows-refl total = ([], refl)

pub Follows-trans : {a b c : List HttpRequest} → Follows b a → Follows c b → Follows c a
Follows-trans {a} (new, e) (newer, f) =
    (newer ++ new, f ∙ ap (λ l. newer ++ l) e ∙ sym (append_assoc newer new a))

module _ (cfg : Config) (env : Env) (total : List HttpRequest) where
  pub Minted-le : (lo hi : ℕ) (calls : List Call) → Minted cfg env total lo hi calls → lo ≤ hi
  Minted-le lo hi [] h = h
  Minted-le lo hi (create_call now sid username auth ∷ earlier) (n, at, below, v, rest) =
      omega (arith, Minted-le lo n earlier rest)
  Minted-le lo hi (get_call now sid ∷ earlier) h = Minted-le lo hi earlier h
  Minted-le lo hi (delete_call sid ∷ earlier) h = Minted-le lo hi earlier h
  Minted-le lo hi (purge_call now ∷ earlier) h = Minted-le lo hi earlier h

module _ (cfg : Config) (env : Env) where
  -- The same calls, when more requests were sent and more tokens drawn.
  pub Minted-more :
      (total more : List HttpRequest) (lo mid hi : ℕ) (calls : List Call)
      → Follows more total
      → mid ≤ hi
      → Minted cfg env total lo mid calls
      → Minted cfg env more lo hi calls
  Minted-more total more lo mid hi [] f le h = omega arith
  Minted-more total more lo mid hi (create_call now sid username auth ∷ earlier) f le
        (n, at, below, v, rest) =
      (
        n,
        at,
        omega arith,
        record {
          password = v.password;
          before = v.before;
          own = v.own;
          given = v.given;
          probed = Follows-trans v.probed f;
          accepted = v.accepted;
        },
        Minted-more total more lo n n earlier f (omega arith) rest,
      )
  Minted-more total more lo mid hi (get_call now sid ∷ earlier) f le h =
      Minted-more total more lo mid hi earlier f le h
  Minted-more total more lo mid hi (delete_call sid ∷ earlier) f le h =
      Minted-more total more lo mid hi earlier f le h
  Minted-more total more lo mid hi (purge_call now ∷ earlier) f le h =
      Minted-more total more lo mid hi earlier f le h

  pub Minted-append :
      (total : List HttpRequest) (lo mid hi : ℕ) (new old : List Call)
      → Minted cfg env total mid hi new
      → Minted cfg env total lo mid old
      → Minted cfg env total lo hi (new ++ old)
  Minted-append total lo mid hi [] old h k =
      Minted-more total total lo mid hi old (Follows-refl total) h k
  Minted-append total lo mid hi (create_call now sid username auth ∷ new) old
        (n, at, below, v, rest) k =
      (n, at, below, v, Minted-append total lo mid n new old rest k)
  Minted-append total lo mid hi (get_call now sid ∷ new) old h k =
      Minted-append total lo mid hi new old h k
  Minted-append total lo mid hi (delete_call sid ∷ new) old h k =
      Minted-append total lo mid hi new old h k
  Minted-append total lo mid hi (purge_call now ∷ new) old h k =
      Minted-append total lo mid hi new old h k

  unfoldable pub Tracks-trans :
      {u v w : World} → Tracks cfg env u v → Tracks cfg env v w → Tracks cfg env u w
  Tracks-trans {u} {v} {w} h k = record {
    calls = k.calls ++ h.calls;
    store =
        k.store ∙ ap (apply_all k.calls) h.store ∙ sym (apply_all-append k.calls h.calls u.store);
    sent = Follows-trans h.sent k.sent;
    minted = Minted-append w.sent u.tokens v.tokens w.tokens k.calls h.calls k.minted (
        Minted-more v.sent w.sent u.tokens v.tokens v.tokens h.calls k.sent (omega arith) h.minted);
  }

  -- Code that leaves the store alone, and sends requests and draws tokens at most.
  pub Tracks-idle :
      (w w' : World)
      → w'.store ≡ w.store
      → w.tokens ≤ w'.tokens
      → Follows w'.sent w.sent
      → Tracks cfg env w w'
  unfolding apply_all
  Tracks-idle w w' same le f = record { calls = []; store = same; sent = f; minted = le }

-- The headers of a request make no difference to what ISE accepts.
module _ (cfg : Config) (env : Env) (hs : List (Text × Text)) (total : List HttpRequest) where
  pub Minted-during :
      (lo hi : ℕ) (calls : List Call)
      → Minted cfg (during env hs) total lo hi calls
      → Minted cfg env total lo hi calls
  Minted-during lo hi [] h = h
  Minted-during lo hi (create_call now sid username auth ∷ earlier) (n, at, below, v, rest) = (
    n,
    at,
    below,
    record {
      password = v.password;
      before = v.before;
      own = v.own;
      given = v.given;
      probed = v.probed;
      accepted = v.accepted;
    },
    Minted-during lo n earlier rest,
  )
  Minted-during lo hi (get_call now sid ∷ earlier) h = Minted-during lo hi earlier h
  Minted-during lo hi (delete_call sid ∷ earlier) h = Minted-during lo hi earlier h
  Minted-during lo hi (purge_call now ∷ earlier) h = Minted-during lo hi earlier h

unfoldable pub Tracks-during :
    (cfg : Config) (env : Env) (hs : List (Text × Text)) (u v : World)
    → Tracks cfg (during env hs) u v
    → Tracks cfg env u v
Tracks-during cfg env hs u v h = record {
  calls = h.calls;
  store = h.store;
  sent = h.sent;
  minted = Minted-during cfg env hs v.sent u.tokens v.tokens h.calls h.minted;
}
