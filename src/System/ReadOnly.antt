-- ===== src/System/ReadOnly.antt =====
-- What a read-only server sends to ISE, whatever requests it serves.
use cisco_ise_mcp.Prelude.{
  All, Option, [], ap, append-nil, append_assoc, none, refl, some, subst, sym, true, ◌++◌, ◌∙◌, ◌≡◌,
}
use cisco_ise_mcp.Auth.Provider.{login}
use cisco_ise_mcp.Auth.Session.{Session}
use cisco_ise_mcp.Config.Record.{Config, is_readonly}
use cisco_ise_mcp.Dict.{Dict, insert}
use cisco_ise_mcp.Errors.{Result, err, ok}
use cisco_ise_mcp.Exec.{continue, on_codes, pure, time, token, ◌>>=◌, ◌>>◌}
use cisco_ise_mcp.Exec.Effects.{Effect}
use cisco_ise_mcp.Exec.Reads.{All-append, IsGet, Reads}
use cisco_ise_mcp.Oauth.{login_and_issue_code, pop, pop_code, pop_fresh}
use cisco_ise_mcp.Oauth.RoundTrip.{stored_code}
use cisco_ise_mcp.Server.{Answer, get_text}
use cisco_ise_mcp.Server.Authorize.{issue_code}
use cisco_ise_mcp.Server.Effects.{AdmitsServer}
use cisco_ise_mcp.System.{Reach, start}
use cisco_ise_mcp.System.Runs.{AdmitsRequests, Reach-Keeps}
use cisco_ise_mcp.Text.{Text, lit}
use cisco_ise_mcp.Tools.{Deps}
use cisco_ise_mcp.Tools.Calls.ReadOnly.{OnlyGets, call_tool-OnlyGets}
use cisco_ise_mcp.Tools.Queries.{reading-AdmitsSessions}
use cisco_ise_mcp.Value.{Value}
use cisco_ise_mcp.World.{AuthCode, Env, World}

Reads-OnlyGets : (w w' : World) → Reads w w' → OnlyGets w w'
Reads-OnlyGets w w' r = record { new = r.new; sent = r.sent; gets = r.gets }

nothing_sent : (w w' : World) → w'.sent ≡ w.sent → OnlyGets w w'
nothing_sent w w' same = record { new = []; sent = same; gets = tt }

OnlyGets-trans : (u v w : World) → OnlyGets u v → OnlyGets v w → OnlyGets u w
OnlyGets-trans u v w h k = record {
  new = k.new ++ h.new;
  sent = k.sent ∙ ap (λ t. k.new ++ t) h.sent ∙ sym (append_assoc k.new h.new u.sent);
  gets = All-append k.new h.new k.gets h.gets;
}

abbrev querying : Effect
querying = record {
  Rel = λ env w w'. OnlyGets w w';
  at_rest = λ env w. nothing_sent w w refl;
  in_turn = λ env. OnlyGets-trans;
}

module _ (cfg : Config) where
  issue_code-OnlyGets :
      (form : Dict Text) (env : Env) (w : World) → OnlyGets w (issue_code cfg form env w).1
  unfolding login_and_issue_code ◌>>=◌ token time on_codes pure
  issue_code-OnlyGets form env w =
      let done =
        login cfg (get_text form (lit "username")) (get_text form (lit "password")) env w in
      after_login done.0 done.1
        (Reads-OnlyGets w done.1 ((reading-AdmitsSessions cfg).at_login env w _ _))
    where
      after_login :
          (r : Result Session) (w' : World)
          → OnlyGets w w'
          → OnlyGets w
              (continue r
                (λ s. do
                  issued ← token
                  now ← time
                  on_codes (λ codes. (
                    tt {0},
                    insert issued
                        (stored_code cfg
                          (get_text form (lit "client_id"))
                          (get_text form (lit "redirect_uri"))
                          (get_text form (lit "scope"))
                          (get_text form (lit "code_challenge"))
                          s.session_id
                          now)
                        codes,
                  ))
                  pure issued)
                env
                w').1
      after_login (err x) w' h = h
      after_login (ok s) w' h = record { new = h.new; sent = h.sent; gets = h.gets }

  pop_code-OnlyGets :
      (issued : Option Text) (env : Env) (w : World) → OnlyGets w (pop_code issued env w).1
  unfolding pop_code ◌>>=◌ on_codes time
  pop_code-OnlyGets issued env w = for_found (pop issued w.codes).0 _ refl
    where
      for_found :
          (found : Option AuthCode) (w' : World)
          → w'.sent ≡ w.sent
          → OnlyGets w (pop_fresh found env w').1
      for_found none w' same = unfold pure in nothing_sent w w' same
      for_found (some rec) w' same = unfold pure in nothing_sent w _ same

  querying-AdmitsServer : AdmitsServer cfg querying
  querying-AdmitsServer = record {
    sessions = record {
      at_login = λ env w username password.
          Reads-OnlyGets w _ ((reading-AdmitsSessions cfg).at_login env w username password);
      at_get = λ env w sid. Reads-OnlyGets w _ ((reading-AdmitsSessions cfg).at_get env w sid);
      at_logout =
          λ env w sid. Reads-OnlyGets w _ ((reading-AdmitsSessions cfg).at_logout env w sid);
    };
    at_issue = λ env w form known. issue_code-OnlyGets form env w;
    at_pop = λ env w issued. pop_code-OnlyGets issued env w;
  }

-- Whatever requests a read-only server serves, whoever sends them and whatever tools they call, it sends
-- nothing to ISE but GET requests.
pub Reach-OnlyGets :
    (render : Value → Answer) (deps : Deps) (env : Env) (w : World)
    → is_readonly deps.cfg ≡ true
    → Reach render deps env (start deps.cfg) w
    → All IsGet w.sent
unfolding start
Reach-OnlyGets render deps env w h r =
    let admitted : AdmitsRequests deps env querying = record {
      server = querying-AdmitsServer deps.cfg;
      at_tool = λ env w tool. call_tool-OnlyGets deps tool env w h;
      same = λ hs u v g. g;
    } in
    let g : OnlyGets (start deps.cfg) w = Reach-Keeps render deps env querying admitted r in
    subst (All IsGet) (sym (g.sent ∙ append-nil g.new)) g.gets
