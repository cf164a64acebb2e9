-- ===== src/System/Tracking.antt =====
-- Every part of the server changes the store in tracked steps only.
use cisco_ise_mcp.Prelude.{Option, [], ap, arith, none, refl, some, ◌∙◌, ◌∷◌, ◌≡◌, ◌≤◌}
use cisco_ise_mcp.Auth.Provider.{get_session, login, logout}
use cisco_ise_mcp.Auth.Provider.Login.{Issued, Login, login-Login, own_auth}
use cisco_ise_mcp.Auth.Session.{Session}
use cisco_ise_mcp.Auth.Store.{SessionStore}
use cisco_ise_mcp.Auth.Store.History.{apply, create_call, delete_call, get_call}
use cisco_ise_mcp.Config.Record.{Config}
use cisco_ise_mcp.Dict.{Dict}
use cisco_ise_mcp.Errors.{Result, err, ok}
use cisco_ise_mcp.Exec.{Exec, continue, on_codes, on_store, pure, time, token, ◌>>=◌}
use cisco_ise_mcp.Exec.Effects.{Effect}
use cisco_ise_mcp.Exec.Reads.{still}
use cisco_ise_mcp.Oauth.{login_and_issue_code, pop, pop_code, pop_fresh}
use cisco_ise_mcp.Server.{get_text}
use cisco_ise_mcp.Server.Authorize.{issue_code}
use cisco_ise_mcp.Server.Effects.{AdmitsServer}
use cisco_ise_mcp.System.Tracks.{
  Follows, Follows-refl, Tracks, Tracks-idle, Tracks-trans, apply_all,
}
use cisco_ise_mcp.Text.{Text, lit}
use cisco_ise_mcp.Tools.Calls.Kinds.{AdmitsTools}
use cisco_ise_mcp.Tools.Queries.{reading-AdmitsSessions}
use cisco_ise_mcp.World.{AuthCode, Env, World}

module _ (cfg : Config) where
  abbrev pub tracking : Effect
  tracking = record {
    Rel = λ env w w'. Tracks cfg env w w';
    at_rest = λ env w. Tracks-idle cfg env w w refl (omega arith) (Follows-refl w.sent);
    in_turn = λ env u v w. Tracks-trans cfg env;
  }

  -- A login that issues a session, and what is left alone after it.
  unfoldable pub Issued-Tracks :
      (username password : Text) (env : Env) (w w' later : World) (s : Session)
      → Issued cfg username password env w s w'
      → Follows w'.sent w.sent
      → later.store ≡ w'.store
      → later.sent ≡ w'.sent
      → w'.tokens ≤ later.tokens
      → Tracks cfg env w later
  unfolding apply_all apply
  Issued-Tracks username password env w w' later s i f store sent le = record {
    calls =
        create_call (env.clock w.readings) (env.token_urlsafe w.tokens) username
          (own_auth username password)
        ∷ [];
    store = store ∙ ap (λ (r : Session × SessionStore). r.1) i.stored;
    sent = (f.0, sent ∙ f.1);
    minted = (
      w.tokens,
      refl,
      omega (arith, i.tokens),
      record {
        password = password;
        before = w.sent;
        own = refl;
        given = (i.username_given, i.password_given);
        probed = ([], sent ∙ i.sent);
        accepted = i.accepted;
      },
      omega arith,
    );
  }

  Login-Tracks :
      (username password : Text) (env : Env) (w : World) (done : Result Session × World)
      → Follows done.1.sent w.sent
      → Login cfg username password env w done
      → Tracks cfg env w done.1
  Login-Tracks username password env w (err x, w') f (refused, still) =
      Tracks-idle cfg env w w' still.store (omega (arith, still.tokens)) f
  Login-Tracks username password env w (ok s, w') f i =
      Issued-Tracks username password env w w' w' s i f refl refl (omega arith)

  pub login-Tracks :
      (username password : Text) (env : Env) (w : World)
      → Tracks cfg env w (login cfg username password env w).1
  login-Tracks username password env w =
      Login-Tracks username password env w (login cfg username password env w)
        (let r = (reading-AdmitsSessions cfg).at_login env w username password in (r.new, r.sent))
        (login-Login cfg username password env w)

  get_session-Tracks :
      (sid : Option Text) (env : Env) (w : World) → Tracks cfg env w (get_session sid env w).1
  unfolding get_session ◌>>=◌ time on_store pure apply_all apply
  get_session-Tracks none env w = Tracks-idle cfg env w _ refl (omega arith) (Follows-refl w.sent)
  get_session-Tracks (some []) env w =
      Tracks-idle cfg env w _ refl (omega arith) (Follows-refl w.sent)
  get_session-Tracks (some (c ∷ sid)) env w = record {
    calls = get_call (env.clock w.readings) (some (c ∷ sid)) ∷ [];
    store = refl;
    sent = Follows-refl w.sent;
    minted = omega arith;
  }

  logout-Tracks :
      (sid : Option Text) (env : Env) (w : World) → Tracks cfg env w (logout sid env w).1
  unfolding logout on_store apply_all apply
  logout-Tracks sid env w = record {
    calls = delete_call sid ∷ [];
    store = refl;
    sent = Follows-refl w.sent;
    minted = omega arith;
  }

  pub tracking-AdmitsTools : AdmitsTools cfg tracking
  tracking-AdmitsTools method = record {
    sessions = record {
      at_login = λ env w username password. login-Tracks username password env w;
      at_get = λ env w sid. get_session-Tracks sid env w;
      at_logout = λ env w sid. logout-Tracks sid env w;
    };
    requests = record {
      at_sleep = λ env w ms. Tracks-idle cfg env w _ refl (omega arith) (Follows-refl w.sent);
      at_send = λ env w req h. Tracks-idle cfg env w _ refl (omega arith) (req ∷ [], refl);
    };
    at_audit = λ env w records. Tracks-idle cfg env w _ refl (omega arith) (Follows-refl w.sent);
  }

  continue-Tracks :
      {A B : Type 0} (r : Result A) (f : A → Exec B) (env : Env) (u w : World)
      → Tracks cfg env u w
      → ((a : A) → Tracks cfg env w (f a env w).1)
      → Tracks cfg env u (continue r f env w).1
  continue-Tracks (ok a) f env u w h k = Tracks-trans cfg env h (k a)
  continue-Tracks (err x) f env u w h k = h

  issue_code-Tracks :
      (form : Dict Text) (env : Env) (w : World) → Tracks cfg env w (issue_code cfg form env w).1
  unfolding login_and_issue_code ◌>>=◌ token time on_codes pure
  issue_code-Tracks form env w =
      let done =
        login cfg (get_text form (lit "username")) (get_text form (lit "password")) env w in
      continue-Tracks done.0 _ env w done.1 (login-Tracks _ _ env w)
        (λ s. Tracks-idle cfg env done.1 _ refl (omega arith) (Follows-refl done.1.sent))

  pop_code-Tracks :
      (issued : Option Text) (env : Env) (w : World) → Tracks cfg env w (pop_code issued env w).1
  unfolding pop_code ◌>>=◌ on_codes time
  pop_code-Tracks issued env w = for_found (pop issued w.codes).0 _ refl refl refl
    where
      for_found :
          (found : Option AuthCode) (w' : World)
          → w'.store ≡ w.store
          → w'.tokens ≡ w.tokens
          → w'.sent ≡ w.sent
          → Tracks cfg env w (pop_fresh found env w').1
      for_found none w' same drawn sent =
          unfold pure in Tracks-idle cfg env w w' same (omega arith) ([], sent)
      for_found (some rec) w' same drawn sent =
          unfold pure in Tracks-idle cfg env w _ same (omega arith) ([], sent)

  pub tracking-AdmitsServer : AdmitsServer cfg tracking
  tracking-AdmitsServer = record {
    sessions = (tracking-AdmitsTools []).sessions;
    at_issue = λ env w form known. issue_code-Tracks form env w;
    at_pop = λ env w issued. pop_code-Tracks issued env w;
  }
