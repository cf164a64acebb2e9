-- ===== src/System/Codes/Parts.antt =====
-- The parts of the server other than the sign-in form hold no code that was not held before.
use cisco_ise_mcp.Prelude.{Option, [], ap, arith, inl, none, refl, some, sym, ◌∙◌, ◌∷◌, ◌≡◌}
use cisco_ise_mcp.Auth.Provider.{get_session, logout}
use cisco_ise_mcp.Auth.Provider.Login.{Login, login-Login}
use cisco_ise_mcp.Auth.Session.{Session}
use cisco_ise_mcp.Config.Record.{Config}
use cisco_ise_mcp.Dict.{lookup, remove}
use cisco_ise_mcp.Dict.Laws.{lookup-remove}
use cisco_ise_mcp.Errors.{Result, err, ok}
use cisco_ise_mcp.Exec.{on_codes, on_store, pure, time, ◌>>=◌}
use cisco_ise_mcp.Exec.Reads.{still}
use cisco_ise_mcp.Oauth.{pop_code, pop_fresh}
use cisco_ise_mcp.System.Codes.{KeepsCodes, KeepsCodes-same, guarding}
use cisco_ise_mcp.System.Tracking.{tracking-AdmitsServer, tracking-AdmitsTools}
use cisco_ise_mcp.Text.{Text}
use cisco_ise_mcp.Tools.Calls.Kinds.{AdmitsTools}
use cisco_ise_mcp.World.{AuthCode, Env, World}

module _ (cfg : Config) where
  Login-codes :
      (username password : Text) (env : Env) (w : World) (done : Result Session × World)
      → Login cfg username password env w done
      → done.1.codes ≡ w.codes
  Login-codes username password env w (err x, w') (refused, still) = still.codes
  Login-codes username password env w (ok s, w') i = i.codes

  get_session-codes :
      (sid : Option Text) (env : Env) (w : World) → (get_session sid env w).1.codes ≡ w.codes
  unfolding get_session ◌>>=◌ time on_store pure
  get_session-codes none env w = refl
  get_session-codes (some []) env w = refl
  get_session-codes (some (c ∷ sid)) env w = refl

  logout-codes : (sid : Option Text) (env : Env) (w : World) → (logout sid env w).1.codes ≡ w.codes
  unfolding logout on_store
  logout-codes sid env w = refl

  pub guarding-AdmitsTools : AdmitsTools cfg (guarding cfg)
  guarding-AdmitsTools method =
      let t = tracking-AdmitsTools cfg method in
      record {
        sessions = record {
          at_login = λ env w username password.
              KeepsCodes-same cfg env w _
                (Login-codes username password env w _ (login-Login cfg username password env w))
                (t.sessions.at_login env w username password);
          at_get = λ env w sid.
              KeepsCodes-same cfg env w _ (get_session-codes sid env w)
                (t.sessions.at_get env w sid);
          at_logout = λ env w sid.
              KeepsCodes-same cfg env w _ (logout-codes sid env w) (t.sessions.at_logout env w sid);
        };
        requests = record {
          at_sleep = λ env w ms. KeepsCodes-same cfg env w _ refl (t.requests.at_sleep env w ms);
          at_send =
              λ env w req h. KeepsCodes-same cfg env w _ refl (t.requests.at_send env w req h);
        };
        at_audit = λ env w records. KeepsCodes-same cfg env w _ refl (t.at_audit env w records);
      }

  pop_fresh-codes :
      (found : Option AuthCode) (env : Env) (w : World) → (pop_fresh found env w).1.codes ≡ w.codes
  unfolding ◌>>=◌ time pure
  pop_fresh-codes none env w = refl
  pop_fresh-codes (some r) env w = refl

  -- A popped code is gone, and the others are as they were.
  held_before :
      (issued : Option Text) (env : Env) (w : World) (key : Text) (rec : AuthCode)
      → lookup key (pop_code issued env w).1.codes ≡ some rec
      → lookup key w.codes ≡ some rec
  unfolding pop_code ◌>>=◌ on_codes time
  held_before none env w key rec h = unfold pure in h
  held_before (some issued) env w key rec h =
      let left : lookup key (remove issued w.codes) ≡ some rec =
        ap (lookup key) (sym (pop_fresh-codes (lookup issued w.codes) env _)) ∙ h in
      ground (arith, lookup-remove issued key w.codes)

  pub pop_code-KeepsCodes :
      (issued : Option Text) (env : Env) (w : World)
      → KeepsCodes cfg env w (pop_code issued env w).1
  pop_code-KeepsCodes issued env w = record {
    tracks = (tracking-AdmitsServer cfg).at_pop env w issued;
    held = λ key rec h. inl (held_before issued env w key rec h);
  }
