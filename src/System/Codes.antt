-- ===== src/System/Codes.antt =====
-- The authorization codes that the running server holds.
pub mod Parts
pub mod Issue
pub mod Runs
use cisco_ise_mcp.Prelude.{
  Bool-cases, List, [], ap, arith, inl, inr, refl, some, sym, true, ◌++◌, ◌∙◌, ◌∷◌, ◌≡◌, ◌⊎◌,
}
use cisco_ise_mcp.Auth.Store.History.{Call, create_call, delete_call, get_call, purge_call}
use cisco_ise_mcp.Config.Record.{Config}
use cisco_ise_mcp.Dict.{Dict, insert, lookup}
use cisco_ise_mcp.Dict.Laws.{lookup-insert}
use cisco_ise_mcp.Exec.Effects.{Effect}
use cisco_ise_mcp.System.Tracking.{tracking}
use cisco_ise_mcp.System.Tracks.{Tracks, Tracks-trans}
use cisco_ise_mcp.Text.{Text, contains, ◌==◌}
use cisco_ise_mcp.World.{AuthCode, Env, World}

-- The calls create the session with this id.
abbrev pub Creates : List Call → Text → Type 0
Creates [] sid = ⊥
Creates (create_call now id username auth ∷ earlier) sid = (id ≡ sid) ⊎ Creates earlier sid
Creates (get_call now id ∷ earlier) sid = Creates earlier sid
Creates (delete_call id ∷ earlier) sid = Creates earlier sid
Creates (purge_call now ∷ earlier) sid = Creates earlier sid

pub Creates-old : (new old : List Call) (sid : Text) → Creates old sid → Creates (new ++ old) sid
Creates-old [] old sid h = h
Creates-old (create_call now id username auth ∷ new) old sid h = inr (Creates-old new old sid h)
Creates-old (get_call now id ∷ new) old sid h = Creates-old new old sid h
Creates-old (delete_call id ∷ new) old sid h = Creates-old new old sid h
Creates-old (purge_call now ∷ new) old sid h = Creates-old new old sid h

pub Creates-new : (new old : List Call) (sid : Text) → Creates new sid → Creates (new ++ old) sid
Creates-new [] old sid h = absurd h
Creates-new (create_call now id username auth ∷ new) old sid (inl h) = inl h
Creates-new (create_call now id username auth ∷ new) old sid (inr h) =
    inr (Creates-new new old sid h)
Creates-new (get_call now id ∷ new) old sid h = Creates-new new old sid h
Creates-new (delete_call id ∷ new) old sid h = Creates-new new old sid h
Creates-new (purge_call now ∷ new) old sid h = Creates-new new old sid h

-- A code that was issued to the configured client, for a redirection that the configuration lists, and
-- stands for a session that the calls of the session store created.
pub record IsFlowCode (cfg : Config) (calls : List Call) (rec : AuthCode) : Type 0 where
  pub client : rec.client_id ≡ cfg.oauth_client_id
  pub redirection : contains cfg.oauth_redirect_uris rec.redirect_uri ≡ true
  pub session : Creates calls rec.session_id

-- The store changes by calls, and every code that is held after was held before, or stands for a session
-- that these calls created.
pub record KeepsCodes (cfg : Config) (env : Env) (w w' : World) : Type 0 where
  pub tracks : Tracks cfg env w w'
  pub held :
      (key : Text) (rec : AuthCode)
      → lookup key w'.codes ≡ some rec
      → (lookup key w.codes ≡ some rec) ⊎ IsFlowCode cfg tracks.calls rec

pub inserted :
    (k key : Text) (a b : AuthCode) (d : Dict AuthCode)
    → lookup key (insert k a d) ≡ some b
    → (a ≡ b) ⊎ (lookup key d ≡ some b)
inserted k key a b d h = elim (Bool-cases (k == key)) [
  | inl same ↦ inl (ground (arith, lookup-insert k key a d))
  | inr other ↦ inr (ground (arith, lookup-insert k key a d))
]

module _ (cfg : Config) where
  pub KeepsCodes-same :
      (env : Env) (w w' : World)
      → w'.codes ≡ w.codes
      → Tracks cfg env w w'
      → KeepsCodes cfg env w w'
  KeepsCodes-same env w w' same t = record {
    tracks = t;
    held = λ key rec h. inl (ap (lookup key) (sym same) ∙ h);
  }

  pub KeepsCodes-trans :
      (env : Env) (u v w : World)
      → KeepsCodes cfg env u v
      → KeepsCodes cfg env v w
      → KeepsCodes cfg env u w
  unfolding Tracks-trans
  KeepsCodes-trans env u v w h k = record {
    tracks = Tracks-trans cfg env h.tracks k.tracks;
    held = λ key rec e. elim (k.held key rec e) [
      | inl before ↦ elim (h.held key rec before) [
        | inl first ↦ inl first
        | inr c ↦ inr (record {
          client = c.client;
          redirection = c.redirection;
          session = Creates-old k.tracks.calls h.tracks.calls rec.session_id c.session;
        })
      ]
      | inr c ↦ inr (record {
        client = c.client;
        redirection = c.redirection;
        session = Creates-new k.tracks.calls h.tracks.calls rec.session_id c.session;
      })
    ];
  }

  abbrev pub guarding : Effect
  guarding = record {
    Rel = λ env w w'. KeepsCodes cfg env w w';
    at_rest = λ env w. KeepsCodes-same env w w refl ((tracking cfg).at_rest env w);
    in_turn = KeepsCodes-trans;
  }
