-- ===== src/Exec/Still.antt =====
-- The relation between the worlds before and after code that changes none of what the server keeps:
-- the sessions, the codes, the audit log, and how often the tokens and the clock were read.
use cisco_ise_mcp.Prelude.{refl, ◌∙◌, ◌≡◌}
use cisco_ise_mcp.Exec.{Exec}
use cisco_ise_mcp.Exec.Effects.{AdmitsMethod, Effect, Keeps}
use cisco_ise_mcp.Text.{Text}
use cisco_ise_mcp.World.{Env, World}

pub record Still (w w' : World) : Type 0 where
  pub store : w'.store ≡ w.store
  pub codes : w'.codes ≡ w.codes
  pub tokens : w'.tokens ≡ w.tokens
  pub audits : w'.audits ≡ w.audits
  pub readings : w'.readings ≡ w.readings

pub Still-refl : (w : World) → Still w w
Still-refl w = record { store = refl; codes = refl; tokens = refl; audits = refl; readings = refl }

abbrev resting : Effect
resting = record {
  Rel = λ env w w'. Still w w';
  at_rest = λ env w. Still-refl w;
  in_turn = λ env u v w h k. record {
    store = k.store ∙ h.store;
    codes = k.codes ∙ h.codes;
    tokens = k.tokens ∙ h.tokens;
    audits = k.audits ∙ h.audits;
    readings = k.readings ∙ h.readings;
  };
}

-- Requests and pauses are such code.
pub requests-Still :
    {method : Text} {A : Type 0} (m : Exec A) (env : Env) (w : World)
    → Keeps (AdmitsMethod method) m
    → Still w (m env w).1
requests-Still m env w h =
    h.keeps resting
      (record {
        at_sleep = λ env w ms. record {
          store = refl;
          codes = refl;
          tokens = refl;
          audits = refl;
          readings = refl;
        };
        at_send = λ env w req same. record {
          store = refl;
          codes = refl;
          tokens = refl;
          audits = refl;
          readings = refl;
        };
      })
      env w
