-- ===== src/Exec/Reads.antt =====
-- The relation between the worlds before and after code that only reads from ISE: whatever it sends
-- are GET requests, and it leaves the audit log and the authorization codes alone.
use cisco_ise_mcp.Prelude.{All, List, [], ap, append_assoc, refl, sym, ◌++◌, ◌∙◌, ◌∷◌, ◌≡◌}
use cisco_ise_mcp.Exec.{Exec}
use cisco_ise_mcp.Exec.Effects.{AdmitsMethod, Effect, IsQuery}
use cisco_ise_mcp.Text.{lit}
use cisco_ise_mcp.World.{Env, HttpRequest, World}

abbrev pub IsGet : HttpRequest → Type 0
IsGet req = req.method ≡ lit "GET"

pub record Reads (w w' : World) : Type 0 where
  pub new : List HttpRequest
  pub sent : w'.sent ≡ new ++ w.sent
  pub gets : All IsGet new
  pub audits : w'.audits ≡ w.audits
  pub codes : w'.codes ≡ w.codes

pub All-append : (xs ys : List HttpRequest) → All IsGet xs → All IsGet ys → All IsGet (xs ++ ys)
All-append [] ys h k = k
All-append (x ∷ xs) ys (a, h) k = (a, All-append xs ys h k)

-- Nothing was sent, and the log and the codes are the same.
pub still :
    (w w' : World) → w'.sent ≡ w.sent → w'.audits ≡ w.audits → w'.codes ≡ w.codes → Reads w w'
still w w' s a c = record { new = []; sent = s; gets = tt; audits = a; codes = c }

pub Reads-trans : {u v w : World} → Reads u v → Reads v w → Reads u w
Reads-trans {u} {v} {w} r s = record {
  new = s.new ++ r.new;
  sent = s.sent ∙ ap (λ t. s.new ++ t) r.sent ∙ sym (append_assoc s.new r.new u.sent);
  gets = All-append s.new r.new s.gets r.gets;
  audits = s.audits ∙ r.audits;
  codes = s.codes ∙ r.codes;
}

abbrev pub reading : Effect
reading = record {
  Rel = λ env w w'. Reads w w';
  at_rest = λ env w. still w w refl refl refl;
  in_turn = λ env u v w. Reads-trans;
}

pub reading-AdmitsMethod : AdmitsMethod (lit "GET") reading
reading-AdmitsMethod = record {
  at_sleep = λ env w ms. still w _ refl refl refl;
  at_send = λ env w req h. record {
    new = req ∷ [];
    sent = refl;
    gets = (h, tt);
    audits = refl;
    codes = refl;
  };
}

pub query-Reads :
    {A : Type 0} (m : Exec A) (env : Env) (w : World) → IsQuery m → Reads w (m env w).1
query-Reads m env w h = h.keeps reading reading-AdmitsMethod env w
