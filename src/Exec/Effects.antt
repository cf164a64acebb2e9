-- ===== src/Exec/Effects.antt =====
-- What code with effects leaves behind, for any relation between the worlds before and after it that
-- its parts keep.
use cisco_ise_mcp.Prelude.{Bool, false, if◌then◌else◌, true, ◌∷◌, ◌≡◌}
use cisco_ise_mcp.Errors.{Error, Result, err, ok}
use cisco_ise_mcp.Exec.{Exec, asks, caught, continue, lift, pure, raise, send, sleep, ◌>>=◌}
use cisco_ise_mcp.Prelude.Int.{ℤ}
use cisco_ise_mcp.Text.{Text, lit}
use cisco_ise_mcp.World.{Env, HttpRequest, World}

-- A relation between the world before and the world after, which holds across nothing and across
-- one piece of code after the other.
pub record Effect : Type 1 where
  pub Rel : Env → World → World → Type 0
  pub at_rest : (env : Env) (w : World) → Rel env w w
  pub in_turn : (env : Env) (u v w : World) → Rel env u v → Rel env v w → Rel env u w

-- The code keeps every relation with the given laws, whether it returns or raises.
pub record Keeps (Laws : Effect → Type 0) {A : Type 0} (m : Exec A) : Type 1 where
  pub keeps : (e : Effect) → Laws e → (env : Env) (w : World) → Effect.Rel e env w (m env w).1

-- Relations that requests with the given method keep, and the pauses between them.
pub record AdmitsMethod (method : Text) (e : Effect) : Type 0 where
  pub at_sleep :
      (env : Env) (w : World) (ms : ℤ) → Effect.Rel e env w (record w { slept = ms ∷ w.slept })
  pub at_send :
      (env : Env) (w : World) (req : HttpRequest)
      → req.method ≡ method
      → Effect.Rel e env w (record w { sent = req ∷ w.sent })

-- The code only reads from ISE.
abbrev pub IsQuery : {A : Type 0} → Exec A → Type 1
IsQuery m = Keeps (AdmitsMethod (lit "GET")) m

module _ {Laws : Effect → Type 0} {A : Type 0} where
  pub pure-Keeps : (a : A) → Keeps Laws (pure a)
  unfolding pure
  pure-Keeps a = record { keeps = λ e l env w. e.at_rest env w }

  pub raise-Keeps : (x : Error) → Keeps Laws (raise {A = A} x)
  unfolding raise
  raise-Keeps x = record { keeps = λ e l env w. e.at_rest env w }

  pub lift-Keeps : (r : Result A) → Keeps Laws (lift r)
  unfolding lift
  lift-Keeps r = record { keeps = λ e l env w. e.at_rest env w }

  pub asks-Keeps : (f : Env → A) → Keeps Laws (asks f)
  unfolding asks
  asks-Keeps f = record { keeps = λ e l env w. e.at_rest env w }

  pub caught-Keeps : (m : Exec A) → Keeps Laws m → Keeps Laws (caught m)
  unfolding caught
  caught-Keeps m h = record { keeps = λ e l env w. h.keeps e l env w }

  pub if-Keeps :
      (b : Bool) (m n : Exec A) → Keeps Laws m → Keeps Laws n → Keeps Laws (if b then m else n)
  if-Keeps true m n h k = h
  if-Keeps false m n h k = k

module _ {Laws : Effect → Type 0} {A B : Type 0} where
  continue-Keeps :
      (e : Effect)
      → Laws e
      → (r : Result A) (f : A → Exec B) (env : Env) (w : World) → ((a : A) → Keeps Laws (f a))
      → Effect.Rel e env w (continue r f env w).1
  continue-Keeps e l (ok a) f env w h = (h a).keeps e l env w
  continue-Keeps e l (err x) f env w h = e.at_rest env w

  pub bind-Keeps :
      (m : Exec A) (f : A → Exec B)
      → Keeps Laws m
      → ((a : A) → Keeps Laws (f a))
      → Keeps Laws (m >>= f)
  unfolding ◌>>=◌
  bind-Keeps m f h k = record {
    keeps = λ e l env w.
        e.in_turn env w (m env w).1 _ (h.keeps e l env w)
          (continue-Keeps e l (m env w).0 f env (m env w).1 k);
  }

-- More laws are kept by the same code.
pub weaken :
    {Laws More : Effect → Type 0} {A : Type 0} (m : Exec A)
    → ((e : Effect) → More e → Laws e)
    → Keeps Laws m
    → Keeps More m
weaken m h k = record { keeps = λ e l env w. k.keeps e (h e l) env w }

pub sleep-Keeps : (method : Text) (ms : ℤ) → Keeps (AdmitsMethod method) (sleep ms)
unfolding sleep
sleep-Keeps method ms = record { keeps = λ e l env w. l.at_sleep env w ms }

pub send-Keeps :
    (method : Text) (req : HttpRequest)
    → req.method ≡ method
    → Keeps (AdmitsMethod method) (send req)
unfolding send
send-Keeps method req h = record { keeps = λ e l env w. l.at_send env w req h }

pub ruleset keeping = (
  pure-Keeps, raise-Keeps, lift-Keeps, asks-Keeps, caught-Keeps, bind-Keeps, if-Keeps, sleep-Keeps,
)
