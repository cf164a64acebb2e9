-- ===== src/Exec/Frame.antt =====
-- What holds of code with effects that is built in a given way.
use cisco_ise_mcp.Prelude.{refl, ◌≡◌}
use cisco_ise_mcp.Errors.{Result, err, ok}
use cisco_ise_mcp.Exec.{Exec, continue, lift, pure, ◌>>=◌}
use cisco_ise_mcp.World.{Env, World}

abbrev pub map_result {ℓ κ} : {A : Type ℓ} {B : Type κ} → (A → B) → Result A → Result B
map_result g (ok a) = ok (g a)
map_result g (err e) = err e

-- A fallible pure step under a pure one changes nothing.
pub lift-bind-pure {ℓ} :
    {A B : Type ℓ} (r : Result A) (g : A → B) (env : Env) (w : World)
    → (lift r >>= λ a. pure (g a)) env w ≡ (map_result g r, w)
unfolding ◌>>=◌
lift-bind-pure (ok a) g env w = refl
lift-bind-pure (err e) g env w = refl

continue-ok :
    {A B : Type 0} (r : Result A) (f : A → Exec B) (env : Env) (w : World) (b : B)
    → (continue r f env w).0 ≡ ok b
    → (a : A) × (r ≡ ok a) × ((f a env w).0 ≡ ok b)
continue-ok (ok a) f env w b h = (a, refl, h)
continue-ok (err e) f env w b h = cc

-- A sequence that returns has a first part that returns, and a second that returns after it.
pub bind-ok :
    {A B : Type 0} (m : Exec A) (f : A → Exec B) (env : Env) (w : World) (b : B)
    → ((m >>= f) env w).0 ≡ ok b
    → (a : A) × ((m env w).0 ≡ ok a) × ((f a env (m env w).1).0 ≡ ok b)
unfolding ◌>>=◌
bind-ok m f env w b h = continue-ok (m env w).0 f env (m env w).1 b h
