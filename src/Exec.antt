-- ===== src/Exec.antt =====
-- Code with effects: it reads the surroundings, changes the world, and may raise. What was done
-- before a raise stays done.
pub mod Frame
pub mod Effects
pub mod Still
pub mod Reads
use cisco_ise_mcp.Prelude.{List, ℕ, ◌++◌, ◌+◌, ◌∷◌}
use cisco_ise_mcp.Audit.{AuditRecord}
use cisco_ise_mcp.Auth.Store.{SessionStore}
use cisco_ise_mcp.Dict.{Dict}
use cisco_ise_mcp.Errors.{Error, Result, err, ok}
use cisco_ise_mcp.Prelude.Int.{ℤ}
use cisco_ise_mcp.Text.{Text}
use cisco_ise_mcp.World.{AuthCode, Env, HttpRequest, Reply, World}

abbrev pub Exec {ℓ} : Type ℓ → Type ℓ
Exec A = Env → World → Result A × World

module _ {ℓ} {A : Type ℓ} where
  unfoldable pub pure : A → Exec A
  pure a env w = (ok a, w)

  unfoldable pub raise : Error → Exec A
  raise e env w = (err e, w)

  unfoldable pub lift : Result A → Exec A
  lift r env w = (r, w)

  -- `try: ... except Exception as exc`: the outcome as a value.
  unfoldable pub caught : Exec A → Exec (Result A)
  caught m env w = let (r, w') = m env w in (ok r, w')

module _ {ℓ} {A B : Type ℓ} where
  abbrev pub continue : Result A → (A → Exec B) → Env → World → Result B × World
  continue (ok a) f env w = f a env w
  continue (err e) f env w = (err e, w)

  infixl 5 ◌>>=◌ ◌>>◌
  unfoldable pub ◌>>=◌ : Exec A → (A → Exec B) → Exec B
  unfolding pure raise lift caught
  ◌>>=◌ m f env w = let (r, w') = m env w in continue r f env w'

  abbrev pub ◌>>◌ : Exec A → Exec B → Exec B
  m >> n = m >>= λ _. n

-- `time.time()`
unfoldable pub time : Exec ℕ
time env w = (ok (env.clock w.readings), record w { readings = w.readings + 1 })

-- `secrets.token_urlsafe(32)`
unfoldable pub token : Exec Text
token env w = (ok (env.token_urlsafe w.tokens), record w { tokens = w.tokens + 1 })

-- One request to ISE.
unfoldable pub send : HttpRequest → Exec Reply
send req env w = (ok (env.ise w.sent req), record w { sent = req ∷ w.sent })

-- `asyncio.sleep`, in milliseconds
unfoldable pub sleep : ℤ → Exec (Unit {0})
sleep ms env w = (ok tt, record w { slept = ms ∷ w.slept })

unfoldable pub asks {ℓ} : {A : Type ℓ} → (Env → A) → Exec A
asks f env w = (ok (f env), w)

-- A method of the session store, under its lock.
unfoldable pub on_store : {A : Type 0} → (SessionStore → A × SessionStore) → Exec A
on_store f env w = let (a, store) = f w.store in (ok a, record w { store = store })

-- An access to the authorization codes, under their lock.
unfoldable pub on_codes : {A : Type 0} → (Dict AuthCode → A × Dict AuthCode) → Exec A
on_codes f env w = let (a, codes) = f w.codes in (ok a, record w { codes = codes })

unfoldable pub write_audit : List AuditRecord → Exec (Unit {0})
write_audit records env w = (ok tt, record w { audits = w.audits ++ records })
