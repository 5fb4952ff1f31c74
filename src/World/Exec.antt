-- ===== src/World/Exec.antt =====
-- The handlers' actions: calls to the services, exceptions, and the history of the calls made. The
-- services are a parameter: a function of the history, so each call may reply or throw anything.
use lotus_build_server.Base.{
  ℕ, String, ◌≡◌, refl, Bool, true, false, Option, none, some, List, ◌∷◌, ◌⊎◌, inl, inr,
}
use lotus_build_server.World.Data.{Date, Input}
use lotus_build_server.World.Calls.{Call, Reply}

-- What is thrown: an HttpException with its status, a ToolExecutionError, a CommandExitError of E2B
-- with its exit code and outputs, any other Error, or a value that is no Error.
pub data Thrown : Type 0 where
  http : ℕ → String → Thrown
  tool_execution : String → Thrown
  command_exit : String → ℕ → String → String → Thrown
  error : String → Thrown
  non_error : Thrown

abbrev pub not_found : String → Thrown
not_found message = Thrown.http 404 message

abbrev pub unauthorized : String → Thrown
unauthorized message = Thrown.http 401 message

abbrev pub conflict : String → Thrown
conflict message = Thrown.http 409 message

pub data Result {ℓ} (A : Type ℓ) : Type ℓ where
  ok : A → Result A
  throw : Thrown → Result A

pub record Entry : Type 0 where
  pub call : Call
  pub reply : Result (Reply call)

-- the newest entry first
abbrev pub History : Type 0
History = List Entry

-- `now` is the clock, `stringify` is JSON.stringify of a tool's input
pub record World : Type 0 where
  pub reply : (c : Call) → History → Result (Reply c)
  pub now : History → Date
  pub stringify : Input → String

abbrev pub Exec {ℓ} : Type ℓ → Type ℓ
Exec A = History → Result A × History

module _ {ℓ} {A : Type ℓ} where
  abbrev pub pure : A → Exec A
  pure a h = (ok a, h)

  abbrev pub raise : Thrown → Exec A
  raise e h = (throw e, h)

  abbrev pub lift : Result A → Exec A
  lift r h = (r, h)

  abbrev pub raise_if : Bool → Thrown → Exec A → Exec A
  raise_if true e m = raise e
  raise_if false e m = m

  -- `try { m } catch (error) { handler(error) }`
  abbrev pub handle : Result A → (Thrown → Exec A) → Exec A
  handle (ok a) handler h = (ok a, h)
  handle (throw e) handler h = handler e h

  abbrev pub try_catch : Exec A → (Thrown → Exec A) → Exec A
  try_catch m handler h = let (r, h') = m h in handle r handler h'

  -- `if (!found) throw e`
  abbrev pub or_throw : Option A → Thrown → Exec A
  or_throw none e = raise e
  or_throw (some a) e = pure a

module _ {ℓ κ} {A : Type ℓ} {B : Type κ} where
  abbrev pub continue : Result A → (A → Exec B) → Exec B
  continue (ok a) f h = f a h
  continue (throw e) f h = (throw e, h)

  infixl 5 ◌>>=◌
  abbrev pub ◌>>=◌ : Exec A → (A → Exec B) → Exec B
  ◌>>=◌ m f h = let (r, h') = m h in continue r f h'

  infixl 5 ◌>>◌
  abbrev pub ◌>>◌ : Exec A → Exec B → Exec B
  m >> k = m >>= λ _. k

module _ {ℓ} {A : Type ℓ} where
  abbrev pub keep : Result A → Exec (Unit {0}) → Exec A
  keep r last h = let (r', h') = last h in continue r' (λ _ h''. (r, h'')) h'

  -- `try { m } finally { last }`: what `last` throws replaces the outcome of `m`
  abbrev pub try_finally : Exec A → Exec (Unit {0}) → Exec A
  try_finally m last h = let (r, h') = m h in keep r last h'

  keep_history :
      (r : Result A) (r' : Result (Unit {0})) (h : History)
      → (continue r' (λ _ h'. (r, h')) h).1 ≡ h
  keep_history r (ok u) h = refl
  keep_history r (throw e) h = refl

  -- The history behind a `finally` is the one that its block leaves.
  pub try_finally_history :
      (m : Exec A) (last : Exec (Unit {0})) (h : History)
      → (try_finally m last h).1 ≡ (last (m h).1).1
  try_finally_history m last h =
      let (r, h') = m h in let (r', h'') = last h' in keep_history r r' h''

  pub Result-cases : (r : Result A) → ((a : A) × (r ≡ ok a)) ⊎ ((e : Thrown) × (r ≡ throw e))
  Result-cases (ok a) = inl (a, refl)
  Result-cases (throw e) = inr (e, refl)

module _ {ℓ κ} {A : Type ℓ} {B : Type κ} where
  continue-eq-ok :
      (r : Result A) (f : A → Exec B) (h : History) {b : B}
      → (continue r f h).0 ≡ ok b
      → (a : A) × (r ≡ ok a) × ((f a h).0 ≡ ok b)
  continue-eq-ok (ok a) f h e = (a, refl, e)
  continue-eq-ok (throw t) f h e = cc

  -- What returned passed through both actions.
  pub >>=-eq-ok :
      (m : Exec A) (f : A → Exec B) (h : History) {b : B}
      → ((m >>= f) h).0 ≡ ok b
      → (a : A) × ((m h).0 ≡ ok a) × ((f a (m h).1).0 ≡ ok b)
  >>=-eq-ok m f h e = let (r, h') = m h in continue-eq-ok r f h' e

  -- What is called behind a first action that returned.
  pub >>=_history :
      (m : Exec A) (f : A → Exec B) (h : History) {a : A}
      → (m h).0 ≡ ok a
      → ((m >>= f) h).1 ≡ (f a (m h).1).1
  >>=_history m f h e = let (r, h') = m h in rw e refl

module _ (w : World) where
  -- one call: it is noted with its reply
  unfoldable pub perform : (c : Call) → Exec (Reply c)
  perform c h = let r = w.reply c h in (r, record { call = c; reply = r } ∷ h)

  -- a call whose reply is not used
  unfoldable pub act : Call → Exec (Unit {0})
  unfolding perform
  act c = do perform c; pure tt

  -- `new Date()`
  unfoldable pub new_date : Exec Date
  new_date h = (ok (w.now h), h)
