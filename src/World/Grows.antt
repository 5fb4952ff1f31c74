-- ===== src/World/Grows.antt =====
-- What an action adds to the history: one rule for each way to build an action.
use lotus_build_server.Base.{
  ◌≡◌, refl, Bool, true, false, Option, none, some, ◌∷◌, count, arith, if◌then◌else◌,
}
use lotus_build_server.World.Calls.{Call}
use lotus_build_server.World.Exec.{
  Thrown, Result, ok, throw, Entry, History, World, Exec, pure, raise, lift, raise_if, handle,
  try_catch, or_throw, continue, ◌>>=◌, try_finally, perform, act, new_date,
}

-- The later history is the earlier one with calls on top of which each satisfies `P`.
pub data Extends (P : Call → Type 0) (h : History) : History → Type 0 where
  same : Extends P h h
  more : {h' : History} (e : Entry) → P e.call → Extends P h h' → Extends P h (e ∷ h')

pub Extends-trans :
    {P : Call → Type 0} {h h' h'' : History} → Extends P h h' → Extends P h' h'' → Extends P h h''
Extends-trans x same = x
Extends-trans x (more e p y) = more e p (Extends-trans x y)

pub Extends-weaken :
    {P Q : Call → Type 0} {h h' : History}
    → ((c : Call) → P c → Q c)
    → Extends P h h'
    → Extends Q h h'
Extends-weaken f same = same
Extends-weaken f (more e p x) = more e (f e.call p) (Extends-weaken f x)

-- A test that fails on every added call counts as many calls as before.
pub Extends-count :
    {P : Call → Type 0} {h h' : History} (f : Call → Bool)
    → ((c : Call) → P c → f c ≡ false)
    → Extends P h h'
    → count (λ e. f e.call) h' ≡ count (λ e. f e.call) h
Extends-count f no_call same = refl
Extends-count f no_call (more e p x) = ground (arith, no_call e.call p, Extends-count f no_call x)

-- The action adds calls that satisfy `P` and no others, whatever it returns or throws.
pub record Grows {ℓ} {A : Type ℓ} (P : Call → Type 0) (m : Exec A) : Type 0 where
  pub at : (h : History) → Extends P h (m h).1

module _ {ℓ} {A : Type ℓ} {P : Call → Type 0} where
  pub Grows-pure : (a : A) → Grows P (pure a)
  Grows-pure a = record { at = λ h. same }

  pub Grows-raise : (e : Thrown) → Grows {A = A} P (raise e)
  Grows-raise e = record { at = λ h. same }

  pub Grows-lift : (r : Result A) → Grows P (lift r)
  Grows-lift r = record { at = λ h. same }

  pub Grows-or_throw : (o : Option A) (e : Thrown) → Grows P (or_throw o e)
  Grows-or_throw none e = record { at = λ h. same }
  Grows-or_throw (some a) e = record { at = λ h. same }

  pub Grows-raise_if : (b : Bool) (e : Thrown) (m : Exec A) → Grows P m → Grows P (raise_if b e m)
  Grows-raise_if true e m k = record { at = λ h. same }
  Grows-raise_if false e m k = k

  pub Grows-if : (b : Bool) (m n : Exec A) → Grows P m → Grows P n → Grows P (if b then m else n)
  Grows-if true m n km kn = km
  Grows-if false m n km kn = kn

  Grows-handle :
      (r : Result A) (handler : Thrown → Exec A)
      → ((e : Thrown) → Grows P (handler e))
      → Grows P (handle r handler)
  Grows-handle (ok a) handler k = record { at = λ h. same }
  Grows-handle (throw e) handler k = k e

  pub Grows-try_catch :
      (m : Exec A) (handler : Thrown → Exec A)
      → Grows P m
      → ((e : Thrown) → Grows P (handler e))
      → Grows P (try_catch m handler)
  Grows-try_catch m handler km kh = record {
    at = λ h. let (r, h') = m h in Extends-trans (km.at h) ((Grows-handle r handler kh).at h');
  }

  Grows-after : (r : Result A) (r' : Result (Unit {0})) → Grows P (continue r' (λ _ h. (r, h)))
  Grows-after r (ok _) = record { at = λ h. same }
  Grows-after r (throw e) = record { at = λ h. same }

  pub Grows-try_finally :
      (m : Exec A) (last : Exec (Unit {0}))
      → Grows P m
      → Grows P last
      → Grows P (try_finally m last)
  Grows-try_finally m last km kl = record {
    at = λ h.
        let (r, h') = m h in
        let (r', h'') = last h' in
        Extends-trans (km.at h) (Extends-trans (kl.at h') ((Grows-after r r').at h''));
  }

  pub Grows-weaken :
      {Q : Call → Type 0} {m : Exec A} → ((c : Call) → P c → Q c) → Grows P m → Grows Q m
  Grows-weaken f k = record { at = λ h. Extends-weaken f (k.at h) }

module _ {ℓ κ} {A : Type ℓ} {B : Type κ} {P : Call → Type 0} where
  -- what follows may use that the value was returned
  pub Grows-bind-lift :
      (r : Result A) (f : A → Exec B)
      → ((a : A) → r ≡ ok a → Grows P (f a))
      → Grows P (lift r >>= f)
  Grows-bind-lift (ok a) f k = k a refl
  Grows-bind-lift (throw e) f k = record { at = λ h. same }

  Grows-continue :
      (r : Result A) (f : A → Exec B) (h : History)
      → ((a : A) → r ≡ ok a → Grows P (f a))
      → Extends P h (continue r f h).1
  Grows-continue (ok a) f h k = (k a refl).at h
  Grows-continue (throw e) f h k = same

  -- the same from one history on
  pub Extends-bind :
      (m : Exec A) (f : A → Exec B) (h : History)
      → Extends P h (m h).1
      → ((a : A) → (m h).0 ≡ ok a → Grows P (f a))
      → Extends P h ((m >>= f) h).1
  Extends-bind m f h x k = Extends-trans x (Grows-continue (m h).0 f (m h).1 k)

  -- what follows may use that the value came from the first action
  pub Grows-bind_returned :
      (m : Exec A) (f : A → Exec B)
      → Grows P m
      → ((a : A) (h : History) → (m h).0 ≡ ok a → Grows P (f a))
      → Grows P (m >>= f)
  Grows-bind_returned m f km kf = record {
    at = λ h. Extends-trans (km.at h) (Grows-continue (m h).0 f (m h).1 (λ a e. kf a h e));
  }

  pub Grows-bind :
      (m : Exec A) (f : A → Exec B) → Grows P m → ((a : A) → Grows P (f a)) → Grows P (m >>= f)
  Grows-bind m f km kf = record {
    at = λ h.
        let (r, h') = m h in Extends-trans (km.at h) ((Grows-bind-lift r f (λ a _. kf a)).at h');
  }

module _ {P : Call → Type 0} (w : World) where
  pub Grows-perform : (c : Call) → P c → Grows P (perform w c)
  unfolding perform
  Grows-perform c p = record { at = λ h. more (record { call = c; reply = w.reply c h }) p same }

  pub Grows-act : (c : Call) → P c → Grows P (act w c)
  unfolding act
  Grows-act c p = Grows-bind (perform w c) _ (Grows-perform c p) (λ _. Grows-pure tt)

  pub Grows-new_date : Grows P (new_date w)
  unfolding new_date
  Grows-new_date = record { at = λ h. same }

pub ruleset grows_rules = (
  Grows-pure, Grows-raise, Grows-lift, Grows-or_throw, Grows-raise_if, Grows-try_catch,
  Grows-try_finally, Grows-bind, Grows-perform, Grows-act, Grows-new_date,
)
