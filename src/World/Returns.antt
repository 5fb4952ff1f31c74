-- ===== src/World/Returns.antt =====
-- What holds of the value that an action returns, if it returns one.
use lotus_build_server.Base.{◌≡◌, refl, ap, Bool, Option, none, some, true, false, if◌then◌else◌}
use lotus_build_server.World.Calls.{Call}
use lotus_build_server.World.Exec.{
  Thrown, ok, History, Exec, pure, raise, or_throw, ◌>>=◌, >>=-eq-ok,
}
use lotus_build_server.World.Grows.{Grows, Grows-bind_returned}

pub record Returns {ℓ κ} {A : Type ℓ} (Q : A → Type κ) (m : Exec A) : Type (ℓ ⊔ κ) where
  pub at : (h : History) (a : A) → (m h).0 ≡ ok a → Q a

pub ok-injective {ℓ} : {A : Type ℓ} (a b : A) → ok a ≡ ok b → a ≡ b
ok-injective a b e = cc

pub or_throw-eq-ok :
    {A : Type 0} (o : Option A) (t : Thrown) (a : A) (h : History)
    → (or_throw o t h).0 ≡ ok a
    → o ≡ some a
or_throw-eq-ok none t a h e = cc
or_throw-eq-ok (some b) t a h e = ap some (ok-injective b a e)

pub or_throw_history :
    {A : Type 0} (o : Option A) (t : Thrown) (h : History) → (or_throw o t h).1 ≡ h
or_throw_history none t h = refl
or_throw_history (some a) t h = refl

module _ {ℓ κ} {A : Type ℓ} {Q : A → Type κ} where
  pub Returns-pure : (a : A) → Q a → Returns Q (pure a)
  Returns-pure a q = record { at = λ h b e. rw (← ok-injective a b e) q }

  pub Returns-raise : (t : Thrown) → Returns Q (raise t)
  Returns-raise t = record { at = λ h b e. cc }

  pub Returns-weaken :
      {P : A → Type κ} {m : Exec A} → ((a : A) → P a → Q a) → Returns P m → Returns Q m
  Returns-weaken f km = record { at = λ h a e. f a (km.at h a e) }

  pub Returns-if :
      (b : Bool) (m n : Exec A) → Returns Q m → Returns Q n → Returns Q (if b then m else n)
  Returns-if true m n km kn = km
  Returns-if false m n km kn = kn

module _ {ℓ κ μ} {A : Type ℓ} {B : Type κ} {Q : B → Type μ} where
  -- the first value does not matter
  pub Returns-bind :
      (m : Exec A) (f : A → Exec B) → ((a : A) → Returns Q (f a)) → Returns Q (m >>= f)
  Returns-bind m f kf = record {
    at = λ h b e. let (a, _, e') = >>=-eq-ok m f h e in (kf a).at (m h).1 b e';
  }

  pub Returns-bind_with :
      {P : A → Type μ} (m : Exec A) (f : A → Exec B)
      → Returns P m
      → ((a : A) → P a → Returns Q (f a))
      → Returns Q (m >>= f)
  Returns-bind_with m f km kf = record {
    at = λ h b e. let (a, e₁, e₂) = >>=-eq-ok m f h e in (kf a (km.at h a e₁)).at (m h).1 b e₂;
  }

-- What is known of the first value may be used for the calls that follow.
pub Grows-bind_with {ℓ κ μ} :
    {A : Type ℓ} {B : Type κ} {Q : A → Type μ} {P : Call → Type 0} (m : Exec A) (f : A → Exec B)
    → Grows P m
    → Returns Q m
    → ((a : A) → Q a → Grows P (f a))
    → Grows P (m >>= f)
Grows-bind_with m f km rm kf = Grows-bind_returned m f km (λ a h e. kf a (rm.at h a e))
