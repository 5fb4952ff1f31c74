-- ===== src/World/Triple.antt =====
-- Conditions before an action and behind it: behind what it returns, and behind what it throws.
use mathlib.Core.Path.{subst}
use lotus_build_server.Base.{
  ℕ, ◌≡◌, refl, Bool, true, false, Option, none, some, ◌∷◌, if◌then◌else◌,
}
use lotus_build_server.World.Calls.{Call, Reply}
use lotus_build_server.World.Returns.{ok-injective}
use lotus_build_server.World.Exec.{
  Thrown, Result, ok, throw, History, World, Exec, pure, raise, handle, try_catch, or_throw,
  continue, ◌>>=◌, perform, act, new_date,
}

abbrev pub Condition : Type 1
Condition = History → Type 0

module _ {A : Type 0} where
  abbrev pub Outcome : (A → Condition) → Condition → Result A → Condition
  Outcome Q E (ok a) h = Q a h
  Outcome Q E (throw e) h = E h

  -- From a history with `P` the action returns with `Q` or throws with `E`.
  pub record Triple (P : Condition) (m : Exec A) (Q : A → Condition) (E : Condition) : Type 0 where
    pub at : (h : History) → P h → Outcome Q E (m h).0 (m h).1

module _ {A : Type 0} {E : Condition} {Q : A → Condition} where
  outcome_handled :
      {F : Condition} (r : Result A) (handler : Thrown → Exec A) (h : History)
      → Outcome Q F r h
      → ((e : Thrown) → Triple F (handler e) Q E)
      → Outcome Q E (handle r handler h).0 (handle r handler h).1
  outcome_handled (ok a) handler h q k = q
  outcome_handled (throw e) handler h f k = (k e).at h f

module _ {A : Type 0} {P E : Condition} {Q : A → Condition} where
  pub Triple-pure : (a : A) → ((h : History) → P h → Q a h) → Triple P (pure a) Q E
  Triple-pure a k = record { at = k }

  pub Triple-raise : (e : Thrown) → ((h : History) → P h → E h) → Triple P (raise e) Q E
  Triple-raise e k = record { at = k }

  pub Triple-or_throw :
      (o : Option A) (e : Thrown)
      → ((a : A) (h : History) → P h → Q a h)
      → ((h : History) → P h → E h)
      → Triple P (or_throw o e) Q E
  Triple-or_throw none e k l = record { at = l }
  Triple-or_throw (some a) e k l = record { at = k a }

  pub Triple-if :
      (b : Bool) (m n : Exec A)
      → Triple P m Q E
      → Triple P n Q E
      → Triple P (if b then m else n) Q E
  Triple-if true m n k l = k
  Triple-if false m n k l = l

  pub Triple-before :
      {P' : Condition} {m : Exec A}
      → ((h : History) → P' h → P h)
      → Triple P m Q E
      → Triple P' m Q E
  Triple-before f k = record { at = λ h p. k.at h (f h p) }

  pub Triple-try_catch :
      {F : Condition} (m : Exec A) (handler : Thrown → Exec A)
      → Triple P m Q F
      → ((e : Thrown) → Triple F (handler e) Q E)
      → Triple P (try_catch m handler) Q E
  Triple-try_catch m handler km kh = record {
    at = λ h p. outcome_handled (m h).0 handler (m h).1 (km.at h p) kh;
  }

module _ {A B : Type 0} {E : Condition} {Q : A → Condition} {R : B → Condition} where
  outcome_continued :
      (r : Result A) (f : A → Exec B) (h : History)
      → Outcome Q E r h
      → ((a : A) → Triple (Q a) (f a) R E)
      → Outcome R E (continue r f h).0 (continue r f h).1
  outcome_continued (ok a) f h q k = (k a).at h q
  outcome_continued (throw e) f h q k = q

module _ {A B : Type 0} {P E : Condition} {Q : A → Condition} {R : B → Condition} where
  pub Triple-bind :
      (m : Exec A) (f : A → Exec B)
      → Triple P m Q E
      → ((a : A) → Triple (Q a) (f a) R E)
      → Triple P (m >>= f) R E
  Triple-bind m f km kf = record { at = λ h p. outcome_continued (m h).0 f (m h).1 (km.at h p) kf }

module _ {A : Type 0} {P E : Condition} {Q R : A → Condition} where
  pub Triple-after :
      {m : Exec A} → Triple P m Q E → ((a : A) (h : History) → Q a h → R a h) → Triple P m R E
  Triple-after {m = m} k f = record { at = λ h p. weaken (m h).0 (m h).1 (k.at h p) }
    where
      weaken : (r : Result A) (h : History) → Outcome Q E r h → Outcome R E r h
      weaken (ok a) h q = f a h q
      weaken (throw e) h q = q

module _ {A : Type 0} {P E : Condition} {Q : A → Condition} where
  -- What does not speak of the history stays.
  pub Triple-framed :
      {F : Type 0} {m : Exec A} → Triple P m Q E → Triple (λ h. P h × F) m (λ a h. Q a h × F) E
  Triple-framed {F = F} {m = m} k = record { at = λ h p. frame (m h).0 (m h).1 (k.at h p.0) p.1 }
    where
      frame :
          (r : Result A) (h : History) → Outcome Q E r h → F → Outcome (λ a h'. Q a h' × F) E r h
      frame (ok a) h q f = (q, f)
      frame (throw e) h q f = q

  -- Behind an action that returned.
  pub Triple-returned :
      (m : Exec A) (h : History) (a : A) → Triple P m Q E → P h → (m h).0 ≡ ok a → Q a (m h).1
  Triple-returned m h a k p e = go (m h).0 (m h).1 (k.at h p) e
    where
      go : (r : Result A) (h' : History) → Outcome Q E r h' → r ≡ ok a → Q a h'
      go (ok b) h' q e' = subst (λ (c : A). Q c h') (ok-injective b a e') q
      go (throw t) h' q e' = cc

module _ (w : World) (E : Condition) (c : Call) (Q : Reply c → Condition) where
  replied :
      (r : Result (Reply c)) (h : History)
      → w.reply c h ≡ r
      → ((a : Reply c) → w.reply c h ≡ ok a → Q a (record { call = c; reply = ok a } ∷ h))
      → ((e : Thrown) → w.reply c h ≡ throw e → E (record { call = c; reply = throw e } ∷ h))
      → Outcome Q E r (record { call = c; reply = r } ∷ h)
  replied (ok a) h e k l = k a e
  replied (throw t) h e k l = l t e

module _ (w : World) {P E : Condition} where
  pub Triple-perform :
      (c : Call) {Q : Reply c → Condition}
      → ((h : History) (a : Reply c)
          → P h
          → w.reply c h ≡ ok a
          → Q a (record { call = c; reply = ok a } ∷ h))
      → ((h : History) (e : Thrown)
          → P h
          → w.reply c h ≡ throw e
          → E (record { call = c; reply = throw e } ∷ h))
      → Triple P (perform w c) Q E
  unfolding perform
  Triple-perform c {Q = Q} k l = record {
    at = λ h p. replied w E c Q (w.reply c h) h refl (λ a. k h a p) (λ e. l h e p);
  }

  pub Triple-act :
      (c : Call) {Q : Unit {0} → Condition}
      → ((h : History) (a : Reply c) → P h → Q tt (record { call = c; reply = ok a } ∷ h))
      → ((h : History) (e : Thrown) → P h → E (record { call = c; reply = throw e } ∷ h))
      → Triple P (act w c) Q E
  unfolding act
  Triple-act c k l =
      Triple-bind (perform w c) _ (Triple-perform c (λ h a p e. k h a p) (λ h e p e'. l h e p))
        λ a. Triple-pure tt (λ h q. q)

  pub Triple-new_date :
      {Q : ℕ → Condition} → ((h : History) (n : ℕ) → P h → Q n h) → Triple P (new_date w) Q E
  unfolding new_date
  Triple-new_date k = record { at = λ h p. k h (w.now h) p }
