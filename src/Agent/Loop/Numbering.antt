-- ===== src/Agent/Loop/Numbering.antt =====
-- The numbers of the steps that src/agent/agent-loop.service.ts records, with one rule for each way to
-- build an action.
use lotus_build_server.Base.{
  ℕ, ◌+◌, ◌≡◌, refl, Bool, true, false, Option, none, some, List, [], ◌∷◌, ◌++◌, if◌then◌else◌,
}
use lotus_build_server.World.Calls.{Call, PrismaCall, prisma, StepData}
use lotus_build_server.World.Exec.{
  Result, ok, throw, History, World, Exec, pure, perform, ◌>>=◌, continue,
}
use lotus_build_server.World.Grows.{Grows, Extends, same, more}

abbrev pub recorded_by : Call → List ℕ
recorded_by (prisma (PrismaCall.step_create step)) = step.index ∷ []
recorded_by _ = []

-- The numbers of the steps that were written or tried to be, the newest first.
unfoldable pub recorded : History → List ℕ
recorded [] = []
recorded (e ∷ h) = recorded_by e.call ++ recorded h

-- The second list is the first with the numbers from `i` up to just below the last index on top, each
-- one once and in order.
pub data Consecutive (i : ℕ) (l : List ℕ) : ℕ → List ℕ → Type 0 where
  stop : Consecutive i l i l
  next : {j j' : ℕ} {l' : List ℕ} → Consecutive i l j l' → j' ≡ j + 1 → Consecutive i l j' (j ∷ l')

pub Consecutive-trans :
    {i j : ℕ} {l l' : List ℕ} {k : ℕ} {l'' : List ℕ}
    → Consecutive i l j l'
    → Consecutive j l' k l''
    → Consecutive i l k l''
Consecutive-trans x stop = x
Consecutive-trans x (next y e) = next (Consecutive-trans x y) e

-- Where `reached` says so, the numbers go just below the index that it names.
abbrev pub Reaches : ℕ → Option ℕ → List ℕ → List ℕ → Type 0
Reaches i (some j) l l' = Consecutive i l j l'
Reaches i none l l' = (j : ℕ) × Consecutive i l j l'

forget : (i : ℕ) (l l' : List ℕ) (reached : Option ℕ) → Reaches i reached l l' → Reaches i none l l'
forget i l l' (some j) x = (j, x)
forget i l l' none x = x

extend :
    {i j : ℕ} {l l' : List ℕ} (l'' : List ℕ) (reached : Option ℕ)
    → Consecutive i l j l'
    → Reaches j reached l' l''
    → Reaches i reached l l''
extend l'' (some k) x y = Consecutive-trans x y
extend l'' none x y = (y.0, Consecutive-trans x y.1)

abbrev pub reached_by {ℓ} : {A : Type ℓ} → (A → Option ℕ) → Result A → Option ℕ
reached_by final (ok a) = final a
reached_by final (throw e) = none

-- The action records steps numbered from `i` on; what it returns gives the next number, by `final`.
pub record Numbers {ℓ} {A : Type ℓ} (i : ℕ) (final : A → Option ℕ) (m : Exec A) : Type 0 where
  pub at : (h : History) → Reaches i (reached_by final (m h).0) (recorded h) (recorded (m h).1)

-- The call is no write of a step.
abbrev pub NoStep : Call → Type 0
NoStep c = recorded_by c ≡ []

pub recorded-Extends : {h h' : History} → Extends NoStep h h' → recorded h' ≡ recorded h
unfolding recorded
recorded-Extends same = refl
recorded-Extends (more e p x) = rw p (recorded-Extends x)

module _ {ℓ} {A : Type ℓ} where
  end_of :
      (i : ℕ) (r : Result A) {l l' : List ℕ}
      → Reaches i (reached_by (λ _. none) r) l l'
      → (j : ℕ) × Consecutive i l j l'
  end_of i (ok a) x = x
  end_of i (throw e) x = x

  pub some_end :
      {i : ℕ} {m : Exec A}
      → Numbers i (λ _. none) m
      → (h : History) → (j : ℕ) × Consecutive i (recorded h) j (recorded (m h).1)
  some_end {i} {m} k h = end_of i (m h).0 (k.at h)

  pub Numbers-pure : (i : ℕ) (a : A) → Numbers i (λ _. some i) (pure a)
  Numbers-pure i a = record { at = λ h. stop }

  stopped : (i : ℕ) (r : Result A) (l : List ℕ) → Reaches i (reached_by (λ _. some i) r) l l
  stopped i (ok a) l = stop
  stopped i (throw e) l = (i, stop)

  pub Numbers-quiet : (i : ℕ) {m : Exec A} → Grows NoStep m → Numbers i (λ _. some i) m
  Numbers-quiet i {m} k = record {
    at = λ h. rw (recorded-Extends (k.at h)) (stopped i (m h).0 (recorded h));
  }

  pub Numbers-if :
      {i : ℕ} {final : A → Option ℕ} (b : Bool) (m n : Exec A)
      → Numbers i final m
      → Numbers i final n
      → Numbers i final (if b then m else n)
  Numbers-if true m n km kn = km
  Numbers-if false m n km kn = kn

module _ {B : Type 0} where
  -- What follows a value: it goes on from the number reached, or, where none is known, it records
  -- nothing more.
  abbrev pub GoesOn : Option ℕ → (B → Option ℕ) → Exec B → Type 0
  GoesOn (some j) final m = Numbers j final m
  GoesOn none final m = ((h : History) → recorded (m h).1 ≡ recorded h) × ((b : B) → final b ≡ none)

  reached_none :
      (final : B → Option ℕ)
      → ((b : B) → final b ≡ none)
      → (r : Result B) → reached_by final r ≡ none
  reached_none final none_known (ok b) = none_known b
  reached_none final none_known (throw e) = refl

  GoesOn-from :
      (i : ℕ) (l : List ℕ) (reached : Option ℕ) (final : B → Option ℕ) (m : Exec B) (h : History)
      → Reaches i reached l (recorded h)
      → GoesOn reached final m
      → Reaches i (reached_by final (m h).0) l (recorded (m h).1)
  GoesOn-from i l (some j) final m h x k =
      extend (recorded (m h).1) (reached_by final (m h).0) x (k.at h)
  GoesOn-from i l none final m h x (silent, none_known) =
      rw (silent h, reached_none final none_known (m h).0) x

module _ {ℓ} {A : Type ℓ} {B : Type 0} where
  Numbers-continue :
      (i : ℕ) (l : List ℕ) (r : Result A) (h : History) (f : A → Option ℕ) (g : B → Option ℕ)
      (k : A → Exec B)
      → Reaches i (reached_by f r) l (recorded h)
      → ((a : A) → GoesOn (f a) g (k a))
      → Reaches i (reached_by g (continue r k h).0) l (recorded (continue r k h).1)
  Numbers-continue i l (ok a) h f g k x kk = GoesOn-from i l (f a) g (k a) h x (kk a)
  Numbers-continue i l (throw e) h f g k x kk = x

  pub Numbers-bind :
      {i : ℕ} {f : A → Option ℕ} {g : B → Option ℕ} (m : Exec A) (k : A → Exec B)
      → Numbers i f m
      → ((a : A) → GoesOn (f a) g (k a))
      → Numbers i g (m >>= k)
  Numbers-bind {i} {f} {g} m k km kk = record {
    at = λ h. let (r, h') = m h in Numbers-continue i (recorded h) r h' f g k (km.at h) kk;
  }

module _ (w : World) where
  write_from :
      (i : ℕ) (l : List ℕ) {A : Type 0} (r : Result A)
      → Reaches i (reached_by (λ _. some (i + 1)) r) l (i ∷ l)
  write_from i l (ok a) = next stop refl
  write_from i l (throw e) = (i + 1, next stop refl)

  -- The write of a step takes its number, also where it throws.
  pub Numbers-write :
      (step : StepData)
      → Numbers step.index
          (λ _. some (step.index + 1))
          (perform w (prisma (PrismaCall.step_create step)))
  unfolding perform recorded
  Numbers-write step = record {
    at = λ h. write_from step.index (recorded h) (w.reply (prisma (PrismaCall.step_create step)) h);
  }
