-- ===== src/Agent/Loop/Settling.antt =====
-- When a run of src/agent/agent-loop.service.ts is settled, with one rule for each way to build an action.
use lotus_build_server.Base.{
  String, ◌≡◌, refl, Bool, true, false, ◌||◌, [], ◌∷◌, ◌==◌, if◌then◌else◌,
}
use lotus_build_server.World.Data.{finish}
use lotus_build_server.World.Calls.{Call, Reply, PrismaCall, prisma}
use lotus_build_server.World.Exec.{
  Thrown, Result, ok, throw, History, Exec, try_catch, try_finally, handle, continue, ◌>>=◌,
  >>=-eq-ok,
}
use lotus_build_server.World.Grows.{Grows, Extends, same, more}
use lotus_build_server.Agent.Loop.{is_running}

-- The call wrote a status that is not RUNNING for the run, and the database took it.
abbrev pub settled_by : String → (c : Call) → Result (Reply c) → Bool
settled_by run_id (prisma (PrismaCall.run_update id (finish status message date))) (ok u) =
    if is_running status then false else id == run_id
settled_by run_id _ _ = false

-- Some call of the history did.
unfoldable pub settled : String → History → Bool
settled run_id [] = false
settled run_id (e ∷ h) = settled_by run_id e.call e.reply || settled run_id h

abbrev pub Any : Call → Type 0
Any c = Unit {0}

module _ (run_id : String) where
  pub settled-Extends :
      {h h' : History} → Extends Any h h' → settled run_id h ≡ true → settled run_id h' ≡ true
  unfolding settled
  settled-Extends same s = s
  settled-Extends (more e p x) s =
      rw (settled-Extends x s) (or_true (settled_by run_id e.call e.reply))
    where
      or_true : (b : Bool) → (b || true) ≡ true
      or_true true = refl
      or_true false = refl

  -- Where the action returns a value that is final, the run is settled.
  pub record Settles {A : Type 0} (final : A → Bool) (m : Exec A) : Type 0 where
    pub at : (h : History) (a : A) → (m h).0 ≡ ok a → final a ≡ true → settled run_id (m h).1 ≡ true

  module _ {A B : Type 0} {final : B → Bool} (m : Exec A) (k : A → Exec B) where
    pub Settles-bind_last : ((a : A) → Settles final (k a)) → Settles final (m >>= k)
    Settles-bind_last kk = record {
      at = λ h b e f. let (a, e₁, e₂) = >>=-eq-ok m k h e in rw e₁ ((kk a).at (m h).1 b e₂ f);
    }

    pub Settles-bind_first :
        Settles (λ _. true) m → ((a : A) → Grows Any (k a)) → Settles final (m >>= k)
    Settles-bind_first km kk = record {
      at = λ h b e f.
          let (a, e₁, e₂) = >>=-eq-ok m k h e in
          rw e₁ (settled-Extends ((kk a).at (m h).1) (km.at h a e₁ refl));
    }

  module _ {A : Type 0} {final : A → Bool} where
    pub Settles-if :
        (b : Bool) (m n : Exec A)
        → Settles final m
        → Settles final n
        → Settles final (if b then m else n)
    Settles-if true m n km kn = km
    Settles-if false m n km kn = kn

    handled :
        (r : Result A) (handler : Thrown → Exec A) (h : History)
        → ((a : A) → r ≡ ok a → final a ≡ true → settled run_id h ≡ true)
        → ((e : Thrown) → Settles final (handler e))
        → (a : A) → (handle r handler h).0 ≡ ok a
        → final a ≡ true
        → settled run_id (handle r handler h).1 ≡ true
    handled (ok b) handler h km kh a e f = km a e f
    handled (throw t) handler h km kh a e f = (kh t).at h a e f

    pub Settles-try_catch :
        (m : Exec A) (handler : Thrown → Exec A)
        → Settles final m
        → ((e : Thrown) → Settles final (handler e))
        → Settles final (try_catch m handler)
    Settles-try_catch m handler km kh = record {
      at = λ h a e f. let (r, h') = m h in handled r handler h' (km.at h) kh a e f;
    }

    kept :
        (r : Result A) (r' : Result (Unit {0})) (h h' : History)
        → ((a : A) → r ≡ ok a → final a ≡ true → settled run_id h ≡ true)
        → Extends Any h h'
        → (a : A) → (continue r' (λ _ h''. (r, h'')) h').0 ≡ ok a
        → final a ≡ true
        → settled run_id (continue r' (λ _ h''. (r, h'')) h').1 ≡ true
    kept r (ok u) h h' km x a e f = settled-Extends x (km a e f)
    kept r (throw t) h h' km x a e f = cc

    pub Settles-try_finally :
        (m : Exec A) (last : Exec (Unit {0}))
        → Settles final m
        → Grows Any last
        → Settles final (try_finally m last)
    Settles-try_finally m last km kl = record {
      at = λ h a e f.
          let (r, h') = m h in
          let (r', h'') = last h' in kept r r' h' h'' (km.at h) (kl.at h') a e f;
    }
