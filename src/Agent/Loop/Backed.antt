-- ===== src/Agent/Loop/Backed.antt =====
-- Which updates of a run src/agent/agent-loop.service.ts has made in the database when it mirrors them, with
-- one rule for each way to build an action.
use lotus_build_server.Base.{String, ◌≡◌, sym, Bool, true, false, List, [], ◌∷◌, if◌then◌else◌}
use mathlib.Core.Path.{subst}
use lotus_build_server.World.Data.{RunUpdate}
use lotus_build_server.World.Calls.{
  Call, Reply, PrismaCall, FirestoreCall, Document, prisma, firestore,
}
use lotus_build_server.World.Exec.{
  Thrown, Result, ok, throw, History, Exec, pure, raise, handle, try_catch, try_finally, continue,
  ◌>>=◌, try_finally_history,
}
use lotus_build_server.World.Grows.{Grows, Extends, same, more}
use lotus_build_server.World.Triple.{Triple, Outcome}

-- The database took this update of the run at this path.
abbrev TakenBy : List String → RunUpdate → (c : Call) → Result (Reply c) → Type 0
TakenBy path u (prisma (PrismaCall.run_update id u')) (ok t) =
    (path ≡ "agentRuns" ∷ id ∷ []) × (u ≡ u')
TakenBy path u _ r = ⊥

-- It was the last call.
abbrev pub TakenLast : List String → RunUpdate → History → Type 0
TakenLast path u [] = ⊥
TakenLast path u (e ∷ h) = TakenBy path u e.call e.reply

-- A partial update of a run's document comes right behind the same update of its row.
abbrev pub Follows : Call → History → Type 0
Follows (firestore (FirestoreCall.merge path (Document.run_update u))) h = TakenLast path u h
Follows _ h = Unit

-- Each partial update of a run's document in the history does.
unfoldable pub IsBacked : History → Type 0
IsBacked [] = Unit
IsBacked (e ∷ h) = Follows e.call h × IsBacked h

-- A call that is no such update.
abbrev pub IsSilent : Call → Type 0
IsSilent c = (h : History) → Follows c h

IsBacked-Extends : {h h' : History} → Extends IsSilent h h' → IsBacked h → IsBacked h'
unfolding IsBacked
IsBacked-Extends same b = b
IsBacked-Extends (more {h'} e p x) b = (p h', IsBacked-Extends x b)

-- The action keeps this, whatever it returns or throws.
pub record Keeps {A : Type 0} (m : Exec A) : Type 0 where
  pub at : (h : History) → IsBacked h → IsBacked (m h).1

module _ {A : Type 0} where
  pub Keeps-Grows : {m : Exec A} → Grows IsSilent m → Keeps m
  Keeps-Grows k = record { at = λ h b. IsBacked-Extends (k.at h) b }

  pub Keeps-pure : (a : A) → Keeps (pure a)
  Keeps-pure a = record { at = λ h b. b }

  pub Keeps-raise : (e : Thrown) → Keeps {A = A} (raise e)
  Keeps-raise e = record { at = λ h b. b }

  pub Keeps-if : (b : Bool) (m n : Exec A) → Keeps m → Keeps n → Keeps (if b then m else n)
  Keeps-if true m n km kn = km
  Keeps-if false m n km kn = kn

  kept_handled :
      (r : Result A) (handler : Thrown → Exec A) (h : History)
      → IsBacked h
      → ((e : Thrown) → Keeps (handler e))
      → IsBacked (handle r handler h).1
  kept_handled (ok a) handler h b k = b
  kept_handled (throw e) handler h b k = (k e).at h b

  pub Keeps-try_catch :
      (m : Exec A) (handler : Thrown → Exec A)
      → Keeps m
      → ((e : Thrown) → Keeps (handler e))
      → Keeps (try_catch m handler)
  Keeps-try_catch m handler km kh = record {
    at = λ h b. kept_handled (m h).0 handler (m h).1 (km.at h b) kh;
  }

  pub Keeps-try_finally :
      (m : Exec A) (last : Exec (Unit {0})) → Keeps m → Keeps last → Keeps (try_finally m last)
  Keeps-try_finally m last km kl = record {
    at = λ h b.
        subst (λ (h' : History). IsBacked h') (sym (try_finally_history m last h))
          (kl.at (m h).1 (km.at h b));
  }

  either : (r : Result A) (h : History) → Outcome (λ a. IsBacked) IsBacked r h → IsBacked h
  either (ok a) h b = b
  either (throw e) h b = b

  pub Keeps-Triple : {m : Exec A} → Triple IsBacked m (λ a. IsBacked) IsBacked → Keeps m
  Keeps-Triple {m = m} k = record { at = λ h b. either (m h).0 (m h).1 (k.at h b) }

module _ {A B : Type 0} where
  kept_continued :
      (r : Result A) (f : A → Exec B) (h : History)
      → IsBacked h
      → ((a : A) → Keeps (f a))
      → IsBacked (continue r f h).1
  kept_continued (ok a) f h b k = (k a).at h b
  kept_continued (throw e) f h b k = b

  pub Keeps-bind :
      (m : Exec A) (f : A → Exec B) → Keeps m → ((a : A) → Keeps (f a)) → Keeps (m >>= f)
  Keeps-bind m f km kf = record { at = λ h b. kept_continued (m h).0 f (m h).1 (km.at h b) kf }
