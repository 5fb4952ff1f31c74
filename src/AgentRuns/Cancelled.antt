-- ===== src/AgentRuns/Cancelled.antt =====
-- When `cancel` of src/agent/agent-runs.service.ts asks the loop to stop.
use lotus_build_server.Base.{
  String, ◌≡◌, refl, ◌∙◌, Bool, false, Option, none, some, List, [], ◌∷◌, ◌++◌, if◌then◌else◌,
  Bool-cases, inl, inr,
}
use lotus_build_server.World.Data.{OrgActor, AgentRun}
use lotus_build_server.World.Calls.{Call, PrismaCall, RedisCall, prisma, redis}
use lotus_build_server.World.Exec.{
  World, Exec, Thrown, Result, ok, throw, History, perform, act, continue, conflict, not_found,
  Result-cases,
}
use lotus_build_server.World.Grows.{Grows, Extends, same, more, Grows-act}
use lotus_build_server.Agent.Loop.{request_cancellation, cancel_key, is_running}
use lotus_build_server.AgentRuns.{cancel, cancel_running, get_by_id, run_where}

abbrev key_set_by : Call → List String
key_set_by (redis (RedisCall.set key value seconds)) = key ∷ []
key_set_by _ = []

-- The keys that were set in Redis, or tried to be, the newest first.
unfoldable pub keys_set : History → List String
keys_set [] = []
keys_set (e ∷ h) = key_set_by e.call ++ keys_set h

abbrev pub running_run : Option AgentRun → Bool
running_run none = false
running_run (some run) = is_running run.status

abbrev NoKey : Call → Type 0
NoKey c = key_set_by c ≡ []

keys_set-Extends : {h h' : History} → Extends NoKey h h' → keys_set h' ≡ keys_set h
unfolding keys_set
keys_set-Extends same = refl
keys_set-Extends (more e p x) = rw p (keys_set-Extends x)

keys_set-continue :
    {A B : Type 0} (r : Result A) (k : A → Exec B) (h : History)
    → ((a : A) → Grows NoKey (k a))
    → keys_set (continue r k h).1 ≡ keys_set h
keys_set-continue (ok a) k h kk = keys_set-Extends ((kk a).at h)
keys_set-continue (throw e) k h kk = refl

-- Why a cancellation is refused, if it is.
abbrev pub refusal : Option AgentRun → Option Thrown
refusal none = some (not_found "Agent run not found")
refusal (some run) =
    if is_running run.status then none else some (conflict "Run is not currently running")

-- The refusal is what is thrown.
abbrev pub IsRefused : Option Thrown → Result (Unit {0}) → Type 0
IsRefused none r = Unit
IsRefused (some e) r = r ≡ throw e

module _ (w : World) (organization_id run_id : String) (actor : OrgActor) where
  keys_set-request_cancellation :
      (h : History) → keys_set (request_cancellation w run_id h).1 ≡ cancel_key run_id ∷ keys_set h
  unfolding request_cancellation keys_set act perform
  keys_set-request_cancellation h =
      elim (Result-cases (w.reply (redis (RedisCall.set (cancel_key run_id) "1" 86400)) h)) [
        | inl (u, e) ↦ rw e refl
        | inr (t, e) ↦ rw e refl
      ]

  keys_set-cancel_running :
      (h : History)
      → keys_set (cancel_running w organization_id run_id actor h).1
        ≡ cancel_key run_id ∷ keys_set h
  unfolding cancel_running
  keys_set-cancel_running h =
      keys_set-continue (request_cancellation w run_id h).0 _ (request_cancellation w run_id h).1
        (λ _. Grows-act w _ refl)
      ∙ keys_set-request_cancellation h

  -- Where the database answers the lookup, `cancel` sets the run's cancellation key, and no other, just
  -- where it finds a run that is RUNNING; otherwise it throws a 404 for a run that it does not find and a
  -- 409 for one that has ended.
  pub keys_set-cancel :
      (h : History) (found : Option AgentRun)
      → w.reply (prisma (PrismaCall.run_find_first (run_where organization_id run_id actor))) h
        ≡ ok found
      → (keys_set (cancel w organization_id run_id actor h).1
          ≡ (if running_run found then cancel_key run_id ∷ [] else []) ++ keys_set h)
        × IsRefused (refusal found) (cancel w organization_id run_id actor h).0
  unfolding cancel get_by_id keys_set perform
  keys_set-cancel h none e = rw e (refl, refl)
  keys_set-cancel h (some run) e = rw e (elim (Bool-cases (is_running run.status)) [
    | inl running ↦ rw running (keys_set-cancel_running _, tt)
    | inr ended ↦ rw ended (refl, refl)
  ])
