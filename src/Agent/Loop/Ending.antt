-- ===== src/Agent/Loop/Ending.antt =====
-- How an iteration of src/agent/agent-loop.service.ts ends a run that is cancelled.
use mathlib.Core.Path.{subst}
use lotus_build_server.Base.{ℕ, String, ◌<>◌, ◌≡◌, refl, none, List, [], ◌∷◌}
use lotus_build_server.World.Data.{Date, AgentRunStatus, MessageParam, EventBody, finish, event}
use lotus_build_server.World.Calls.{
  Call, PrismaCall, RedisCall, FirestoreCall, Document, prisma, redis, firestore,
  agent_runs_total_inc,
}
use lotus_build_server.World.Exec.{World, Result, ok, throw, Entry, History, perform, act}
use lotus_build_server.World.Grows.{Extends, same, more}
use lotus_build_server.World.Triple.{
  Triple, Outcome, Triple-bind, Triple-act, Triple-new_date, Triple-pure,
}
use lotus_build_server.Agent.Publish.{emit, channel_prefix}
use lotus_build_server.Agent.Sandbox.{SandboxHandle}
use lotus_build_server.Agent.Loop.{Config, is_cancelled, cancel_key, round, end_run, finish_run}

-- The calls that end a run as cancelled, each on this run.
abbrev pub IsCancelling : String → Call → Type 0
IsCancelling run_id (prisma (PrismaCall.run_update id (finish status message date))) =
    (id ≡ run_id) × (status ≡ AgentRunStatus.cancelled) × (message ≡ none)
IsCancelling run_id
      (firestore (FirestoreCall.merge path (Document.run_update (finish status message date)))) =
    (path ≡ "agentRuns" ∷ run_id ∷ []) × (status ≡ AgentRunStatus.cancelled) × (message ≡ none)
IsCancelling run_id (agent_runs_total_inc status) = status ≡ AgentRunStatus.cancelled
IsCancelling run_id (redis (RedisCall.publish channel payload)) =
    (channel ≡ channel_prefix <> run_id)
    × (payload ≡ event (record { run_id = run_id; body = EventBody.run_cancelled }))
IsCancelling run_id _ = ⊥

-- The history behind the check of the key, which found it.
abbrev pub seen : String → History → History
seen run_id h = record { call = redis (RedisCall.exists (cancel_key run_id)); reply = ok 1 } ∷ h

-- Directly behind the check the database was asked to end the run as CANCELLED, with this reply, and all
-- calls behind that are of the run's end too.
abbrev pub CancelledWith : String → History → Result (Unit {0}) → History → Type 0
CancelledWith run_id h reply h' =
    (at : Date) × Extends (IsCancelling run_id)
      (record {
        call = prisma (PrismaCall.run_update run_id (finish AgentRunStatus.cancelled none at));
        reply = reply;
      }
        ∷ seen run_id h)
      h'

module _ (w : World) (c : Config) (run_id : String) (h : History) where
  abbrev Taken : History → Type 0
  Taken = CancelledWith run_id h (ok tt)

  abbrev Attempted : History → Type 0
  Attempted h' = (reply : Result (Unit {0})) × CancelledWith run_id h reply h'

  first_call :
      (e : Entry) (h' : History)
      → h' ≡ seen run_id h
      → Extends (IsCancelling run_id) (e ∷ seen run_id h) (e ∷ h')
  first_call e h' p =
      subst (λ (h'' : History). Extends (IsCancelling run_id) (e ∷ h'') (e ∷ h')) p same

  later_call :
      (call : Call) → IsCancelling run_id call → Triple Taken (act w call) (λ u. Taken) Attempted
  later_call call p =
      Triple-act w call (λ h' a (at, x). (at, more _ p x))
        (λ h' e (at, x). (ok tt, (at, more _ p x)))

  finish_run_takes :
      Triple
        (λ h'. h' ≡ seen run_id h)
        (finish_run w run_id AgentRunStatus.cancelled none)
        (λ u. Taken)
        Attempted
  unfolding finish_run
  finish_run_takes =
      Triple-bind _ _ (Triple-new_date w {Q = λ at h'. h' ≡ seen run_id h} (λ h' n p. p)) λ at.
        Triple-bind _ _
          (Triple-act w _ {Q = λ u. Taken} (λ h' a p. (at, first_call _ h' p))
            (λ h' e p. (throw e, (at, first_call _ h' p))))
          λ u. Triple-bind _ _ (later_call _ (refl, refl, refl)) λ u. later_call _ refl

  end_run_takes :
      Triple
        (λ h'. h' ≡ seen run_id h)
        (end_run w c run_id AgentRunStatus.cancelled EventBody.run_cancelled)
        (λ next h'. (next ≡ none) × Taken h')
        Attempted
  unfolding end_run emit
  end_run_takes =
      Triple-bind _ _ finish_run_takes
        λ u. Triple-bind _ _ (later_call _ (refl, refl)) λ u. Triple-pure none (λ h' t. (refl, t))

  -- Where the cancellation key exists, the first call of an iteration behind that check asks the database to
  -- end this run as CANCELLED, and all further calls mirror, count or publish just that: the model is not
  -- asked, no tool runs and no step is recorded. Where the iteration returns, the database took the update
  -- and the loop does not go on.
  pub round_cancelled :
      (handle : SandboxHandle) (index : ℕ) (messages : List MessageParam)
      → w.reply (redis (RedisCall.exists (cancel_key run_id))) h ≡ ok 1
      → Outcome
          (λ next h'. (next ≡ none) × CancelledWith run_id h (ok tt) h')
          (λ h'. (reply : Result (Unit {0})) × CancelledWith run_id h reply h')
          (round w c run_id handle index messages h).0
          (round w c run_id handle index messages h).1
  unfolding round is_cancelled perform
  round_cancelled handle index messages e = rw e (end_run_takes.at (seen run_id h) refl)
