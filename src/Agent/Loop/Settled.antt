-- ===== src/Agent/Loop/Settled.antt =====
-- The status that a job of src/agent/agent-loop.service.ts leaves in the database.
use lotus_build_server.Base.{
  ℕ, zero, suc, String, ◌≡◌, refl, sym, Bool, true, false, Option, none, some, List, [], ◌∷◌, ◌++◌,
  eq_iff, if◌then◌else◌,
}
use mathlib.Core.Path.{subst}
use lotus_build_server.World.Data.{
  AgentRun, AgentRunStatus, EventBody, MessageParam, tool_results, Response, finish,
}
use lotus_build_server.World.Calls.{PrismaCall, prisma, messages_create}
use lotus_build_server.World.Exec.{
  Thrown, Result, ok, throw, History, World, Exec, pure, handle, continue, >>=-eq-ok, perform, act,
  new_date,
}
use lotus_build_server.World.Grows.{Grows, Grows-pure, grows_rules}
use lotus_build_server.World.Returns.{ok-injective}
use lotus_build_server.Agent.Publish.{emit, complete}
use lotus_build_server.Agent.Sandbox
use lotus_build_server.Agent.Sandbox.{SandboxHandle}
use lotus_build_server.Agent.Loop.{
  Config, ToolUse, Next, is_running, finish_run, end_run, scan_content, run_tool_uses, use_tools,
  answer, is_cancelled, request, round, iterate, run_loop, set_run_sandbox, work, on_error,
  kill_sandbox, cleanup, attempt, run_job, execute_found, execute,
}
use lotus_build_server.Agent.Loop.Settling.{
  settled, Any, settled-Extends, Settles, Settles-bind_last, Settles-bind_first, Settles-if,
  Settles-try_catch, Settles-try_finally,
}

is_end : Next → Bool
is_end none = true
is_end (some next) = false

module _ (w : World) (c : Config) (run_id : String) where
  written :
      (status : AgentRunStatus) (message : Option String) (date : ℕ) (h : History)
      (r : Result (Unit {0}))
      → is_running status ≡ false
      → (a : Unit {0}) → r ≡ ok a
      → settled run_id (
          record {
            call = prisma (PrismaCall.run_update run_id (finish status message date));
            reply = r;
          }
          ∷ h)
        ≡ true
  unfolding settled
  written status message date h (ok u) ended a e =
      rw ended (rw ((eq_iff run_id run_id).1 refl) refl)
  written status message date h (throw t) ended a e = cc

  update-Settles :
      (status : AgentRunStatus) (message : Option String) (date : ℕ)
      → is_running status ≡ false
      → Settles run_id
          (λ _. true)
          (act w (prisma (PrismaCall.run_update run_id (finish status message date))))
  unfolding act perform
  update-Settles status message date ended =
      Settles-bind_first run_id
        (perform w (prisma (PrismaCall.run_update run_id (finish status message date)))) _
        (record { at = λ h a e f. written status message date h _ ended a e }) λ _. Grows-pure tt

  finish_run-Settles :
      (status : AgentRunStatus) (message : Option String)
      → is_running status ≡ false
      → Settles run_id (λ _. true) (finish_run w run_id status message)
  unfolding finish_run
  finish_run-Settles status message ended = Settles-bind_last run_id (new_date w) _ λ date.
      Settles-bind_first run_id _ _ (update-Settles status message date ended)
        λ _. search grows_rules

  emit-Any : (body : EventBody) → Grows Any (emit w run_id body)
  unfolding emit
  emit-Any body = search grows_rules

  end_run-Settles :
      (status : AgentRunStatus) (body : EventBody)
      → is_running status ≡ false
      → Settles run_id is_end (end_run w c run_id status body)
  unfolding end_run
  end_run-Settles status body ended =
      Settles-bind_first run_id _ _ (finish_run-Settles status none ended)
        λ _. search (grows_rules, emit-Any)

  goes_on-Settles :
      (index : ℕ) (messages : List MessageParam)
      → Settles run_id is_end (pure (some (index, messages)))
  unfolding is_end
  goes_on-Settles index messages = record {
    at = λ h a e f. let same : some (index, messages) ≡ a = ok-injective _ _ e in cc;
  }

  use_tools-Settles :
      (handle : SandboxHandle) (uses : List ToolUse) (index : ℕ) (messages : List MessageParam)
      → Settles run_id is_end (use_tools w c run_id handle uses index messages)
  unfolding use_tools is_end
  use_tools-Settles handle uses index messages =
      Settles-bind_last run_id (run_tool_uses w run_id handle uses index []) _
        λ ran. goes_on-Settles ran.0 (messages ++ tool_results ran.1 ∷ [])

  answer-Settles :
      (handle : SandboxHandle) (index : ℕ) (messages : List MessageParam) (response : Response)
      → Settles run_id is_end (answer w c run_id handle index messages response)
  unfolding answer
  answer-Settles handle index messages response =
      Settles-bind_last run_id (scan_content w run_id response.content index []) _ λ scanned.
        Settles-if run_id _ _ _
          (end_run-Settles AgentRunStatus.completed EventBody.run_completed refl)
          (use_tools-Settles handle scanned.1 scanned.0 _)

  round-Settles :
      (handle : SandboxHandle) (index : ℕ) (messages : List MessageParam)
      → Settles run_id is_end (round w c run_id handle index messages)
  unfolding round
  round-Settles handle index messages =
      Settles-bind_last run_id (is_cancelled w run_id) _ λ stopped.
        Settles-if run_id _ _ _
          (end_run-Settles AgentRunStatus.cancelled EventBody.run_cancelled refl)
          (Settles-bind_last run_id (perform w (messages_create (request w c messages))) _
            (answer-Settles handle index messages))

  ended_or_on :
      (k : Next → Exec (Unit {0}))
      → Grows Any (k none)
      → ((index : ℕ) (messages : List MessageParam)
          → Settles run_id (λ _. true) (k (some (index, messages))))
      → (next : Next) (h : History) → (is_end next ≡ true → settled run_id h ≡ true)
      → (u : Unit {0}) → (k next h).0 ≡ ok u
      → settled run_id (k next h).1 ≡ true
  unfolding is_end
  ended_or_on k at_end goes_on none h before u e =
      settled-Extends run_id (at_end.at h) (before refl)
  ended_or_on k at_end goes_on (some (index, messages)) h before u e =
      (goes_on index messages).at h u e refl

  iterate-Settles :
      (box : SandboxHandle) (left index : ℕ) (messages : List MessageParam)
      → Settles run_id (λ _. true) (iterate w c run_id box left index messages)
  unfolding iterate
  iterate-Settles box zero index messages = record { at = λ h a e f. cc }
  iterate-Settles box (suc left) index messages = record {
    at = λ h u e f.
        let (next, e₁, e₂) = >>=-eq-ok (round w c run_id box index messages) _ h e in
        rw e₁ (
          ended_or_on
            (λ n. elim n [ none ↦ pure tt | some (i, m) ↦ iterate w c run_id box left i m ])
            (Grows-pure tt) (λ i m. iterate-Settles box left i m) next
            (round w c run_id box index messages h).1
            ((round-Settles box index messages).at h next e₁) u e₂);
  }

  run_loop-Settles :
      (prompt : String) (box : SandboxHandle)
      → Settles run_id (λ _. true) (run_loop w c run_id prompt box)
  unfolding run_loop
  run_loop-Settles prompt box =
      Settles-bind_last run_id (emit w run_id (EventBody.run_started prompt)) _ λ _.
        Settles-bind_last run_id (perform w (prisma (PrismaCall.step_count run_id))) _
          λ index. iterate-Settles box c.max_iterations index _

  work-Settles :
      (prompt : String) (box : SandboxHandle)
      → Settles run_id (λ _. true) (work w c run_id prompt box)
  unfolding work
  work-Settles prompt box =
      Settles-bind_last run_id (set_run_sandbox w run_id box.sandbox_id) _
        λ _. run_loop-Settles prompt box

  on_error-Settles : (e : Thrown) → Settles run_id (λ _. true) (on_error w c run_id e)
  unfolding on_error
  on_error-Settles e =
      Settles-bind_first run_id _ _ (finish_run-Settles AgentRunStatus.failed _ refl)
        λ _. emit-Any _

  kill_sandbox-Any : (box : Option SandboxHandle) → Grows Any (kill_sandbox w c box)
  unfolding kill_sandbox Sandbox.kill
  kill_sandbox-Any none = Grows-pure tt
  kill_sandbox-Any (some box) = search grows_rules

  cleanup-Any : (box : Option SandboxHandle) → Grows Any (cleanup w c run_id box)
  unfolding cleanup complete
  cleanup-Any box = search (grows_rules, kill_sandbox-Any)

  attempt-Settles :
      (prompt : String) (created : Result SandboxHandle)
      → Settles run_id (λ _. true) (attempt w c run_id prompt created)
  unfolding attempt
  attempt-Settles prompt (ok box) =
      Settles-try_finally run_id _ _
        (Settles-try_catch run_id _ _ (work-Settles prompt box) on_error-Settles)
        (cleanup-Any (some box))
  attempt-Settles prompt (throw e) =
      Settles-try_finally run_id _ _ (on_error-Settles e) (cleanup-Any none)

  run_job-Settles : (prompt : String) → Settles run_id (λ _. true) (run_job w c run_id prompt)
  unfolding run_job
  run_job-Settles prompt = record {
    at = λ h.
        let (created, h') = Sandbox.create w c.sandbox_timeout_ms c.command_timeout_ms h in
        (attempt-Settles prompt created).at h';
  }

  running_settled :
      (prompt : String) (h : History) (run : AgentRun) (u : Unit {0})
      → is_running run.status ≡ true
      → (execute_found w c run_id prompt (some run) h).0 ≡ ok u
      → settled run_id (execute_found w c run_id prompt (some run) h).1 ≡ true
  unfolding execute_found
  running_settled prompt h run u running =
      let job = run_job w c run_id prompt in
      subst
        (λ (b : Bool).
          ((if b then job else pure tt) h).0 ≡ ok u
          → settled run_id ((if b then job else pure tt) h).1 ≡ true)
        (sym running) (λ e. (run_job-Settles prompt).at h u e refl)

  -- Where the run is found RUNNING and its job returns, whatever the services replied or threw on the
  -- way, the history behind it holds an update of this run to a status that is not RUNNING, which the
  -- database took.
  pub execute-settled :
      (prompt : String) (h : History) (run : AgentRun) (u : Unit {0})
      → w.reply (prisma (PrismaCall.run_find_unique run_id)) h ≡ ok (some run)
      → is_running run.status ≡ true
      → (execute w c run_id prompt h).0 ≡ ok u
      → settled run_id (execute w c run_id prompt h).1 ≡ true
  unfolding execute perform
  execute-settled prompt h run u found running returned =
      let k = execute_found w c run_id prompt in
      subst
        (λ (r : Result (Option AgentRun)).
          let h' = record { call = prisma (PrismaCall.run_find_unique run_id); reply = r } ∷ h in
          (continue r k h').0 ≡ ok u → settled run_id (continue r k h').1 ≡ true)
        (sym found) (λ e. running_settled prompt _ run u running e) returned
