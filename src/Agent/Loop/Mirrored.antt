-- ===== src/Agent/Loop/Mirrored.antt =====
-- The order in which src/agent/agent-loop.service.ts updates a run in the database and in Firestore.
use lotus_build_server.Base.{
  ℕ, zero, suc, ◌+◌, String, refl, Option, none, some, List, [], ◌∷◌, ◌++◌,
}
use lotus_build_server.World.Data.{
  AgentRun, AgentRunStatus, AgentStepType, EventBody, Block, text, tool_use, other, MessageParam,
  Response, RunUpdate, sandbox, finish, ToolResult,
}
use lotus_build_server.World.Calls.{Call, PrismaCall, RedisCall, SandboxCall, prisma, redis}
use lotus_build_server.World.Exec.{Thrown, Result, ok, throw, History, World, perform}
use lotus_build_server.World.Grows.{Grows-bind, Grows-pure, Grows-perform, Grows-act}
use lotus_build_server.World.Triple.{Triple-bind, Triple-act, Triple-new_date}
use lotus_build_server.Agent.Publish.{emit, complete}
use lotus_build_server.Agent.Sandbox
use lotus_build_server.Agent.Sandbox.{SandboxHandle}
use lotus_build_server.Agent.Loop.{
  Config, ToolUse, set_run_sandbox, finish_run, record_step, scan_content, run_tool_use,
  run_tool_uses, end_run, use_tools, answer, round, iterate, run_loop, on_error, work, kill_sandbox,
  cleanup, attempt, run_job, execute_found, execute,
}
use lotus_build_server.Agent.Loop.Quiet.{emit-Quiet, is_cancelled-Quiet, tools-Quiet}
use lotus_build_server.Agent.Loop.Backed.{
  TakenLast, IsBacked, IsSilent, Keeps, Keeps-Grows, Keeps-pure, Keeps-raise, Keeps-if,
  Keeps-try_catch, Keeps-try_finally, Keeps-Triple, Keeps-bind,
}

redis-IsSilent : (c : RedisCall) → IsSilent (redis c)
redis-IsSilent c h = tt

sandbox-IsSilent : (c : SandboxCall) → IsSilent (Call.sandbox c)
sandbox-IsSilent c h = tt

module _ (w : World) where
  -- Backed, with this update as the last call that the database took.
  abbrev Taken : String → RunUpdate → History → Type 0
  Taken run_id u h = IsBacked h × TakenLast ("agentRuns" ∷ run_id ∷ []) u h

  set_run_sandbox-Keeps : (run_id sandbox_id : String) → Keeps (set_run_sandbox w run_id sandbox_id)
  unfolding set_run_sandbox IsBacked
  set_run_sandbox-Keeps run_id sandbox_id = Keeps-Triple (
      Triple-bind _ _
        (Triple-act w _ {Q = λ u. Taken run_id (sandbox sandbox_id)}
          (λ h a b. ((tt, b), (refl, refl))) (λ h e b. (tt, b)))
        λ u. Triple-act w _ (λ h a p. (p.1, p.0)) (λ h e p. (p.1, p.0)))

  finish_run-Keeps :
      (run_id : String) (status : AgentRunStatus) (message : Option String)
      → Keeps (finish_run w run_id status message)
  unfolding finish_run IsBacked
  finish_run-Keeps run_id status message = Keeps-Triple (
      Triple-bind _ _ (Triple-new_date w {Q = λ at. IsBacked} (λ h n b. b)) λ at.
        Triple-bind _ _
          (Triple-act w _ {Q = λ u. Taken run_id (finish status message at)}
            (λ h a b. ((tt, b), (refl, refl))) (λ h e b. (tt, b)))
          λ u.
            Triple-bind _ _
              (Triple-act w _ {Q = λ u'. IsBacked} (λ h a p. (p.1, p.0)) (λ h e p. (p.1, p.0)))
              λ u'. Triple-act w _ (λ h a b. (tt, b)) (λ h e b. (tt, b)))

  emit-Keeps : (run_id : String) (body : EventBody) → Keeps (emit w run_id body)
  emit-Keeps run_id body =
      Keeps-Grows (emit-Quiet IsSilent redis-IsSilent sandbox-IsSilent w run_id body)

  record_step-Keeps :
      (run_id : String) (index : ℕ) (type : AgentStepType) (name : Option String) (content : String)
      → Keeps (record_step w run_id index type name content)
  unfolding record_step
  record_step-Keeps run_id index type name content =
      Keeps-Grows (Grows-bind _ _ (Grows-perform w _ (λ h. tt)) λ created. Grows-act w _ (λ h. tt))

  scan_content-Keeps :
      (run_id : String) (blocks : List Block) (index : ℕ) (uses : List ToolUse)
      → Keeps (scan_content w run_id blocks index uses)
  unfolding scan_content
  scan_content-Keeps run_id [] index uses = Keeps-pure _
  scan_content-Keeps run_id (text s ∷ blocks) index uses =
      Keeps-bind _ _ (record_step-Keeps run_id index AgentStepType.assistant none s) λ _.
        Keeps-bind _ _ (emit-Keeps run_id (EventBody.assistant_text s))
          λ _. scan_content-Keeps run_id blocks (index + 1) uses
  scan_content-Keeps run_id (tool_use id name input ∷ blocks) index uses =
      scan_content-Keeps run_id blocks index
        (uses ++ record { id = id; name = name; input = input } ∷ [])
  scan_content-Keeps run_id (other ∷ blocks) index uses =
      scan_content-Keeps run_id blocks index uses

  run_tool_use-Keeps :
      (run_id : String) (handle : SandboxHandle) (use_ : ToolUse) (index : ℕ)
      → Keeps (run_tool_use w run_id handle use_ index)
  unfolding run_tool_use
  run_tool_use-Keeps run_id handle use_ index =
      Keeps-bind _ _ (record_step-Keeps run_id _ _ _ _) λ _.
        Keeps-bind _ _ (emit-Keeps run_id _) λ _.
          Keeps-bind _ _
            (Keeps-Grows (tools-Quiet IsSilent redis-IsSilent sandbox-IsSilent w handle use_))
            λ result.
              Keeps-bind _ _ (record_step-Keeps run_id _ _ _ _)
                λ _. Keeps-bind _ _ (emit-Keeps run_id _) λ _. Keeps-pure _

  run_tool_uses-Keeps :
      (run_id : String) (handle : SandboxHandle) (uses : List ToolUse) (index : ℕ)
      (results : List ToolResult)
      → Keeps (run_tool_uses w run_id handle uses index results)
  unfolding run_tool_uses
  run_tool_uses-Keeps run_id handle [] index results = Keeps-pure _
  run_tool_uses-Keeps run_id handle (use_ ∷ uses) index results =
      Keeps-bind _ _ (run_tool_use-Keeps run_id handle use_ index)
        λ result. run_tool_uses-Keeps run_id handle uses (index + 2) (results ++ result ∷ [])

module _ (w : World) (c : Config) where
  end_run-Keeps :
      (run_id : String) (status : AgentRunStatus) (body : EventBody)
      → Keeps (end_run w c run_id status body)
  unfolding end_run
  end_run-Keeps run_id status body =
      Keeps-bind _ _ (finish_run-Keeps w run_id status none)
        λ _. Keeps-bind _ _ (emit-Keeps w run_id body) λ _. Keeps-pure none

  answer-Keeps :
      (run_id : String) (handle : SandboxHandle) (index : ℕ) (messages : List MessageParam)
      (response : Response)
      → Keeps (answer w c run_id handle index messages response)
  unfolding answer use_tools
  answer-Keeps run_id handle index messages response =
      Keeps-bind _ _ (scan_content-Keeps w run_id response.content index []) λ scanned.
        Keeps-if _ _ _ (end_run-Keeps run_id _ _)
          (Keeps-bind _ _ (run_tool_uses-Keeps w run_id handle _ _ []) λ ran. Keeps-pure _)

  round-Keeps :
      (run_id : String) (handle : SandboxHandle) (index : ℕ) (messages : List MessageParam)
      → Keeps (round w c run_id handle index messages)
  unfolding round
  round-Keeps run_id handle index messages =
      Keeps-bind _ _
        (Keeps-Grows (is_cancelled-Quiet IsSilent redis-IsSilent sandbox-IsSilent w run_id))
        λ stop. Keeps-if _ _ _ (end_run-Keeps run_id _ _) (
          Keeps-bind _ _ (Keeps-Grows (Grows-perform w _ (λ h. tt)))
            λ response. answer-Keeps run_id handle index messages response)

  iterate-Keeps :
      (run_id : String) (handle : SandboxHandle) (left index : ℕ) (messages : List MessageParam)
      → Keeps (iterate w c run_id handle left index messages)
  unfolding iterate
  iterate-Keeps run_id handle zero index messages = Keeps-raise _
  iterate-Keeps run_id handle (suc left) index messages =
      Keeps-bind _ _ (round-Keeps run_id handle index messages) (elim [
        | none ↦ Keeps-pure tt
        | some (index', messages') ↦ iterate-Keeps run_id handle left index' messages'
      ])

  work-Keeps :
      (run_id prompt : String) (handle : SandboxHandle) → Keeps (work w c run_id prompt handle)
  unfolding work run_loop
  work-Keeps run_id prompt handle =
      Keeps-bind _ _ (set_run_sandbox-Keeps w run_id handle.sandbox_id) λ _.
        Keeps-bind _ _ (emit-Keeps w run_id _) λ _.
          Keeps-bind _ _ (Keeps-Grows (Grows-perform w _ (λ h. tt)))
            λ index. iterate-Keeps run_id handle c.max_iterations index _

  on_error-Keeps : (run_id : String) (e : Thrown) → Keeps (on_error w c run_id e)
  unfolding on_error
  on_error-Keeps run_id e =
      Keeps-bind _ _ (finish_run-Keeps w run_id _ _) λ _. emit-Keeps w run_id _

  kill_sandbox-Keeps : (created : Option SandboxHandle) → Keeps (kill_sandbox w c created)
  unfolding kill_sandbox Sandbox.kill
  kill_sandbox-Keeps none = Keeps-pure tt
  kill_sandbox-Keeps (some handle) =
      Keeps-try_catch _ _ (Keeps-Grows (Grows-act w _ (λ h. tt))) (λ _. Keeps-pure tt)

  cleanup-Keeps :
      (run_id : String) (created : Option SandboxHandle) → Keeps (cleanup w c run_id created)
  unfolding cleanup complete
  cleanup-Keeps run_id created = Keeps-bind _ _ (kill_sandbox-Keeps created) λ _.
      Keeps-bind _ _ (Keeps-Grows (Grows-act w _ (λ h. tt)))
        λ _. Keeps-Grows (Grows-act w _ (λ h. tt))

  attempt-Keeps :
      (run_id prompt : String) (created : Result SandboxHandle)
      → Keeps (attempt w c run_id prompt created)
  unfolding attempt
  attempt-Keeps run_id prompt (ok handle) =
      Keeps-try_finally _ _
        (Keeps-try_catch _ _ (work-Keeps run_id prompt handle) (on_error-Keeps run_id))
        (cleanup-Keeps run_id (some handle))
  attempt-Keeps run_id prompt (throw e) =
      Keeps-try_finally _ _ (on_error-Keeps run_id e) (cleanup-Keeps run_id none)

  create-Keeps : Keeps (Sandbox.create w c.sandbox_timeout_ms c.command_timeout_ms)
  unfolding Sandbox.create
  create-Keeps =
      Keeps-Grows (Grows-bind _ _ (Grows-perform {P = IsSilent} w _ (λ h. tt)) λ id. Grows-pure _)

  run_job-Keeps : (run_id prompt : String) → Keeps (run_job w c run_id prompt)
  unfolding run_job
  run_job-Keeps run_id prompt = record {
    at = λ h b.
        (attempt-Keeps run_id prompt
            (Sandbox.create w c.sandbox_timeout_ms c.command_timeout_ms h).0).at
          (Sandbox.create w c.sandbox_timeout_ms c.command_timeout_ms h).1 (create-Keeps.at h b);
  }

  execute_found-Keeps :
      (run_id prompt : String) (found : Option AgentRun)
      → Keeps (execute_found w c run_id prompt found)
  unfolding execute_found
  execute_found-Keeps run_id prompt none = Keeps-pure tt
  execute_found-Keeps run_id prompt (some run) =
      Keeps-if _ _ _ (run_job-Keeps run_id prompt) (Keeps-pure tt)

  -- An execution keeps this of the history, on every path of replies and exceptions: each update of a
  -- run's sandbox or status in Firestore comes right behind a call by which the database took the same
  -- update of the same run.
  pub execute-IsBacked :
      (run_id prompt : String) (h : History) → IsBacked h → IsBacked (execute w c run_id prompt h).1
  unfolding execute
  execute-IsBacked run_id prompt h b =
      (Keeps-bind (perform w (prisma (PrismaCall.run_find_unique run_id))) _
          (Keeps-Grows (
            Grows-perform {P = IsSilent} w (prisma (PrismaCall.run_find_unique run_id)) (λ h'. tt)))
          (execute_found-Keeps run_id prompt)).at
        h b
