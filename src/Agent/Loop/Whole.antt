-- ===== src/Agent/Loop/Whole.antt =====
-- The calls of a whole execution in src/agent/agent-loop.service.ts, for every property of calls that holds
-- of the calls outside a sandbox, of the end of a sandbox, and of what the tools do in the run's sandbox.
use lotus_build_server.Base.{
  ℕ, zero, suc, ◌+◌, String, ◌≡◌, refl, Bool, true, false, Option, none, some, List, [], ◌∷◌, ◌++◌,
}
use lotus_build_server.World.Data.{
  Block, text, tool_use, other, MessageParam, Response, AgentRunStatus, AgentStepType, EventBody,
  ToolResult,
}
use lotus_build_server.World.Calls.{Call, SandboxCall, sandbox}
use lotus_build_server.World.Exec.{Thrown, Result, ok, throw, World}
use lotus_build_server.World.Grows.{
  Grows, Grows-weaken, Grows-bind, Grows-if, Grows-pure, Grows-raise, Grows-perform, Grows-act,
  Grows-new_date, Grows-try_catch, Grows-try_finally,
}
use lotus_build_server.Agent.Publish.{emit, complete}
use lotus_build_server.Agent.Sandbox
use lotus_build_server.Agent.Sandbox.{SandboxHandle}
use lotus_build_server.Agent.Tools.Confined.{IsConfined, execute-IsConfined}
use lotus_build_server.Agent.Loop.{
  Config, ToolUse, is_cancelled, set_run_sandbox, finish_run, record_step, scan_content,
  run_tool_use, run_tool_uses, end_run, use_tools, answer, round, iterate, run_loop, on_error, work,
  kill_sandbox, cleanup, attempt,
}

abbrev pub is_sandbox : Call → Bool
is_sandbox (sandbox c) = true
is_sandbox _ = false

module _ (P : Call → Type 0) (outside : (c : Call) → is_sandbox c ≡ false → P c) (w : World)
    (run_id : String) where
  emit-Whole : (body : EventBody) → Grows P (emit w run_id body)
  unfolding emit
  emit-Whole body = Grows-act w _ (outside _ refl)

  record_step-Whole :
      (index : ℕ) (type : AgentStepType) (name : Option String) (content : String)
      → Grows P (record_step w run_id index type name content)
  unfolding record_step
  record_step-Whole index type name content =
      Grows-bind _ _ (Grows-perform w _ (outside _ refl)) λ created. Grows-act w _ (outside _ refl)

  finish_run-Whole :
      (status : AgentRunStatus) (message : Option String)
      → Grows P (finish_run w run_id status message)
  unfolding finish_run
  finish_run-Whole status message = Grows-bind _ _ (Grows-new_date w) λ at.
      Grows-bind _ _ (Grows-act w _ (outside _ refl))
        λ u. Grows-bind _ _ (Grows-act w _ (outside _ refl)) λ u'. Grows-act w _ (outside _ refl)

  is_cancelled-Whole : Grows P (is_cancelled w run_id)
  unfolding is_cancelled
  is_cancelled-Whole = Grows-bind _ _ (Grows-perform w _ (outside _ refl)) λ found. Grows-pure _

  set_run_sandbox-Whole : (id : String) → Grows P (set_run_sandbox w run_id id)
  unfolding set_run_sandbox
  set_run_sandbox-Whole id =
      Grows-bind _ _ (Grows-act w _ (outside _ refl)) λ u. Grows-act w _ (outside _ refl)

  scan_content-Whole :
      (blocks : List Block) (index : ℕ) (uses : List ToolUse)
      → Grows P (scan_content w run_id blocks index uses)
  unfolding scan_content
  scan_content-Whole [] index uses = Grows-pure _
  scan_content-Whole (text s ∷ blocks) index uses =
      Grows-bind _ _ (record_step-Whole index AgentStepType.assistant none s) λ _.
        Grows-bind _ _ (emit-Whole (EventBody.assistant_text s))
          λ _. scan_content-Whole blocks (index + 1) uses
  scan_content-Whole (tool_use id name input ∷ blocks) index uses =
      scan_content-Whole blocks index (uses ++ record { id = id; name = name; input = input } ∷ [])
  scan_content-Whole (other ∷ blocks) index uses = scan_content-Whole blocks index uses

  module _ (c : Config) where
    end_run-Whole :
        (status : AgentRunStatus) (body : EventBody) → Grows P (end_run w c run_id status body)
    unfolding end_run
    end_run-Whole status body =
        Grows-bind _ _ (finish_run-Whole status none)
          λ _. Grows-bind _ _ (emit-Whole body) λ _. Grows-pure none

    on_error-Whole : (e : Thrown) → Grows P (on_error w c run_id e)
    unfolding on_error
    on_error-Whole e = Grows-bind _ _ (finish_run-Whole _ _) λ _. emit-Whole _

    module _ (handle : SandboxHandle)
        (confined : (call : Call) → IsConfined handle call → P call) where
      run_tool_use-Whole :
          (use_ : ToolUse) (index : ℕ) → Grows P (run_tool_use w run_id handle use_ index)
      unfolding run_tool_use
      run_tool_use-Whole use_ index = Grows-bind _ _ (record_step-Whole _ _ _ _) λ _.
          Grows-bind _ _ (emit-Whole _) λ _.
            Grows-bind _ _
              (Grows-weaken confined (execute-IsConfined w handle use_.name use_.input))
              λ result.
                Grows-bind _ _ (record_step-Whole _ _ _ _)
                  λ _. Grows-bind _ _ (emit-Whole _) λ _. Grows-pure _

      run_tool_uses-Whole :
          (uses : List ToolUse) (index : ℕ) (results : List ToolResult)
          → Grows P (run_tool_uses w run_id handle uses index results)
      unfolding run_tool_uses
      run_tool_uses-Whole [] index results = Grows-pure _
      run_tool_uses-Whole (use_ ∷ uses) index results =
          Grows-bind _ _ (run_tool_use-Whole use_ index)
            λ result. run_tool_uses-Whole uses (index + 2) (results ++ result ∷ [])

      answer-Whole :
          (index : ℕ) (messages : List MessageParam) (response : Response)
          → Grows P (answer w c run_id handle index messages response)
      unfolding answer use_tools
      answer-Whole index messages response =
          Grows-bind _ _ (scan_content-Whole response.content index []) λ scanned.
            Grows-if _ _ _ (end_run-Whole _ _)
              (Grows-bind _ _ (run_tool_uses-Whole _ _ []) λ ran. Grows-pure _)

      round-Whole :
          (index : ℕ) (messages : List MessageParam)
          → Grows P (round w c run_id handle index messages)
      unfolding round
      round-Whole index messages = Grows-bind _ _ is_cancelled-Whole λ stop.
          Grows-if _ _ _ (end_run-Whole _ _) (
            Grows-bind _ _ (Grows-perform w _ (outside _ refl))
              λ response. answer-Whole index messages response)

      iterate-Whole :
          (left index : ℕ) (messages : List MessageParam)
          → Grows P (iterate w c run_id handle left index messages)
      unfolding iterate
      iterate-Whole zero index messages = Grows-raise _
      iterate-Whole (suc left) index messages = Grows-bind _ _ (round-Whole index messages) (elim [
        | none ↦ Grows-pure tt
        | some (index', messages') ↦ iterate-Whole left index' messages'
      ])

      pub work-Whole : (prompt : String) → Grows P (work w c run_id prompt handle)
      unfolding work run_loop
      work-Whole prompt = Grows-bind _ _ (set_run_sandbox-Whole handle.sandbox_id) λ _.
          Grows-bind _ _ (emit-Whole _) λ _.
            Grows-bind _ _ (Grows-perform w _ (outside _ refl))
              λ index. iterate-Whole c.max_iterations index _

    module _ (kills : (id : String) → P (sandbox (SandboxCall.kill id))) where
      kill_sandbox-Whole : (created : Option SandboxHandle) → Grows P (kill_sandbox w c created)
      unfolding kill_sandbox Sandbox.kill
      kill_sandbox-Whole none = Grows-pure tt
      kill_sandbox-Whole (some handle) =
          Grows-try_catch _ _ (Grows-act w _ (kills _)) (λ _. Grows-pure tt)

      cleanup-Whole : (created : Option SandboxHandle) → Grows P (cleanup w c run_id created)
      unfolding cleanup complete
      cleanup-Whole created =
          Grows-bind _ _ (kill_sandbox-Whole created)
            λ _. Grows-bind _ _ (Grows-act w _ (outside _ refl)) λ _. Grows-act w _ (outside _ refl)

      -- The job behind the start of its sandbox, where that returned a handle whose calls are such.
      pub attempt-Whole :
          (prompt : String) (created : Result SandboxHandle)
          → ((handle : SandboxHandle)
              → created ≡ ok handle
              → (call : Call) → IsConfined handle call
              → P call)
          → Grows P (attempt w c run_id prompt created)
      unfolding attempt
      attempt-Whole prompt (ok handle) confined =
          Grows-try_finally _ _
            (Grows-try_catch _ _ (work-Whole handle (confined handle refl) prompt) on_error-Whole)
            (cleanup-Whole (some handle))
      attempt-Whole prompt (throw e) confined =
          Grows-try_finally _ _ (on_error-Whole e) (cleanup-Whole none)
