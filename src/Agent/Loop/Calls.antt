-- ===== src/Agent/Loop/Calls.antt =====
-- Which calls the parts of src/agent/agent-loop.service.ts make: requests to the model, and the start and
-- the end of a sandbox.
use lotus_build_server.Base.{
  ℕ, ◌+◌, String, ◌≡◌, refl, Bool, true, false, Option, none, List, [], ◌∷◌, ◌++◌,
}
use lotus_build_server.World.Data.{
  Block, text, tool_use, other, MessageParam, Response, AgentRunStatus, AgentStepType, EventBody,
  ToolResult,
}
use lotus_build_server.World.Calls.{
  Call, prisma, firestore, redis, sandbox, messages_create, queue_add, agent_runs_total_inc,
  verify_id_token, random_bytes, SandboxCall,
}
use lotus_build_server.World.Exec.{Thrown, World}
use lotus_build_server.World.Grows.{
  Grows, Grows-weaken, Grows-bind, Grows-if, Grows-pure, grows_rules,
}
use lotus_build_server.Agent.Publish.{emit}
use lotus_build_server.Agent.Sandbox.{SandboxHandle}
use lotus_build_server.Agent.Tools
use lotus_build_server.Agent.Tools.Confined.{IsConfined, execute-IsConfined}
use lotus_build_server.Agent.Loop.Whole.{is_sandbox, work-Whole}
use lotus_build_server.Agent.Loop.{
  Config, ToolUse, is_cancelled, set_run_sandbox, finish_run, record_step, scan_content,
  run_tool_use, run_tool_uses, end_run, use_tools, answer, on_error, work,
}

-- A request to the model.
abbrev pub is_request : Call → Bool
is_request (messages_create r) = true
is_request _ = false

-- The start or the end of a sandbox.
abbrev pub is_lifecycle : Call → Bool
is_lifecycle (sandbox (SandboxCall.create t)) = true
is_lifecycle (sandbox (SandboxCall.kill id)) = true
is_lifecycle _ = false

-- Neither of these.
abbrev pub IsStep : Call → Type 0
IsStep c = (is_request c ≡ false) × (is_lifecycle c ≡ false)

-- No start and no end of a sandbox.
abbrev pub IsWork : Call → Type 0
IsWork c = is_lifecycle c ≡ false

pub IsStep-IsWork : (c : Call) → IsStep c → IsWork c
IsStep-IsWork c h = h.1

IsConfined-IsStep : (handle : SandboxHandle) (c : Call) → IsConfined handle c → IsStep c
IsConfined-IsStep handle (sandbox (SandboxCall.run i c d t)) h = (refl, refl)
IsConfined-IsStep handle (sandbox (SandboxCall.read i p)) h = (refl, refl)
IsConfined-IsStep handle (sandbox (SandboxCall.write i p s)) h = (refl, refl)
IsConfined-IsStep handle (sandbox (SandboxCall.list i p)) h = (refl, refl)
IsConfined-IsStep handle (sandbox (SandboxCall.create t)) h = absurd h
IsConfined-IsStep handle (sandbox (SandboxCall.kill i)) h = absurd h
IsConfined-IsStep handle (prisma c) h = absurd h
IsConfined-IsStep handle (firestore c) h = absurd h
IsConfined-IsStep handle (redis c) h = absurd h
IsConfined-IsStep handle (messages_create r) h = absurd h
IsConfined-IsStep handle (queue_add n d j) h = absurd h
IsConfined-IsStep handle (agent_runs_total_inc s) h = absurd h
IsConfined-IsStep handle (verify_id_token t) h = absurd h
IsConfined-IsStep handle (random_bytes n) h = absurd h

outside-IsWork : (c : Call) → is_sandbox c ≡ false → IsWork c
outside-IsWork (sandbox c) h = absurd cc
outside-IsWork (prisma c) h = refl
outside-IsWork (firestore c) h = refl
outside-IsWork (redis c) h = refl
outside-IsWork (messages_create r) h = refl
outside-IsWork (queue_add n d j) h = refl
outside-IsWork (agent_runs_total_inc s) h = refl
outside-IsWork (verify_id_token t) h = refl
outside-IsWork (random_bytes n) h = refl

module _ (w : World) where
  pub emit-IsStep : (run_id : String) (body : EventBody) → Grows IsStep (emit w run_id body)
  unfolding emit
  emit-IsStep run_id body = search grows_rules

  pub record_step-IsStep :
      (run_id : String) (index : ℕ) (type : AgentStepType) (name : Option String) (content : String)
      → Grows IsStep (record_step w run_id index type name content)
  unfolding record_step
  record_step-IsStep run_id index type name content = search grows_rules

  pub finish_run-IsStep :
      (run_id : String) (status : AgentRunStatus) (message : Option String)
      → Grows IsStep (finish_run w run_id status message)
  unfolding finish_run
  finish_run-IsStep run_id status message = search grows_rules

  pub is_cancelled-IsStep : (run_id : String) → Grows IsStep (is_cancelled w run_id)
  unfolding is_cancelled
  is_cancelled-IsStep run_id = search grows_rules

  pub set_run_sandbox-IsStep : (run_id id : String) → Grows IsStep (set_run_sandbox w run_id id)
  unfolding set_run_sandbox
  set_run_sandbox-IsStep run_id id = search grows_rules

  tools-IsStep :
      (handle : SandboxHandle) (use_ : ToolUse)
      → Grows IsStep (Tools.execute w handle use_.name use_.input)
  tools-IsStep handle use_ =
      Grows-weaken (IsConfined-IsStep handle) (execute-IsConfined w handle use_.name use_.input)

  ruleset step_rules = (
    grows_rules, emit-IsStep, record_step-IsStep, finish_run-IsStep, is_cancelled-IsStep,
    set_run_sandbox-IsStep, tools-IsStep,
  )

  scan_content-IsStep :
      (run_id : String) (blocks : List Block) (index : ℕ) (uses : List ToolUse)
      → Grows IsStep (scan_content w run_id blocks index uses)
  unfolding scan_content
  scan_content-IsStep run_id [] index uses = search step_rules
  scan_content-IsStep run_id (text s ∷ blocks) index uses =
      Grows-bind _ _ (record_step-IsStep run_id index AgentStepType.assistant none s) λ _.
        Grows-bind _ _ (emit-IsStep run_id (EventBody.assistant_text s))
          λ _. scan_content-IsStep run_id blocks (index + 1) uses
  scan_content-IsStep run_id (tool_use id name input ∷ blocks) index uses =
      scan_content-IsStep run_id blocks index
        (uses ++ record { id = id; name = name; input = input } ∷ [])
  scan_content-IsStep run_id (other ∷ blocks) index uses =
      scan_content-IsStep run_id blocks index uses

  run_tool_use-IsStep :
      (run_id : String) (handle : SandboxHandle) (use_ : ToolUse) (index : ℕ)
      → Grows IsStep (run_tool_use w run_id handle use_ index)
  unfolding run_tool_use
  run_tool_use-IsStep run_id handle use_ index = search step_rules depth 12

  run_tool_uses-IsStep :
      (run_id : String) (handle : SandboxHandle) (uses : List ToolUse) (index : ℕ)
      (results : List ToolResult)
      → Grows IsStep (run_tool_uses w run_id handle uses index results)
  unfolding run_tool_uses
  run_tool_uses-IsStep run_id handle [] index results = search step_rules
  run_tool_uses-IsStep run_id handle (use_ ∷ uses) index results =
      Grows-bind _ _ (run_tool_use-IsStep run_id handle use_ index)
        λ result. run_tool_uses-IsStep run_id handle uses (index + 2) (results ++ result ∷ [])

module _ (w : World) (c : Config) where
  pub end_run-IsStep :
      (run_id : String) (status : AgentRunStatus) (body : EventBody)
      → Grows IsStep (end_run w c run_id status body)
  unfolding end_run
  end_run-IsStep run_id status body = search (grows_rules, finish_run-IsStep, emit-IsStep)

  pub on_error-IsStep : (run_id : String) (e : Thrown) → Grows IsStep (on_error w c run_id e)
  unfolding on_error
  on_error-IsStep run_id e = search (grows_rules, finish_run-IsStep, emit-IsStep)

  use_tools-IsStep :
      (run_id : String) (handle : SandboxHandle) (uses : List ToolUse) (index : ℕ)
      (messages : List MessageParam)
      → Grows IsStep (use_tools w c run_id handle uses index messages)
  unfolding use_tools
  use_tools-IsStep run_id handle uses index messages =
      Grows-bind _ _ (run_tool_uses-IsStep w run_id handle uses index []) λ ran. Grows-pure _

  pub answer-IsStep :
      (run_id : String) (handle : SandboxHandle) (index : ℕ) (messages : List MessageParam)
      (response : Response)
      → Grows IsStep (answer w c run_id handle index messages response)
  unfolding answer
  answer-IsStep run_id handle index messages response =
      Grows-bind _ _ (scan_content-IsStep w run_id response.content index [])
        λ scanned. Grows-if _ _ _ (end_run-IsStep run_id _ _) (use_tools-IsStep run_id handle _ _ _)

  pub work-IsWork :
      (run_id prompt : String) (handle : SandboxHandle)
      → Grows IsWork (work w c run_id prompt handle)
  work-IsWork run_id prompt handle =
      work-Whole IsWork outside-IsWork w run_id c handle
        (λ call h. (IsConfined-IsStep handle call h).1) prompt
