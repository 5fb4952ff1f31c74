-- ===== src/Agent/Loop.antt =====
-- src/agent/agent-loop.service.ts: one agent run, from the job to its end. Logging is left out.
pub mod Calls
pub mod Lifecycle
pub mod Budget
pub mod Quiet
pub mod Numbering
pub mod Steps
pub mod Conversation
pub mod Ending
pub mod Settling
pub mod Settled
pub mod Backed
pub mod Mirrored
pub mod Whole
pub mod Started
pub mod Timed
pub mod Tests
use lotus_build_server.Base.{
  ℕ, zero, suc, ◌+◌, String, ◌<>◌, Bool, true, false, not, ◌||◌, Option, none, some, List, [], ◌∷◌,
  ◌++◌, nat_eq, if◌then◌else◌,
}
use lotus_build_server.Base.Text.{decimal}
use lotus_build_server.World.Data.{
  Input, Block, text, tool_use, other, StopReason, Response, ToolResult, MessageParam, user,
  assistant, tool_results, RunUpdate, sandbox, finish, AgentRunStatus, AgentStepType, AgentRun,
  AgentStep, EventBody, MirroredStep,
}
use lotus_build_server.World.Calls.{
  Call, PrismaCall, FirestoreCall, RedisCall, Document, MessagesRequest, StepData,
}
use lotus_build_server.World.Exec.{
  Thrown, http, tool_execution, command_exit, error, non_error, Result, ok, throw, World, Exec,
  pure, raise, try_catch, try_finally, ◌>>=◌, ◌>>◌, perform, act, new_date,
}
use lotus_build_server.Agent.Publish.{emit, complete}
use lotus_build_server.Mirror
use lotus_build_server.Agent.Sandbox
use lotus_build_server.Agent.Sandbox.{SandboxHandle}
use lotus_build_server.Agent.Tools

abbrev pub system_prompt : String
system_prompt =
    "You are an autonomous software engineering agent operating inside an isolated cloud sandbox. Use the available tools to inspect, create, and modify files and to run commands. Work step by step: gather context before making changes, and verify your work when possible. When the task is complete, reply with a concise summary of what you did instead of calling more tools."

-- what the constructor reads of the configuration, the two times in milliseconds
pub record Config : Type 0 where
  pub model : String
  pub max_iterations : ℕ
  pub sandbox_timeout_ms : ℕ
  pub command_timeout_ms : ℕ

pub record ToolUse : Type 0 where
  pub id : String
  pub name : String
  pub input : Input

abbrev pub cancel_key : String → String
cancel_key run_id = "agent-cancel:" <> run_id

-- `error instanceof Error ? error.message : 'Unknown agent error'`
abbrev pub error_message : Thrown → String
error_message (http status message) = message
error_message (tool_execution message) = message
error_message (command_exit message code stdout stderr) = message
error_message (error message) = message
error_message non_error = "Unknown agent error"

abbrev pub is_tool_use : StopReason → Bool
is_tool_use StopReason.tool_use = true
is_tool_use StopReason.other = false

abbrev pub is_nil : List ToolUse → Bool
is_nil [] = true
is_nil (u ∷ us) = false

abbrev pub is_running : AgentRunStatus → Bool
is_running AgentRunStatus.running = true
is_running _ = false

module _ (w : World) where
  unfoldable pub request_cancellation : String → Exec (Unit {0})
  request_cancellation run_id = act w (Call.redis (RedisCall.set (cancel_key run_id) "1" 86400))

  pub is_cancelled : String → Exec Bool
  is_cancelled run_id = do
    found ← perform w (Call.redis (RedisCall.exists (cancel_key run_id)))
    pure (nat_eq found 1)

  pub set_run_sandbox : String → String → Exec (Unit {0})
  set_run_sandbox run_id sandbox_id = do
    act w (Call.prisma (PrismaCall.run_update run_id (sandbox sandbox_id)))
    Mirror.update_run w run_id (sandbox sandbox_id)

  pub finish_run : String → AgentRunStatus → Option String → Exec (Unit {0})
  finish_run run_id status message = do
    finished_at ← new_date w
    act w (Call.prisma (PrismaCall.run_update run_id (finish status message finished_at)))
    Mirror.update_run w run_id (finish status message finished_at)
    act w (Call.agent_runs_total_inc status)

  pub record_step : String → ℕ → AgentStepType → Option String → String → Exec (Unit {0})
  record_step run_id index type name content = do
    created ← perform w (
        Call.prisma (
          PrismaCall.step_create (record {
            run_id = run_id;
            index = index;
            type = type;
            name = name;
            content = content;
          })))
    Mirror.add_step w run_id (record {
      index = index;
      type = type;
      name = name;
      content = content;
      created_at = created.created_at;
    })

  -- the loop over `response.content`: texts are recorded, tool uses are collected
  pub scan_content : String → List Block → ℕ → List ToolUse → Exec (ℕ × List ToolUse)
  scan_content run_id [] index uses = pure (index, uses)
  scan_content run_id (text s ∷ blocks) index uses = do
    record_step run_id index AgentStepType.assistant none s
    emit w run_id (EventBody.assistant_text s)
    scan_content run_id blocks (index + 1) uses
  scan_content run_id (tool_use id name input ∷ blocks) index uses =
      scan_content run_id blocks index (uses ++ record { id = id; name = name; input = input } ∷ [])
  scan_content run_id (other ∷ blocks) index uses = scan_content run_id blocks index uses

  -- one round of the loop over `toolUses`
  pub run_tool_use : String → SandboxHandle → ToolUse → ℕ → Exec ToolResult
  run_tool_use run_id handle use_ index = do
    record_step run_id index AgentStepType.tool_call (some use_.name) (w.stringify use_.input)
    emit w run_id (EventBody.tool_call use_.name use_.input)
    result ← Tools.execute w handle use_.name use_.input
    record_step run_id (index + 1) AgentStepType.tool_result (some use_.name) result.content
    emit w run_id (EventBody.tool_result use_.name result.content result.is_error)
    pure (record { tool_use_id = use_.id; content = result.content; is_error = result.is_error })

  pub run_tool_uses :
      String → SandboxHandle → List ToolUse → ℕ → List ToolResult → Exec (ℕ × List ToolResult)
  run_tool_uses run_id handle [] index results = pure (index, results)
  run_tool_uses run_id handle (use_ ∷ uses) index results = do
    result ← run_tool_use run_id handle use_ index
    run_tool_uses run_id handle uses (index + 2) (results ++ result ∷ [])

-- what an iteration comes to: `none` where the code returns, otherwise the next step index and the
-- messages so far
abbrev pub Next : Type 0
Next = Option (ℕ × List MessageParam)

-- the test on the response
abbrev pub is_finished : Response → List ToolUse → Bool
is_finished response uses = not (is_tool_use response.stop_reason) || is_nil uses

module _ (w : World) (c : Config) where
  abbrev pub request : List MessageParam → MessagesRequest
  request messages = record {
    model = c.model;
    max_tokens = 8192;
    system = system_prompt;
    tools = Tools.definitions;
    messages = messages;
  }

  -- `finishRun`, the last event, and `return`
  pub end_run : String → AgentRunStatus → EventBody → Exec Next
  end_run run_id status body = do finish_run w run_id status none; emit w run_id body; pure none

  pub use_tools : String → SandboxHandle → List ToolUse → ℕ → List MessageParam → Exec Next
  use_tools run_id handle uses index messages = do
    (index', results) ← run_tool_uses w run_id handle uses index []
    pure (some (index', messages ++ tool_results results ∷ []))

  -- what an iteration does with a response
  pub answer : String → SandboxHandle → ℕ → List MessageParam → Response → Exec Next
  answer run_id handle index messages response = do
    (index', uses) ← scan_content w run_id response.content index []
    if is_finished response uses
        then end_run run_id AgentRunStatus.completed EventBody.run_completed
        else use_tools run_id handle uses index' (messages ++ assistant response.content ∷ [])

  -- one iteration of the `for` loop
  pub round : String → SandboxHandle → ℕ → List MessageParam → Exec Next
  round run_id handle index messages = do
    stop ← is_cancelled w run_id
    if stop then end_run run_id AgentRunStatus.cancelled EventBody.run_cancelled else do
      response ← perform w (Call.messages_create (request messages))
      answer run_id handle index messages response

  -- the `for` loop; the first number is that of the iterations left
  pub iterate : String → SandboxHandle → ℕ → ℕ → List MessageParam → Exec (Unit {0})
  iterate run_id handle zero index messages =
      raise (error ("Agent exceeded the maximum of " <> decimal c.max_iterations <> " iterations"))
  iterate run_id handle (suc left) index messages = do
    next ← round run_id handle index messages
    elim next [
      | none ↦ pure tt
      | some (index', messages') ↦ iterate run_id handle left index' messages'
    ]

  pub run_loop : String → String → SandboxHandle → Exec (Unit {0})
  run_loop run_id prompt handle = do
    emit w run_id (EventBody.run_started prompt)
    index ← perform w (Call.prisma (PrismaCall.step_count run_id))
    iterate run_id handle c.max_iterations index (user prompt ∷ [])

  -- the `catch` of `execute`
  pub on_error : String → Thrown → Exec (Unit {0})
  on_error run_id e = do
    finish_run w run_id AgentRunStatus.failed (some (error_message e))
    emit w run_id (EventBody.run_failed (error_message e))

  pub kill_sandbox : Option SandboxHandle → Exec (Unit {0})
  kill_sandbox none = pure tt
  kill_sandbox (some handle) = try_catch (Sandbox.kill w handle) (λ _. pure tt)

  -- the `finally` of `execute`
  pub cleanup : String → Option SandboxHandle → Exec (Unit {0})
  cleanup run_id created = do
    kill_sandbox created
    complete w run_id
    act w (Call.redis (RedisCall.del (cancel_key run_id)))

  pub work : String → String → SandboxHandle → Exec (Unit {0})
  work run_id prompt handle = do
    set_run_sandbox w run_id handle.sandbox_id
    run_loop run_id prompt handle

  -- the `try` from its first statement on: `sandbox` stays null if `create` throws
  pub attempt : String → String → Result SandboxHandle → Exec (Unit {0})
  attempt run_id prompt (ok handle) =
      try_finally (try_catch (work run_id prompt handle) (on_error run_id))
        (cleanup run_id (some handle))
  attempt run_id prompt (throw e) = try_finally (on_error run_id e) (cleanup run_id none)

  pub run_job : String → String → Exec (Unit {0})
  run_job run_id prompt h =
      let (created, h') = Sandbox.create w c.sandbox_timeout_ms c.command_timeout_ms h in
      attempt run_id prompt created h'

  pub execute_found : String → String → Option AgentRun → Exec (Unit {0})
  execute_found run_id prompt none = pure tt
  execute_found run_id prompt (some run) =
      if is_running run.status then run_job run_id prompt else pure tt

  pub execute : String → String → Exec (Unit {0})
  unfolding execute_found
  execute run_id prompt = do
    run ← perform w (Call.prisma (PrismaCall.run_find_unique run_id))
    execute_found run_id prompt run
