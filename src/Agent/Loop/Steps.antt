-- ===== src/Agent/Loop/Steps.antt =====
-- The numbers of the steps of a run of src/agent/agent-loop.service.ts.
use lotus_build_server.Base.{
  ℕ, zero, suc, ◌+◌, String, ◌≡◌, refl, Option, none, some, List, [], ◌∷◌, ◌++◌, arith,
}
use lotus_build_server.World.Data.{
  AgentStepType, Block, text, tool_use, other, EventBody, ToolResult, MessageParam, user,
  AgentRunStatus, Response,
}
use lotus_build_server.World.Calls.{PrismaCall, prisma, messages_create}
use lotus_build_server.World.Exec.{
  Result, ok, throw, History, World, Exec, perform, continue, ◌>>=◌,
}
use lotus_build_server.World.Grows.{Grows, Grows-perform, grows_rules}
use lotus_build_server.Agent.Publish.{emit}
use lotus_build_server.Agent.Sandbox.{SandboxHandle}
use lotus_build_server.Agent.Loop.{
  Config, ToolUse, Next, is_finished, request, end_run, finish_run, record_step, scan_content,
  run_tool_use, run_tool_uses, use_tools, answer, round, iterate, run_loop,
}
use lotus_build_server.Agent.Loop.Quiet.{emit-Quiet, is_cancelled-Quiet, tools-Quiet}
use lotus_build_server.Agent.Loop.Numbering.{
  recorded, Consecutive, stop, NoStep, recorded-Extends, Numbers, Numbers-pure, Numbers-quiet,
  Numbers-if, Numbers-bind, Numbers-write, some_end,
}

module _ (w : World) (run_id : String) where
  emit-NoStep : (body : EventBody) → Grows NoStep (emit w run_id body)
  emit-NoStep body = emit-Quiet NoStep (λ _. refl) (λ _. refl) w run_id body

  record_step-Numbers :
      (index : ℕ) (type : AgentStepType) (name : Option String) (content : String)
      → Numbers index (λ _. some (index + 1)) (record_step w run_id index type name content)
  unfolding record_step
  record_step-Numbers index type name content =
      Numbers-bind _ _
        (Numbers-write w
          (record { run_id = run_id; index = index; type = type; name = name; content = content }))
        λ created. Numbers-quiet (index + 1) (search grows_rules)

  scan_content-Numbers :
      (blocks : List Block) (index : ℕ) (uses : List ToolUse)
      → Numbers index (λ r. some r.0) (scan_content w run_id blocks index uses)
  unfolding scan_content
  scan_content-Numbers [] index uses = record { at = λ h. stop }
  scan_content-Numbers (text s ∷ blocks) index uses =
      Numbers-bind _ _ (record_step-Numbers index AgentStepType.assistant none s) λ _.
        Numbers-bind _ _ (Numbers-quiet (index + 1) (emit-NoStep (EventBody.assistant_text s)))
          λ _. scan_content-Numbers blocks (index + 1) uses
  scan_content-Numbers (tool_use id name input ∷ blocks) index uses =
      scan_content-Numbers blocks index
        (uses ++ record { id = id; name = name; input = input } ∷ [])
  scan_content-Numbers (other ∷ blocks) index uses = scan_content-Numbers blocks index uses

  two_more : (index : ℕ) → index + 1 + 1 ≡ index + 2
  two_more index = omega arith

  run_tool_use-Numbers :
      (handle : SandboxHandle) (u : ToolUse) (index : ℕ)
      → Numbers index (λ _. some (index + 2)) (run_tool_use w run_id handle u index)
  unfolding run_tool_use
  run_tool_use-Numbers handle u index = rw (← two_more index) (
      Numbers-bind _ _
        (record_step-Numbers index AgentStepType.tool_call (some u.name) (w.stringify u.input))
        λ _.
          Numbers-bind _ _
            (Numbers-quiet (index + 1) (emit-NoStep (EventBody.tool_call u.name u.input)))
            λ _.
              Numbers-bind _ _
                (Numbers-quiet (index + 1) (tools-Quiet NoStep (λ _. refl) (λ _. refl) w handle u))
                λ result.
                  Numbers-bind _ _
                    (record_step-Numbers (index + 1) AgentStepType.tool_result (some u.name)
                      result.content)
                    λ _.
                      Numbers-bind _ _
                        (Numbers-quiet (index + 1 + 1) (
                          emit-NoStep
                            (EventBody.tool_result u.name result.content result.is_error)))
                        λ _. Numbers-pure (index + 1 + 1) _)

  run_tool_uses-Numbers :
      (handle : SandboxHandle) (uses : List ToolUse) (index : ℕ) (results : List ToolResult)
      → Numbers index (λ r. some r.0) (run_tool_uses w run_id handle uses index results)
  unfolding run_tool_uses
  run_tool_uses-Numbers handle [] index results = record { at = λ h. stop }
  run_tool_uses-Numbers handle (u ∷ uses) index results =
      Numbers-bind _ _ (run_tool_use-Numbers handle u index)
        λ result. run_tool_uses-Numbers handle uses (index + 2) (results ++ result ∷ [])

-- The next number, where an iteration goes on.
abbrev next_index : Next → Option ℕ
next_index none = none
next_index (some (index, messages)) = some index

module _ (w : World) (c : Config) (run_id : String) where
  end_run-Numbers :
      (index : ℕ) (status : AgentRunStatus) (body : EventBody)
      → Numbers index next_index (end_run w c run_id status body)
  unfolding end_run finish_run
  end_run-Numbers index status body =
      Numbers-bind (finish_run w run_id status none) _ (Numbers-quiet index (search grows_rules))
        λ _.
          Numbers-bind (emit w run_id body) _ (Numbers-quiet index (emit-NoStep w run_id body))
            λ _. record { at = λ h. (index, stop) }

  use_tools-Numbers :
      (handle : SandboxHandle) (uses : List ToolUse) (index : ℕ) (messages : List MessageParam)
      → Numbers index next_index (use_tools w c run_id handle uses index messages)
  unfolding use_tools
  use_tools-Numbers handle uses index messages =
      Numbers-bind _ _ (run_tool_uses-Numbers w run_id handle uses index [])
        λ ran. record { at = λ h. stop }

  answer-Numbers :
      (handle : SandboxHandle) (index : ℕ) (messages : List MessageParam) (response : Response)
      → Numbers index next_index (answer w c run_id handle index messages response)
  unfolding answer
  answer-Numbers handle index messages response =
      Numbers-bind _ _ (scan_content-Numbers w run_id response.content index []) λ scanned.
        Numbers-if (is_finished response scanned.1) _ _ (end_run-Numbers scanned.0 _ _)
          (use_tools-Numbers handle scanned.1 scanned.0 _)

  round-Numbers :
      (handle : SandboxHandle) (index : ℕ) (messages : List MessageParam)
      → Numbers index next_index (round w c run_id handle index messages)
  unfolding round
  round-Numbers handle index messages =
      Numbers-bind _ _
        (Numbers-quiet index (is_cancelled-Quiet NoStep (λ _. refl) (λ _. refl) w run_id))
        λ stopped. Numbers-if stopped _ _ (end_run-Numbers index _ _) (
          Numbers-bind _ _
            (Numbers-quiet index (Grows-perform w (messages_create (request w c messages)) refl))
            λ response. answer-Numbers handle index messages response)

  iterate-Numbers :
      (handle : SandboxHandle) (left index : ℕ) (messages : List MessageParam)
      → Numbers index (λ _. none) (iterate w c run_id handle left index messages)
  unfolding iterate
  iterate-Numbers handle zero index messages = record { at = λ h. (index, stop) }
  iterate-Numbers handle (suc left) index messages =
      Numbers-bind _ _ (round-Numbers handle index messages) (elim [
        | none ↦ (λ h. refl, λ _. refl)
        | some (index', messages') ↦ iterate-Numbers handle left index' messages'
      ])

  abbrev counted : String → SandboxHandle → Exec (Unit {0})
  counted prompt handle = do
    index ← perform w (prisma (PrismaCall.step_count run_id))
    iterate w c run_id handle c.max_iterations index (user prompt ∷ [])

  counted-Consecutive :
      (prompt : String) (handle : SandboxHandle) (h : History) (i : ℕ)
      → w.reply (prisma (PrismaCall.step_count run_id)) h ≡ ok i
      → (j : ℕ) × Consecutive i (recorded h) j (recorded (counted prompt handle h).1)
  unfolding perform recorded
  counted-Consecutive prompt handle h i counts = rw counts (
      some_end (iterate-Numbers handle c.max_iterations i (user prompt ∷ []))
        (record { call = prisma (PrismaCall.step_count run_id); reply = ok i } ∷ h))

  sent-Consecutive :
      (prompt : String) (handle : SandboxHandle) (h : History) (i : ℕ) (sent : Result (Unit {0}))
      → w.reply (prisma (PrismaCall.step_count run_id)) h ≡ ok i
      → (j : ℕ) × Consecutive i
          (recorded h)
          j
          (recorded (continue sent (λ _. counted prompt handle) h).1)
  sent-Consecutive prompt handle h i (ok u) counts = counted-Consecutive prompt handle h i counts
  sent-Consecutive prompt handle h i (throw e) counts = (i, stop)

  -- Where the count of the run's steps, taken behind the first event, is `i`, the steps that the loop
  -- writes or tries to write are numbered `i`, `i + 1` and so on: none is skipped and none is used
  -- twice, whatever the model and the tools reply and wherever a call throws.
  pub run_loop-Consecutive :
      (prompt : String) (handle : SandboxHandle) (h : History) (i : ℕ)
      → w.reply
          (prisma (PrismaCall.step_count run_id))
          (emit w run_id (EventBody.run_started prompt) h).1
        ≡ ok i
      → (j : ℕ) × Consecutive i (recorded h) j (recorded (run_loop w c run_id prompt handle h).1)
  unfolding run_loop
  run_loop-Consecutive prompt handle h i counts =
      let (sent, h') = emit w run_id (EventBody.run_started prompt) h in
      rw (← recorded-Extends ((emit-NoStep w run_id (EventBody.run_started prompt)).at h))
        (sent-Consecutive prompt handle h' i sent counts)
