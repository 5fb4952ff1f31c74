-- ===== src/Agent/Loop/Conversation.antt =====
-- The protocol of src/agent/agent-loop.service.ts with the model: which messages it sends.
use lotus_build_server.Base.{
  ℕ, zero, suc, ◌+◌, String, ◌≡◌, ◌≢◌, refl, sym, ap, ◌∙◌, false, Option, none, some, List, [], ◌∷◌,
  ◌++◌, map, arith, Bool-cases, inl, inr,
}
use mathlib.Core.List.{append_assoc, append-nil}
use lotus_build_server.World.Data.{
  AgentRun, AgentRunStatus, AgentStepType, Block, text, tool_use, other, EventBody, ToolResult,
  MessageParam, user, assistant, tool_results, Response,
}
use lotus_build_server.World.Calls.{Call, PrismaCall, prisma, messages_create}
use lotus_build_server.World.Exec.{Result, ok, throw, World, Exec, perform}
use lotus_build_server.World.Grows.{
  Grows, Grows-bind, Grows-if, Grows-pure, Grows-weaken, Grows-perform, Grows-raise,
  Grows-try_catch, Grows-try_finally, Extends-trans, grows_rules,
}
use lotus_build_server.World.Returns.{
  Returns, Returns-pure, Returns-if, Returns-weaken, Returns-bind, Returns-bind_with,
  Grows-bind_with,
}
use lotus_build_server.Agent.Publish.{emit, complete}
use lotus_build_server.Agent.Sandbox
use lotus_build_server.Agent.Tools
use lotus_build_server.Agent.Sandbox.{SandboxHandle}
use lotus_build_server.Agent.Loop.{
  Config, ToolUse, Next, is_finished, is_running, is_cancelled, request, end_run, finish_run,
  kill_sandbox, cleanup, record_step, scan_content, run_tool_use, run_tool_uses, use_tools, answer,
  round, iterate, run_loop, work, attempt, run_job, execute_found, execute,
}
use lotus_build_server.Agent.Loop.Calls

-- The tool uses of a response, in order.
abbrev tool_uses : List Block → List ToolUse
tool_uses [] = []
tool_uses (tool_use id name input ∷ blocks) =
    record { id = id; name = name; input = input } ∷ tool_uses blocks
tool_uses (text s ∷ blocks) = tool_uses blocks
tool_uses (other ∷ blocks) = tool_uses blocks

abbrev use_ids : List ToolUse → List String
use_ids uses = map (λ u. u.id) uses

abbrev result_ids : List ToolResult → List String
result_ids results = map (λ r. r.tool_use_id) results

-- The messages that the model may be asked with: the prompt, then turns of a response with tool uses
-- and the results of just these uses, in their order.
pub data Conversation (prompt : String) : List MessageParam → Type 0 where
  start :
      {messages : List MessageParam} → messages ≡ user prompt ∷ [] → Conversation prompt messages
  turn :
      {messages messages' : List MessageParam} (blocks : List Block) (results : List ToolResult)
      → Conversation prompt messages
      → tool_uses blocks ≢ []
      → result_ids results ≡ use_ids (tool_uses blocks)
      → messages' ≡ (messages ++ assistant blocks ∷ []) ++ tool_results results ∷ []
      → Conversation prompt messages'

-- A request to the model carries a conversation that began with the prompt.
abbrev pub IsProtocol : String → Call → Type 0
IsProtocol prompt (messages_create request) = Conversation prompt request.messages
IsProtocol prompt _ = Unit

result_ids-append :
    (results : List ToolResult) (result : ToolResult) (ids : List String)
    → result_ids (results ++ result ∷ []) ++ ids ≡ result_ids results ++ result.tool_use_id ∷ ids
result_ids-append [] result ids = refl
result_ids-append (r ∷ results) result ids =
    ap (λ (l : List String). r.tool_use_id ∷ l) (result_ids-append results result ids)

module _ (w : World) (run_id : String) where
  scan_content-Returns :
      (blocks : List Block) (index : ℕ) (uses : List ToolUse)
      → Returns (λ r. r.1 ≡ uses ++ tool_uses blocks) (scan_content w run_id blocks index uses)
  unfolding scan_content
  scan_content-Returns [] index uses = Returns-pure _ (sym (append-nil uses))
  scan_content-Returns (text s ∷ blocks) index uses =
      Returns-bind (record_step w run_id index AgentStepType.assistant none s) _ λ _.
        Returns-bind (emit w run_id (EventBody.assistant_text s)) _
          λ _. scan_content-Returns blocks (index + 1) uses
  scan_content-Returns (tool_use id name input ∷ blocks) index uses =
      let u : ToolUse = record { id = id; name = name; input = input } in
      rw (← append_assoc uses (u ∷ []) (tool_uses blocks))
        (scan_content-Returns blocks index (uses ++ u ∷ []))
  scan_content-Returns (other ∷ blocks) index uses = scan_content-Returns blocks index uses

  run_tool_use-Returns :
      (handle : SandboxHandle) (u : ToolUse) (index : ℕ)
      → Returns (λ r. r.tool_use_id ≡ u.id) (run_tool_use w run_id handle u index)
  unfolding run_tool_use
  run_tool_use-Returns handle u index =
      Returns-bind
        (record_step w run_id index AgentStepType.tool_call (some u.name) (w.stringify u.input)) _
        λ _. Returns-bind (emit w run_id (EventBody.tool_call u.name u.input)) _ λ _.
          Returns-bind (Tools.execute w handle u.name u.input) _ λ result.
            Returns-bind
              (record_step w run_id (index + 1) AgentStepType.tool_result (some u.name)
                result.content)
              _
              λ _.
                Returns-bind
                  (emit w run_id (EventBody.tool_result u.name result.content result.is_error)) _
                  λ _. Returns-pure _ refl

  run_tool_uses-Returns :
      (handle : SandboxHandle) (uses : List ToolUse) (index : ℕ) (results : List ToolResult)
      → Returns
          (λ r. result_ids r.1 ≡ result_ids results ++ use_ids uses)
          (run_tool_uses w run_id handle uses index results)
  unfolding run_tool_uses
  run_tool_uses-Returns handle [] index results =
      Returns-pure _ (sym (append-nil (result_ids results)))
  run_tool_uses-Returns handle (u ∷ uses) index results =
      Returns-bind_with _ _ (run_tool_use-Returns handle u index) λ result e.
        Returns-weaken
          (λ r rest.
            rest
            ∙ result_ids-append results result (use_ids uses)
            ∙ ap (λ (id : String). result_ids results ++ id ∷ use_ids uses) e)
          (run_tool_uses-Returns handle uses (index + 2) (results ++ result ∷ []))

unfinished_uses :
    (response : Response) (uses : List ToolUse) → is_finished response uses ≡ false → uses ≢ []
unfinished_uses response uses e none_left = ground arith

no_request : (prompt : String) (c : Call) → Calls.is_request c ≡ false → IsProtocol prompt c
no_request prompt (messages_create r) h = absurd (cc h)
no_request prompt (prisma c) h = tt
no_request prompt _ h = tt

module _ (w : World) (c : Config) (run_id prompt : String) where
  -- Every request of the action is a conversation.
  abbrev Keeps {ℓ} : {A : Type ℓ} → Exec A → Type 0
  Keeps m = Grows (IsProtocol prompt) m

  of_step {ℓ} : {A : Type ℓ} {m : Exec A} → Grows Calls.IsStep m → Keeps m
  of_step k = Grows-weaken (λ call h. no_request prompt call h.0) k

  -- where an iteration goes on, it goes on with a conversation
  abbrev GoesOn : Next → Type 0
  GoesOn none = Unit
  GoesOn (some (index, messages)) = Conversation prompt messages

  use_tools-Returns :
      (handle : SandboxHandle) (uses : List ToolUse) (index : ℕ) (messages : List MessageParam)
      (blocks : List Block)
      → Conversation prompt messages
      → uses ≡ tool_uses blocks
      → uses ≢ []
      → Returns GoesOn (use_tools w c run_id handle uses index (messages ++ assistant blocks ∷ []))
  unfolding use_tools
  use_tools-Returns handle uses index messages blocks conversation e some_use =
      Returns-bind_with _ _ (run_tool_uses-Returns w run_id handle uses index []) λ ran ids.
        Returns-pure _ (turn blocks ran.1 conversation (rw (← e) some_use) (rw (← e) ids) refl)

  end_run-Returns :
      (status : AgentRunStatus) (body : EventBody) → Returns GoesOn (end_run w c run_id status body)
  unfolding end_run
  end_run-Returns status body =
      Returns-bind (finish_run w run_id status none) _
        λ _. Returns-bind (emit w run_id body) _ λ _. Returns-pure none tt

  answer-Returns :
      (handle : SandboxHandle) (index : ℕ) (messages : List MessageParam) (response : Response)
      → Conversation prompt messages
      → Returns GoesOn (answer w c run_id handle index messages response)
  unfolding answer
  answer-Returns handle index messages response conversation =
      Returns-bind_with _ _ (scan_content-Returns w run_id response.content index [])
        λ scanned uses. elim (Bool-cases (is_finished response scanned.1)) [
          | inl finished ↦
              rw finished (end_run-Returns AgentRunStatus.completed EventBody.run_completed)
          | inr unfinished ↦ rw unfinished (
              use_tools-Returns handle scanned.1 scanned.0 messages response.content conversation
                uses (unfinished_uses response scanned.1 unfinished))
        ]

  round-Returns :
      (handle : SandboxHandle) (index : ℕ) (messages : List MessageParam)
      → Conversation prompt messages
      → Returns GoesOn (round w c run_id handle index messages)
  unfolding round
  round-Returns handle index messages conversation = Returns-bind (is_cancelled w run_id) _ λ stop.
      Returns-if stop _ _ (end_run-Returns AgentRunStatus.cancelled EventBody.run_cancelled) (
        Returns-bind (perform w (messages_create (request w c messages))) _
          λ response. answer-Returns handle index messages response conversation)

  round-Keeps :
      (handle : SandboxHandle) (index : ℕ) (messages : List MessageParam)
      → Conversation prompt messages
      → Keeps (round w c run_id handle index messages)
  unfolding round
  round-Keeps handle index messages conversation =
      Grows-bind _ _ (of_step (Calls.is_cancelled-IsStep w run_id)) λ stop.
        Grows-if stop _ _ (of_step (Calls.end_run-IsStep w c run_id _ _)) (
          Grows-bind _ _ (Grows-perform w (messages_create (request w c messages)) conversation)
            λ response. of_step (Calls.answer-IsStep w c run_id handle index messages response))

  iterate-Keeps :
      (handle : SandboxHandle) (left index : ℕ) (messages : List MessageParam)
      → Conversation prompt messages
      → Keeps (iterate w c run_id handle left index messages)
  unfolding iterate
  iterate-Keeps handle zero index messages conversation = Grows-raise _
  iterate-Keeps handle (suc left) index messages conversation =
      Grows-bind_with _ _ (round-Keeps handle index messages conversation)
        (round-Returns handle index messages conversation)
        (elim [
          | none ↦ λ _. Grows-pure tt
          | some (index', messages') ↦ λ more. iterate-Keeps handle left index' messages' more
        ])

  work-Keeps : (handle : SandboxHandle) → Keeps (work w c run_id prompt handle)
  unfolding work run_loop
  work-Keeps handle =
      Grows-bind _ _ (of_step (Calls.set_run_sandbox-IsStep w run_id handle.sandbox_id)) λ _.
        Grows-bind _ _ (of_step (Calls.emit-IsStep w run_id _)) λ _.
          Grows-bind _ _ (Grows-perform w (prisma (PrismaCall.step_count run_id)) tt)
            λ index. iterate-Keeps handle c.max_iterations index (user prompt ∷ []) (start refl)

  cleanup-Keeps : (created : Option SandboxHandle) → Keeps (cleanup w c run_id created)
  unfolding cleanup kill_sandbox Sandbox.kill complete
  cleanup-Keeps none = Grows-weaken (no_request prompt) (search grows_rules)
  cleanup-Keeps (some handle) = Grows-weaken (no_request prompt) (search grows_rules)

  attempt-Keeps : (created : Result SandboxHandle) → Keeps (attempt w c run_id prompt created)
  unfolding attempt
  attempt-Keeps (ok handle) =
      Grows-try_finally _ _
        (Grows-try_catch _ _ (work-Keeps handle)
          (λ e. of_step (Calls.on_error-IsStep w c run_id e)))
        (cleanup-Keeps (some handle))
  attempt-Keeps (throw e) =
      Grows-try_finally _ _ (of_step (Calls.on_error-IsStep w c run_id e)) (cleanup-Keeps none)

  create-Keeps : Keeps (Sandbox.create w c.sandbox_timeout_ms c.command_timeout_ms)
  unfolding Sandbox.create
  create-Keeps = Grows-weaken (no_request prompt) (search grows_rules)

  run_job-Keeps : Keeps (run_job w c run_id prompt)
  unfolding run_job
  run_job-Keeps = record {
    at = λ h.
        let (created, h') = Sandbox.create w c.sandbox_timeout_ms c.command_timeout_ms h in
        Extends-trans (create-Keeps.at h) ((attempt-Keeps created).at h');
  }

  found-Keeps : (run : Option AgentRun) → Keeps (execute_found w c run_id prompt run)
  unfolding execute_found
  found-Keeps none = Grows-pure tt
  found-Keeps (some run) = Grows-if (is_running run.status) _ _ run_job-Keeps (Grows-pure tt)

  -- Whatever the services reply or throw, each request that an execution makes to the model carries the
  -- prompt and then turns: a response with at least one tool use, and the results of just its tool
  -- uses, with their ids in their order.
  pub execute-IsProtocol : Grows (IsProtocol prompt) (execute w c run_id prompt)
  unfolding execute
  execute-IsProtocol =
      Grows-bind _ _ (Grows-perform w (prisma (PrismaCall.run_find_unique run_id)) tt) found-Keeps
