-- ===== src/Agent/Tools/Confined.antt =====
-- Where the tools of src/agent/tools can reach: the calls that they make.
use lotus_build_server.Base.{String, ◌≡◌, Option, none, some, List, [], ◌∷◌, arith, eq_iff, All}
use lotus_build_server.World.Data.{Input}
use lotus_build_server.World.Calls.{
  Call, prisma, firestore, redis, sandbox, messages_create, queue_add, agent_runs_total_inc,
  verify_id_token, random_bytes, SandboxCall,
}
use lotus_build_server.World.Exec.{Thrown, ok, http, tool_execution, command_exit, World}
use lotus_build_server.World.Grows.{Grows, Grows-bind, Grows-bind-lift, grows_rules}
use lotus_build_server.Agent.WorkspacePath.{resolve_workspace_path}
use lotus_build_server.Agent.WorkspacePath.Containment.{
  IsPlain, Contained, resolve_workspace_path-Contained,
}
use lotus_build_server.Agent.Sandbox
use lotus_build_server.Agent.Sandbox.{SandboxHandle, workspace_root, recover_exit}
use lotus_build_server.Agent.Tools.{
  AgentTool, read_file, write_file, list_files, bash, require_string, text_value, field, run_tool,
  run_found, recover_tool_error, execute,
}

-- The parts of the workspace directory.
abbrev pub workspace_parts : List String
workspace_parts = "home" ∷ "user" ∷ []

-- A call on the run's own sandbox, which reads, writes or lists at or below the workspace directory, or
-- runs a command from there.
abbrev pub IsConfined : SandboxHandle → Call → Type 0
IsConfined handle (sandbox (SandboxCall.run id command cwd timeout)) =
    (id ≡ handle.sandbox_id) × (cwd ≡ workspace_root) × (timeout ≡ handle.command_timeout_ms)
IsConfined handle (sandbox (SandboxCall.read id path)) =
    (id ≡ handle.sandbox_id) × Contained workspace_parts path
IsConfined handle (sandbox (SandboxCall.write id path content)) =
    (id ≡ handle.sandbox_id) × Contained workspace_parts path
IsConfined handle (sandbox (SandboxCall.list id path)) =
    (id ≡ handle.sandbox_id) × Contained workspace_parts path
IsConfined handle (sandbox (SandboxCall.create timeout)) = ⊥
IsConfined handle (sandbox (SandboxCall.kill id)) = ⊥
IsConfined handle (prisma c) = ⊥
IsConfined handle (firestore c) = ⊥
IsConfined handle (redis c) = ⊥
IsConfined handle (messages_create r) = ⊥
IsConfined handle (queue_add n d j) = ⊥
IsConfined handle (agent_runs_total_inc s) = ⊥
IsConfined handle (verify_id_token t) = ⊥
IsConfined handle (random_bytes n) = ⊥

workspace_parts-IsPlain : All IsPlain workspace_parts
workspace_parts-IsPlain = ground (
  arith,
  eq_iff "home" "",
  eq_iff "home" ".",
  eq_iff "home" "..",
  eq_iff "user" "",
  eq_iff "user" ".",
  eq_iff "user" "..",
)

resolved_path :
    (relative path : String)
    → resolve_workspace_path workspace_root relative ≡ ok path
    → Contained workspace_parts path
resolved_path relative path e =
    resolve_workspace_path-Contained "home" ("user" ∷ []) relative workspace_parts-IsPlain e

module _ (w : World) (handle : SandboxHandle) where
  recover_exit-IsConfined : (e : Thrown) → Grows (IsConfined handle) (recover_exit e)
  unfolding recover_exit
  recover_exit-IsConfined (command_exit m c o r) = search grows_rules
  recover_exit-IsConfined (http s m) = search grows_rules
  recover_exit-IsConfined _ = search grows_rules

  recover_tool_error-IsConfined : (e : Thrown) → Grows (IsConfined handle) (recover_tool_error e)
  unfolding recover_tool_error
  recover_tool_error-IsConfined (tool_execution m) = search grows_rules
  recover_tool_error-IsConfined _ = search grows_rules

  require_string-IsConfined :
      (input : Input) (key : String) → Grows (IsConfined handle) (require_string input key)
  unfolding require_string
  require_string-IsConfined input key = search grows_rules

  read_file-IsConfined :
      (path : String)
      → Contained workspace_parts path
      → Grows (IsConfined handle) (Sandbox.read_file w handle path)
  unfolding Sandbox.read_file
  read_file-IsConfined path c = search grows_rules

  write_file-IsConfined :
      (path content : String)
      → Contained workspace_parts path
      → Grows (IsConfined handle) (Sandbox.write_file w handle path content)
  unfolding Sandbox.write_file
  write_file-IsConfined path content c = search grows_rules

  list_entries-IsConfined :
      (path : String)
      → Contained workspace_parts path
      → Grows (IsConfined handle) (Sandbox.list_entries w handle path)
  unfolding Sandbox.list_entries
  list_entries-IsConfined path c = search grows_rules

  run_command-IsConfined :
      (command : String) → Grows (IsConfined handle) (Sandbox.run_command w handle command)
  unfolding Sandbox.run_command
  run_command-IsConfined command = search (grows_rules, recover_exit-IsConfined)

  run_tool-IsConfined :
      (tool : AgentTool) (input : Input) → Grows (IsConfined handle) (run_tool w handle tool input)
  unfolding run_tool
  run_tool-IsConfined read_file input =
      Grows-bind (require_string input "path") _ (require_string-IsConfined input "path")
        λ relative.
          Grows-bind-lift (resolve_workspace_path workspace_root relative) _
            λ path e. search (grows_rules, read_file-IsConfined, resolved_path relative path e)
  run_tool-IsConfined write_file input =
      Grows-bind (require_string input "path") _ (require_string-IsConfined input "path")
        λ relative. Grows-bind-lift (text_value "content" (field "content" input)) _ λ content _.
          Grows-bind-lift (resolve_workspace_path workspace_root relative) _
            λ path e. search (grows_rules, write_file-IsConfined, resolved_path relative path e)
  run_tool-IsConfined list_files input =
      Grows-bind (require_string input "path") _ (require_string-IsConfined input "path")
        λ relative.
          Grows-bind-lift (resolve_workspace_path workspace_root relative) _
            λ path e. search (grows_rules, list_entries-IsConfined, resolved_path relative path e)
  run_tool-IsConfined bash input =
      search (grows_rules, require_string-IsConfined, run_command-IsConfined)

  run_found-IsConfined :
      (name : String) (tool : Option AgentTool) (input : Input)
      → Grows (IsConfined handle) (run_found w handle name tool input)
  unfolding run_found
  run_found-IsConfined name none input = search grows_rules
  run_found-IsConfined name (some tool) input =
      search (grows_rules, run_tool-IsConfined, recover_tool_error-IsConfined)

  -- Whatever the name and the input that the model gave, and whatever the services reply, the calls of
  -- a tool are on the run's own sandbox: they read, write or list at or below /home/user, or run a
  -- command from there within the configured time.
  pub execute-IsConfined :
      (name : String) (input : Input) → Grows (IsConfined handle) (execute w handle name input)
  unfolding execute
  execute-IsConfined name input = run_found-IsConfined name _ input
