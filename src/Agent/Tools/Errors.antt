-- ===== src/Agent/Tools/Errors.antt =====
-- How the tools of src/agent/tools fail: what the model is told, and what ends the run.
use lotus_build_server.Base.{
  String, ◌≡◌, ◌≢◌, refl, Bool, true, false, Option, none, some, arith, eq_iff,
}
use lotus_build_server.World.Data.{Input}
use lotus_build_server.World.Exec.{Result, ok, throw, History, World, perform}
use lotus_build_server.Agent.WorkspacePath.{resolve_workspace_path}
use lotus_build_server.Agent.Sandbox
use lotus_build_server.Agent.Sandbox.{SandboxHandle, workspace_root, recover_exit}
use lotus_build_server.Agent.Tools.{
  AgentTool, read_file, write_file, list_files, bash, tools, find_tool, run_tool, run_found,
  execute,
}

abbrev pub is_ok {ℓ} : {A : Type ℓ} → Result A → Bool
is_ok (ok a) = true
is_ok (throw e) = false

module _ (w : World) (handle : SandboxHandle) (input : Input) (h : History) where
  returns_read : (name : String) → is_ok (run_found w handle name (some read_file) input h).0 ≡ true
  unfolding run_found run_tool resolve_workspace_path Sandbox.read_file perform
  returns_read name = ground arith

  returns_list :
      (name : String) → is_ok (run_found w handle name (some list_files) input h).0 ≡ true
  unfolding run_found run_tool resolve_workspace_path Sandbox.list_entries perform
  returns_list name = ground arith

  returns_found :
      (name : String) (tool : Option AgentTool)
      → tool ≢ some write_file
      → tool ≢ some bash
      → is_ok (run_found w handle name tool input h).0 ≡ true
  returns_found name none p q = unfold run_found in refl
  returns_found name (some read_file) p q = returns_read name
  returns_found name (some list_files) p q = returns_list name
  returns_found name (some write_file) p q = absurd (p refl)
  returns_found name (some bash) p q = absurd (q refl)

  find_tool_name :
      (name : String)
      → name ≢ "write_file"
      → name ≢ "bash"
      → (find_tool name tools ≢ some write_file) × (find_tool name tools ≢ some bash)
  unfolding find_tool
  find_tool_name name p q = ground (
    arith,
    eq_iff "read_file" name,
    eq_iff "write_file" name,
    eq_iff "list_files" name,
    eq_iff "bash" name,
  )

  -- A call of any tool but `write_file` and `bash`, known or not, returns a result for the model: it
  -- never throws, whatever its input is and whatever the sandbox does.
  pub execute_returns :
      (name : String)
      → name ≢ "write_file"
      → name ≢ "bash"
      → is_ok (execute w handle name input h).0 ≡ true
  unfolding execute
  execute_returns name p q =
      let (not_write, not_bash) = find_tool_name name p q in
      returns_found name (find_tool name tools) not_write not_bash
