-- ===== src/Agent/Tools.antt =====
-- src/agent/tools: the four tools of an agent, and the registry that runs one by its name. The tools
-- work on the sandbox handle of the run (src/agent/tools/tool.interface.ts).
pub mod Sorting
pub mod Confined
pub mod Errors
use lotus_build_server.Base.{
  String, ◌<>◌, Bool, true, false, Option, none, some, List, [], ◌∷◌, map, if◌then◌else◌, ◌==◌,
}
use lotus_build_server.Base.Text.{is_empty, join, decimal}
use lotus_build_server.World.Data.{Value, text, other, Input, ToolDefinition}
use lotus_build_server.World.Exec.{
  Thrown, tool_execution, Result, ok, throw, World, Exec, pure, raise, lift, try_catch, ◌>>=◌, ◌>>◌,
}
use lotus_build_server.Agent.WorkspacePath.{resolve_workspace_path}
use lotus_build_server.Agent.Sandbox
use lotus_build_server.Agent.Sandbox.{SandboxHandle, SandboxEntry, workspace_root}
use lotus_build_server.Agent.Sandbox.Output.{byte_length}
use Sorting.{sort}

pub data AgentTool : Type 0 where
  read_file write_file list_files bash : AgentTool

abbrev path_property : String → List (String × String)
path_property description = ("path", description) ∷ []

abbrev pub definition : AgentTool → ToolDefinition
definition read_file = record {
  name = "read_file";
  description =
      "Read a UTF-8 text file from the sandbox workspace. Path is relative to the workspace root.";
  properties = path_property "Workspace-relative file path";
  required = "path" ∷ [];
}
definition write_file = record {
  name = "write_file";
  description =
      "Create or overwrite a UTF-8 text file in the sandbox workspace, creating parent directories as needed.";
  properties = ("path", "Workspace-relative file path") ∷ ("content", "Full file content") ∷ [];
  required = "path" ∷ "content" ∷ [];
}
definition list_files = record {
  name = "list_files";
  description =
      "List files and directories at a workspace-relative path. Directories are suffixed with \"/\".";
  properties = path_property "Workspace-relative directory path; \".\" for the root";
  required = "path" ∷ [];
}
definition bash = record {
  name = "bash";
  description =
      "Run a bash command inside the isolated sandbox workspace. Output is truncated to 64KB. Commands time out.";
  properties = ("command", "The bash command to run") ∷ [];
  required = "command" ∷ [];
}

-- the map of the registry, in the order of insertion
abbrev tools : List AgentTool
tools = read_file ∷ write_file ∷ list_files ∷ bash ∷ []

abbrev pub definitions : List ToolDefinition
definitions = map definition tools

find_tool : String → List AgentTool → Option AgentTool
find_tool name [] = none
find_tool name (tool ∷ rest) =
    if (definition tool).name == name then some tool else find_tool name rest

-- `input[key]`
field : String → Input → Option Value
field key [] = none
field key ((k, value) ∷ rest) = if k == key then some value else field key rest

abbrev missing_error : String → Thrown
missing_error key = tool_execution ("Missing required string argument: " <> key)

text_value : String → Option Value → Result String
text_value key (some (text s)) = ok s
text_value key (some (other _)) = throw (missing_error key)
text_value key none = throw (missing_error key)

non_empty : String → String → Result String
non_empty key s = if is_empty s then throw (missing_error key) else ok s

-- `requireString(input, key)`
require_string : Input → String → Exec String
unfolding field text_value non_empty
require_string input key = do s ← lift (text_value key (field key input)); lift (non_empty key s)

-- the entry's name, with a slash behind a directory's
label : SandboxEntry → String
label entry = if entry.is_directory then entry.name <> "/" else entry.name

listing : List SandboxEntry → String
unfolding label sort
listing [] = "(empty directory)"
listing (entry ∷ entries) = join "\n" (sort (map label (entry ∷ entries)))

module _ (w : World) (sandbox : SandboxHandle) where
  run_read_file : Input → Exec String
  unfolding require_string
  run_read_file input = do
    relative ← require_string input "path"
    path ← lift (resolve_workspace_path workspace_root relative)
    try_catch (Sandbox.read_file w sandbox path)
        (λ _. raise (tool_execution ("File not found: " <> relative)))

  run_write_file : Input → Exec String
  unfolding require_string
  run_write_file input = do
    relative ← require_string input "path"
    content ← lift (text_value "content" (field "content" input))
    path ← lift (resolve_workspace_path workspace_root relative)
    Sandbox.write_file w sandbox path content
    pure ("Wrote " <> decimal (byte_length content) <> " bytes to " <> relative)

  run_list_files : Input → Exec String
  unfolding require_string listing
  run_list_files input = do
    relative ← require_string input "path"
    path ← lift (resolve_workspace_path workspace_root relative)
    entries ←
        try_catch (Sandbox.list_entries w sandbox path)
          (λ _. raise (tool_execution ("Directory not found: " <> relative)))
    pure (listing entries)

  run_bash : Input → Exec String
  unfolding require_string
  run_bash input = do
    command ← require_string input "command"
    result ← Sandbox.run_command w sandbox command
    pure result.output

  run_tool : AgentTool → Input → Exec String
  unfolding run_read_file run_write_file run_list_files run_bash
  run_tool read_file input = run_read_file input
  run_tool write_file input = run_write_file input
  run_tool list_files input = run_list_files input
  run_tool bash input = run_bash input

pub record ToolOutput : Type 0 where
  pub content : String
  pub is_error : Bool

-- the `catch` of the registry: only the tools' own errors become results
recover_tool_error : Thrown → Exec ToolOutput
recover_tool_error (tool_execution message) = pure (record { content = message; is_error = true })
recover_tool_error e = raise e

module _ (w : World) (sandbox : SandboxHandle) where
  run_found : String → Option AgentTool → Input → Exec ToolOutput
  unfolding recover_tool_error
  run_found name none input = pure (record { content = "Unknown tool: " <> name; is_error = true })
  run_found name (some tool) input =
      try_catch
        (do
          content ← run_tool w sandbox tool input
          pure (record { content = content; is_error = false }))
        recover_tool_error

  -- `ToolRegistryService.execute`
  unfoldable pub execute : String → Input → Exec ToolOutput
  unfolding run_found run_tool find_tool
  execute name input = run_found name (find_tool name tools) input
