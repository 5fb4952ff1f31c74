-- ===== src/Agent/Sandbox.antt =====
-- src/agent/sandbox/sandbox.service.ts: the handle to a run's sandbox. The sandbox itself (E2B) is
-- behind the calls; the handle is its id and the time that a command may take.
pub mod Output
use lotus_build_server.Base.{
  ℕ, String, ◌<>◌, Bool, true, false, not, List, [], ◌∷◌, map, filter, if◌then◌else◌,
}
use lotus_build_server.Base.Text.{is_empty, join, decimal, trim}
use lotus_build_server.World.Calls.{
  Call, SandboxCall, CommandResult, EntryInfo, EntryType, file, dir,
}
use lotus_build_server.World.Exec.{
  Thrown, command_exit, World, Exec, pure, raise, try_catch, ◌>>=◌, ◌>>◌, perform, act,
}
use Output.{truncate}

abbrev pub workspace_root : String
workspace_root = "/home/user"

pub record SandboxCommandResult : Type 0 where
  pub output : String
  pub is_error : Bool

pub record SandboxEntry : Type 0 where
  pub name : String
  pub is_directory : Bool

pub record SandboxHandle : Type 0 where
  pub sandbox_id : String
  pub command_timeout_ms : ℕ

-- the outputs that are not empty, on lines of their own
joined_outputs : String → String → String
joined_outputs stdout stderr =
    join "\n" (filter (λ part. not (is_empty part)) (stdout ∷ stderr ∷ []))

command_output : CommandResult → SandboxCommandResult
command_output result =
    let output = joined_outputs result.stdout result.stderr in
    record {
      output = truncate (if is_empty output then "(no output)" else output);
      is_error = false;
    }

exit_output : ℕ → String → String → SandboxCommandResult
exit_output code stdout stderr = record {
  output =
      truncate (
        trim ("Command exited with code " <> decimal code <> "\n" <> joined_outputs stdout stderr));
  is_error = true;
}

-- the `catch` of `runCommand`: only an exit with an error code has a result
unfoldable pub recover_exit : Thrown → Exec SandboxCommandResult
unfolding exit_output joined_outputs
recover_exit (command_exit message code stdout stderr) = pure (exit_output code stdout stderr)
recover_exit e = raise e

-- `entry.type === 'dir'`
is_dir : EntryType → Bool
is_dir dir = true
is_dir file = false

entry_of : EntryInfo → SandboxEntry
unfolding is_dir
entry_of entry = record { name = entry.name; is_directory = is_dir entry.type }

module _ (w : World) where
  unfoldable pub run_command : SandboxHandle → String → Exec SandboxCommandResult
  unfolding recover_exit command_output exit_output joined_outputs
  run_command handle command =
      try_catch
        (do
          result ← perform w (
              Call.sandbox (
                SandboxCall.run handle.sandbox_id command workspace_root handle.command_timeout_ms))
          pure (command_output result))
        recover_exit

  unfoldable pub read_file : SandboxHandle → String → Exec String
  read_file handle path = do
    text ← perform w (Call.sandbox (SandboxCall.read handle.sandbox_id path))
    pure (truncate text)

  unfoldable pub write_file : SandboxHandle → String → String → Exec (Unit {0})
  write_file handle path content =
      act w (Call.sandbox (SandboxCall.write handle.sandbox_id path content))

  unfoldable pub list_entries : SandboxHandle → String → Exec (List SandboxEntry)
  unfolding entry_of
  list_entries handle path = do
    entries ← perform w (Call.sandbox (SandboxCall.list handle.sandbox_id path))
    pure (map entry_of entries)

  unfoldable pub kill : SandboxHandle → Exec (Unit {0})
  kill handle = act w (Call.sandbox (SandboxCall.kill handle.sandbox_id))

  -- `SandboxService.create`, with the two configured times in milliseconds
  unfoldable pub create : ℕ → ℕ → Exec SandboxHandle
  create sandbox_timeout_ms command_timeout_ms = do
    id ← perform w (Call.sandbox (SandboxCall.create sandbox_timeout_ms))
    pure (record { sandbox_id = id; command_timeout_ms = command_timeout_ms })
