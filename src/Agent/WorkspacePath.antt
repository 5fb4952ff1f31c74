-- ===== src/Agent/WorkspacePath.antt =====
-- src/agent/tools/workspace-path.ts, with the functions of node:path that it calls (POSIX rules).
-- A path is split at each slash; `normalizeString` of node is one pass over the parts.
pub mod Parts
pub mod Containment
pub mod Reach
use mathlib.Core.List.{reverse}
use lotus_build_server.Base.{
  String, ◌<>◌, Bool, true, false, ◌&&◌, ◌||◌, not, List, [], ◌∷◌, nat_eq, if◌then◌else◌, ◌==◌,
}
use text.Mathlib.Text.{starts_with}
use lotus_build_server.Base.Text.{is_empty, join}
use lotus_build_server.World.Exec.{Thrown, tool_execution, Result, ok, throw}
use Parts.{split, is_slash}

-- `isAbsolute`
unfoldable pub is_absolute : String → Bool
is_absolute String.[] = false
is_absolute (String.◌∷◌ c s) = is_slash c

-- `path.charCodeAt(path.length - 1) === CHAR_FORWARD_SLASH`
ends_in_slash : String → Bool
ends_in_slash String.[] = false
ends_in_slash (String.◌∷◌ c s) = if is_empty s then is_slash c else ends_in_slash s

-- ".." takes back the part before it; above the start it is kept if that is allowed
pop : Bool → List String → List String
pop true [] = ".." ∷ []
pop false [] = []
pop allow_above_root (top ∷ stack) = if top == ".." then ".." ∷ top ∷ stack else stack

-- the parts done, the newest first, after one more part
step : Bool → List String → String → List String
step allow_above_root stack part =
    if part == "" || part == "."
    then stack
    else if part == ".."
    then pop allow_above_root stack
    else part ∷ stack

walk : Bool → List String → List String → List String
walk allow_above_root stack [] = reverse stack
walk allow_above_root stack (part ∷ parts) =
    walk allow_above_root (step allow_above_root stack part) parts

-- `normalizeString(path, allowAboveRoot)`
normalize_string : Bool → String → String
normalize_string allow_above_root path = join "/" (walk allow_above_root [] (split path))

abbrev with_trailing : Bool → String → String
with_trailing trailing path = if trailing then path <> "/" else path

unfoldable pub normalize : String → String
unfolding normalize_string is_absolute ends_in_slash walk step pop
normalize path =
    let absolute = is_absolute path in
    let clean = normalize_string (not absolute) path in
    let trailing = ends_in_slash path in
    if is_empty path
    then "."
    else if is_empty clean
    then (if absolute then "/" else with_trailing trailing ".")
    else if absolute
    then "/" <> with_trailing trailing clean
    else with_trailing trailing clean

-- `resolve(from, to)` for an absolute `from`; with a relative one node would ask for the process's
-- own directory
unfoldable pub resolve : String → String → String
unfolding normalize_string is_absolute walk step pop
resolve from to =
    if is_empty to
    then "/" <> normalize_string false from
    else if is_absolute to
    then "/" <> normalize_string false to
    else "/" <> normalize_string false (from <> "/" <> to)

abbrev absolute_error : Thrown
absolute_error = tool_execution "Paths must be relative to the workspace"

abbrev escape_error : Thrown
escape_error = tool_execution "Path escapes the workspace"

-- `resolveWorkspacePath(workspaceDir, relativePath)`
unfoldable pub resolve_workspace_path : String → String → Result String
resolve_workspace_path workspace_dir relative_path =
    let resolved = resolve workspace_dir (normalize relative_path) in
    if is_absolute relative_path
    then throw absolute_error
    else if not (resolved == workspace_dir) && not (starts_with resolved (workspace_dir <> "/"))
    then throw escape_error
    else ok resolved
