-- ===== src/Tests/Runs.antt =====
-- The theorems on the execution of a run, at work on the services of Tests/Services.
use lotus_build_server.Base.{
  ℕ, ◌+◌, ◌≤◌, ◌<◌, String, ◌≡◌, refl, ◌⊎◌, true, none, List, [], ◌∷◌, length, All, eq_iff, arith,
}
use lotus_build_server.World.Data.{Value, Input, AgentRunStatus, user}
use lotus_build_server.World.Calls.{PrismaCall, prisma}
use lotus_build_server.World.Exec.{Result, ok}
use lotus_build_server.World.Grows.{Grows}
use lotus_build_server.Agent.WorkspacePath.{resolve_workspace_path}
use lotus_build_server.Agent.WorkspacePath.Containment.{
  IsPlain, rooted, Contained, resolve_workspace_path-Contained,
}
use lotus_build_server.Agent.WorkspacePath.Reach.{resolve_workspace_path_plain}
use lotus_build_server.Agent.Sandbox.Output.{
  truncate, byte_length, max_output_bytes, truncate_bounds,
}
use lotus_build_server.Agent.Tools
use lotus_build_server.Agent.Tools.Confined.{IsConfined, execute-IsConfined}
use lotus_build_server.Agent.Tools.Errors.{is_ok, execute_returns}
use lotus_build_server.Agent.Loop.{execute, run_loop, round}
use lotus_build_server.Agent.Loop.Lifecycle.{Balanced, execute-Balanced}
use lotus_build_server.Agent.Loop.Started.{starts, due, starts-execute}
use lotus_build_server.Agent.Loop.Backed.{IsBacked}
use lotus_build_server.Agent.Loop.Mirrored.{execute-IsBacked}
use lotus_build_server.Agent.Loop.Budget.{requests, requests-execute}
use lotus_build_server.Agent.Loop.Conversation.{IsProtocol, execute-IsProtocol}
use lotus_build_server.Agent.Loop.Numbering.{recorded, Consecutive}
use lotus_build_server.Agent.Loop.Steps.{run_loop-Consecutive}
use lotus_build_server.Agent.Loop.Ending.{CancelledWith, round_cancelled}
use lotus_build_server.World.Triple.{Outcome}
use lotus_build_server.Tests.Services.{world, services, config, handle}

execute-Balanced_example :
    (ids : List String) × (length ids ≤ 1)
    × Balanced ids [] (execute world config "r1" "fix it" []).1
execute-Balanced_example = execute-Balanced world config "r1" "fix it" []

requests-execute_example : requests (execute world config "r1" "fix it" []).1 ≤ requests [] + 5
requests-execute_example = requests-execute world config "r1" "fix it" []

starts-execute_example :
    starts (execute world config "r1" "fix it" []).1
    ≡ due (world.reply (prisma (PrismaCall.run_find_unique "r1")) []) + starts []
starts-execute_example = starts-execute world config "r1" "fix it" []

execute-IsBacked_example : IsBacked (execute world config "r1" "fix it" []).1
unfolding IsBacked
execute-IsBacked_example = execute-IsBacked world config "r1" "fix it" [] tt

execute-IsProtocol_example : Grows (IsProtocol "fix it") (execute world config "r1" "fix it")
execute-IsProtocol_example = execute-IsProtocol world config "r1" "fix it"

run_loop-Consecutive_example :
    (j : ℕ) × Consecutive 2
      (recorded [])
      j
      (recorded (run_loop world config "r1" "fix it" handle []).1)
run_loop-Consecutive_example = run_loop-Consecutive world config "r1" "fix it" handle [] 2 refl

round_cancelled_example :
    Outcome
      (λ next h'. (next ≡ none) × CancelledWith "r1" [] (ok tt) h')
      (λ h'. (reply : Result (Unit {0})) × CancelledWith "r1" [] reply h')
      (round (services AgentRunStatus.running 1) config "r1" handle 2 (user "fix it" ∷ []) []).0
      (round (services AgentRunStatus.running 1) config "r1" handle 2 (user "fix it" ∷ []) []).1
round_cancelled_example =
    round_cancelled (services AgentRunStatus.running 1) config "r1" [] handle 2 (user "fix it" ∷ [])
      refl

home_user : All IsPlain ("home" ∷ "user" ∷ [])
home_user = ground (
  arith,
  eq_iff "home" "",
  eq_iff "home" ".",
  eq_iff "home" "..",
  eq_iff "user" "",
  eq_iff "user" ".",
  eq_iff "user" "..",
)

src_file : All IsPlain ("src" ∷ "a.ts" ∷ [])
src_file = ground (
  arith,
  eq_iff "src" "",
  eq_iff "src" ".",
  eq_iff "src" "..",
  eq_iff "a.ts" "",
  eq_iff "a.ts" ".",
  eq_iff "a.ts" "..",
)

resolve_workspace_path_plain_example :
    resolve_workspace_path (rooted ("home" ∷ "user" ∷ [])) "src/a.ts"
    ≡ ok (rooted ("home" ∷ "user" ∷ "src" ∷ "a.ts" ∷ []))
resolve_workspace_path_plain_example =
    resolve_workspace_path_plain "home" ("user" ∷ []) home_user "src" ("a.ts" ∷ []) src_file

inside :
    resolve_workspace_path (rooted ("home" ∷ "user" ∷ [])) "src/a.ts" ≡ ok "/home/user/src/a.ts"
inside = resolve_workspace_path_plain "home" ("user" ∷ []) home_user "src" ("a.ts" ∷ []) src_file

resolve_workspace_path-Contained_example : Contained ("home" ∷ "user" ∷ []) "/home/user/src/a.ts"
resolve_workspace_path-Contained_example =
    resolve_workspace_path-Contained "home" ("user" ∷ []) "src/a.ts" home_user inside

abbrev path_input : Input
path_input = ("path", Value.text "../../etc/passwd") ∷ []

execute-IsConfined_example :
    Grows (IsConfined handle) (Tools.execute world handle "read_file" path_input)
execute-IsConfined_example = execute-IsConfined world handle "read_file" path_input

execute_returns_example : is_ok (Tools.execute world handle "read_file" path_input []).0 ≡ true
execute_returns_example =
    execute_returns world handle path_input [] "read_file"
      (ground (arith, eq_iff "read_file" "write_file")) (ground (arith, eq_iff "read_file" "bash"))

truncate_bounds_example :
    ((truncate "text" ≡ "text") ⊎ (max_output_bytes < byte_length "text"))
    × (byte_length (truncate "text") ≤ max_output_bytes + 36)
truncate_bounds_example = truncate_bounds "text"
