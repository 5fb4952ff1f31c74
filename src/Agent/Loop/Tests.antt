-- ===== src/Agent/Loop/Tests.antt =====
-- A run that was cancelled, executed to its end on concrete services.
use lotus_build_server.Base.{◌≡◌, refl, true, []}
use lotus_build_server.World.Data.{AgentRunStatus}
use lotus_build_server.World.Exec.{World, ok, perform, act, new_date}
use lotus_build_server.Agent.Publish.{emit, complete}
use lotus_build_server.Agent.Sandbox
use lotus_build_server.Agent.Loop.{
  execute, execute_found, run_job, attempt, work, run_loop, iterate, round, end_run, finish_run,
  is_cancelled, set_run_sandbox, cleanup, kill_sandbox,
}
use lotus_build_server.Agent.Loop.Settled.{execute-settled}
use lotus_build_server.Agent.Loop.Settling.{settled}
use lotus_build_server.Tests.Services.{services, config, run_with}

abbrev world : World
world = services AgentRunStatus.running 1

returns : (execute world config "r1" "fix it" []).0 ≡ ok tt
unfolding execute execute_found run_job attempt work run_loop iterate round end_run finish_run
    is_cancelled set_run_sandbox cleanup kill_sandbox emit complete perform act new_date
    Sandbox.create Sandbox.kill
returns = refl

execute-settled_example : settled "r1" (execute world config "r1" "fix it" []).1 ≡ true
execute-settled_example =
    execute-settled world config "r1" "fix it" [] (run_with AgentRunStatus.running) tt refl refl
      returns
