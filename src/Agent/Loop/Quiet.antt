-- ===== src/Agent/Loop/Quiet.antt =====
-- The parts of src/agent/agent-loop.service.ts that call only Redis and the sandbox keep to every set of
-- calls that holds all of these.
use lotus_build_server.Base.{String}
use lotus_build_server.World.Data.{EventBody}
use lotus_build_server.World.Calls.{
  Call, prisma, firestore, redis, sandbox, messages_create, queue_add, agent_runs_total_inc,
  verify_id_token, random_bytes, RedisCall, SandboxCall,
}
use lotus_build_server.World.Exec.{World}
use lotus_build_server.World.Grows.{Grows, Grows-weaken, grows_rules}
use lotus_build_server.Agent.Publish.{emit}
use lotus_build_server.Agent.Sandbox.{SandboxHandle}
use lotus_build_server.Agent.Tools
use lotus_build_server.Agent.Tools.Confined.{IsConfined, execute-IsConfined}
use lotus_build_server.Agent.Loop.{ToolUse, is_cancelled}

module _ (P : Call → Type 0) (on_redis : (c : RedisCall) → P (redis c))
    (on_sandbox : (c : SandboxCall) → P (sandbox c)) (w : World) where
  pub emit-Quiet : (run_id : String) (body : EventBody) → Grows P (emit w run_id body)
  unfolding emit
  emit-Quiet run_id body = search (grows_rules, on_redis)

  pub is_cancelled-Quiet : (run_id : String) → Grows P (is_cancelled w run_id)
  unfolding is_cancelled
  is_cancelled-Quiet run_id = search (grows_rules, on_redis)

  confined : (handle : SandboxHandle) (c : Call) → IsConfined handle c → P c
  confined handle (sandbox c) h = on_sandbox c
  confined handle (redis c) h = absurd h
  confined handle (prisma c) h = absurd h
  confined handle (firestore c) h = absurd h
  confined handle (messages_create r) h = absurd h
  confined handle (queue_add n d j) h = absurd h
  confined handle (agent_runs_total_inc s) h = absurd h
  confined handle (verify_id_token t) h = absurd h
  confined handle (random_bytes n) h = absurd h

  pub tools-Quiet :
      (handle : SandboxHandle) (u : ToolUse) → Grows P (Tools.execute w handle u.name u.input)
  tools-Quiet handle u = Grows-weaken (confined handle) (execute-IsConfined w handle u.name u.input)
