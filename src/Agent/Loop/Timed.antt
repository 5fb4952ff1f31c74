-- ===== src/Agent/Loop/Timed.antt =====
-- The times that src/agent/agent-loop.service.ts passes to its sandboxes.
use lotus_build_server.Base.{String, ◌≡◌, refl, ap, sym, ◌∙◌, false, Option, none, some}
use lotus_build_server.World.Data.{AgentRun}
use lotus_build_server.World.Calls.{
  Call, PrismaCall, SandboxCall, prisma, firestore, redis, sandbox, messages_create, queue_add,
  agent_runs_total_inc, verify_id_token, random_bytes,
}
use lotus_build_server.World.Exec.{ok, History, World, perform, >>=-eq-ok}
use lotus_build_server.World.Grows.{
  Extends-trans, Grows, Grows-bind, Grows-if, Grows-perform, Grows-pure,
}
use lotus_build_server.World.Returns.{ok-injective}
use lotus_build_server.Agent.Sandbox
use lotus_build_server.Agent.Sandbox.{SandboxHandle}
use lotus_build_server.Agent.Tools.Confined.{IsConfined}
use lotus_build_server.Agent.Loop.{Config, run_job, execute_found, execute}
use lotus_build_server.Agent.Loop.Whole.{is_sandbox, attempt-Whole}

-- A sandbox is asked for with the configured lifetime, and a command gets the configured time.
abbrev pub IsTimed : Config → Call → Type 0
IsTimed c (sandbox (SandboxCall.create lifetime)) = lifetime ≡ c.sandbox_timeout_ms
IsTimed c (sandbox (SandboxCall.run id command cwd timeout)) = timeout ≡ c.command_timeout_ms
IsTimed c _ = Unit

module _ (c : Config) where
  outside : (call : Call) → is_sandbox call ≡ false → IsTimed c call
  outside (sandbox call) h = absurd cc
  outside (prisma q) h = tt
  outside (firestore q) h = tt
  outside (redis q) h = tt
  outside (messages_create r) h = tt
  outside (queue_add n d j) h = tt
  outside (agent_runs_total_inc s) h = tt
  outside (verify_id_token t) h = tt
  outside (random_bytes n) h = tt

  confined :
      (handle : SandboxHandle)
      → handle.command_timeout_ms ≡ c.command_timeout_ms
      → (call : Call) → IsConfined handle call
      → IsTimed c call
  confined handle e (sandbox (SandboxCall.create t)) h = absurd h
  confined handle e (sandbox (SandboxCall.run i d cwd t)) h = h.2 ∙ e
  confined handle e (sandbox (SandboxCall.kill i)) h = tt
  confined handle e (sandbox (SandboxCall.read i p)) h = tt
  confined handle e (sandbox (SandboxCall.write i p s)) h = tt
  confined handle e (sandbox (SandboxCall.list i p)) h = tt
  confined handle e (prisma q) h = tt
  confined handle e (firestore q) h = tt
  confined handle e (redis q) h = tt
  confined handle e (messages_create r) h = tt
  confined handle e (queue_add n d j) h = tt
  confined handle e (agent_runs_total_inc s) h = tt
  confined handle e (verify_id_token t) h = tt
  confined handle e (random_bytes n) h = tt

module _ (w : World) (c : Config) (run_id prompt : String) where
  create-IsTimed : Grows (IsTimed c) (Sandbox.create w c.sandbox_timeout_ms c.command_timeout_ms)
  unfolding Sandbox.create
  create-IsTimed =
      Grows-bind _ _ (Grows-perform w (sandbox (SandboxCall.create c.sandbox_timeout_ms)) refl)
        λ id. Grows-pure _

  created_timeout :
      (h : History) (handle : SandboxHandle)
      → (Sandbox.create w c.sandbox_timeout_ms c.command_timeout_ms h).0 ≡ ok handle
      → handle.command_timeout_ms ≡ c.command_timeout_ms
  unfolding Sandbox.create
  created_timeout h handle e =
      let (id, e₁, e₂) =
        >>=-eq-ok (perform w (sandbox (SandboxCall.create c.sandbox_timeout_ms))) _ h e in
      ap (λ (made : SandboxHandle). made.command_timeout_ms) (sym (ok-injective _ handle e₂))

  run_job-IsTimed : Grows (IsTimed c) (run_job w c run_id prompt)
  unfolding run_job
  run_job-IsTimed = record {
    at = λ h.
        let (created, h') = Sandbox.create w c.sandbox_timeout_ms c.command_timeout_ms h in
        Extends-trans (create-IsTimed.at h) (
          (attempt-Whole (IsTimed c) (outside c) w run_id c (λ id. tt) prompt created
              (λ handle e. confined c handle (created_timeout h handle e))).at
            h');
  }

  found-IsTimed :
      (found : Option AgentRun) → Grows (IsTimed c) (execute_found w c run_id prompt found)
  unfolding execute_found
  found-IsTimed none = Grows-pure tt
  found-IsTimed (some run) = Grows-if _ _ _ run_job-IsTimed (Grows-pure tt)

  pub execute-IsTimed : Grows (IsTimed c) (execute w c run_id prompt)
  unfolding execute
  execute-IsTimed =
      Grows-bind _ _
        (Grows-perform {P = IsTimed c} w (prisma (PrismaCall.run_find_unique run_id)) tt)
        found-IsTimed
