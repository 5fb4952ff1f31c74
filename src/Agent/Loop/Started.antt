-- ===== src/Agent/Loop/Started.antt =====
-- When a job of src/agent/agent-loop.service.ts starts a sandbox.
use lotus_build_server.Base.{
  ℕ, ◌+◌, String, ◌≡◌, refl, ap, ◌∙◌, Bool, true, false, Option, none, some, ◌∷◌, count, arith,
  if◌then◌else◌,
}
use lotus_build_server.World.Data.{AgentRun, AgentRunStatus}
use lotus_build_server.World.Calls.{
  Call, PrismaCall, SandboxCall, prisma, firestore, redis, sandbox, messages_create, queue_add,
  agent_runs_total_inc, verify_id_token, random_bytes,
}
use lotus_build_server.World.Exec.{Result, ok, throw, History, World, perform, pure, continue}
use lotus_build_server.World.Grows.{Extends-count}
use lotus_build_server.Agent.Sandbox
use lotus_build_server.Agent.Sandbox.{SandboxHandle}
use lotus_build_server.Agent.Tools.Confined.{IsConfined}
use lotus_build_server.Agent.Loop.{Config, is_running, run_job, execute_found, execute}
use lotus_build_server.Agent.Loop.Whole.{is_sandbox, attempt-Whole}

abbrev pub is_start : Call → Bool
is_start (sandbox (SandboxCall.create t)) = true
is_start _ = false

-- How often it was tried to start a sandbox.
abbrev pub starts : History → ℕ
starts h = count (λ e. is_start e.call) h

-- How often a job is to try, by what the database says of its run.
abbrev pub due_for : AgentRunStatus → ℕ
due_for AgentRunStatus.running = 1
due_for AgentRunStatus.completed = 0
due_for AgentRunStatus.failed = 0
due_for AgentRunStatus.cancelled = 0

abbrev pub due : Result (Option AgentRun) → ℕ
due (ok (some run)) = due_for run.status
due (ok none) = 0
due (throw e) = 0

plus_zero : (n : ℕ) → n ≡ 0 + n
plus_zero n = omega arith

outside : (c : Call) → is_sandbox c ≡ false → is_start c ≡ false
outside (sandbox c) h = absurd cc
outside (prisma c) h = refl
outside (firestore c) h = refl
outside (redis c) h = refl
outside (messages_create r) h = refl
outside (queue_add n d j) h = refl
outside (agent_runs_total_inc s) h = refl
outside (verify_id_token t) h = refl
outside (random_bytes n) h = refl

confined : (handle : SandboxHandle) (c : Call) → IsConfined handle c → is_start c ≡ false
confined handle (sandbox (SandboxCall.create t)) h = absurd h
confined handle (sandbox (SandboxCall.kill id)) h = refl
confined handle (sandbox (SandboxCall.run i c d t)) h = refl
confined handle (sandbox (SandboxCall.read i p)) h = refl
confined handle (sandbox (SandboxCall.write i p s)) h = refl
confined handle (sandbox (SandboxCall.list i p)) h = refl
confined handle (prisma c) h = refl
confined handle (firestore c) h = refl
confined handle (redis c) h = refl
confined handle (messages_create r) h = refl
confined handle (queue_add n d j) h = refl
confined handle (agent_runs_total_inc s) h = refl
confined handle (verify_id_token t) h = refl
confined handle (random_bytes n) h = refl

module _ (w : World) (c : Config) (run_id prompt : String) where
  pure_history :
      {A B : Type 0} (r : Result A) (f : A → B) (h : History)
      → (continue r (λ a. pure (f a)) h).1 ≡ h
  pure_history (ok a) f h = refl
  pure_history (throw e) f h = refl

  starts-create :
      (h : History)
      → starts (Sandbox.create w c.sandbox_timeout_ms c.command_timeout_ms h).1 ≡ 1 + starts h
  unfolding Sandbox.create perform
  starts-create h =
      let started = perform w (sandbox (SandboxCall.create c.sandbox_timeout_ms)) h in
      ap (λ (h' : History). starts h')
        (pure_history {B = SandboxHandle} started.0
          (λ id. record { sandbox_id = id; command_timeout_ms = c.command_timeout_ms }) started.1)

  starts-run_job : (h : History) → starts (run_job w c run_id prompt h).1 ≡ 1 + starts h
  unfolding run_job
  starts-run_job h =
      let (created, h') = Sandbox.create w c.sandbox_timeout_ms c.command_timeout_ms h in
      Extends-count is_start (λ call p. p)
        ((attempt-Whole (λ call. is_start call ≡ false) outside w run_id c (λ id. refl) prompt
            created (λ handle e. confined handle)).at
          h')
      ∙ starts-create h

  starts_by :
      (status : AgentRunStatus) (h : History)
      → starts ((if is_running status then run_job w c run_id prompt else pure tt) h).1
        ≡ due_for status + starts h
  starts_by AgentRunStatus.running h = starts-run_job h
  starts_by AgentRunStatus.completed h = plus_zero (starts h)
  starts_by AgentRunStatus.failed h = plus_zero (starts h)
  starts_by AgentRunStatus.cancelled h = plus_zero (starts h)

  starts-execute_found :
      (found : Option AgentRun) (h : History)
      → starts (execute_found w c run_id prompt found h).1 ≡ due (ok found) + starts h
  unfolding execute_found
  starts-execute_found none h = plus_zero (starts h)
  starts-execute_found (some run) h = starts_by run.status h

  starts_replied :
      (reply : Result (Option AgentRun)) (h : History)
      → starts (continue reply (execute_found w c run_id prompt) h).1 ≡ due reply + starts h
  starts_replied (ok found) h = starts-execute_found found h
  starts_replied (throw e) h = plus_zero (starts h)

  -- Whatever the services reply or throw, an execution tries to start a sandbox just once where the
  -- database finds its run RUNNING, and never where the run is missing, has ended, or the lookup fails; so
  -- a job that is delivered again for a run that ended starts none.
  pub starts-execute :
      (h : History)
      → starts (execute w c run_id prompt h).1
        ≡ due (w.reply (prisma (PrismaCall.run_find_unique run_id)) h) + starts h
  unfolding execute perform
  starts-execute h =
      let reply = w.reply (prisma (PrismaCall.run_find_unique run_id)) h in
      let lookup : starts
            (record { call = prisma (PrismaCall.run_find_unique run_id); reply = reply } ∷ h)
          ≡ starts h =
        omega arith in
      starts_replied reply _ ∙ ap (λ n. due reply + n) lookup
