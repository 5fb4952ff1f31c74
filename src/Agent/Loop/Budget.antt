-- ===== src/Agent/Loop/Budget.antt =====
-- The bound on the requests of src/agent/agent-loop.service.ts to the model.
use lotus_build_server.Base.{
  ℕ, zero, suc, ◌+◌, ◌≤◌, String, refl, Bool, true, false, Option, none, some, List, arith, count,
  if◌then◌else◌,
}
use lotus_build_server.World.Data.{AgentRun, MessageParam}
use lotus_build_server.World.Calls.{Call, prisma, PrismaCall}
use lotus_build_server.World.Exec.{
  Thrown, Result, ok, throw, History, World, Exec, lift, perform, act, ◌>>=◌, try_catch, handle,
  try_finally, try_finally_history,
}
use lotus_build_server.World.Grows.{Grows, Grows-perform, Extends-count}
use lotus_build_server.Agent.Publish.{complete}
use lotus_build_server.Agent.Sandbox
use lotus_build_server.Agent.Sandbox.{SandboxHandle}
use lotus_build_server.Agent.Loop.{
  Config, is_running, round, iterate, run_loop, work, on_error, kill_sandbox, cleanup, attempt,
  run_job, execute_found, execute,
}
use lotus_build_server.Agent.Loop.Calls.{
  is_request, IsStep, is_cancelled-IsStep, end_run-IsStep, answer-IsStep, emit-IsStep,
  set_run_sandbox-IsStep, on_error-IsStep,
}

-- The requests to the model that a history holds.
abbrev pub requests : History → ℕ
requests h = count (λ e. is_request e.call) h

-- The action makes at most so many requests, whatever it returns or throws.
record Costs {ℓ} {A : Type ℓ} (n : ℕ) (m : Exec A) : Type 0 where
  at : (h : History) → requests (m h).1 ≤ requests h + n

Costs-step {ℓ} : {A : Type ℓ} {m : Exec A} → Grows IsStep m → Costs 0 m
Costs-step k = record { at = λ h. omega (arith, Extends-count is_request (λ c s. s.0) (k.at h)) }

module _ {ℓ κ} {A : Type ℓ} {B : Type κ} where
  Costs-continue :
      (r : Result A) (f : A → Exec B) (k : ℕ) → ((a : A) → Costs k (f a)) → Costs k (lift r >>= f)
  Costs-continue (ok a) f k kf = kf a
  Costs-continue (throw e) f k kf = record { at = λ h. omega arith }

  Costs-bind :
      (n k : ℕ) {total : ℕ} (m : Exec A) (f : A → Exec B)
      → n + k ≤ total
      → Costs n m
      → ((a : A) → Costs k (f a))
      → Costs total (m >>= f)
  Costs-bind n k m f fits km kf = record {
    at = λ h. let (r, h') = m h in omega (arith, km.at h, (Costs-continue r f k kf).at h');
  }

module _ {ℓ} {A : Type ℓ} where
  Costs-if :
      (b : Bool) {n : ℕ} (m k : Exec A) → Costs n m → Costs n k → Costs n (if b then m else k)
  Costs-if true m k cm ck = cm
  Costs-if false m k cm ck = ck

  Costs-le : {n k : ℕ} {m : Exec A} → n ≤ k → Costs n m → Costs k m
  Costs-le fits km = record { at = λ h. omega (arith, km.at h) }

module _ {ℓ} {A : Type ℓ} where
  Costs-handle :
      (r : Result A) (handler : Thrown → Exec A) {k : ℕ}
      → ((e : Thrown) → Costs k (handler e))
      → Costs k (handle r handler)
  Costs-handle (ok a) handler kh = record { at = λ h. omega arith }
  Costs-handle (throw e) handler kh = kh e

  Costs-try_catch :
      (n k : ℕ) {total : ℕ} (m : Exec A) (handler : Thrown → Exec A)
      → n + k ≤ total
      → Costs n m
      → ((e : Thrown) → Costs k (handler e))
      → Costs total (try_catch m handler)
  Costs-try_catch n k m handler fits km kh = record {
    at = λ h. let (r, h') = m h in omega (arith, km.at h, (Costs-handle r handler kh).at h');
  }

  Costs-try_finally :
      (n k : ℕ) {total : ℕ} (m : Exec A) (last : Exec (Unit {0}))
      → n + k ≤ total
      → Costs n m
      → Costs k last
      → Costs total (try_finally m last)
  Costs-try_finally n k m last fits km kl = record {
    at = λ h. rw (try_finally_history m last h) (omega (arith, km.at h, kl.at (m h).1));
  }

Costs-perform : (w : World) (c : Call) → Costs 1 (perform w c)
unfolding perform
Costs-perform w c = record { at = λ h. ground arith }

module _ (w : World) (c : Config) (run_id : String) where
  round-Costs :
      (sandbox : SandboxHandle) (index : ℕ) (messages : List MessageParam)
      → Costs 1 (round w c run_id sandbox index messages)
  unfolding round
  round-Costs sandbox index messages =
      Costs-bind 0 1 _ _ (omega arith) (Costs-step (is_cancelled-IsStep w run_id)) λ stop.
        Costs-if stop _ _ (Costs-le (omega arith) (Costs-step (end_run-IsStep w c run_id _ _))) (
          Costs-bind 1 0 _ _ (omega arith) (Costs-perform w _)
            λ response. Costs-step (answer-IsStep w c run_id sandbox index messages response))

  iterate-Costs :
      (sandbox : SandboxHandle) (left index : ℕ) (messages : List MessageParam)
      → Costs left (iterate w c run_id sandbox left index messages)
  unfolding iterate
  iterate-Costs sandbox zero index messages = record { at = λ h. omega arith }
  iterate-Costs sandbox (suc left) index messages =
      Costs-bind 1 left (round w c run_id sandbox index messages) _ (omega arith)
        (round-Costs sandbox index messages)
        (elim [
          | none ↦ record { at = λ h. omega arith }
          | some (index', messages') ↦ iterate-Costs sandbox left index' messages'
        ])

  work-Costs :
      (prompt : String) (sandbox : SandboxHandle)
      → Costs c.max_iterations (work w c run_id prompt sandbox)
  unfolding work run_loop
  work-Costs prompt sandbox =
      Costs-bind 0 c.max_iterations _ _ (omega arith)
        (Costs-step (set_run_sandbox-IsStep w run_id _))
        λ _.
          Costs-bind 0 c.max_iterations _ _ (omega arith) (Costs-step (emit-IsStep w run_id _)) λ _.
            Costs-bind 0 c.max_iterations _ _ (omega arith)
              (Costs-step (Grows-perform w _ (refl, refl)))
              λ index. iterate-Costs sandbox c.max_iterations index _

  on_error-Costs : (e : Thrown) → Costs 0 (on_error w c run_id e)
  on_error-Costs e = Costs-step (on_error-IsStep w c run_id e)

  cleanup-Costs : (created : Option SandboxHandle) → Costs 0 (cleanup w c run_id created)
  unfolding cleanup kill_sandbox Sandbox.kill complete act perform
  cleanup-Costs none = record { at = λ h. ground arith }
  cleanup-Costs (some sandbox) = record { at = λ h. ground arith }

  attempt-Costs :
      (prompt : String) (created : Result SandboxHandle)
      → Costs c.max_iterations (attempt w c run_id prompt created)
  unfolding attempt
  attempt-Costs prompt (ok sandbox) =
      Costs-try_finally c.max_iterations 0 _ _ (omega arith)
        (Costs-try_catch c.max_iterations 0 _ _ (omega arith) (work-Costs prompt sandbox)
          on_error-Costs)
        (cleanup-Costs (some sandbox))
  attempt-Costs prompt (throw e) =
      Costs-try_finally 0 0 _ _ (omega arith) (on_error-Costs e) (cleanup-Costs none)

  create-Costs : Costs 0 (Sandbox.create w c.sandbox_timeout_ms c.command_timeout_ms)
  unfolding Sandbox.create perform
  create-Costs = record { at = λ h. ground arith }

  run_job-Costs : (prompt : String) → Costs c.max_iterations (run_job w c run_id prompt)
  unfolding run_job
  run_job-Costs prompt = record {
    at = λ h.
        let (created, h') = Sandbox.create w c.sandbox_timeout_ms c.command_timeout_ms h in
        omega (arith, create-Costs.at h, (attempt-Costs prompt created).at h');
  }

  found-Costs :
      (prompt : String) (run : Option AgentRun)
      → Costs c.max_iterations (execute_found w c run_id prompt run)
  unfolding execute_found
  found-Costs prompt none = record { at = λ h. omega arith }
  found-Costs prompt (some run) =
      Costs-if (is_running run.status) _ _ (run_job-Costs prompt) (record { at = λ h. omega arith })

  -- Whatever the services reply or throw, an execution asks the model at most `max_iterations` times.
  pub requests-execute :
      (prompt : String) (h : History)
      → requests (execute w c run_id prompt h).1 ≤ requests h + c.max_iterations
  unfolding execute
  requests-execute prompt h =
      (Costs-bind 0 c.max_iterations _ _ (omega arith)
          (Costs-step (Grows-perform w (prisma (PrismaCall.run_find_unique run_id)) (refl, refl)))
          (found-Costs prompt)).at
        h
