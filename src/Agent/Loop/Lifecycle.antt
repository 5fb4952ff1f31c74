-- ===== src/Agent/Loop/Lifecycle.antt =====
-- The sandboxes of src/agent/agent-loop.service.ts: which ones `execute` starts and kills.
use lotus_build_server.Base.{
  ◌≤◌, String, ◌≡◌, refl, ap, ◌∙◌, false, Option, none, some, List, [], ◌∷◌, ◌++◌, arith,
  Bool-cases, inl, inr, length,
}
use lotus_build_server.World.Data.{AgentRun}
use lotus_build_server.World.Calls.{Call, prisma, sandbox, PrismaCall, SandboxCall, Reply}
use lotus_build_server.World.Exec.{
  Thrown, Result, ok, throw, History, World, perform, act, try_catch, try_finally_history,
  Result-cases,
}
use lotus_build_server.World.Grows.{Grows-weaken, Grows-try_catch, Extends, same, more}
use lotus_build_server.Agent.Publish.{complete}
use lotus_build_server.Agent.Sandbox
use lotus_build_server.Agent.Sandbox.{SandboxHandle}
use lotus_build_server.Agent.Loop.{
  Config, is_running, work, on_error, kill_sandbox, cleanup, attempt, run_job, execute_found,
  execute,
}
use lotus_build_server.Agent.Loop.Calls.{
  is_lifecycle, IsWork, IsStep-IsWork, work-IsWork, on_error-IsStep,
}

created_by : (c : Call) → Result (Reply c) → List String
created_by (sandbox (SandboxCall.create t)) (ok id) = id ∷ []
created_by _ _ = []

killed_by : Call → List String
killed_by (sandbox (SandboxCall.kill id)) = id ∷ []
killed_by _ = []

-- The sandboxes that were started, by their ids, the newest first.
unfoldable pub created : History → List String
unfolding created_by
created [] = []
created (e ∷ h) = created_by e.call e.reply ++ created h

-- The sandboxes for which `kill` was called.
unfoldable pub killed : History → List String
unfolding killed_by
killed [] = []
killed (e ∷ h) = killed_by e.call ++ killed h

-- Between the two histories the sandboxes of `ids` were started, and just these were killed.
abbrev pub Balanced : List String → History → History → Type 0
Balanced ids h h' = (created h' ≡ ids ++ created h) × (killed h' ≡ ids ++ killed h)

no_lifecycle :
    (c : Call) (r : Result (Reply c))
    → is_lifecycle c ≡ false
    → (created_by c r ≡ []) × (killed_by c ≡ [])
unfolding created_by killed_by
no_lifecycle (sandbox (SandboxCall.create t)) r h = cc
no_lifecycle (sandbox (SandboxCall.kill t)) r h = cc
no_lifecycle (prisma c) r h = (refl, refl)
no_lifecycle _ r h = (refl, refl)

Extends-Balanced : {h h' : History} → Extends IsWork h h' → Balanced [] h h'
unfolding created killed
Extends-Balanced same = (refl, refl)
Extends-Balanced (more e p x) =
    let (c, k) = no_lifecycle e.call e.reply p in
    let (c', k') = Extends-Balanced x in (rw c c', rw k k')

module _ (w : World) (c : Config) (run_id : String) where
  cleanup-some :
      (handle : SandboxHandle) (h : History)
      → (created (cleanup w c run_id (some handle) h).1 ≡ created h)
        × (killed (cleanup w c run_id (some handle) h).1 ≡ handle.sandbox_id ∷ killed h)
  unfolding cleanup kill_sandbox Sandbox.kill complete act perform created killed
  cleanup-some handle h = ground arith

  cleanup-none : (h : History) → Balanced [] h (cleanup w c run_id none h).1
  unfolding cleanup kill_sandbox complete act perform created killed
  cleanup-none h = ground arith

  on_error-Balanced : (e : Thrown) (h : History) → Balanced [] h (on_error w c run_id e h).1
  on_error-Balanced e h =
      Extends-Balanced ((Grows-weaken IsStep-IsWork (on_error-IsStep w c run_id e)).at h)

  guarded-Balanced :
      (prompt : String) (handle : SandboxHandle) (h : History)
      → Balanced [] h (try_catch (work w c run_id prompt handle) (on_error w c run_id) h).1
  guarded-Balanced prompt handle h = Extends-Balanced (
      (Grows-try_catch (work w c run_id prompt handle) (on_error w c run_id)
          (work-IsWork w c run_id prompt handle)
          (λ e. Grows-weaken IsStep-IsWork (on_error-IsStep w c run_id e))).at
        h)

  attempt_ok :
      (prompt : String) (handle : SandboxHandle) (h : History)
      → let h' = (attempt w c run_id prompt (ok handle) h).1 in
        (created h' ≡ created h) × (killed h' ≡ handle.sandbox_id ∷ killed h)
  unfolding attempt
  attempt_ok prompt handle h =
      let m = try_catch (work w c run_id prompt handle) (on_error w c run_id) in
      let (same_created, same_killed) = guarded-Balanced prompt handle h in
      let (c', k') = cleanup-some handle (m h).1 in
      rw (try_finally_history m (cleanup w c run_id (some handle)) h)
        (c' ∙ same_created, k' ∙ ap (λ (ids : List String). handle.sandbox_id ∷ ids) same_killed)

  attempt_throw :
      (prompt : String) (e : Thrown) (h : History)
      → Balanced [] h (attempt w c run_id prompt (throw e) h).1
  unfolding attempt
  attempt_throw prompt e h =
      let (same_created, same_killed) = on_error-Balanced e h in
      let (c', k') = cleanup-none (on_error w c run_id e h).1 in
      rw (try_finally_history (on_error w c run_id e) (cleanup w c run_id none) h)
        (c' ∙ same_created, k' ∙ same_killed)

  -- The sandbox that an execution starts, if it starts one.
  abbrev AtMostOne : History → History → Type 0
  AtMostOne h h' = (ids : List String) × (length ids ≤ 1) × Balanced ids h h'

  abbrev create_call : Call
  create_call = sandbox (SandboxCall.create c.sandbox_timeout_ms)

  run_job_ok :
      (prompt id : String) (h : History)
      → w.reply create_call h ≡ ok id
      → run_job w c run_id prompt h
        ≡ attempt w c run_id prompt
            (ok (record { sandbox_id = id; command_timeout_ms = c.command_timeout_ms }))
            (record { call = create_call; reply = ok id } ∷ h)
  unfolding run_job Sandbox.create perform
  run_job_ok prompt id h e = rw e

  run_job_throw :
      (prompt : String) (thrown : Thrown) (h : History)
      → w.reply create_call h ≡ throw thrown
      → run_job w c run_id prompt h
        ≡ attempt w c run_id prompt
            (throw thrown)
            (record { call = create_call; reply = throw thrown } ∷ h)
  unfolding run_job Sandbox.create perform
  run_job_throw prompt thrown h e = rw e

  run_job-AtMostOne : (prompt : String) (h : History) → AtMostOne h (run_job w c run_id prompt h).1
  unfolding created killed
  run_job-AtMostOne prompt h = elim (Result-cases (w.reply create_call h)) [
    | inl (id, e) ↦ (id ∷ [], omega arith, rw (run_job_ok prompt id h e) (attempt_ok prompt _ _))
    | inr (thrown, e) ↦
        ([], omega arith, rw (run_job_throw prompt thrown h e) (attempt_throw prompt thrown _))
  ]

  found-AtMostOne :
      (prompt : String) (run : Option AgentRun) (h : History)
      → AtMostOne h (execute_found w c run_id prompt run h).1
  unfolding execute_found
  found-AtMostOne prompt none h = ([], omega arith, (refl, refl))
  found-AtMostOne prompt (some run) h = elim (Bool-cases (is_running run.status)) [
    | inl running ↦ rw running (run_job-AtMostOne prompt h)
    | inr ended ↦ rw ended ([], omega arith, (refl, refl))
  ]

  -- Whatever the services reply or throw, an execution of a run starts at most one sandbox, and it
  -- calls `kill` for the sandbox that it started, once, and for no other.
  pub execute-Balanced :
      (prompt : String) (h : History)
      → (ids : List String) × (length ids ≤ 1) × Balanced ids h (execute w c run_id prompt h).1
  unfolding execute perform created killed
  execute-Balanced prompt h =
      elim (Result-cases (w.reply (prisma (PrismaCall.run_find_unique run_id)) h)) [
        | inl (run, e) ↦ rw e (found-AtMostOne prompt run _)
        | inr (thrown, e) ↦ rw e ([], omega arith, (refl, refl))
      ]
