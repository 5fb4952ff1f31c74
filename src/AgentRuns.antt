-- ===== src/AgentRuns.antt =====
-- src/agent/agent-runs.service.ts, with `enqueue` of src/agent/agent-run.queue.ts: the runs as the API
-- sees them.
pub mod Enqueued
pub mod Cancelled
pub mod Scope
use lotus_build_server.Base.{
  String, Bool, true, false, not, Option, none, some, List, [], ◌∷◌, if◌then◌else◌,
}
use lotus_build_server.World.Data.{
  Session, AgentRun, AgentStep, AgentRunStatus, OrgActor, PaginationQuery, finish,
}
use lotus_build_server.World.Calls.{
  Call, PrismaCall, StatusFilter, SortField, Direction, Metadata, RunWhere, AgentRunJobData,
}
use lotus_build_server.World.Exec.{
  Thrown, not_found, conflict, World, Exec, pure, raise, try_catch, or_throw, ◌>>=◌, ◌>>◌, perform,
  act, new_date,
}
use lotus_build_server.Mirror
use lotus_build_server.Audit
use lotus_build_server.Pagination.{Page, build_page, page_query, limit_of}
use lotus_build_server.Sessions.{is_member, creator_scope}
use lotus_build_server.Agent.Loop.{request_cancellation, is_running}

unfoldable pub session_scope : OrgActor → Option String
session_scope actor = if is_member actor.role then some actor.user_id else none

-- the condition on a run
abbrev pub run_where : String → String → OrgActor → RunWhere
run_where organization_id run_id actor = record {
  id = some run_id;
  organization_id = organization_id;
  session_id = none;
  session_creator_id = session_scope actor;
}

module _ (w : World) where
  -- `AgentRunQueue.enqueue`
  unfoldable pub enqueue : AgentRunJobData → Exec (Unit {0})
  enqueue data_ = act w (Call.queue_add "execute" data_ data_.run_id)

  -- the `catch` behind `setRun`
  unfoldable pub on_mirror_failure : {A : Type 0} → String → Thrown → Exec A
  on_mirror_failure run_id e = do
    finished_at ← new_date w
    act w (
        Call.prisma (
          PrismaCall.run_update run_id
            (finish AgentRunStatus.failed (some "Failed to mirror run to Firestore") finished_at)))
    raise e

  -- the writes of the `catch` behind `enqueue`
  unfoldable pub mark_not_enqueued : String → Exec (Unit {0})
  mark_not_enqueued run_id = do
    finished_at ← new_date w
    let failure =
        finish AgentRunStatus.failed (some "Failed to enqueue agent run for execution") finished_at
    act w (Call.prisma (PrismaCall.run_update run_id failure))
    Mirror.update_run w run_id failure

  unfoldable pub on_enqueue_failure : {A : Type 0} → String → Thrown → Exec A
  on_enqueue_failure run_id e = do mark_not_enqueued run_id; raise e

  -- what `create` does from the insertion of the run on
  unfoldable pub create_on : String → String → String → OrgActor → String → Session → Exec AgentRun
  create_on model organization_id session_id actor prompt session = do
    run ← perform w (
        Call.prisma (
          PrismaCall.run_create (record {
            organization_id = organization_id;
            session_id = session_id;
            creator_id = actor.user_id;
            prompt = prompt;
            model = model;
          })))
    try_catch
        (Mirror.set_run w run.id (record {
          organization_id = organization_id;
          session_id = session_id;
          session_creator_id = session.creator_id;
          creator_id = actor.user_id;
          prompt = run.prompt;
          model = run.model;
          status = run.status;
          error = none;
          sandbox_id = none;
          started_at = run.started_at;
          finished_at = none;
        }))
        (on_mirror_failure run.id)
    Audit.record_entry w (record {
      organization_id = some organization_id;
      actor_id = some actor.user_id;
      action = "agent_run.created";
      target_type = "agent_run";
      target_id = some run.id;
      metadata = Metadata.absent;
    })
    try_catch (enqueue (record { run_id = run.id; prompt = prompt })) (on_enqueue_failure run.id)
    pure run

  -- `create`, with the configured model
  unfoldable pub create : String → String → String → OrgActor → String → Exec AgentRun
  create model organization_id session_id actor prompt = do
    found ← perform w (
        Call.prisma (
          PrismaCall.session_find_first (record {
            id = some session_id;
            organization_id = organization_id;
            status = StatusFilter.any;
            creator_id = creator_scope actor;
          })))
    session ← or_throw found (not_found "Session not found")
    create_on model organization_id session_id actor prompt session

  unfoldable pub list : String → String → OrgActor → PaginationQuery → Exec (Page AgentRun)
  list organization_id session_id actor pagination = do
    rows ← perform w (
        Call.prisma (
          PrismaCall.run_find_many
            (record {
              id = none;
              organization_id = organization_id;
              session_id = some session_id;
              session_creator_id = session_scope actor;
            })
            (page_query
              ((SortField.started_at, Direction.desc) ∷ (SortField.id, Direction.desc) ∷ [])
              pagination)))
    pure (build_page (λ run. run.id) rows (limit_of pagination))

  unfoldable pub get_by_id : String → String → OrgActor → Exec AgentRun
  get_by_id organization_id run_id actor = do
    found ←
        perform w (Call.prisma (PrismaCall.run_find_first (run_where organization_id run_id actor)))
    or_throw found (not_found "Agent run not found")

  unfoldable pub list_steps : String → String → OrgActor → PaginationQuery → Exec (Page AgentStep)
  list_steps organization_id run_id actor pagination = do
    get_by_id organization_id run_id actor
    rows ← perform w (
        Call.prisma (
          PrismaCall.step_find_many run_id
            (page_query ((SortField.index, Direction.asc) ∷ []) pagination)))
    pure (build_page (λ step. step.id) rows (limit_of pagination))

  -- what `cancel` does for a run that is running
  unfoldable pub cancel_running : String → String → OrgActor → Exec (Unit {0})
  cancel_running organization_id run_id actor = do
    request_cancellation w run_id
    Audit.record_entry w (record {
      organization_id = some organization_id;
      actor_id = some actor.user_id;
      action = "agent_run.cancellation_requested";
      target_type = "agent_run";
      target_id = some run_id;
      metadata = Metadata.absent;
    })

  unfoldable pub cancel : String → String → OrgActor → Exec (Unit {0})
  cancel organization_id run_id actor = do
    run ← get_by_id organization_id run_id actor
    if not (is_running run.status)
        then raise (conflict "Run is not currently running")
        else cancel_running organization_id run_id actor
