-- ===== src/AgentRuns/Scope.antt =====
-- Which organization, and whose sessions, the calls of src/agent/agent-runs.service.ts are about, and which
-- of them need the session or the run to be found.
use lotus_build_server.Base.{String, ◌≡◌, ◌⊎◌, some}
use lotus_build_server.World.Data.{OrgActor, MembershipRole, Session, AgentRun}
use lotus_build_server.World.Calls.{
  Call, PrismaCall, FirestoreCall, RedisCall, Document, StatusFilter, prisma, firestore, redis,
  queue_add,
}
use lotus_build_server.World.Exec.{World, History, ok}
use lotus_build_server.World.Grows.{Grows}
use lotus_build_server.Sessions.{creator_scope}
use lotus_build_server.Agent.Loop.{cancel_key}
use lotus_build_server.AgentRuns.{run_where}

-- The document of a run that the actor creates in the session, or an update of a run's document.
abbrev pub IsScopedDocument : String → String → OrgActor → Document → Type 0
IsScopedDocument organization_id session_id actor (Document.run r) =
    (r.organization_id ≡ organization_id)
    × (r.session_id ≡ session_id)
    × (r.creator_id ≡ actor.user_id)
IsScopedDocument organization_id session_id actor (Document.run_update u) = Unit
IsScopedDocument organization_id session_id actor _ = ⊥

-- A call that stays within the organization, for the session, the run and the actor. A run is inserted,
-- mirrored and queued only with the permission of its session, and a run's steps are read and its
-- cancellation is requested only with the permission of the run.
abbrev pub IsScoped : Type 0 → Type 0 → String → String → String → OrgActor → Call → Type 0
IsScoped session_permission run_permission organization_id session_id run_id actor
      (prisma (PrismaCall.session_find_first where_)) =
    (where_.organization_id ≡ organization_id)
    × (where_.id ≡ some session_id)
    × (actor.role ≡ MembershipRole.member → where_.creator_id ≡ some actor.user_id)
IsScoped session_permission run_permission organization_id session_id run_id actor
      (prisma (PrismaCall.run_create row)) =
    (row.organization_id ≡ organization_id)
    × (row.session_id ≡ session_id)
    × (row.creator_id ≡ actor.user_id)
    × session_permission
IsScoped session_permission run_permission organization_id session_id run_id actor
      (prisma (PrismaCall.run_update _ _)) =
    session_permission
IsScoped session_permission run_permission organization_id session_id run_id actor
      (prisma (PrismaCall.run_find_first where_)) =
    (where_.organization_id ≡ organization_id)
    × (where_.id ≡ some run_id)
    × (actor.role ≡ MembershipRole.member → where_.session_creator_id ≡ some actor.user_id)
IsScoped session_permission run_permission organization_id session_id run_id actor
      (prisma (PrismaCall.run_find_many where_ _)) =
    (where_.organization_id ≡ organization_id)
    × (where_.session_id ≡ some session_id)
    × (actor.role ≡ MembershipRole.member → where_.session_creator_id ≡ some actor.user_id)
IsScoped session_permission run_permission organization_id session_id run_id actor
      (prisma (PrismaCall.step_find_many id _)) =
    (id ≡ run_id) × run_permission
IsScoped session_permission run_permission organization_id session_id run_id actor
      (prisma (PrismaCall.audit_create entry)) =
    (entry.organization_id ≡ some organization_id)
    × (entry.actor_id ≡ some actor.user_id)
    × (session_permission ⊎ run_permission)
IsScoped session_permission run_permission organization_id session_id run_id actor
      (firestore (FirestoreCall.merge _ document)) =
    IsScopedDocument organization_id session_id actor document × session_permission
IsScoped session_permission run_permission organization_id session_id run_id actor
      (redis (RedisCall.set key _ _)) =
    (key ≡ cancel_key run_id) × run_permission
IsScoped session_permission run_permission organization_id session_id run_id actor
      (queue_add _ _ _) =
    session_permission
IsScoped session_permission run_permission organization_id session_id run_id actor _ = ⊥

-- The query by which a session is looked for that the actor may start a run in.
abbrev pub session_lookup : String → String → OrgActor → Call
session_lookup organization_id session_id actor = prisma (
    PrismaCall.session_find_first (record {
      id = some session_id;
      organization_id = organization_id;
      status = StatusFilter.any;
      creator_id = creator_scope actor;
    }))

abbrev pub run_lookup : String → String → OrgActor → Call
run_lookup organization_id run_id actor =
    prisma (PrismaCall.run_find_first (run_where organization_id run_id actor))

module _ (w : World) (organization_id session_id run_id : String) (actor : OrgActor)
    (h : History) where
  -- The database found the session, or the run, by the query that is narrowed for a member.
  abbrev pub SessionFound : Type 0
  SessionFound =
      (session : Session) × (w.reply (session_lookup organization_id session_id actor) h
        ≡ ok (some session))

  abbrev pub RunFound : Type 0
  RunFound =
      (run : AgentRun) × (w.reply (run_lookup organization_id run_id actor) h ≡ ok (some run))

  abbrev pub Scoped : Call → Type 0
  Scoped = IsScoped SessionFound RunFound organization_id session_id run_id actor
