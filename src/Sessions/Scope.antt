-- ===== src/Sessions/Scope.antt =====
-- Which organization and which session the calls of src/sessions/sessions.service.ts are about, and which
-- of them need access to the session.
use lotus_build_server.Base.{String, ◌≡◌, refl, Option, none, some}
use lotus_build_server.World.Data.{
  Session, OrgActor, MembershipRole, SessionStatus, PaginationQuery,
}
use lotus_build_server.World.Calls.{Call, PrismaCall, FirestoreCall, Document, prisma, firestore}
use lotus_build_server.World.Exec.{World, Exec, History, ◌>>=◌}
use lotus_build_server.World.Grows.{
  Extends, Extends-bind, Grows, Grows-act, Grows-bind, Grows-if, Grows-pure, Grows-raise,
  Grows-perform, grows_rules,
}
use lotus_build_server.Sessions.Access.{lookup, Permitted, get_by_id_permits}
use lotus_build_server.Sessions.{
  creator_scope, create, list, get_by_id, require_access, update, list_messages, create_message,
  UpdateSession, CreateMessage,
}

-- A message's document, of the session and the organization.
abbrev pub IsScopedDocument : String → String → Document → Type 0
IsScopedDocument organization_id session_id (Document.message m) =
    (m.organization_id ≡ organization_id) × (m.session_id ≡ session_id)
IsScopedDocument organization_id session_id _ = ⊥

-- A call that stays within the organization, for the session and the actor. The session and its messages
-- are read or written only with the permission.
abbrev pub IsScoped : Type 0 → String → String → OrgActor → Call → Type 0
IsScoped permission organization_id session_id actor (prisma (PrismaCall.session_create o c _)) =
    (o ≡ organization_id) × (c ≡ actor.user_id)
IsScoped permission organization_id session_id actor
      (prisma (PrismaCall.session_find_first where_)) =
    (where_.organization_id ≡ organization_id) × (where_.id ≡ some session_id)
IsScoped permission organization_id session_id actor
      (prisma (PrismaCall.session_find_many where_ _)) =
    (where_.organization_id ≡ organization_id)
    × (actor.role ≡ MembershipRole.member → where_.creator_id ≡ some actor.user_id)
IsScoped permission organization_id session_id actor (prisma (PrismaCall.session_update id _)) =
    (id ≡ session_id) × permission
IsScoped permission organization_id session_id actor (prisma (PrismaCall.message_find_many id _)) =
    (id ≡ session_id) × permission
IsScoped permission organization_id session_id actor (prisma (PrismaCall.message_create row)) =
    (row.session_id ≡ session_id) × permission
IsScoped permission organization_id session_id actor (prisma (PrismaCall.audit_create entry)) =
    (entry.organization_id ≡ some organization_id) × (entry.actor_id ≡ some actor.user_id)
IsScoped permission organization_id session_id actor (firestore (FirestoreCall.merge _ document)) =
    IsScopedDocument organization_id session_id document × permission
IsScoped permission organization_id session_id actor (firestore (FirestoreCall.create _ document)) =
    IsScopedDocument organization_id session_id document × permission
IsScoped permission organization_id session_id actor _ = ⊥

pub creator_scope_member :
    (actor : OrgActor)
    → actor.role ≡ MembershipRole.member
    → creator_scope actor ≡ some actor.user_id
creator_scope_member actor e = rw e refl

require_access-Grows :
    {P : Call → Type 0} (actor : OrgActor) (found : Option Session)
    → Grows P (require_access actor found)
unfolding require_access
require_access-Grows actor none = search grows_rules
require_access-Grows actor (some session) = Grows-if _ _ _ (Grows-raise _) (Grows-pure session)

module _ (w : World) (organization_id session_id : String) (actor : OrgActor) (h : History) where
  -- The calls that the operations may make, where only what the database replies to the lookup of the
  -- session permits more than that lookup.
  abbrev pub Scoped : Call → Type 0
  Scoped =
      IsScoped (Permitted w organization_id session_id actor h) organization_id session_id actor

  get_by_id-Scoped : Grows Scoped (get_by_id w organization_id session_id actor)
  unfolding get_by_id
  get_by_id-Scoped =
      Grows-bind _ _ (Grows-perform w (lookup organization_id session_id) (refl, refl))
        λ found. require_access-Grows actor found

  -- What comes behind `getById` has the permission.
  guarded-Scoped :
      {B : Type 0} (f : Session → Exec B)
      → (Permitted w organization_id session_id actor h
          → (session : Session) → Grows Scoped (f session))
      → Extends Scoped h ((get_by_id w organization_id session_id actor >>= f) h).1
  guarded-Scoped f k =
      Extends-bind (get_by_id w organization_id session_id actor) f h (get_by_id-Scoped.at h)
        λ session e. k (get_by_id_permits w organization_id session_id actor h session e) session

  update-Scoped :
      (changes : UpdateSession)
      → Extends Scoped h (update w organization_id session_id actor changes h).1
  unfolding update
  update-Scoped changes = guarded-Scoped _ λ permitted session.
      Grows-bind _ _ (Grows-perform w _ (refl, permitted)) λ updated. search grows_rules

  list_messages-Scoped :
      (pagination : PaginationQuery)
      → Extends Scoped h (list_messages w organization_id session_id actor pagination h).1
  unfolding list_messages
  list_messages-Scoped pagination =
      guarded-Scoped _ λ permitted session.
        Grows-bind _ _ (Grows-perform w _ (refl, permitted)) λ rows. Grows-pure _

  create_message-Scoped :
      (body : CreateMessage)
      → Extends Scoped h (create_message w organization_id session_id actor body h).1
  unfolding create_message
  create_message-Scoped body = guarded-Scoped _ λ permitted session.
      Grows-bind _ _ (Grows-perform w _ (refl, permitted))
        λ message. Grows-bind _ _ (Grows-act w _ ((refl, refl), permitted)) λ u. Grows-pure message

  list-Scoped :
      (pagination : PaginationQuery) (status : Option SessionStatus)
      → Grows Scoped (list w organization_id actor pagination status)
  unfolding list
  list-Scoped pagination status =
      Grows-bind _ _ (Grows-perform w _ (refl, creator_scope_member actor)) λ rows. Grows-pure _

  create-Scoped : (title : String) → Grows Scoped (create w organization_id actor.user_id title)
  unfolding create
  create-Scoped title = search grows_rules

  -- Whatever the services reply, the calls of the six operations on sessions stay within the organization:
  -- they insert, look up and list the organization's sessions, a member's list only those that it created,
  -- and log in the organization's log as the actor. The session is changed, and its messages are read,
  -- inserted and mirrored, only where the database found it in the organization and the actor may access
  -- it. No other call is made.
  pub sessions-IsScoped :
      (title : String) (pagination : PaginationQuery) (status : Option SessionStatus)
      (changes : UpdateSession) (body : CreateMessage)
      → Extends Scoped h (create w organization_id actor.user_id title h).1
        × Extends Scoped h (list w organization_id actor pagination status h).1
        × Extends Scoped h (get_by_id w organization_id session_id actor h).1
        × Extends Scoped h (update w organization_id session_id actor changes h).1
        × Extends Scoped h (list_messages w organization_id session_id actor pagination h).1
        × Extends Scoped h (create_message w organization_id session_id actor body h).1
  sessions-IsScoped title pagination status changes body = (
    (create-Scoped title).at h,
    (list-Scoped pagination status).at h,
    get_by_id-Scoped.at h,
    update-Scoped changes,
    list_messages-Scoped pagination,
    create_message-Scoped body,
  )
