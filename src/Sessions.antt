-- ===== src/Sessions.antt =====
-- src/sessions/sessions.service.ts: the sessions of an organization and their messages.
pub mod Access
pub mod Scope
use lotus_build_server.Base.{
  ℕ, String, Bool, true, false, not, ◌&&◌, ◌||◌, Option, none, some, List, [], ◌∷◌, ◌==◌, get_or,
  if◌then◌else◌,
}
use lotus_build_server.World.Data.{
  Session, Message, OrgActor, MembershipRole, SessionStatus, MessageRole, PaginationQuery,
}
use lotus_build_server.World.Calls.{
  Call, PrismaCall, SessionData, StatusFilter, SortField, Direction, Metadata,
}
use lotus_build_server.World.Exec.{not_found, World, Exec, pure, raise, ◌>>=◌, ◌>>◌, perform}
use lotus_build_server.Mirror
use lotus_build_server.Audit
use lotus_build_server.Pagination.{Page, build_page, page_query, limit_of}

-- `actor.role === MembershipRole.MEMBER`
abbrev pub is_member : MembershipRole → Bool
is_member MembershipRole.member = true
is_member _ = false

abbrev pub is_user : MessageRole → Bool
is_user MessageRole.user = true
is_user _ = false

unfoldable pub can_access : Session → OrgActor → Bool
can_access session actor = not (is_member actor.role) || session.creator_id == actor.user_id

-- the spread `actor.role === MEMBER ? { creatorId: actor.userId } : {}`
abbrev pub creator_scope : OrgActor → Option String
creator_scope actor = if is_member actor.role then some actor.user_id else none

-- `status ?? { not: DELETED }`
abbrev pub status_filter : Option SessionStatus → StatusFilter
status_filter none = StatusFilter.not_equals SessionStatus.deleted
status_filter (some status) = StatusFilter.equals status

-- the two bodies of a request
pub record UpdateSession : Type 0 where
  pub title : Option String
  pub status : Option SessionStatus

pub record CreateMessage : Type 0 where
  pub role : MessageRole
  pub content : String

-- `if (!session || !canAccess(session, actor)) throw`
unfoldable pub require_access : OrgActor → Option Session → Exec Session
require_access actor none = raise (not_found "Session not found")
require_access actor (some session) =
    if not (can_access session actor) then raise (not_found "Session not found") else pure session

module _ (w : World) where
  unfoldable pub create : String → String → String → Exec Session
  create organization_id creator_id title = do
    session ← perform w (Call.prisma (PrismaCall.session_create organization_id creator_id title))
    Audit.record_entry w (record {
      organization_id = some organization_id;
      actor_id = some creator_id;
      action = "session.created";
      target_type = "session";
      target_id = some session.id;
      metadata = Metadata.absent;
    })
    pure session

  unfoldable pub list :
      String → OrgActor → PaginationQuery → Option SessionStatus → Exec (Page Session)
  list organization_id actor pagination status = do
    rows ← perform w (
        Call.prisma (
          PrismaCall.session_find_many
            (record {
              id = none;
              organization_id = organization_id;
              status = status_filter status;
              creator_id = creator_scope actor;
            })
            (page_query
              ((SortField.updated_at, Direction.desc) ∷ (SortField.id, Direction.desc) ∷ [])
              pagination)))
    pure (build_page (λ session. session.id) rows (limit_of pagination))

  unfoldable pub get_by_id : String → String → OrgActor → Exec Session
  unfolding require_access
  get_by_id organization_id session_id actor = do
    found ← perform w (
        Call.prisma (
          PrismaCall.session_find_first (record {
            id = some session_id;
            organization_id = organization_id;
            status = StatusFilter.any;
            creator_id = none;
          })))
    require_access actor found

  unfoldable pub update : String → String → OrgActor → UpdateSession → Exec Session
  unfolding get_by_id
  update organization_id session_id actor dto = do
    get_by_id organization_id session_id actor
    session ← perform w (
        Call.prisma (
          PrismaCall.session_update session_id (record { title = dto.title; status = dto.status })))
    Audit.record_entry w (record {
      organization_id = some organization_id;
      actor_id = some actor.user_id;
      action = "session.updated";
      target_type = "session";
      target_id = some session_id;
      metadata = Metadata.session_changes (record { title = dto.title; status = dto.status });
    })
    pure session

  unfoldable pub list_messages : String → String → OrgActor → PaginationQuery → Exec (Page Message)
  unfolding get_by_id
  list_messages organization_id session_id actor pagination = do
    get_by_id organization_id session_id actor
    rows ← perform w (
        Call.prisma (
          PrismaCall.message_find_many session_id (
            page_query ((SortField.created_at, Direction.asc) ∷ (SortField.id, Direction.asc) ∷ [])
              pagination)))
    pure (build_page (λ message. message.id) rows (limit_of pagination))

  unfoldable pub create_message : String → String → OrgActor → CreateMessage → Exec Message
  unfolding get_by_id
  create_message organization_id session_id actor dto = do
    session ← get_by_id organization_id session_id actor
    message ← perform w (
        Call.prisma (
          PrismaCall.message_create (record {
            session_id = session_id;
            author_id = if is_user dto.role then some actor.user_id else none;
            role = dto.role;
            content = dto.content;
          })))
    Mirror.add_message w message.id (record {
      session_id = session_id;
      organization_id = organization_id;
      session_creator_id = session.creator_id;
      author_id = message.author_id;
      role = message.role;
      content = message.content;
      created_at = message.created_at;
    })
    pure message
