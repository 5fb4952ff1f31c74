-- ===== src/Api/SessionsController.antt =====
-- src/sessions/sessions.controller.ts. `uuid` is ParseUUIDPipe.
use lotus_build_server.Base.{String, Option}
use lotus_build_server.World.Data.{Session, Message, SessionStatus, PaginationQuery}
use lotus_build_server.World.Exec.{Result, World, Exec, lift, ◌>>=◌}
use lotus_build_server.Pagination.{Page}
use lotus_build_server.Sessions
use lotus_build_server.Sessions.{UpdateSession, CreateMessage}
use lotus_build_server.Auth.{AuthenticatedRequest, current_user, current_actor}

module _ (w : World) (uuid : String → Result String) (organization : String)
    (request : AuthenticatedRequest) where
  abbrev pub create : String → Exec Session
  create title = do
    organization_id ← lift (uuid organization)
    user ← current_user request
    Sessions.create w organization_id user.id title

  abbrev pub list : PaginationQuery → Option SessionStatus → Exec (Page Session)
  list query status = do
    organization_id ← lift (uuid organization)
    actor ← current_actor request
    Sessions.list w organization_id actor query status

  abbrev pub get : String → Exec Session
  get session = do
    organization_id ← lift (uuid organization)
    session_id ← lift (uuid session)
    actor ← current_actor request
    Sessions.get_by_id w organization_id session_id actor

  abbrev pub update : String → UpdateSession → Exec Session
  update session dto = do
    organization_id ← lift (uuid organization)
    session_id ← lift (uuid session)
    actor ← current_actor request
    Sessions.update w organization_id session_id actor dto

  abbrev pub list_messages : String → PaginationQuery → Exec (Page Message)
  list_messages session pagination = do
    organization_id ← lift (uuid organization)
    session_id ← lift (uuid session)
    actor ← current_actor request
    Sessions.list_messages w organization_id session_id actor pagination

  abbrev pub create_message : String → CreateMessage → Exec Message
  create_message session dto = do
    organization_id ← lift (uuid organization)
    session_id ← lift (uuid session)
    actor ← current_actor request
    Sessions.create_message w organization_id session_id actor dto
