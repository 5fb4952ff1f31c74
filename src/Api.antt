-- ===== src/Api.antt =====
-- The routes of the API: src/sessions/sessions.controller.ts, src/agent/agent.controller.ts,
-- src/organizations/organizations.controller.ts, src/api-keys/api-keys.controller.ts and
-- src/users/users.controller.ts, behind the guards that src/app.module.ts and the decorators put in
-- front of them. NestJS runs the guards first and then the pipes of the parameters. The body and the
-- query of a request are as the validation has left them.
pub mod Operations
pub mod Guarded
pub mod Refused
pub mod Visible
pub mod ErrorResponse
pub mod SessionsController
pub mod AgentController
pub mod OrganizationsController
pub mod ApiKeysController
pub mod UsersController
use lotus_build_server.Base.{ℕ, String, Bool, true, false, Option, none, some, List, [], ◌∷◌}
use lotus_build_server.World.Data.{MembershipRole, OrgActor, Organization}
use lotus_build_server.World.Exec.{Result, World, Exec, ◌>>=◌}
use lotus_build_server.Memberships
use lotus_build_server.Auth
use lotus_build_server.Auth.{AuthenticatedRequest, RequestUser}
use Operations.{Operation, OperationReply, Route, RouteReply, roles_of}

-- the id of `request.user`
abbrev pub user_id_of : Option RequestUser → Option String
user_id_of none = none
user_id_of (some user) = some user.id

-- what the routes need of the configuration, and ParseUUIDPipe and SHA-256
pub record Settings : Type 0 where
  pub model : String
  pub membership_ttl_seconds : ℕ
  pub uuid : String → Result String
  pub sha256 : String → String

module _ (w : World) (settings : Settings) where
  -- the handler that a route of an organization leads to
  unfoldable pub operate : String → AuthenticatedRequest → (o : Operation) → Exec (OperationReply o)
  operate organization request Operation.get_organization =
      OrganizationsController.get w settings.uuid organization
  operate organization request Operation.list_members =
      OrganizationsController.list_members w settings.uuid organization
  operate organization request (Operation.add_member dto) =
      OrganizationsController.add_member w settings.uuid organization request dto
  operate organization request (Operation.list_audit_logs limit) =
      OrganizationsController.list_audit_logs w settings.uuid organization limit
  operate organization request (Operation.create_session title) =
      SessionsController.create w settings.uuid organization request title
  operate organization request (Operation.list_sessions query status) =
      SessionsController.list w settings.uuid organization request query status
  operate organization request (Operation.get_session session) =
      SessionsController.get w settings.uuid organization request session
  operate organization request (Operation.update_session session dto) =
      SessionsController.update w settings.uuid organization request session dto
  operate organization request (Operation.list_messages session pagination) =
      SessionsController.list_messages w settings.uuid organization request session pagination
  operate organization request (Operation.create_message session dto) =
      SessionsController.create_message w settings.uuid organization request session dto
  operate organization request (Operation.create_run session prompt) =
      AgentController.create w settings.uuid organization request settings.model session prompt
  operate organization request (Operation.list_runs session pagination) =
      AgentController.list w settings.uuid organization request session pagination
  operate organization request (Operation.get_run run) =
      AgentController.get w settings.uuid organization request run
  operate organization request (Operation.list_steps run pagination) =
      AgentController.list_steps w settings.uuid organization request run pagination
  operate organization request (Operation.cancel_run run) =
      AgentController.cancel w settings.uuid organization request run
  operate organization request (Operation.run_events state run) =
      AgentController.events w settings.uuid organization request state run
  operate organization request (Operation.create_api_key name) =
      ApiKeysController.create w settings.uuid organization settings.sha256 request name
  operate organization request Operation.list_api_keys =
      ApiKeysController.list w settings.uuid organization
  operate organization request (Operation.revoke_api_key api_key) =
      ApiKeysController.revoke w settings.uuid organization request api_key

  -- a route behind OrgMembershipGuard
  unfoldable pub handle_within :
      Option RequestUser → String → (o : Operation) → Exec (OperationReply o)
  handle_within user organization o = do
    actor ←
        Memberships.can_activate w settings.membership_ttl_seconds (user_id_of user)
          (some organization) (roles_of o)
    operate organization (record { user = user; org_actor = some actor }) o

  -- what stands behind JwtAuthGuard, with the user that it put into the request
  unfoldable pub handle : Option RequestUser → (r : Route) → Exec (RouteReply r)
  unfolding handle_within
  handle user (Route.create_organization dto) =
      OrganizationsController.create w (record { user = user; org_actor = none }) dto
  handle user Route.list_organizations =
      OrganizationsController.list w (record { user = user; org_actor = none })
  handle user Route.me = UsersController.me w (record { user = user; org_actor = none })
  handle user (Route.within organization o) = handle_within user organization o

  -- a request with its Authorization header
  unfoldable pub respond : Option String → (r : Route) → Exec (RouteReply r)
  unfolding handle
  respond authorization r = do user ← Auth.can_activate w false authorization; handle user r
