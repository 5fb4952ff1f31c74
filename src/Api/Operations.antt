-- ===== src/Api/Operations.antt =====
-- The routes of the controllers with what a request passes to them, the responses' types, and the roles
-- that the decorator `OrgRoles` asks for.
use lotus_build_server.Base.{ℕ, String, Option, List, [], ◌∷◌}
use lotus_build_server.Base.Integers.{ℤ}
use lotus_build_server.World.Data.{
  Session, Message, SessionStatus, MembershipRole, PaginationQuery, AgentRun, AgentStep,
  Organization, Membership,
}
use lotus_build_server.World.Calls.{AuditLog, ApiKeySummary, MemberUser}
use lotus_build_server.Pagination.{Page}
use lotus_build_server.Sessions.{UpdateSession, CreateMessage}
use lotus_build_server.Organizations.{CreateOrganization, AddMember}
use lotus_build_server.ApiKeys.{IssuedApiKey}
use lotus_build_server.Agent.Events.{AgentEvents, Effect}
use lotus_build_server.Api.UsersController.{Profile}

-- the routes of an organization
pub data Operation : Type 0 where
  get_organization list_members : Operation
  add_member : AddMember → Operation
  list_audit_logs : ℤ → Operation
  create_session : String → Operation
  list_sessions : PaginationQuery → Option SessionStatus → Operation
  get_session : String → Operation
  update_session : String → UpdateSession → Operation
  list_messages : String → PaginationQuery → Operation
  create_message : String → CreateMessage → Operation
  create_run : String → String → Operation
  list_runs : String → PaginationQuery → Operation
  get_run : String → Operation
  list_steps : String → PaginationQuery → Operation
  cancel_run : String → Operation
  run_events : AgentEvents → String → Operation
  create_api_key : String → Operation
  list_api_keys : Operation
  revoke_api_key : String → Operation

abbrev pub OperationReply : Operation → Type 0
OperationReply Operation.get_organization = Organization
OperationReply Operation.list_members = List (Membership × MemberUser)
OperationReply (Operation.add_member dto) = Membership
OperationReply (Operation.list_audit_logs limit) = List AuditLog
OperationReply (Operation.create_session title) = Session
OperationReply (Operation.list_sessions query status) = Page Session
OperationReply (Operation.get_session session) = Session
OperationReply (Operation.update_session session dto) = Session
OperationReply (Operation.list_messages session pagination) = Page Message
OperationReply (Operation.create_message session dto) = Message
OperationReply (Operation.create_run session prompt) = AgentRun
OperationReply (Operation.list_runs session pagination) = Page AgentRun
OperationReply (Operation.get_run run) = AgentRun
OperationReply (Operation.list_steps run pagination) = Page AgentStep
OperationReply (Operation.cancel_run run) = Unit {0}
OperationReply (Operation.run_events state run) = ℕ × AgentEvents × List Effect
OperationReply (Operation.create_api_key name) = IssuedApiKey
OperationReply Operation.list_api_keys = List ApiKeySummary
OperationReply (Operation.revoke_api_key api_key) = Unit {0}

-- every route that is not public
pub data Route : Type 0 where
  create_organization : CreateOrganization → Route
  list_organizations : Route
  me : Route
  within : String → Operation → Route

abbrev pub RouteReply : Route → Type 0
RouteReply (Route.create_organization dto) = Organization
RouteReply Route.list_organizations = List Organization
RouteReply Route.me = Profile
RouteReply (Route.within organization o) = OperationReply o

abbrev managers : List MembershipRole
managers = MembershipRole.owner ∷ MembershipRole.admin ∷ []

unfoldable pub roles_of : Operation → List MembershipRole
roles_of (Operation.add_member dto) = managers
roles_of (Operation.list_audit_logs limit) = managers
roles_of (Operation.create_api_key name) = managers
roles_of Operation.list_api_keys = managers
roles_of (Operation.revoke_api_key api_key) = managers
roles_of _ = []
