-- ===== src/Api/OrganizationsController.antt =====
-- src/organizations/organizations.controller.ts. `uuid` is ParseUUIDPipe.
use lotus_build_server.Base.{String, List}
use lotus_build_server.Base.Integers.{ℤ, clamp}
use lotus_build_server.World.Data.{Organization, Membership}
use lotus_build_server.World.Calls.{AuditLog, MemberUser}
use lotus_build_server.World.Exec.{Result, World, Exec, lift, ◌>>=◌}
use lotus_build_server.Audit.{list_for_organization}
use lotus_build_server.Organizations
use lotus_build_server.Organizations.{CreateOrganization, AddMember}
use lotus_build_server.Auth.{AuthenticatedRequest, current_user}

module _ (w : World) (request : AuthenticatedRequest) where
  abbrev pub create : CreateOrganization → Exec Organization
  create dto = do user ← current_user request; Organizations.create w user.id dto

  abbrev pub list : Exec (List Organization)
  list = do user ← current_user request; Organizations.list_for_user w user.id

module _ (w : World) (uuid : String → Result String) (organization : String) where
  abbrev pub get : Exec Organization
  get = do organization_id ← lift (uuid organization); Organizations.get_by_id w organization_id

  abbrev pub list_members : Exec (List (Membership × MemberUser))
  list_members = do
    organization_id ← lift (uuid organization)
    Organizations.list_members w organization_id

  abbrev pub add_member : AuthenticatedRequest → AddMember → Exec Membership
  add_member request dto = do
    organization_id ← lift (uuid organization)
    user ← current_user request
    Organizations.add_member w organization_id user.id dto

  abbrev pub list_audit_logs : ℤ → Exec (List AuditLog)
  list_audit_logs limit = do
    organization_id ← lift (uuid organization)
    list_for_organization w organization_id (clamp 1 200 limit)
