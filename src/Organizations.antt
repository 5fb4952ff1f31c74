-- ===== src/Organizations.antt =====
-- src/organizations/organizations.service.ts: organizations and who belongs to them. A transaction of
-- Prisma begins, runs its callback, and commits where the callback returned and rolls back where it
-- threw, which it throws again.
pub mod Written
pub mod Founded
pub mod Coherent
pub mod Reachable
use lotus_build_server.Base.{String, Option, none, some, List}
use lotus_build_server.World.Data.{User, Organization, Membership, MembershipRole}
use lotus_build_server.World.Calls.{Call, PrismaCall, Metadata, MemberUser}
use lotus_build_server.World.Exec.{
  Thrown, not_found, conflict, World, Exec, pure, raise, ◌>>=◌, ◌>>◌, try_catch, or_throw, perform,
  act, new_date,
}
use lotus_build_server.Mirror
use lotus_build_server.Audit
use lotus_build_server.Memberships.{invalidate}

-- the bodies of the requests
pub record CreateOrganization : Type 0 where
  pub name : String
  pub slug : String

pub record AddMember : Type 0 where
  pub email : String
  pub role : MembershipRole

-- `if (existing) throw`
unfoldable pub refuse_existing {ℓ} : {A : Type ℓ} → Option A → Thrown → Exec (Unit {0})
refuse_existing none e = pure tt
refuse_existing (some a) e = raise e

module _ (w : World) where
  unfoldable pub roll_back {ℓ} : {A : Type ℓ} → Thrown → Exec A
  roll_back e = do act w (Call.prisma PrismaCall.transaction_rollback); raise e

  -- `$transaction(callback)`
  unfoldable pub transaction {ℓ} : {A : Type ℓ} → Exec A → Exec A
  unfolding roll_back
  transaction callback = do
    act w (Call.prisma PrismaCall.transaction_begin)
    a ← try_catch callback roll_back
    act w (Call.prisma PrismaCall.transaction_commit)
    pure a

  -- the callback of the transaction in `create`
  unfoldable pub insert_owned : String → CreateOrganization → Exec Organization
  insert_owned creator_id dto = do
    org ← perform w (Call.prisma (PrismaCall.organization_create dto.name dto.slug))
    perform w (Call.prisma (PrismaCall.membership_create creator_id org.id MembershipRole.owner))
    pure org

  -- what `create` does behind its transaction
  unfoldable pub announce : String → User → Organization → Exec Organization
  announce creator_id creator organization = do
    created_at ← new_date w
    Mirror.set_member w organization.id creator.external_id
        (record { user_id = creator.id; role = MembershipRole.owner; created_at = created_at })
    Audit.record_entry w (record {
      organization_id = some organization.id;
      actor_id = some creator_id;
      action = "organization.created";
      target_type = "organization";
      target_id = some organization.id;
      metadata = Metadata.absent;
    })
    pure organization

  unfoldable pub create : String → CreateOrganization → Exec Organization
  create creator_id dto = do
    existing ← perform w (Call.prisma (PrismaCall.organization_find_by_slug dto.slug))
    refuse_existing existing (conflict "An organization with this slug exists")
    found ← perform w (Call.prisma (PrismaCall.user_find_by_id creator_id))
    creator ← or_throw found (not_found "Creator user not found")
    organization ← transaction (insert_owned creator_id dto)
    announce creator_id creator organization

  unfoldable pub list_for_user : String → Exec (List Organization)
  list_for_user user_id = perform w (Call.prisma (PrismaCall.organization_find_many user_id))

  unfoldable pub get_by_id : String → Exec Organization
  get_by_id organization_id = do
    org ← perform w (Call.prisma (PrismaCall.organization_find_by_id organization_id))
    or_throw org (not_found "Organization not found")

  unfoldable pub list_members : String → Exec (List (Membership × MemberUser))
  list_members organization_id =
      perform w (Call.prisma (PrismaCall.membership_find_many organization_id))

  -- what `addMember` does once the membership is created
  unfoldable pub publish_member : String → String → AddMember → User → Membership → Exec Membership
  publish_member organization_id actor_id dto user membership = do
    invalidate w user.id organization_id
    Mirror.set_member w organization_id user.external_id
        (record { user_id = user.id; role = membership.role; created_at = membership.created_at })
    Audit.record_entry w (record {
      organization_id = some organization_id;
      actor_id = some actor_id;
      action = "membership.created";
      target_type = "membership";
      target_id = some membership.id;
      metadata = Metadata.added_member dto.role user.id;
    })
    pure membership

  -- `addMember` for the user that was found
  unfoldable pub add_user : String → String → AddMember → User → Exec Membership
  add_user organization_id actor_id dto user = do
    existing ← perform w (Call.prisma (PrismaCall.membership_find_unique user.id organization_id))
    refuse_existing existing (conflict "User is already a member")
    membership ←
        perform w (Call.prisma (PrismaCall.membership_create user.id organization_id dto.role))
    publish_member organization_id actor_id dto user membership

  unfoldable pub add_member : String → String → AddMember → Exec Membership
  add_member organization_id actor_id dto = do
    found ← perform w (Call.prisma (PrismaCall.user_find_by_email dto.email))
    user ← or_throw found (not_found "No user found with this email")
    add_user organization_id actor_id dto user
