-- ===== src/Memberships.antt =====
-- src/auth/membership-cache.service.ts and src/auth/org-membership.guard.ts. What the guard reads of the
-- request and of the handler's decorator are its arguments, and the actor that it puts into the request
-- is its result.
pub mod Guard
pub mod Checks
pub mod Refusal
pub mod Keys
pub mod Roles
pub mod Pending
pub mod Coherent
use lotus_build_server.Base.{
  ℕ, String, ◌<>◌, Bool, true, false, not, ◌&&◌, ◌||◌, Option, none, some, List, [], ◌∷◌,
  if◌then◌else◌,
}
use lotus_build_server.Base.Text.{is_empty}
use lotus_build_server.World.Data.{Membership, MembershipRole, OrgActor}
use lotus_build_server.World.Calls.{Call, PrismaCall}
use lotus_build_server.Cache
use lotus_build_server.World.Exec.{
  Thrown, http, World, Exec, pure, raise, ◌>>=◌, ◌>>◌, perform, act,
}

abbrev pub key : String → String → String
key user_id organization_id = "membership:" <> organization_id <> ":" <> user_id

abbrev forbidden : String → Thrown
forbidden message = http 403 message

abbrev pub same_role : MembershipRole → MembershipRole → Bool
same_role MembershipRole.owner MembershipRole.owner = true
same_role MembershipRole.admin MembershipRole.admin = true
same_role MembershipRole.member MembershipRole.member = true
same_role _ _ = false

-- `roles.includes(role)`
unfoldable pub includes : List MembershipRole → MembershipRole → Bool
includes [] role = false
includes (r ∷ roles) role = same_role r role || includes roles role

abbrev pub is_none_required : List MembershipRole → Bool
is_none_required [] = true
is_none_required (r ∷ roles) = false

unfoldable pub invalidate : World → String → String → Exec (Unit {0})
invalidate w user_id organization_id = Cache.delete w (key user_id organization_id)

module _ (w : World) (ttl_seconds : ℕ) where
  store : String → String → Option Membership → Exec (Option MembershipRole)
  store user_id organization_id none = pure none
  store user_id organization_id (some membership) = do
    Cache.set_json w (key user_id organization_id) membership.role ttl_seconds
    pure (some membership.role)

  -- `get` behind the read of the cache
  look_up : String → String → Option MembershipRole → Exec (Option MembershipRole)
  look_up user_id organization_id (some role) = pure (some role)
  look_up user_id organization_id none = do
    membership ← perform w (Call.prisma (PrismaCall.membership_find_unique user_id organization_id))
    store user_id organization_id membership

  unfoldable pub get : String → String → Exec (Option MembershipRole)
  unfolding look_up store
  get user_id organization_id = do
    cached ← Cache.get_json w (key user_id organization_id)
    look_up user_id organization_id cached

  -- the guard from the membership on
  admit : String → List MembershipRole → Option MembershipRole → Exec OrgActor
  admit user_id required none = raise (forbidden "Not a member of this organization")
  admit user_id required (some role) =
      if not (is_none_required required) && not (includes required role)
      then raise (forbidden "Insufficient role for this operation")
      else pure (record { user_id = user_id; role = role })

  -- `canActivate`, for the user and the parameter `organizationId` of the request
  unfoldable pub can_activate : Option String → Option String → List MembershipRole → Exec OrgActor
  unfolding admit
  can_activate none organization_id required = raise (forbidden "Authentication required")
  can_activate (some user_id) none required = raise (http 400 "Missing organizationId parameter")
  can_activate (some user_id) (some organization_id) required =
      if is_empty organization_id
      then raise (http 400 "Missing organizationId parameter")
      else do role ← get user_id organization_id; admit user_id required role
