-- ===== src/Auth.antt =====
-- The authentication of a request: src/auth/token-verifier.service.ts, src/users/users.service.ts,
-- src/auth/jwt-auth.guard.ts, and the two decorators that hand the user and the actor to a handler.
pub mod Claims
pub mod Verified
use Prim.Native.String.{len, slice}
use text.Mathlib.Text.{starts_with}
use lotus_build_server.Base.{
  String, Bool, true, false, not, ◌&&◌, Option, none, some, ◌==◌, if◌then◌else◌,
}
use lotus_build_server.Base.Text.{is_empty}
use lotus_build_server.World.Data.{User, OrgActor, DecodedIdToken}
use lotus_build_server.World.Calls.{Call, PrismaCall}
use lotus_build_server.World.Exec.{
  Thrown, http, unauthorized, World, Exec, pure, raise, ◌>>=◌, try_catch, or_throw, perform,
}

pub record VerifiedIdentity : Type 0 where
  pub external_id : String
  pub email : String
  pub name : Option String

pub record RequestUser : Type 0 where
  pub id : String
  pub external_id : String
  pub email : String

-- what the guards put into the request
pub record AuthenticatedRequest : Type 0 where
  pub user : Option RequestUser
  pub org_actor : Option OrgActor

abbrev pub password_provider : String
password_provider = "password"

-- a text that is empty is left out
unfoldable pub non_empty : Option String → Option String
non_empty none = none
non_empty (some s) = if is_empty s then none else some s

-- `verify` from the decoded token on
unfoldable pub identity_of : DecodedIdToken → Exec VerifiedIdentity
identity_of decoded = do
  email ← or_throw (non_empty decoded.email) (unauthorized "Token is missing an email claim")
  if decoded.sign_in_provider == password_provider && not decoded.email_verified
      then raise (unauthorized "Email address is not verified")
      else pure (record { external_id = decoded.uid; email = email; name = non_empty decoded.name })

-- `request.user`, or what the decorator `CurrentUser` throws
abbrev pub current_user : AuthenticatedRequest → Exec RequestUser
current_user request =
    or_throw request.user (http 500 "CurrentUser used on a route without authentication")

-- `CurrentActor`
abbrev pub current_actor : AuthenticatedRequest → Exec OrgActor
current_actor request = or_throw request.org_actor (http 403 "Organization membership not resolved")

-- the text behind "Bearer "
unfoldable pub bearer_token : Option String → Option String
bearer_token none = none
bearer_token (some header) =
    if starts_with header "Bearer " then some (slice header (len "Bearer ") (len header)) else none

module _ (w : World) where
  -- `TokenVerifierService.verify`; each failure of Firebase becomes the same 401
  unfoldable pub verify : String → Exec VerifiedIdentity
  verify token = do
    decoded ←
        try_catch (perform w (Call.verify_id_token token))
          (λ _. raise (unauthorized "Invalid, expired, or revoked ID token"))
    identity_of decoded

  -- `UsersService`
  unfoldable pub provision_from_identity : VerifiedIdentity → Exec User
  provision_from_identity identity =
      perform w
        (Call.prisma (PrismaCall.user_upsert identity.external_id identity.email identity.name))

  unfoldable pub get_by_id : String → Exec (Option User)
  get_by_id id = perform w (Call.prisma (PrismaCall.user_find_by_id id))

  -- `JwtAuthGuard.canActivate` on a route that is not public: the user that it puts into the request
  unfoldable pub authenticate : Option String → Exec RequestUser
  authenticate authorization = do
    token ← or_throw (bearer_token authorization) (unauthorized "Missing bearer token")
    identity ← verify token
    user ← provision_from_identity identity
    pure (record { id = user.id; external_id = user.external_id; email = user.email })

  -- `JwtAuthGuard.canActivate`
  unfoldable pub can_activate : Bool → Option String → Exec (Option RequestUser)
  can_activate true authorization = pure none
  can_activate false authorization = do user ← authenticate authorization; pure (some user)
