-- ===== src/Api/Refused.antt =====
-- Whom the guard of an organization keeps away from the handlers.
use lotus_build_server.Base.{String, ◌≡◌, refl, false, Option, some}
use lotus_build_server.Base.Text.{is_empty}
use lotus_build_server.World.Data.{MembershipRole}
use lotus_build_server.World.Exec.{ok, throw, History, World}
use lotus_build_server.World.Grows.{Extends}
use lotus_build_server.Memberships.{get}
use lotus_build_server.Memberships.Checks.{IsCheck, get-IsCheck}
use lotus_build_server.Memberships.Refusal.{refusal, IsDenied, guard_refuses}
use lotus_build_server.Auth.{RequestUser}
use lotus_build_server.Api.{Settings, handle_within}
use lotus_build_server.Api.Operations.{Operation, roles_of}

module _ (w : World) (settings : Settings) where
  -- Where the lookup of the user's membership gives no role, or one that is not among the roles that the
  -- route asks for, each route of the organization answers with a 403 that says which of the two it is, and
  -- its handler does not run: all calls are the lookup's, which read this user's membership in this
  -- organization or note it in the cache.
  pub handle_within_denied :
      (user : RequestUser) (organization : String) (o : Operation) (role : Option MembershipRole)
      (h : History)
      → is_empty organization ≡ false
      → (get w settings.membership_ttl_seconds user.id organization h).0 ≡ ok role
      → IsDenied (roles_of o) role
      → (handle_within w settings (some user) organization o h ≡ (
        throw (refusal role),
        (get w settings.membership_ttl_seconds user.id organization h).1,
      ))
        × Extends
            (IsCheck user.id organization)
            h
            (get w settings.membership_ttl_seconds user.id organization h).1
  unfolding handle_within
  handle_within_denied user organization o role h e₁ e₂ denied = (
    rw
        (guard_refuses w settings.membership_ttl_seconds user.id organization (roles_of o) role h e₁
          e₂ denied)
        refl,
    (get-IsCheck w settings.membership_ttl_seconds user.id organization).at h,
  )
