-- ===== src/Api/Guarded.antt =====
-- What stands between a request and a handler: the guards of the routes.
use mathlib.Core.Path.{subst}
use lotus_build_server.Base.{String, ◌≡◌, sym, ◌∙◌, false, Option, some, List}
use lotus_build_server.World.Data.{OrgActor, MembershipRole}
use lotus_build_server.World.Exec.{ok, History, World, >>=-eq-ok, >>=_history}
use lotus_build_server.World.Returns.{ok-injective}
use lotus_build_server.Memberships
use lotus_build_server.Memberships.{key}
use lotus_build_server.Memberships.Guard.{IsAllowed, Vouches, can_activate_vouched}
use lotus_build_server.Auth
use lotus_build_server.Auth.{RequestUser, AuthenticatedRequest, bearer_token}
use lotus_build_server.Auth.Verified.{Verified, authenticate-Verified}
use lotus_build_server.Api.{Settings, operate, handle_within, handle, respond}
use lotus_build_server.Api.Operations.{Operation, OperationReply, Route, RouteReply, roles_of}

module _ (w : World) (settings : Settings) where
  handled :
      (r : Route) (user : RequestUser) (found : Option RequestUser) (h h' : History)
      (response : RouteReply r)
      → some user ≡ found
      → h ≡ h'
      → (handle w settings found r h).0 ≡ ok response
      → (handle w settings (some user) r h').0 ≡ ok response
  handled r user found h h' response same history e = rw (same, ← history) e

  -- The user behind a request that a handler got.
  admitted_user :
      (authorization : Option String) (r : Route) (h : History) (response : RouteReply r)
      → (respond w settings authorization r h).0 ≡ ok response
      → (user : RequestUser) × ((Auth.authenticate w authorization h).0 ≡ ok user)
        × ((handle w settings (some user) r (Auth.authenticate w authorization h).1).0
            ≡ ok response)
  unfolding respond Auth.can_activate
  admitted_user authorization r h response e =
      let (found, e₁, e₂) = >>=-eq-ok (Auth.can_activate w false authorization) _ h e in
      let (user, e₃, e₄) = >>=-eq-ok (Auth.authenticate w authorization) _ h e₁ in
      (
        user,
        e₃,
        handled r user found _ _ response (ok-injective (some user) found e₄)
            (>>=_history (Auth.authenticate w authorization) _ h e₃) e₂,
      )

  -- What is known of a response of a route of an organization: whose token it was, as whom it was
  -- admitted to the organization, and what the handler made of it.
  abbrev pub Admitted :
      Option String → String → (o : Operation) → History → OperationReply o → Type 0
  Admitted authorization organization o h response =
      (user : RequestUser) × (actor : OrgActor) × (h' : History) × Verified w
        (bearer_token authorization) h user
      × (actor.user_id ≡ user.id)
      × IsAllowed (roles_of o) actor.role
      × Vouches w user.id organization (Auth.authenticate w authorization h).1 actor.role
      × ((operate w settings organization (record { user = some user; org_actor = some actor }) o
            h').0
          ≡ ok response)

  vouched_for :
      (user : RequestUser) (organization : String) (required : List MembershipRole) (h : History)
      (actor : OrgActor)
      → (Memberships.can_activate w settings.membership_ttl_seconds
          (some user.id)
          (some organization)
          required
          h).0
        ≡ ok actor
      → (actor.user_id ≡ user.id)
        × IsAllowed required actor.role
        × Vouches w user.id organization h actor.role
  vouched_for user organization required h actor e =
      let (user_id, organization_id, e₁, e₂, same, allowed, vouched) =
        can_activate_vouched w settings.membership_ttl_seconds (some user.id) (some organization)
          required h actor e in
      let user_same : user.id ≡ user_id = cc in
      let organization_same : organization ≡ organization_id = cc in
      (
        same ∙ sym user_same,
        allowed,
        subst (λ (u : String). Vouches w u organization h actor.role) (sym user_same)
            (subst (λ (o : String). Vouches w user_id o h actor.role) (sym organization_same)
              vouched),
      )

  -- A route of an organization responds only to a request with a token that Firebase decoded to a
  -- user's claims, for whom the cache or the database replied with a role in just this organization, one
  -- of those that the route asks for, if it asks for some; and the handler runs as this user with this
  -- role.
  pub respond-Admitted :
      (authorization : Option String) (organization : String) (o : Operation) (h : History)
      (response : OperationReply o)
      → (respond w settings authorization (Route.within organization o) h).0 ≡ ok response
      → Admitted authorization organization o h response
  unfolding handle handle_within
  respond-Admitted authorization organization o h response e =
      let (user, e₁, e₂) = admitted_user authorization (Route.within organization o) h response e in
      let (actor, e₃, e₄) =
        >>=-eq-ok
          (Memberships.can_activate w settings.membership_ttl_seconds (some user.id)
            (some organization) (roles_of o))
          _ _ e₂ in
      let (same, allowed, vouched) = vouched_for user organization (roles_of o) _ actor e₃ in
      (user, actor, _, authenticate-Verified w authorization user h e₁, same, allowed, vouched, e₄)
