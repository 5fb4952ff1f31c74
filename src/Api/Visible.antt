-- ===== src/Api/Visible.antt =====
-- A session on its way through src/sessions/sessions.controller.ts to a response.
use lotus_build_server.Base.{String, ◌≡◌, ap, ◌∙◌, Option, some}
use mathlib.Core.Path.{subst}
use lotus_build_server.World.Data.{Session, OrgActor}
use lotus_build_server.World.Exec.{ok, History, World, lift, perform, >>=-eq-ok}
use lotus_build_server.Memberships.Guard.{Vouches}
use lotus_build_server.Sessions.{get_by_id}
use lotus_build_server.Sessions.Access.{MayAccess, lookup, get_by_id_iff}
use lotus_build_server.Auth
use lotus_build_server.Auth.{RequestUser, bearer_token, current_actor}
use lotus_build_server.Auth.Verified.{Verified}
use lotus_build_server.Api.{Settings, operate, respond}
use lotus_build_server.Api.Operations.{Operation, Route}
use lotus_build_server.Api.Guarded.{respond-Admitted}

module _ (w : World) (settings : Settings) where
  found_session :
      (organization_id session_id : String) (actor : OrgActor) (h : History) (session : Session)
      → (get_by_id w organization_id session_id actor h).0 ≡ ok session
      → (w.reply (lookup organization_id session_id) h ≡ ok (some session))
        × MayAccess actor session
  unfolding get_by_id perform
  found_session organization_id session_id actor h session e =
      let (found, e₁, e₂) = >>=-eq-ok (perform w (lookup organization_id session_id)) _ h e in
      let (same, may) = (get_by_id_iff w organization_id session_id actor h found session e₁).0 e in
      (e₁ ∙ ap ok same, may)

  -- A session is in a response to the request for it only where the request carries a token that
  -- Firebase decoded to a user's claims, the cache or the database replied with a role of this user in
  -- the organization, the database found the session with this id in this organization, and the role
  -- is not a member's or the session is the user's own; where ParseUUIDPipe returns what it lets
  -- through.
  pub respond_visible :
      (authorization : Option String) (organization session_id : String) (h : History)
      (session : Session)
      → ((text id : String) → settings.uuid text ≡ ok id → id ≡ text)
      → (respond w settings authorization
          (Route.within organization (Operation.get_session session_id))
          h).0
        ≡ ok session
      → (user : RequestUser) × (actor : OrgActor) × (h' : History) × Verified w
          (bearer_token authorization)
          h
          user
        × (actor.user_id ≡ user.id)
        × Vouches w user.id organization (Auth.authenticate w authorization h).1 actor.role
        × (w.reply (lookup organization session_id) h' ≡ ok (some session))
        × MayAccess actor session
  unfolding operate
  respond_visible authorization organization session_id h session unchanged e =
      let (user, actor, h', verified, same, allowed, vouched, handled) =
        respond-Admitted w settings authorization organization (Operation.get_session session_id) h
          session e in
      let (organization_id, e₁, e₂) = >>=-eq-ok (lift (settings.uuid organization)) _ h' handled in
      let (id, e₃, e₄) = >>=-eq-ok (lift (settings.uuid session_id)) _ _ e₂ in
      let (found, may) = found_session organization_id id actor h' session e₄ in
      let at_ids =
        subst (λ (o : String). w.reply (lookup o id) h' ≡ ok (some session))
          (unchanged organization organization_id e₁) found in
      (
        user,
        actor,
        h',
        verified,
        same,
        vouched,
        subst (λ (s : String). w.reply (lookup organization s) h' ≡ ok (some session))
            (unchanged session_id id e₃) at_ids,
        may,
      )
