-- ===== src/Memberships/Coherent.antt =====
-- The cache of src/auth/membership-cache.service.ts against the database.
use lotus_build_server.Base.{ℕ, String, ◌≡◌, refl, ◌∙◌, false, Option, none, some, List, ◌∷◌}
use lotus_build_server.World.Data.{Membership, MembershipRole, OrgActor}
use lotus_build_server.World.Calls.{PrismaCall, RedisCall, prisma, redis}
use lotus_build_server.World.Exec.{World, Entry, History, ok}
use lotus_build_server.World.Triple.{
  Condition, Triple, Triple-pure, Triple-raise, Triple-if, Triple-bind, Triple-perform, Triple-act,
}
use lotus_build_server.Memberships.{key, get, look_up, store, admit, can_activate}
use lotus_build_server.Memberships.Keys.{NoColon}
use lotus_build_server.Memberships.Roles.{
  Current, Current-other, Roles, Event, role_in, IsHonest, IsCoherent, event_of, noted_roles,
  IsCoherent-other, IsCoherent-noted,
}

abbrev role_of : Option Membership → Option MembershipRole
role_of none = none
role_of (some membership) = some membership.role

module _ (roles : Roles) (w : World) (honest : IsHonest roles w) (ttl : ℕ) where
  module _ (user_id organization_id : String) (plain : NoColon user_id) where
    abbrev Now : Option MembershipRole → Condition
    Now = Current roles user_id organization_id

    noted :
        (role : MembershipRole) (e : Entry) (h : History)
        → event_of e.call e.reply ≡ Event.noted (key user_id organization_id) role
        → Now (some role) h
        → Now (some role) (e ∷ h)
    noted role e h same (coherent, stored) = (
      IsCoherent-noted roles e h user_id organization_id role same plain stored coherent,
      noted_roles roles e h user_id organization_id (key user_id organization_id) role same
          ∙ stored,
    )

    store-Current :
        (found : Option Membership)
        → Triple
            (Now (role_of found))
            (store w ttl user_id organization_id found)
            Now
            (IsCoherent roles)
    unfolding store event_of
    store-Current none = Triple-pure none (λ h p. p)
    store-Current (some membership) =
        Triple-bind _ _
          (Triple-act w _ {Q = λ u. Now (some membership.role)}
            (λ h a p. noted membership.role _ h refl p)
            (λ h e p. (noted membership.role _ h refl p).0))
          λ u. Triple-pure (some membership.role) (λ h p. p)

    in_database :
        (found : Option Membership) (h : History)
        → w.reply (prisma (PrismaCall.membership_find_unique user_id organization_id)) h ≡ ok found
        → role_in roles false h user_id organization_id ≡ role_of found
    in_database none h e = honest.not_found user_id organization_id h e
    in_database (some membership) h e = honest.found user_id organization_id membership h e

    -- What the cache told.
    abbrev Told : Option MembershipRole → Condition
    Told none = IsCoherent roles
    Told (some role) = Now (some role)

    look_up-Current :
        (cached : Option MembershipRole)
        → Triple (Told cached) (look_up w ttl user_id organization_id cached) Now (IsCoherent roles)
    unfolding look_up event_of
    look_up-Current (some role) = Triple-pure (some role) (λ h p. p)
    look_up-Current none =
        Triple-bind _ _
          (Triple-perform w _ {Q = λ found. Now (role_of found)}
            (λ h found coherent e.
              Current-other roles user_id organization_id (role_of found) _ h refl
                (coherent, in_database found h e))
            (λ h e coherent e'. IsCoherent-other roles _ h refl coherent))
          store-Current

    told :
        (cached : Option MembershipRole) (h : History)
        → IsCoherent roles h
        → w.reply (redis (RedisCall.get_role (key user_id organization_id))) h ≡ ok cached
        → Told cached (
            record {
              call = redis (RedisCall.get_role (key user_id organization_id));
              reply = ok cached;
            }
            ∷ h)
    unfolding event_of
    told none h coherent e = IsCoherent-other roles _ h refl coherent
    told (some role) h coherent e =
        Current-other roles user_id organization_id (some role) _ h refl (
          coherent,
          coherent user_id organization_id role plain
              (honest.from_cache (key user_id organization_id) role h e),
        )

    -- `get` keeps the cache coherent and returns the role that the database has.
    pub get-Current :
        Triple (IsCoherent roles) (get w ttl user_id organization_id) Now (IsCoherent roles)
    unfolding get event_of
    get-Current =
        Triple-bind _ _
          (Triple-perform w _ {Q = Told} (λ h cached coherent e. told cached h coherent e)
            (λ h e coherent e'. IsCoherent-other roles _ h refl coherent))
          look_up-Current

    admit-Current :
        (required : List MembershipRole) (role : Option MembershipRole)
        → Triple
            (Now role)
            (admit w ttl user_id required role)
            (λ (actor : OrgActor). Now (some actor.role))
            (IsCoherent roles)
    unfolding admit
    admit-Current required none = Triple-raise _ (λ h p. p.0)
    admit-Current required (some role) =
        Triple-if _ _ _ (Triple-raise _ (λ h p. p.0)) (Triple-pure _ (λ h p. p))

    -- The guard keeps the cache coherent and lets through with the role that the database has.
    pub can_activate-Current :
        (required : List MembershipRole)
        → Triple
            (IsCoherent roles)
            (can_activate w ttl (some user_id) (some organization_id) required)
            (λ (actor : OrgActor). Now (some actor.role))
            (IsCoherent roles)
    unfolding can_activate
    can_activate-Current required =
        Triple-if _ _ _ (Triple-raise _ (λ h p. p))
          (Triple-bind _ _ get-Current (admit-Current required))
