-- ===== src/Memberships/Guard.antt =====
-- Whom src/auth/org-membership.guard.ts lets through.
use lotus_build_server.Base.{
  ℕ, String, ◌≡◌, ap, sym, ◌∙◌, ◌⊎◌, inl, inr, refl, Bool, true, false, not, ◌&&◌, Option, none,
  some, List, ◌∷◌, if◌then◌else◌,
}
use lotus_build_server.Base.Text.{is_empty}
use lotus_build_server.World.Data.{Membership, MembershipRole, OrgActor}
use lotus_build_server.World.Calls.{PrismaCall, RedisCall, prisma, redis}
use lotus_build_server.World.Exec.{
  Thrown, raise, ok, History, World, perform, act, pure, >>=-eq-ok, ◌>>=◌,
}
use lotus_build_server.World.Returns.{ok-injective}
use lotus_build_server.Memberships.{
  key, includes, is_none_required, store, look_up, get, admit, can_activate,
}

-- The role is one that the operation takes, where it asks for some.
abbrev pub IsAllowed : List MembershipRole → MembershipRole → Type 0
IsAllowed required role = (is_none_required required ≡ true) ⊎ (includes required role ≡ true)

checked :
    (none_required included : Bool) (t : Thrown) (candidate actor : OrgActor) (h : History)
    → ((if not none_required && not included then raise t else pure candidate) h).0 ≡ ok actor
    → (candidate ≡ actor) × ((none_required ≡ true) ⊎ (included ≡ true))
checked true included t candidate actor h e = (ok-injective candidate actor e, inl refl)
checked false true t candidate actor h e = (ok-injective candidate actor e, inr refl)
checked false false t candidate actor h e = cc

module _ (w : World) where
  -- The cache replies with the role for the user in the organization, or it has none, and the database
  -- asked next replies with a membership of that role.
  abbrev pub Vouches : String → String → History → MembershipRole → Type 0
  Vouches user_id organization_id h role =
      let cached = RedisCall.get_role (key user_id organization_id) in
      (w.reply (redis cached) h ≡ ok (some role))
      ⊎ ((membership : Membership) × (w.reply (redis cached) h ≡ ok none)
          × (w.reply (prisma (PrismaCall.membership_find_unique user_id organization_id))
                (record { call = redis cached; reply = ok none } ∷ h)
              ≡ ok (some membership))
          × (membership.role ≡ role))

  module _ (ttl : ℕ) (user_id organization_id : String) (required : List MembershipRole) where
    abbrev missed : History → History
    missed h =
        record { call = redis (RedisCall.get_role (key user_id organization_id)); reply = ok none }
        ∷ h

    admitted :
        (role : Option MembershipRole) (h : History) (actor : OrgActor)
        → (admit w ttl user_id required role h).0 ≡ ok actor
        → (role ≡ some actor.role) × (actor.user_id ≡ user_id) × IsAllowed required actor.role
    unfolding admit
    admitted none h actor e = cc
    admitted (some role) h actor e =
        let (same, allowed) =
          checked (is_none_required required) (includes required role) _ _ actor h e in
        rw (← same) (refl, refl, allowed)

    stored :
        (found : Option Membership) (h h' : History) (role : MembershipRole)
        → w.reply (redis (RedisCall.get_role (key user_id organization_id))) h ≡ ok none
        → w.reply (prisma (PrismaCall.membership_find_unique user_id organization_id)) (missed h)
          ≡ ok found
        → (store w ttl user_id organization_id found h').0 ≡ ok (some role)
        → Vouches user_id organization_id h role
    unfolding store
    stored none h h' role e₁ e₂ e₃ = cc
    stored (some membership) h h' role e₁ e₂ e₃ =
        let (u, _, e₄) =
          >>=-eq-ok
            (act w (redis (RedisCall.set_role (key user_id organization_id) membership.role ttl))) _
            _ e₃ in
        let same : membership.role ≡ role = cc in inr (membership, e₁, e₂, same)

    looked_up :
        (cached : Option MembershipRole) (h : History) (role : MembershipRole)
        → w.reply (redis (RedisCall.get_role (key user_id organization_id))) h ≡ ok cached
        → (look_up w ttl user_id organization_id cached (
            record {
              call = redis (RedisCall.get_role (key user_id organization_id));
              reply = w.reply (redis (RedisCall.get_role (key user_id organization_id))) h;
            }
            ∷ h)).0
          ≡ ok (some role)
        → Vouches user_id organization_id h role
    unfolding look_up perform
    looked_up (some other) h role e₁ e₂ = inl (e₁ ∙ e₂)
    looked_up none h role e₁ e₂ =
        let (found, e₃, e₄) =
          >>=-eq-ok (perform w (prisma (PrismaCall.membership_find_unique user_id organization_id)))
            _ _ e₂ in
        stored found h _ role e₁
          (ap
              (λ r. w.reply (prisma (PrismaCall.membership_find_unique user_id organization_id)) (
                record {
                  call = redis (RedisCall.get_role (key user_id organization_id));
                  reply = r;
                }
                ∷ h))
              (sym e₁)
            ∙ e₃)
          e₄

    got :
        (h : History) (role : MembershipRole)
        → (get w ttl user_id organization_id h).0 ≡ ok (some role)
        → Vouches user_id organization_id h role
    unfolding get perform
    got h role e =
        let (cached, e₁, e₂) =
          >>=-eq-ok (perform w (redis (RedisCall.get_role (key user_id organization_id)))) _ h e in
        looked_up cached h role e₁ e₂

    guarded :
        (empty : Bool) (t : Thrown) (h : History) (actor : OrgActor)
        → ((if empty
              then raise t
              else (get w ttl user_id organization_id >>= admit w ttl user_id required))
            h).0
          ≡ ok actor
        → (actor.user_id ≡ user_id)
          × IsAllowed required actor.role
          × Vouches user_id organization_id h actor.role
    guarded true t h actor e = cc
    guarded false t h actor e =
        let (role, e₁, e₂) = >>=-eq-ok (get w ttl user_id organization_id) _ h e in
        let (same, user, allowed) = admitted role _ actor e₂ in
        (user, allowed, got h actor.role (e₁ ∙ ap ok same))

  -- A request is let through only with a user and an organization, as this user, with a role that the
  -- operation takes where it asks for some; and the cache, or the database, replied with that role for
  -- just this user and organization.
  pub can_activate_vouched :
      (ttl : ℕ) (user organization : Option String) (required : List MembershipRole) (h : History)
      (actor : OrgActor)
      → (can_activate w ttl user organization required h).0 ≡ ok actor
      → (user_id : String) × (organization_id : String) × (user ≡ some user_id)
        × (organization ≡ some organization_id)
        × (actor.user_id ≡ user_id)
        × IsAllowed required actor.role
        × Vouches user_id organization_id h actor.role
  unfolding can_activate
  can_activate_vouched ttl none organization required h actor e = cc
  can_activate_vouched ttl (some user_id) none required h actor e = cc
  can_activate_vouched ttl (some user_id) (some organization_id) required h actor e =
      let (user, allowed, vouched) =
        guarded ttl user_id organization_id required (is_empty organization_id) _ h actor e in
      (user_id, organization_id, refl, refl, user, allowed, vouched)
