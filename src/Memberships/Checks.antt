-- ===== src/Memberships/Checks.antt =====
-- The calls of the guard in src/auth/org-membership.guard.ts.
use lotus_build_server.Base.{ℕ, String, ◌≡◌, refl, Option, none, some, List}
use lotus_build_server.World.Data.{MembershipRole, Membership}
use lotus_build_server.World.Calls.{Call, PrismaCall, RedisCall, prisma, redis}
use lotus_build_server.World.Exec.{World}
use lotus_build_server.World.Grows.{
  Grows, Grows-bind, Grows-perform, Grows-act, Grows-if, Grows-pure, Grows-raise,
}
use lotus_build_server.Memberships.{key, can_activate, get, look_up, store, admit}

-- A call by which the membership of just this user in just this organization is checked, or noted in the
-- cache.
abbrev pub IsCheck : String → String → Call → Type 0
IsCheck user_id organization_id (redis (RedisCall.get_role k)) = k ≡ key user_id organization_id
IsCheck user_id organization_id (redis (RedisCall.set_role k role seconds)) =
    k ≡ key user_id organization_id
IsCheck user_id organization_id (prisma (PrismaCall.membership_find_unique u o)) =
    (u ≡ user_id) × (o ≡ organization_id)
IsCheck user_id organization_id _ = ⊥

module _ (w : World) (ttl : ℕ) (user_id organization_id : String) where
  store-IsCheck :
      (found : Option Membership)
      → Grows (IsCheck user_id organization_id) (store w ttl user_id organization_id found)
  unfolding store
  store-IsCheck none = Grows-pure none
  store-IsCheck (some membership) =
      Grows-bind _ _ (Grows-act w _ refl) λ u. Grows-pure (some membership.role)

  look_up-IsCheck :
      (cached : Option MembershipRole)
      → Grows (IsCheck user_id organization_id) (look_up w ttl user_id organization_id cached)
  unfolding look_up
  look_up-IsCheck (some role) = Grows-pure (some role)
  look_up-IsCheck none = Grows-bind _ _ (Grows-perform w _ (refl, refl)) store-IsCheck

  pub get-IsCheck : Grows (IsCheck user_id organization_id) (get w ttl user_id organization_id)
  unfolding get
  get-IsCheck = Grows-bind _ _ (Grows-perform w _ refl) look_up-IsCheck

  admit-IsCheck :
      (required : List MembershipRole) (role : Option MembershipRole)
      → Grows (IsCheck user_id organization_id) (admit w ttl user_id required role)
  unfolding admit
  admit-IsCheck required none = Grows-raise _
  admit-IsCheck required (some role) = Grows-if _ _ _ (Grows-raise _) (Grows-pure _)

  pub can_activate-IsCheck :
      (required : List MembershipRole)
      → Grows
          (IsCheck user_id organization_id)
          (can_activate w ttl (some user_id) (some organization_id) required)
  unfolding can_activate
  can_activate-IsCheck required =
      Grows-if _ _ _ (Grows-raise _) (Grows-bind _ _ get-IsCheck (admit-IsCheck required))
