-- ===== src/Memberships/Pending.antt =====
-- A transaction that changes memberships, until it is committed or undone.
use lotus_build_server.Base.{String, ◌≡◌, true, false, some, ◌∷◌, eq_iff, arith}
use lotus_build_server.World.Data.{MembershipRole}
use lotus_build_server.World.Exec.{Entry, History}
use lotus_build_server.Memberships.{key}
use lotus_build_server.Memberships.Keys.{NoColon}
use lotus_build_server.Memberships.Roles.{Roles, Event, event_of, role_in, MayHold, IsCoherent}

module _ (roles : Roles) where
  -- What the cache may hold for a user is the role that the user has if the transaction is undone.
  abbrev pub IsPending : History → Type 0
  IsPending h =
      (user_id organization_id : String) (role : MembershipRole)
      → NoColon user_id
      → MayHold (key user_id organization_id) role h
      → role_in roles true h user_id organization_id ≡ some role

  module _ (e : Entry) (h : History) where
    pub IsPending-began :
        event_of e.call e.reply ≡ Event.began → IsCoherent roles h → IsPending (e ∷ h)
    unfolding MayHold role_in
    IsPending-began same coherent user_id organization_id role plain =
        rw same (coherent user_id organization_id role plain)

    pub IsPending-other : event_of e.call e.reply ≡ Event.other → IsPending h → IsPending (e ∷ h)
    unfolding MayHold role_in
    IsPending-other same pending user_id organization_id role plain =
        rw same (pending user_id organization_id role plain)

    pub IsPending-joined :
        (u o : String) (r : MembershipRole)
        → event_of e.call e.reply ≡ Event.joined u o r
        → IsPending h
        → IsPending (e ∷ h)
    unfolding MayHold role_in
    IsPending-joined u o r same pending user_id organization_id role plain =
        rw same (pending user_id organization_id role plain)

    pub IsCoherent-undone :
        event_of e.call e.reply ≡ Event.undone → IsPending h → IsCoherent roles (e ∷ h)
    unfolding MayHold role_in
    IsCoherent-undone same pending user_id organization_id role plain =
        rw same (pending user_id organization_id role plain)

    pub joined_roles :
        (u o : String) (r : MembershipRole)
        → event_of e.call e.reply ≡ Event.joined u o r
        → role_in roles false (e ∷ h) u o ≡ some r
    unfolding role_in
    joined_roles u o r same = rw same (ground (arith, eq_iff u u, eq_iff o o))
