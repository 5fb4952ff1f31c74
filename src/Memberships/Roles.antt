-- ===== src/Memberships/Roles.antt =====
-- What the database and the cache of src/auth/membership-cache.service.ts hold behind a history of calls.
use lotus_build_server.Base.{
  String, ◌≡◌, ◌≢◌, ◌⊎◌, inl, inr, refl, ◌∙◌, Bool, true, false, ◌&&◌, Option, none, some, [], ◌∷◌,
  ◌==◌, if◌then◌else◌, eq_iff, arith, Bool-cases,
}
use lotus_build_server.World.Data.{Membership, MembershipRole}
use lotus_build_server.World.Calls.{Call, Reply, PrismaCall, RedisCall, prisma, redis}
use lotus_build_server.World.Exec.{Result, ok, throw, Entry, History, World}
use lotus_build_server.Memberships.{key}
use lotus_build_server.Memberships.Keys.{NoColon, key_injective}

-- The memberships before the first call.
abbrev pub Roles : Type 0
Roles = String → String → Option MembershipRole

-- What a call does to the memberships and to their cache.
pub data Event : Type 0 where
  began undone other : Event
  joined : String → String → MembershipRole → Event
  noted : String → MembershipRole → Event
  dropped : String → Event

-- A commit that fails undoes its transaction. A role may be noted by a call that fails as well.
unfoldable pub event_of : (c : Call) → Result (Reply c) → Event
event_of (prisma PrismaCall.transaction_begin) r = Event.began
event_of (prisma PrismaCall.transaction_rollback) r = Event.undone
event_of (prisma PrismaCall.transaction_commit) (throw t) = Event.undone
event_of (prisma (PrismaCall.membership_create u o role)) (ok membership) = Event.joined u o role
event_of (redis (RedisCall.set_role k role seconds)) r = Event.noted k role
event_of (redis (RedisCall.del k)) (ok u) = Event.dropped k
event_of _ r = Event.other

-- The role of a user in an organization in the database. A transaction that was undone is left out:
-- `is_undone` says that the calls at hand belong to one.
unfoldable pub role_in : Roles → Bool → History → String → String → Option MembershipRole
role_in roles is_undone [] user_id organization_id = roles user_id organization_id
role_in roles is_undone (e ∷ h) user_id organization_id =
    after is_undone (event_of e.call e.reply) (λ b. role_in roles b h user_id organization_id)
  where
    after : Bool → Event → (Bool → Option MembershipRole) → Option MembershipRole
    after is_undone Event.began before = before false
    after is_undone Event.undone before = before true
    after false (Event.joined u o role) before =
        if u == user_id && o == organization_id then some role else before false
    after true (Event.joined u o role) before = before true
    after is_undone (Event.noted k role) before = before is_undone
    after is_undone (Event.dropped k) before = before is_undone
    after is_undone Event.other before = before is_undone

-- What may be held at the key behind an event.
abbrev pub HeldAfter : String → MembershipRole → Event → Type 0 → Type 0
HeldAfter k role (Event.noted k' role') before = ((k' ≡ k) × (role' ≡ role)) ⊎ before
HeldAfter k role (Event.dropped k') before = (k' ≢ k) × before
HeldAfter k role Event.began before = before
HeldAfter k role Event.undone before = before
HeldAfter k role Event.other before = before
HeldAfter k role (Event.joined u o role') before = before

-- The cache may hold this role at this key: it was noted there and the key not dropped since.
unfoldable pub MayHold : String → MembershipRole → History → Type 0
MayHold k role [] = ⊥
MayHold k role (e ∷ h) = HeldAfter k role (event_of e.call e.reply) (MayHold k role h)

module _ (roles : Roles) where
  -- The services keep what they are documented to keep: the cache replies with nothing but what may be
  -- held, the database with the roles that it has, and it has no second membership of a user in an
  -- organization.
  pub record IsHonest (w : World) : Type 0 where
    pub from_cache :
        (k : String) (role : MembershipRole) (h : History)
        → w.reply (redis (RedisCall.get_role k)) h ≡ ok (some role)
        → MayHold k role h
    pub found :
        (user_id organization_id : String) (membership : Membership) (h : History)
        → w.reply (prisma (PrismaCall.membership_find_unique user_id organization_id)) h
          ≡ ok (some membership)
        → role_in roles false h user_id organization_id ≡ some membership.role
    pub not_found :
        (user_id organization_id : String) (h : History)
        → w.reply (prisma (PrismaCall.membership_find_unique user_id organization_id)) h ≡ ok none
        → role_in roles false h user_id organization_id ≡ none
    pub unique :
        (user_id organization_id : String) (role : MembershipRole) (membership : Membership)
        (h : History)
        → w.reply (prisma (PrismaCall.membership_create user_id organization_id role)) h
          ≡ ok membership
        → role_in roles false h user_id organization_id ≡ none

  -- What the cache may hold for a user is the user's role in the database.
  abbrev pub IsCoherent : History → Type 0
  IsCoherent h =
      (user_id organization_id : String) (role : MembershipRole)
      → NoColon user_id
      → MayHold (key user_id organization_id) role h
      → role_in roles false h user_id organization_id ≡ some role

  module _ (e : Entry) (h : History) where
    pub other_roles :
        (user_id organization_id : String)
        → event_of e.call e.reply ≡ Event.other
        → role_in roles false (e ∷ h) user_id organization_id
          ≡ role_in roles false h user_id organization_id
    unfolding role_in
    other_roles user_id organization_id same = rw same refl

    pub noted_roles :
        (user_id organization_id k : String) (role : MembershipRole)
        → event_of e.call e.reply ≡ Event.noted k role
        → role_in roles false (e ∷ h) user_id organization_id
          ≡ role_in roles false h user_id organization_id
    unfolding role_in
    noted_roles user_id organization_id k role same = rw same refl

    pub dropped_roles :
        (user_id organization_id k : String)
        → event_of e.call e.reply ≡ Event.dropped k
        → role_in roles false (e ∷ h) user_id organization_id
          ≡ role_in roles false h user_id organization_id
    unfolding role_in
    dropped_roles user_id organization_id k same = rw same refl

    pub IsCoherent-other : event_of e.call e.reply ≡ Event.other → IsCoherent h → IsCoherent (e ∷ h)
    unfolding MayHold role_in
    IsCoherent-other same coherent user_id organization_id role plain =
        rw same (coherent user_id organization_id role plain)

    pub IsCoherent-began : event_of e.call e.reply ≡ Event.began → IsCoherent h → IsCoherent (e ∷ h)
    unfolding MayHold role_in
    IsCoherent-began same coherent user_id organization_id role plain =
        rw same (coherent user_id organization_id role plain)

    pub IsCoherent-dropped :
        (k : String) → event_of e.call e.reply ≡ Event.dropped k → IsCoherent h → IsCoherent (e ∷ h)
    unfolding MayHold role_in
    IsCoherent-dropped k same coherent user_id organization_id role plain =
        rw same (λ held. coherent user_id organization_id role plain held.1)

    pub IsCoherent-noted :
        (u o : String) (r : MembershipRole)
        → event_of e.call e.reply ≡ Event.noted (key u o) r
        → NoColon u
        → role_in roles false h u o ≡ some r
        → IsCoherent h
        → IsCoherent (e ∷ h)
    unfolding MayHold role_in
    IsCoherent-noted u o r same plain_u stored coherent user_id organization_id role plain =
        rw same go
      where
        go :
            ((key u o ≡ key user_id organization_id) × (r ≡ role))
              ⊎ MayHold (key user_id organization_id) role h
            → role_in roles false h user_id organization_id ≡ some role
        go (inl (same_key, same_role)) =
            let (same_o, same_u) =
              key_injective u user_id o organization_id plain_u plain same_key in
            cc
        go (inr held) = coherent user_id organization_id role plain held

    pub IsCoherent-joined :
        (u o : String) (r : MembershipRole)
        → event_of e.call e.reply ≡ Event.joined u o r
        → role_in roles false h u o ≡ none
        → IsCoherent h
        → IsCoherent (e ∷ h)
    unfolding MayHold role_in
    IsCoherent-joined u o r same absent coherent user_id organization_id role plain =
        rw same (λ held. go held (Bool-cases (u == user_id && o == organization_id)))
      where
        go :
            MayHold (key user_id organization_id) role h
            → ((u == user_id && o == organization_id) ≡ true)
              ⊎ ((u == user_id && o == organization_id) ≡ false)
            → (if u == user_id && o == organization_id
                then some r
                else role_in roles false h user_id organization_id)
              ≡ some role
        go held (inl equal) =
            let before = coherent user_id organization_id role plain held in
            let same_u : u ≡ user_id = ground (arith, eq_iff u user_id, equal) in
            let same_o : o ≡ organization_id = ground (arith, eq_iff o organization_id, equal) in cc
        go held (inr different) = rw different (coherent user_id organization_id role plain held)

  -- Coherent, with this role in the database.
  abbrev pub Current : String → String → Option MembershipRole → History → Type 0
  Current user_id organization_id role h =
      IsCoherent h × (role_in roles false h user_id organization_id ≡ role)

  pub Current-other :
      (user_id organization_id : String) (role : Option MembershipRole) (e : Entry) (h : History)
      → event_of e.call e.reply ≡ Event.other
      → Current user_id organization_id role h
      → Current user_id organization_id role (e ∷ h)
  Current-other user_id organization_id role e h same (coherent, stored) =
      (IsCoherent-other e h same coherent, other_roles e h user_id organization_id same ∙ stored)
