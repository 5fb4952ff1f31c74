-- ===== src/Organizations/Reachable.antt =====
-- The memberships and their cache, through any sequence of the operations that read and write them.
use lotus_build_server.Base.{ℕ, String, ◌≡◌, ap, ◌∙◌, false, Option, some, List, []}
use lotus_build_server.World.Data.{MembershipRole, OrgActor}
use lotus_build_server.World.Calls.{Call, Reply}
use lotus_build_server.World.Exec.{Result, ok, throw, World, Exec, History}
use lotus_build_server.World.Grows.{Extends, same, more}
use lotus_build_server.World.Returns.{ok-injective}
use lotus_build_server.World.Triple.{Triple, Triple-after, Outcome}
use lotus_build_server.Memberships.{get, can_activate}
use lotus_build_server.Memberships.Keys.{NoColon}
use lotus_build_server.Memberships.Roles.{
  Roles, Event, role_in, MayHold, IsHonest, IsCoherent, event_of, IsCoherent-other,
}
use lotus_build_server.Memberships.Coherent.{get-Current, can_activate-Current}
use lotus_build_server.Organizations.{CreateOrganization, AddMember, create, add_member}
use lotus_build_server.Organizations.Coherent.{add_member-Coherent, create-Owned}

-- A call that neither changes a membership nor writes to their cache.
abbrev pub IsNeutral : Call → Type 0
IsNeutral c = (r : Result (Reply c)) → event_of c r ≡ Event.other

module _ (w : World) (ttl : ℕ) where
  -- The histories that the operations lead to, one after the other, whatever they return or throw.
  pub data Reachable : History → Type 0 where
    start : Reachable []
    other : {h h' : History} → Reachable h → Extends IsNeutral h h' → Reachable h'
    looked_up :
        {h : History} (user_id organization_id : String)
        → NoColon user_id
        → Reachable h
        → Reachable (get w ttl user_id organization_id h).1
    guarded :
        {h : History} (user_id organization_id : String) (required : List MembershipRole)
        → NoColon user_id
        → Reachable h
        → Reachable (can_activate w ttl (some user_id) (some organization_id) required h).1
    created :
        {h : History} (creator_id : String) (dto : CreateOrganization)
        → Reachable h
        → Reachable (create w creator_id dto h).1
    added :
        {h : History} (organization_id actor_id : String) (dto : AddMember)
        → Reachable h
        → Reachable (add_member w organization_id actor_id dto h).1

module _ (roles : Roles) where
  either :
      {A : Type 0} (r : Result A) (h : History)
      → Outcome (λ a. IsCoherent roles) (IsCoherent roles) r h
      → IsCoherent roles h
  either (ok a) h q = q
  either (throw e) h q = q

  settled :
      {A : Type 0} {Q : A → History → Type 0} (m : Exec A)
      → Triple (IsCoherent roles) m Q (IsCoherent roles)
      → ((a : A) (h : History) → Q a h → IsCoherent roles h)
      → (h : History) → IsCoherent roles h
      → IsCoherent roles (m h).1
  settled m k f h coherent =
      either (m h).0 (m h).1 (Triple.at (Triple-after {R = λ a. IsCoherent roles} k f) h coherent)

  neutral_kept :
      {h h' : History} → Extends IsNeutral h h' → IsCoherent roles h → IsCoherent roles h'
  neutral_kept same coherent = coherent
  neutral_kept (more {h'} e neutral x) coherent =
      IsCoherent-other roles e h' (neutral e.reply) (neutral_kept x coherent)

  MayHold-start : IsCoherent roles []
  unfolding MayHold
  MayHold-start user_id organization_id role plain held = absurd held

module _ (roles : Roles) (w : World) (honest : IsHonest roles w) (ttl : ℕ) where
  -- Whatever sequence of lookups, guards, creations of organizations and additions of members has run,
  -- and whichever of their calls failed, what the cache of memberships may hold for a user is the role
  -- that the user has in the database: a role that was cached is never out of date.
  pub Reachable-IsCoherent : {h : History} → Reachable w ttl h → IsCoherent roles h
  Reachable-IsCoherent start = MayHold-start roles
  Reachable-IsCoherent (other x extends) = neutral_kept roles extends (Reachable-IsCoherent x)
  Reachable-IsCoherent (looked_up {h} user_id organization_id plain x) =
      settled roles _ (get-Current roles w honest ttl user_id organization_id plain)
        (λ role h' p. p.0) h (Reachable-IsCoherent x)
  Reachable-IsCoherent (guarded {h} user_id organization_id required plain x) =
      settled roles _
        (can_activate-Current roles w honest ttl user_id organization_id plain required)
        (λ actor h' p. p.0) h (Reachable-IsCoherent x)
  Reachable-IsCoherent (created {h} creator_id dto x) =
      settled roles _ (create-Owned roles w honest creator_id dto) (λ org h' p. p.0) h
        (Reachable-IsCoherent x)
  Reachable-IsCoherent (added {h} organization_id actor_id dto x) =
      settled roles _ (add_member-Coherent roles w honest organization_id actor_id dto)
        (λ membership h' p. p) h (Reachable-IsCoherent x)

  current :
      {A : Type 0} (r : Result A) (role_of : A → Option MembershipRole) (a : A) (h : History)
      (user_id organization_id : String)
      → Outcome
          (λ b h'.
            IsCoherent roles h' × (role_in roles false h' user_id organization_id ≡ role_of b))
          (IsCoherent roles)
          r
          h
      → r ≡ ok a
      → role_in roles false h user_id organization_id ≡ role_of a
  current (ok b) role_of a h user_id organization_id q e = q.1 ∙ ap role_of (ok-injective b a e)
  current (throw t) role_of a h user_id organization_id q e = cc

  -- In a history that any sequence of these operations leads to, the lookup through the cache returns
  -- what the database has.
  pub get_refines :
      {h : History} (user_id organization_id : String) (role : Option MembershipRole)
      → NoColon user_id
      → Reachable w ttl h
      → (get w ttl user_id organization_id h).0 ≡ ok role
      → role_in roles false (get w ttl user_id organization_id h).1 user_id organization_id ≡ role
  get_refines {h} user_id organization_id role plain x e =
      current _ (λ r. r) role _ user_id organization_id
        ((get-Current roles w honest ttl user_id organization_id plain).at h
          (Reachable-IsCoherent x))
        e

  -- In a history that any sequence of these operations leads to, the guard lets a request through with
  -- just the role that the database has for the user in the organization.
  pub can_activate_refines :
      {h : History} (user_id organization_id : String) (required : List MembershipRole)
      (actor : OrgActor)
      → NoColon user_id
      → Reachable w ttl h
      → (can_activate w ttl (some user_id) (some organization_id) required h).0 ≡ ok actor
      → role_in roles false
          (can_activate w ttl (some user_id) (some organization_id) required h).1
          user_id
          organization_id
        ≡ some actor.role
  can_activate_refines {h} user_id organization_id required actor plain x e =
      current _ (λ (a : OrgActor). some a.role) actor _ user_id organization_id
        ((can_activate-Current roles w honest ttl user_id organization_id plain required).at h
          (Reachable-IsCoherent x))
        e
