-- ===== src/Tests/Members.antt =====
-- A database and a cache that keep what they are told, and the memberships of an organization in them.
use lotus_build_server.Base.{
  String, ◌≡◌, ◌≢◌, refl, inl, inr, ap, true, false, Option, none, some, [], ◌∷◌, ◌==◌,
  if◌then◌else◌, eq_iff, arith, Bool-cases,
}
use lotus_build_server.World.Data.{Membership, MembershipRole, OrgActor}
use lotus_build_server.World.Calls.{Call, Reply, PrismaCall, RedisCall, prisma, redis}
use lotus_build_server.World.Exec.{error, Result, ok, throw, World, History, perform, act}
use lotus_build_server.World.Returns.{ok-injective}
use lotus_build_server.Memberships.{get, can_activate, invalidate}
use lotus_build_server.Memberships.Keys.{NoColon}
use lotus_build_server.Memberships.Roles.{
  Roles, Event, event_of, role_in, HeldAfter, MayHold, IsHonest, IsCoherent,
}
use lotus_build_server.Organizations.{
  AddMember, add_member, add_user, refuse_existing, publish_member,
}
use lotus_build_server.Organizations.Reachable.{
  Reachable, Reachable-IsCoherent, can_activate_refines,
}
use lotus_build_server.Tests.Services.{world, membership_of}

abbrev no_roles : Roles
no_roles user_id organization_id = none

-- what the cache holds at a key
abbrev cached_after : String → Event → Option MembershipRole → Option MembershipRole
cached_after k (Event.noted k' role) before = if k' == k then some role else before
cached_after k (Event.dropped k') before = if k' == k then none else before
cached_after k Event.began before = before
cached_after k Event.undone before = before
cached_after k Event.other before = before
cached_after k (Event.joined u o role) before = before

cached : String → History → Option MembershipRole
cached k [] = none
cached k (e ∷ h) = cached_after k (event_of e.call e.reply) (cached k h)

abbrev found_in : String → String → Option MembershipRole → Option Membership
found_in user_id organization_id none = none
found_in user_id organization_id (some role) = some (membership_of user_id organization_id role)

abbrev inserted : String → String → MembershipRole → Option MembershipRole → Result Membership
inserted user_id organization_id role none = ok (membership_of user_id organization_id role)
inserted user_id organization_id role (some other) = throw (error "Unique constraint failed")

kept_reply : (c : Call) → History → Result (Reply c)
unfolding cached
kept_reply (redis (RedisCall.get_role k)) h = ok (cached k h)
kept_reply (prisma (PrismaCall.membership_find_unique u o)) h =
    ok (found_in u o (role_in no_roles false h u o))
kept_reply (prisma (PrismaCall.membership_create u o role)) h =
    inserted u o role (role_in no_roles false h u o)
kept_reply c h = world.reply c h

abbrev kept : World
kept = record { reply = kept_reply; now = λ h. 7; stringify = λ input. "{}" }

held :
    (k : String) (role : MembershipRole) (event : Event) (before : Option MembershipRole)
    (Before : Type 0)
    → (before ≡ some role → Before)
    → cached_after k event before ≡ some role
    → HeldAfter k role event Before
held k role (Event.noted k' role') before Before f e = elim (Bool-cases (k' == k)) [
  | inl same ↦ inl (ground (arith, eq_iff k' k, same), noted_role same e)
  | inr other ↦ inr (f (passed other e))
]
  where
    noted_role :
        (k' == k) ≡ true → (if k' == k then some role' else before) ≡ some role → role' ≡ role
    noted_role same = rw same (λ e'. cc)

    passed :
        (k' == k) ≡ false
        → (if k' == k then some role' else before) ≡ some role
        → before ≡ some role
    passed other = rw other (λ e'. e')
held k role (Event.dropped k') before Before f e = elim (Bool-cases (k' == k)) [
  | inl same ↦ absurd (gone same e)
  | inr other ↦ (ground (arith, eq_iff k' k, other), f (passed other e))
]
  where
    gone : (k' == k) ≡ true → (if k' == k then none else before) ≢ some role
    gone same = rw same (λ e'. cc)

    passed : (k' == k) ≡ false → (if k' == k then none else before) ≡ some role → before ≡ some role
    passed other = rw other (λ e'. e')
held k role Event.began before Before f e = f e
held k role Event.undone before Before f e = f e
held k role Event.other before Before f e = f e
held k role (Event.joined u o role') before Before f e = f e

cached-MayHold :
    (k : String) (role : MembershipRole) (h : History) → cached k h ≡ some role → MayHold k role h
unfolding cached MayHold
cached-MayHold k role [] e = cc
cached-MayHold k role (entry ∷ h) e =
    held k role (event_of entry.call entry.reply) (cached k h) (MayHold k role h)
      (cached-MayHold k role h) e

found_role :
    (u o : String) (found : Option MembershipRole) (membership : Membership)
    → ok (found_in u o found) ≡ ok (some membership)
    → found ≡ some membership.role
found_role u o none membership e = cc
found_role u o (some role) membership e =
    let same = ok-injective (some (membership_of u o role)) (some membership) e in
    let of_membership : membership_of u o role ≡ membership = cc in
    ap (λ (m : Membership). some m.role) of_membership

none_found :
    (u o : String) (found : Option MembershipRole)
    → ok (found_in u o found) ≡ ok none
    → found ≡ none
none_found u o none e = refl
none_found u o (some role) e = cc

none_before :
    (u o : String) (role : MembershipRole) (before : Option MembershipRole)
    (membership : Membership)
    → inserted u o role before ≡ ok membership
    → before ≡ none
none_before u o role none membership e = refl
none_before u o role (some other) membership e = cc

honest : IsHonest no_roles kept
unfolding kept_reply
honest = record {
  from_cache = λ k role h e. cached-MayHold k role h (ok-injective (cached k h) (some role) e);
  found = λ u o membership h e. found_role u o (role_in no_roles false h u o) membership e;
  not_found = λ u o h e. none_found u o (role_in no_roles false h u o) e;
  unique =
      λ u o role membership h e. none_before u o role (role_in no_roles false h u o) membership e;
}

abbrev invitation : AddMember
invitation = record { email = "carol@lotus.build"; role = MembershipRole.member }

abbrev carol_added : History
carol_added = (add_member kept "o1" "alice" invitation []).1

added-Reachable : Reachable kept 60 carol_added
added-Reachable = Reachable.added "o1" "alice" invitation Reachable.start

plain : NoColon "carol"
unfolding NoColon
plain = (refl, (refl, (refl, (refl, (refl, tt)))))

Reachable-IsCoherent_example : IsCoherent no_roles carol_added
Reachable-IsCoherent_example = Reachable-IsCoherent no_roles kept honest 60 added-Reachable

got : (get kept 60 "carol" "o1" carol_added).0 ≡ ok (some MembershipRole.member)
unfolding get add_member kept_reply role_in perform add_user refuse_existing event_of publish_member
    invalidate act
got = refl

-- the second time the role comes from the cache
abbrev carol_cached : History
carol_cached = (can_activate kept 60 (some "carol") (some "o1") [] carol_added).1

cached-Reachable : Reachable kept 60 carol_cached
cached-Reachable = Reachable.guarded "carol" "o1" [] plain added-Reachable

abbrev carol : OrgActor
carol = record { user_id = "carol"; role = MembershipRole.member }

let_through : (can_activate kept 60 (some "carol") (some "o1") [] carol_cached).0 ≡ ok carol
unfolding can_activate add_member kept_reply role_in get perform add_user refuse_existing event_of
    publish_member invalidate act
let_through = refl

can_activate_refines_example :
    role_in no_roles false
      (can_activate kept 60 (some "carol") (some "o1") [] carol_cached).1
      "carol"
      "o1"
    ≡ some MembershipRole.member
can_activate_refines_example =
    can_activate_refines no_roles kept honest 60 "carol" "o1" [] carol plain cached-Reachable
      let_through
