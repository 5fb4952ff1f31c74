-- ===== src/Tests/Routes.antt =====
-- Requests on their way through the guards of the routes.
use lotus_build_server.Base.{String, ◌≡◌, refl, inl, inr, Option, some, []}
use lotus_build_server.World.Data.{OrgActor, MembershipRole}
use lotus_build_server.World.Calls.{Call, Reply, RedisCall, redis, verify_id_token}
use lotus_build_server.World.Exec.{Thrown, Result, ok, throw, World, History, perform, act}
use lotus_build_server.World.Grows.{Extends}
use lotus_build_server.Memberships
use lotus_build_server.Memberships.{includes}
use lotus_build_server.Memberships.Guard.{Vouches}
use lotus_build_server.Memberships.Checks.{IsCheck}
use lotus_build_server.Sessions
use lotus_build_server.Sessions.{require_access, can_access}
use lotus_build_server.Sessions.Access.{MayAccess, lookup}
use lotus_build_server.Auth
use lotus_build_server.Auth.{
  RequestUser, bearer_token, verify, identity_of, non_empty, provision_from_identity,
}
use lotus_build_server.Auth.Verified.{Verified}
use lotus_build_server.Api.{Settings, respond, handle, handle_within, operate}
use lotus_build_server.Api.Operations.{Operation, Route, roles_of}
use lotus_build_server.Api.Guarded.{Admitted, respond-Admitted}
use lotus_build_server.Api.Refused.{handle_within_denied}
use lotus_build_server.Memberships.Refusal.{refusal, IsDenied}
use lotus_build_server.Api.Visible.{respond_visible}
use lotus_build_server.Tests.Services.{world, session}

abbrev settings : Settings
settings = record {
  model = "m";
  membership_ttl_seconds = 60;
  uuid = λ text. ok text;
  sha256 = λ secret. "abcd";
}

abbrev header : Option String
header = some "Bearer token"

abbrev request : Route
request = Route.within "o1" (Operation.get_session "s1")

answered : (respond world settings header request []).0 ≡ ok session
unfolding respond handle handle_within operate Auth.can_activate Auth.authenticate bearer_token
    verify identity_of non_empty provision_from_identity Memberships.can_activate Memberships.get
    includes Sessions.get_by_id require_access can_access perform act roles_of
answered = refl

respond-Admitted_example :
    Admitted world settings header "o1" (Operation.get_session "s1") [] session
respond-Admitted_example =
    respond-Admitted world settings header "o1" (Operation.get_session "s1") [] session answered

respond_visible_example :
    (user : RequestUser) × (actor : OrgActor) × (h' : History) × Verified world
      (bearer_token header)
      []
      user
    × (actor.user_id ≡ user.id)
    × Vouches world user.id "o1" (Auth.authenticate world header []).1 actor.role
    × (world.reply (lookup "o1" "s1") h' ≡ ok (some session))
    × MayAccess actor session
respond_visible_example =
    respond_visible world settings header "o1" "s1" [] session same_id answered
  where
    same_id : (text id : String) → ok text ≡ ok id → id ≡ text
    same_id text id e = cc

-- Firebase refuses each token
refusing_reply : (c : Call) → History → Result (Reply c)
refusing_reply (verify_id_token token) h = throw (Thrown.error "auth/id-token-expired")
refusing_reply c h = world.reply c h

abbrev refusing : World
refusing = record { reply = refusing_reply; now = λ h. 7; stringify = λ input. "{}" }

abbrev alice_user : RequestUser
alice_user = record { id = "alice"; external_id = "firebase-1"; email = "a@lotus.build" }

-- the cache has each user as a member
member_reply : (c : Call) → History → Result (Reply c)
member_reply (redis (RedisCall.get_role k)) h = ok (some MembershipRole.member)
member_reply c h = world.reply c h

abbrev members_only : World
members_only = record { reply = member_reply; now = λ h. 7; stringify = λ input. "{}" }

looked_up : (Memberships.get members_only 60 "alice" "o1" []).0 ≡ ok (some MembershipRole.member)
unfolding Memberships.get perform member_reply
looked_up = refl

too_low : IsDenied (roles_of Operation.list_api_keys) (some MembershipRole.member)
unfolding roles_of Memberships.includes
too_low (inl e) = cc
too_low (inr e) = cc

handle_within_denied_example :
    (handle_within members_only settings (some alice_user) "o1" Operation.list_api_keys [] ≡ (
      throw (refusal (some MembershipRole.member)),
      (Memberships.get members_only 60 "alice" "o1" []).1,
    ))
    × Extends (IsCheck "alice" "o1") [] (Memberships.get members_only 60 "alice" "o1" []).1
handle_within_denied_example =
    handle_within_denied members_only settings alice_user "o1" Operation.list_api_keys
      (some MembershipRole.member) [] refl looked_up too_low
