-- ===== src/Tests/Organizations.antt =====
-- The operations on organizations, and what they leave in Firestore, at work on concrete services.
use lotus_build_server.Base.{◌≡◌, refl, some, [], ◌∷◌}
use lotus_build_server.World.Data.{Date, User, Membership, MembershipRole, MessageRole, Session}
use lotus_build_server.World.Calls.{PrismaCall, prisma}
use lotus_build_server.World.Exec.{ok, perform, act, new_date}
use lotus_build_server.World.Writes.{writes}
use lotus_build_server.Sessions
use lotus_build_server.Sessions.{can_access, require_access, CreateMessage}
use lotus_build_server.Memberships.{invalidate}
use lotus_build_server.Organizations
use lotus_build_server.Organizations.{
  CreateOrganization, AddMember, add_user, refuse_existing, publish_member, transaction,
  insert_owned, announce,
}
use lotus_build_server.Organizations.Written.{member_writes, writes-add_member}
use lotus_build_server.Organizations.Founded.{IsFound, organization_writes, writes-create}
use lotus_build_server.FirestoreRules.{can_read_private, allows_read}
use lotus_build_server.FirestoreRules.Stored.{documents}
use lotus_build_server.FirestoreRules.Agreement.{
  actor_of, add_member_agrees, create_message_readable,
}
use lotus_build_server.Tests.Services.{
  world, session, message, alice, organization, membership_of, fresh,
}

abbrev invitation : AddMember
invitation = record { email = "carol@lotus.build"; role = MembershipRole.member }

abbrev carols : Membership
carols = membership_of "carol" "o1" MembershipRole.member

added : (Organizations.add_member fresh "o1" "alice" invitation []).0 ≡ ok carols
unfolding Organizations.add_member add_user refuse_existing publish_member invalidate perform act
added = refl

writes-add_member_example :
    (user : User) × (fresh.reply (prisma (PrismaCall.user_find_by_email invitation.email)) []
      ≡ ok (some user))
    × (writes (Organizations.add_member fresh "o1" "alice" invitation []).1
        ≡ member_writes "o1" "alice" invitation user carols (writes []))
writes-add_member_example = writes-add_member fresh "o1" "alice" invitation [] carols added

add_member_agrees_example :
    (user : User) × (fresh.reply (prisma (PrismaCall.user_find_by_email invitation.email)) []
      ≡ ok (some user))
    × (can_read_private
          (documents (Organizations.add_member fresh "o1" "alice" invitation []).1)
          (some user.external_id)
          "o1"
          session.creator_id
        ≡ can_access session (actor_of user carols))
add_member_agrees_example = add_member_agrees fresh "o1" "alice" invitation session [] carols added

abbrev founding : CreateOrganization
founding = record { name = "Lotus"; slug = "lotus" }

founded : (Organizations.create fresh "alice" founding []).0 ≡ ok organization
unfolding Organizations.create refuse_existing transaction insert_owned announce perform act
    new_date
founded = refl

writes-create_example :
    (creator : User) × (created_at : Date) × IsFound fresh "alice" founding
      (writes [])
      (some creator)
    × (writes (Organizations.create fresh "alice" founding []).1
        ≡ organization_writes "alice" founding creator created_at organization (writes []))
writes-create_example = writes-create fresh "alice" founding [] organization founded

abbrev greeting : CreateMessage
greeting = record { role = MessageRole.user; content = "hello" }

sent : (Sessions.create_message world "o1" "s1" alice greeting []).0 ≡ ok message
unfolding Sessions.create_message Sessions.get_by_id require_access can_access perform act
sent = refl

create_message_readable_example :
    (other : Session) × ((Sessions.get_by_id world "o1" "s1" alice []).0 ≡ ok other)
    × (allows_read
          (documents (Sessions.create_message world "o1" "s1" alice greeting []).1)
          (some "firebase-1")
          ("sessions" ∷ "s1" ∷ "messages" ∷ message.id ∷ [])
        ≡ can_read_private
            (documents (Sessions.create_message world "o1" "s1" alice greeting []).1)
            (some "firebase-1")
            "o1"
            other.creator_id)
create_message_readable_example =
    create_message_readable world "o1" "s1" alice greeting [] message (some "firebase-1") sent
