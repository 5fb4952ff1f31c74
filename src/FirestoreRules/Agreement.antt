-- ===== src/FirestoreRules/Agreement.antt =====
-- firestore.rules against the access rules of src/sessions/sessions.service.ts, on the documents that the
-- services write.
use lotus_build_server.Base.{
  String, ◌≡◌, refl, ap, ◌∙◌, Option, none, some, List, [], ◌∷◌, eq_iff, arith, if◌then◌else◌,
}
use lotus_build_server.World.Data.{Session, Message, User, Membership, OrgActor, MirroredMessage}
use lotus_build_server.World.Calls.{Call, PrismaCall, Document, prisma}
use lotus_build_server.World.Exec.{
  Thrown, World, History, Exec, ok, perform, or_throw, not_found, pure, ◌>>◌, >>=-eq-ok,
  >>=_history, ◌>>=◌,
}
use lotus_build_server.World.Returns.{or_throw-eq-ok}
use lotus_build_server.World.Triple.{
  Condition, Triple, Triple-pure, Triple-raise, Triple-bind, Triple-perform, Triple-act,
  Triple-returned,
}
use lotus_build_server.Sessions.{can_access, get_by_id, create_message, CreateMessage, is_user}
use lotus_build_server.Organizations.{
  AddMember, add_member, add_user, publish_member, refuse_existing,
}
use lotus_build_server.Mirror
use lotus_build_server.Memberships.{invalidate}
use lotus_build_server.FirestoreRules.{
  Store, member_path, reads_as, can_read_private, can_read_document, allows_read,
}
use lotus_build_server.FirestoreRules.Stored.{
  documents, written_by, documents_other, documents_written,
}

-- The member whom the document of this user describes.
abbrev pub actor_of : User → Membership → OrgActor
actor_of user membership = record { user_id = user.id; role = membership.role }

abbrev member_document : User → Membership → Document
member_document user membership =
    Document.member
      (record { user_id = user.id; role = membership.role; created_at = membership.created_at })

abbrev Anything : Condition
Anything h = Unit

agrees :
    (stored : Store) (uid organization_id : String) (user : User) (membership : Membership)
    (session : Session)
    → stored (member_path organization_id uid) ≡ some (member_document user membership)
    → can_read_private stored (some uid) organization_id session.creator_id
      ≡ can_access session (actor_of user membership)
unfolding can_read_private reads_as can_access
agrees stored uid organization_id user membership session e =
    rw e (ground (arith, eq_iff user.id session.creator_id, eq_iff session.creator_id user.id))

reads_named :
    (stored : Store) (uid : Option String) (path : List String)
    (organization_id creator_id : String) (mirrored : MirroredMessage)
    → stored path ≡ some (Document.message mirrored)
    → mirrored.organization_id ≡ organization_id
    → mirrored.session_creator_id ≡ creator_id
    → can_read_document stored uid (stored path)
      ≡ can_read_private stored uid organization_id creator_id
unfolding can_read_document
reads_named stored uid path organization_id creator_id mirrored e organization creator =
    rw (e, organization, creator) refl

module _ (w : World) where
  module _ (organization_id actor_id : String) (dto : AddMember) (user : User) where
    abbrev IsMirrored : Membership → Condition
    IsMirrored membership h =
        documents h (member_path organization_id user.external_id)
        ≡ some (member_document user membership)

    publish_member-IsMirrored :
        (membership : Membership)
        → Triple Anything
            (publish_member w organization_id actor_id dto user membership)
            IsMirrored
            Anything
    unfolding publish_member written_by invalidate
    publish_member-IsMirrored membership =
        Triple-bind _ _ (Triple-act w _ {Q = λ u. Anything} (λ h a p. tt) (λ h e p. tt)) λ u.
          Triple-bind _ _
            (Triple-act w _ {Q = λ u'. IsMirrored membership}
              (λ h a p. documents_written _ h _ _ refl (λ before. refl)) (λ h e p. tt))
            λ u'.
              Triple-bind _ _
                (Triple-act w _ {Q = λ u''. IsMirrored membership}
                  (λ h a p. documents_other _ h _ refl ∙ p) (λ h e p. tt))
                λ u''. Triple-pure membership (λ h p. p)

    refuse_existing-Anything :
        {A : Type 0} (existing : Option A) (e : Thrown)
        → Triple Anything (refuse_existing existing e) (λ u. Anything) Anything
    unfolding refuse_existing
    refuse_existing-Anything none e = Triple-pure tt (λ h p. p)
    refuse_existing-Anything (some a) e = Triple-raise e (λ h p. p)

    add_user-IsMirrored :
        Triple Anything (add_user w organization_id actor_id dto user) IsMirrored Anything
    unfolding add_user
    add_user-IsMirrored =
        Triple-bind _ _ (Triple-perform w _ {Q = λ a. Anything} (λ h a p e. tt) (λ h e p e'. tt))
          λ existing. Triple-bind _ _ (refuse_existing-Anything existing _) λ u.
            Triple-bind _ _
              (Triple-perform w _ {Q = λ a. Anything} (λ h a p e. tt) (λ h e p e'. tt))
              publish_member-IsMirrored

  -- Where `addMember` returned, the user with this email address reads in Firestore, by the rules and as
  -- its own Firebase user, just the documents of those sessions of the organization that the API gives
  -- to it in its new role.
  pub add_member_agrees :
      (organization_id actor_id : String) (dto : AddMember) (session : Session) (h : History)
      (membership : Membership)
      → (add_member w organization_id actor_id dto h).0 ≡ ok membership
      → (user : User) × (w.reply (prisma (PrismaCall.user_find_by_email dto.email)) h
          ≡ ok (some user))
        × (can_read_private
              (documents (add_member w organization_id actor_id dto h).1)
              (some user.external_id)
              organization_id
              session.creator_id
            ≡ can_access session (actor_of user membership))
  unfolding add_member perform
  add_member_agrees organization_id actor_id dto session h membership e =
      let (found, e₁, e₂) =
        >>=-eq-ok (perform w (prisma (PrismaCall.user_find_by_email dto.email))) _ h e in
      let (user, e₃, e₄) =
        >>=-eq-ok (or_throw found (not_found "No user found with this email")) _ _ e₂ in
      let history =
        >>=_history (perform w (prisma (PrismaCall.user_find_by_email dto.email))) _ h e₁
        ∙ >>=_history (or_throw found (not_found "No user found with this email")) _ _ e₃ in
      let mirrored =
        Triple-returned (add_user w organization_id actor_id dto user) _ membership
          (add_user-IsMirrored organization_id actor_id dto user) tt e₄ in
      (
        user,
        e₁ ∙ ap ok (or_throw-eq-ok found _ user _ e₃),
        agrees (documents (add_member w organization_id actor_id dto h).1) user.external_id
            organization_id user membership session
            (ap (λ (at : History). documents at (member_path organization_id user.external_id))
                history
              ∙ mirrored),
      )

  module _ (organization_id session_id : String) (actor : OrgActor) (dto : CreateMessage)
      (session : Session) where
    abbrev message_path : Message → List String
    message_path message = "sessions" ∷ session_id ∷ "messages" ∷ message.id ∷ []

    -- The document of the message names the organization and the creator of the session.
    abbrev IsNamed : Message → Condition
    IsNamed message h =
        (mirrored : MirroredMessage) × (documents h (message_path message)
          ≡ some (Document.message mirrored))
        × (mirrored.organization_id ≡ organization_id)
        × (mirrored.session_creator_id ≡ session.creator_id)

    -- `createMessage` behind the lookup of the session
    abbrev rest : Exec Message
    rest = do
      message ← perform w (
          Call.prisma (
            PrismaCall.message_create (record {
              session_id = session_id;
              author_id = if is_user dto.role then some actor.user_id else none;
              role = dto.role;
              content = dto.content;
            })))
      Mirror.add_message w message.id (record {
        session_id = session_id;
        organization_id = organization_id;
        session_creator_id = session.creator_id;
        author_id = message.author_id;
        role = message.role;
        content = message.content;
        created_at = message.created_at;
      })
      pure message

    rest-IsNamed : Triple Anything rest IsNamed Anything
    unfolding written_by
    rest-IsNamed =
        Triple-bind _ _ (Triple-perform w _ {Q = λ m. Anything} (λ h a p e. tt) (λ h e p e'. tt))
          λ message.
            Triple-bind _ _
              (Triple-act w _ {Q = λ u. IsNamed message}
                (λ h a p. (
                  _,
                  documents_written _ h (message_path message) _ refl (λ before. refl),
                  refl,
                  refl,
                ))
                (λ h e p. tt))
              λ u. Triple-pure message (λ h p. p)

  -- A message that `createMessage` returned is read in Firestore, by the rules, by just those whom they
  -- let read what is private to the creator of its session in this organization.
  pub create_message_readable :
      (organization_id session_id : String) (actor : OrgActor) (dto : CreateMessage) (h : History)
      (message : Message) (uid : Option String)
      → (create_message w organization_id session_id actor dto h).0 ≡ ok message
      → (session : Session) × ((get_by_id w organization_id session_id actor h).0 ≡ ok session)
        × (allows_read
              (documents (create_message w organization_id session_id actor dto h).1)
              uid
              ("sessions" ∷ session_id ∷ "messages" ∷ message.id ∷ [])
            ≡ can_read_private
                (documents (create_message w organization_id session_id actor dto h).1)
                uid
                organization_id
                session.creator_id)
  unfolding create_message allows_read can_read_document
  create_message_readable organization_id session_id actor dto h message uid e =
      let (session, e₁, e₂) = >>=-eq-ok (get_by_id w organization_id session_id actor) _ h e in
      let history : (create_message w organization_id session_id actor dto h).1
          ≡ (rest organization_id session_id actor dto session
              (get_by_id w organization_id session_id actor h).1).1 =
        >>=_history (get_by_id w organization_id session_id actor)
          (rest organization_id session_id actor dto) h e₁ in
      let (mirrored, stored, organization, creator) =
        Triple-returned _ _ message (rest-IsNamed organization_id session_id actor dto session) tt
          e₂ in
      (
        session,
        e₁,
        reads_named (documents (create_message w organization_id session_id actor dto h).1) uid
            ("sessions" ∷ session_id ∷ "messages" ∷ message.id ∷ []) organization_id
            session.creator_id mirrored
            (ap
                (λ (at : History).
                  documents at ("sessions" ∷ session_id ∷ "messages" ∷ message.id ∷ []))
                history
              ∙ stored)
            organization creator,
      )
