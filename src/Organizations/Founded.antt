-- ===== src/Organizations/Founded.antt =====
-- What `create` of src/organizations/organizations.service.ts writes, and in which order.
use lotus_build_server.Base.{String, ◌≡◌, refl, Option, none, some, List, ◌∷◌}
use lotus_build_server.World.Data.{Date, User, Organization, MembershipRole}
use lotus_build_server.World.Calls.{Call, PrismaCall, Metadata, prisma}
use lotus_build_server.World.Exec.{Thrown, World, History, ok, or_throw, not_found}
use lotus_build_server.World.Writes.{writes}
use lotus_build_server.World.Triple.{
  Condition, Triple, Triple-pure, Triple-raise, Triple-bind, Triple-perform, Triple-act,
  Triple-try_catch, Triple-new_date, Triple-after, Triple-framed, Triple-returned,
}
use lotus_build_server.Organizations.{
  CreateOrganization, roll_back, transaction, insert_owned, announce, create,
}
use lotus_build_server.Organizations.Written.{Anything, Wrote, Triple-refused, mirror_call}

-- The audit entry of a new organization.
abbrev pub organization_audit : String → Organization → Call
organization_audit creator_id organization = prisma (
    PrismaCall.audit_create (record {
      organization_id = some organization.id;
      actor_id = some creator_id;
      action = "organization.created";
      target_type = "organization";
      target_id = some organization.id;
      metadata = Metadata.absent;
    }))

-- What `create` writes, the newest first.
abbrev pub organization_writes :
    String → CreateOrganization → User → Date → Organization → List Call → List Call
organization_writes creator_id dto creator created_at organization calls =
    organization_audit creator_id organization
    ∷ mirror_call organization.id creator MembershipRole.owner created_at
    ∷ prisma PrismaCall.transaction_commit
    ∷ prisma (PrismaCall.membership_create creator_id organization.id MembershipRole.owner)
    ∷ prisma (PrismaCall.organization_create dto.name dto.slug)
    ∷ prisma PrismaCall.transaction_begin
    ∷ calls

module _ (w : World) where
  module _ (creator_id : String) (dto : CreateOrganization) (calls : List Call) where
    -- What the transaction has written before its commit.
    abbrev Inserted : Organization → Condition
    Inserted org = Wrote (
        prisma (PrismaCall.membership_create creator_id org.id MembershipRole.owner)
        ∷ prisma (PrismaCall.organization_create dto.name dto.slug)
        ∷ prisma PrismaCall.transaction_begin
        ∷ calls)

    insert_owned-Inserted :
        Triple
          (Wrote (prisma PrismaCall.transaction_begin ∷ calls))
          (insert_owned w creator_id dto)
          Inserted
          Anything
    unfolding insert_owned writes
    insert_owned-Inserted =
        Triple-bind _ _
          (Triple-perform w _
            {Q = λ org. Wrote (
              prisma (PrismaCall.organization_create dto.name dto.slug)
              ∷ prisma PrismaCall.transaction_begin
              ∷ calls)}
            (λ h org p e. rw p refl) (λ h e p e'. tt))
          λ org.
            Triple-bind _ _
              (Triple-perform w _ {Q = λ m. Inserted org} (λ h m p e. rw p refl) (λ h e p e'. tt))
              λ m. Triple-pure org (λ h p. p)

    roll_back-Anything : (e : Thrown) → Triple Anything (roll_back w e) Inserted Anything
    unfolding roll_back
    roll_back-Anything e =
        Triple-bind _ _ (Triple-act w _ {Q = λ u. Anything} (λ h a p. tt) (λ h e' p. tt))
          λ u. Triple-raise e (λ h p. p)

    transaction-Wrote :
        Triple
          (Wrote calls)
          (transaction w (insert_owned w creator_id dto))
          (λ org. Wrote (
            prisma PrismaCall.transaction_commit
            ∷ prisma (PrismaCall.membership_create creator_id org.id MembershipRole.owner)
            ∷ prisma (PrismaCall.organization_create dto.name dto.slug)
            ∷ prisma PrismaCall.transaction_begin
            ∷ calls))
          Anything
    unfolding transaction writes
    transaction-Wrote =
        Triple-bind _ _
          (Triple-act w _ {Q = λ u. Wrote (prisma PrismaCall.transaction_begin ∷ calls)}
            (λ h a p. rw p refl) (λ h e p. tt))
          λ u.
            Triple-bind _ _ (Triple-try_catch _ _ insert_owned-Inserted roll_back-Anything) λ org.
              Triple-bind _ _
                (Triple-act w _
                  {Q = λ u'. Wrote (
                    prisma PrismaCall.transaction_commit
                    ∷ prisma (PrismaCall.membership_create creator_id org.id MembershipRole.owner)
                    ∷ prisma (PrismaCall.organization_create dto.name dto.slug)
                    ∷ prisma PrismaCall.transaction_begin
                    ∷ calls)}
                  (λ h a p. rw p refl) (λ h e p. tt))
                λ u'. Triple-pure org (λ h p. p)

    -- The writes of `create` for this creator, at some time.
    abbrev IsAnnounced : User → Organization → Condition
    IsAnnounced creator org h =
        (created_at : Date) × (writes h
          ≡ organization_writes creator_id dto creator created_at org calls)

    announce-IsAnnounced :
        (creator : User) (org : Organization)
        → Triple
            (Wrote (
              prisma PrismaCall.transaction_commit
              ∷ prisma (PrismaCall.membership_create creator_id org.id MembershipRole.owner)
              ∷ prisma (PrismaCall.organization_create dto.name dto.slug)
              ∷ prisma PrismaCall.transaction_begin
              ∷ calls))
            (announce w creator_id creator org)
            (IsAnnounced creator)
            Anything
    unfolding announce writes
    announce-IsAnnounced creator org =
        Triple-bind _ _
          (Triple-new_date w
            {Q = λ n. Wrote (
              prisma PrismaCall.transaction_commit
              ∷ prisma (PrismaCall.membership_create creator_id org.id MembershipRole.owner)
              ∷ prisma (PrismaCall.organization_create dto.name dto.slug)
              ∷ prisma PrismaCall.transaction_begin
              ∷ calls)}
            (λ h n p. p))
          λ created_at.
            Triple-bind _ _
              (Triple-act w _
                {Q = λ u. Wrote (
                  mirror_call org.id creator MembershipRole.owner created_at
                  ∷ prisma PrismaCall.transaction_commit
                  ∷ prisma (PrismaCall.membership_create creator_id org.id MembershipRole.owner)
                  ∷ prisma (PrismaCall.organization_create dto.name dto.slug)
                  ∷ prisma PrismaCall.transaction_begin
                  ∷ calls)}
                (λ h a p. rw p refl) (λ h e p. tt))
              λ u.
                Triple-bind _ _
                  (Triple-act w _ {Q = λ u'. IsAnnounced creator org}
                    (λ h a p. (created_at, rw p refl)) (λ h e p. tt))
                  λ u'. Triple-pure org (λ h p. p)

    -- The database replied with this to the lookup of the creator.
    abbrev pub IsFound : Option User → Type 0
    IsFound found =
        (at : History) × (w.reply (prisma (PrismaCall.user_find_by_id creator_id)) at ≡ ok found)

    creator_or_throw :
        (found : Option User)
        → Triple
            (λ h. Wrote calls h × IsFound found)
            (or_throw found (not_found "Creator user not found"))
            (λ creator h. Wrote calls h × IsFound (some creator))
            Anything
    creator_or_throw none = Triple-raise _ (λ h p. tt)
    creator_or_throw (some creator) = Triple-pure creator (λ h p. p)

    create-IsAnnounced :
        Triple
          (Wrote calls)
          (create w creator_id dto)
          (λ org h. (creator : User) × IsFound (some creator) × IsAnnounced creator org h)
          Anything
    unfolding create writes
    create-IsAnnounced =
        Triple-bind _ _ (Triple-perform w _ {Q = λ a. Wrote calls} (λ h a p e. p) (λ h e p e'. tt))
          λ existing. Triple-bind _ _ (Triple-refused (Wrote calls) existing _) λ u.
            Triple-bind _ _
              (Triple-perform w _ {Q = λ found h. Wrote calls h × IsFound found}
                (λ h found p e. (p, (h, e))) (λ h e p e'. tt))
              λ found. Triple-bind _ _ (creator_or_throw found) λ (creator : User).
                Triple-bind _ _ (Triple-framed transaction-Wrote) λ org.
                  Triple-after (Triple-framed (announce-IsAnnounced creator org))
                    (λ org' h p. (creator, p.1, p.0))

  -- Where `create` returns an organization, the database had a user with the creator's id, and `create`
  -- has inserted the organization and the creator's membership as its owner
  -- between the begin and the commit of one transaction, then mirrored the membership and noted the
  -- organization in the log, in this order, and written nothing else.
  pub writes-create :
      (creator_id : String) (dto : CreateOrganization) (h : History) (organization : Organization)
      → (create w creator_id dto h).0 ≡ ok organization
      → (creator : User) × (created_at : Date) × IsFound creator_id dto (writes h) (some creator)
        × (writes (create w creator_id dto h).1
            ≡ organization_writes creator_id dto creator created_at organization (writes h))
  writes-create creator_id dto h organization e =
      let (creator, found, announced) =
        Triple-returned (create w creator_id dto) h organization
          (create-IsAnnounced creator_id dto (writes h)) refl e in
      (creator, announced.0, found, announced.1)
