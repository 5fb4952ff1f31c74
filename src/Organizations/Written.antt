-- ===== src/Organizations/Written.antt =====
-- What `addMember` of src/organizations/organizations.service.ts writes, and in which order.
use lotus_build_server.Base.{String, ◌≡◌, refl, ap, ◌∙◌, Option, none, some, List, ◌∷◌}
use lotus_build_server.World.Data.{Date, User, Membership, MembershipRole}
use lotus_build_server.World.Calls.{
  Call, PrismaCall, RedisCall, FirestoreCall, Document, Metadata, prisma, redis, firestore,
}
use lotus_build_server.World.Exec.{
  Thrown, World, History, ok, perform, or_throw, not_found, >>=-eq-ok, >>=_history,
}
use lotus_build_server.World.Returns.{or_throw-eq-ok, or_throw_history}
use lotus_build_server.World.Writes.{writes}
use lotus_build_server.World.Triple.{
  Condition, Triple, Triple-pure, Triple-raise, Triple-bind, Triple-perform, Triple-act,
  Triple-returned,
}
use lotus_build_server.Memberships.{key, invalidate}
use lotus_build_server.FirestoreRules.{member_path}
use lotus_build_server.Organizations.{
  AddMember, refuse_existing, publish_member, add_user, add_member,
}

abbrev pub Anything : Condition
Anything h = Unit

-- Just these calls have written.
abbrev pub Wrote : List Call → Condition
Wrote calls h = writes h ≡ calls

pub Triple-refused :
    {A : Type 0} (P : Condition) (existing : Option A) (e : Thrown)
    → Triple P (refuse_existing existing e) (λ u. P) Anything
unfolding refuse_existing
Triple-refused P none e = Triple-pure tt (λ h p. p)
Triple-refused P (some a) e = Triple-raise e (λ h p. tt)

-- The mirrored membership.
abbrev pub mirror_call : String → User → MembershipRole → Date → Call
mirror_call organization_id user role created_at = firestore (
    FirestoreCall.merge (member_path organization_id user.external_id)
      (Document.member (record { user_id = user.id; role = role; created_at = created_at })))

-- The audit entry of a new membership.
abbrev pub membership_audit : String → String → AddMember → User → Membership → Call
membership_audit organization_id actor_id dto user membership = prisma (
    PrismaCall.audit_create (record {
      organization_id = some organization_id;
      actor_id = some actor_id;
      action = "membership.created";
      target_type = "membership";
      target_id = some membership.id;
      metadata = Metadata.added_member dto.role user.id;
    }))

-- What `addMember` writes, the newest first.
abbrev pub member_writes : String → String → AddMember → User → Membership → List Call → List Call
member_writes organization_id actor_id dto user membership calls =
    membership_audit organization_id actor_id dto user membership
    ∷ mirror_call organization_id user membership.role membership.created_at
    ∷ redis (RedisCall.del (key user.id organization_id))
    ∷ prisma (PrismaCall.membership_create user.id organization_id dto.role)
    ∷ calls

module _ (w : World) where
  module _ (organization_id actor_id : String) (dto : AddMember) (user : User)
      (calls : List Call) where
    add_user-Wrote :
        Triple
          (Wrote calls)
          (add_user w organization_id actor_id dto user)
          (λ m. Wrote (member_writes organization_id actor_id dto user m calls))
          Anything
    unfolding add_user publish_member invalidate writes
    add_user-Wrote =
        Triple-bind _ _ (Triple-perform w _ {Q = λ a. Wrote calls} (λ h a p e. p) (λ h e p e'. tt))
          λ existing. Triple-bind _ _ (Triple-refused (Wrote calls) existing _) λ u.
            Triple-bind _ _
              (Triple-perform w _
                {Q = λ m.
                  Wrote (
                    prisma (PrismaCall.membership_create user.id organization_id dto.role) ∷ calls)}
                (λ h m p e. rw p refl) (λ h e p e'. tt))
              λ m.
                Triple-bind _ _
                  (Triple-act w _
                    {Q = λ u'. Wrote (
                      redis (RedisCall.del (key user.id organization_id))
                      ∷ prisma (PrismaCall.membership_create user.id organization_id dto.role)
                      ∷ calls)}
                    (λ h a p. rw p refl) (λ h e p. tt))
                  λ u'.
                    Triple-bind _ _
                      (Triple-act w _
                        {Q = λ u''. Wrote (
                          mirror_call organization_id user m.role m.created_at
                          ∷ redis (RedisCall.del (key user.id organization_id))
                          ∷ prisma (PrismaCall.membership_create user.id organization_id dto.role)
                          ∷ calls)}
                        (λ h a p. rw p refl) (λ h e p. tt))
                      λ u''.
                        Triple-bind _ _
                          (Triple-act w _
                            {Q = λ u'''.
                              Wrote (member_writes organization_id actor_id dto user m calls)}
                            (λ h a p. rw p refl) (λ h e p. tt))
                          λ u'''. Triple-pure m (λ h p. p)

  -- Where `addMember` returns, it has inserted the membership of the user with this email address, with
  -- the role that was asked for, deleted what the cache held for it, mirrored it and noted it in the log,
  -- in this order, and written nothing else.
  pub writes-add_member :
      (organization_id actor_id : String) (dto : AddMember) (h : History) (membership : Membership)
      → (add_member w organization_id actor_id dto h).0 ≡ ok membership
      → (user : User) × (w.reply (prisma (PrismaCall.user_find_by_email dto.email)) h
          ≡ ok (some user))
        × (writes (add_member w organization_id actor_id dto h).1
            ≡ member_writes organization_id actor_id dto user membership (writes h))
  unfolding add_member perform writes
  writes-add_member organization_id actor_id dto h membership e =
      let (found, e₁, e₂) =
        >>=-eq-ok (perform w (prisma (PrismaCall.user_find_by_email dto.email))) _ h e in
      let (user, e₃, e₄) =
        >>=-eq-ok (or_throw found (not_found "No user found with this email")) _ _ e₂ in
      (
        user,
        e₁ ∙ ap ok (or_throw-eq-ok found _ user _ e₃),
        ap writes (
              >>=_history (perform w (prisma (PrismaCall.user_find_by_email dto.email))) _ h e₁
              ∙ >>=_history (or_throw found (not_found "No user found with this email")) _ _ e₃)
            ∙ Triple-returned (add_user w organization_id actor_id dto user) _ membership
                (add_user-Wrote organization_id actor_id dto user (writes h))
                (ap writes (or_throw_history found _ _)) e₄,
      )
