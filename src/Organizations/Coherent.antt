-- ===== src/Organizations/Coherent.antt =====
-- The cache of memberships under the operations of src/organizations/organizations.service.ts.
use lotus_build_server.Base.{String, refl, ◌∙◌, Option, none, some}
use lotus_build_server.World.Data.{User, Organization, Membership, MembershipRole}
use lotus_build_server.World.Exec.{Thrown, World, History}
use lotus_build_server.World.Triple.{
  Condition, Triple, Triple-pure, Triple-raise, Triple-or_throw, Triple-after, Triple-bind,
  Triple-perform, Triple-act, Triple-try_catch, Triple-new_date,
}
use lotus_build_server.Memberships.{invalidate}
use lotus_build_server.Memberships.Roles.{
  Roles, IsHonest, IsCoherent, event_of, IsCoherent-other, IsCoherent-began, IsCoherent-joined,
  IsCoherent-dropped, dropped_roles, Current, Current-other,
}
use lotus_build_server.Memberships.Pending.{
  IsPending, IsPending-began, IsPending-other, IsPending-joined, IsCoherent-undone, joined_roles,
}
use lotus_build_server.Organizations.{
  CreateOrganization, AddMember, refuse_existing, roll_back, transaction, insert_owned, announce,
  create, publish_member, add_user, add_member,
}

Triple-refuse_existing :
    {A : Type 0} {P E : Condition} (existing : Option A) (e : Thrown)
    → ((h : History) → P h → E h)
    → Triple P (refuse_existing existing e) (λ u. P) E
unfolding refuse_existing
Triple-refuse_existing none e k = Triple-pure tt (λ h p. p)
Triple-refuse_existing (some a) e k = Triple-raise e k

module _ (roles : Roles) (w : World) (honest : IsHonest roles w) where
  publish_member-Current :
      (organization_id actor_id : String) (dto : AddMember) (user : User) (membership : Membership)
      → Triple
          (Current roles user.id organization_id (some dto.role))
          (publish_member w organization_id actor_id dto user membership)
          (λ m. Current roles user.id organization_id (some dto.role))
          (IsCoherent roles)
  unfolding publish_member event_of invalidate
  publish_member-Current organization_id actor_id dto user membership =
      Triple-bind _ _
        (Triple-act w _ {Q = λ u. Current roles user.id organization_id (some dto.role)}
          (λ h a p. (
            IsCoherent-dropped roles _ h _ refl p.0,
            dropped_roles roles _ h user.id organization_id _ refl ∙ p.1,
          ))
          (λ h e p. IsCoherent-other roles _ h refl p.0))
        λ u.
          Triple-bind _ _
            (Triple-act w _ {Q = λ u'. Current roles user.id organization_id (some dto.role)}
              (λ h a p. Current-other roles user.id organization_id _ _ h refl p)
              (λ h e p. IsCoherent-other roles _ h refl p.0))
            λ u'.
              Triple-bind _ _
                (Triple-act w _ {Q = λ u''. Current roles user.id organization_id (some dto.role)}
                  (λ h a p. Current-other roles user.id organization_id _ _ h refl p)
                  (λ h e p. IsCoherent-other roles _ h refl p.0))
                λ u''. Triple-pure membership (λ h p. p)

  add_user-Current :
      (organization_id actor_id : String) (dto : AddMember) (user : User)
      → Triple
          (IsCoherent roles)
          (add_user w organization_id actor_id dto user)
          (λ m. Current roles user.id organization_id (some dto.role))
          (IsCoherent roles)
  unfolding add_user event_of
  add_user-Current organization_id actor_id dto user =
      Triple-bind _ _
        (Triple-perform w _ {Q = λ existing. IsCoherent roles}
          (λ h a p e. IsCoherent-other roles _ h refl p)
          (λ h e p e'. IsCoherent-other roles _ h refl p))
        λ existing. Triple-bind _ _ (Triple-refuse_existing existing _ (λ h p. p)) λ u.
          Triple-bind _ _
            (Triple-perform w _ {Q = λ m. Current roles user.id organization_id (some dto.role)}
              (λ h m p e. (
                IsCoherent-joined roles _ h user.id organization_id dto.role refl
                    (honest.unique user.id organization_id dto.role m h e) p,
                joined_roles roles _ h user.id organization_id dto.role refl,
              ))
              (λ h e p e'. IsCoherent-other roles _ h refl p))
            (publish_member-Current organization_id actor_id dto user)

  -- `addMember` keeps the cache coherent, whether it returns or throws.
  pub add_member-Coherent :
      (organization_id actor_id : String) (dto : AddMember)
      → Triple
          (IsCoherent roles)
          (add_member w organization_id actor_id dto)
          (λ m. IsCoherent roles)
          (IsCoherent roles)
  unfolding add_member event_of
  add_member-Coherent organization_id actor_id dto =
      Triple-bind _ _
        (Triple-perform w _ {Q = λ found. IsCoherent roles}
          (λ h a p e. IsCoherent-other roles _ h refl p)
          (λ h e p e'. IsCoherent-other roles _ h refl p))
        λ found.
          Triple-bind _ _
            (Triple-or_throw {Q = λ user. IsCoherent roles} found _ (λ user h p. p) (λ h p. p))
            λ user. Triple-after (add_user-Current organization_id actor_id dto user) (λ m h p. p.0)

  module _ (creator_id : String) (dto : CreateOrganization) where
    -- Coherent, with the creator as the owner, and coherent again if the transaction is undone.
    abbrev Owned : Organization → Condition
    Owned org h = Current roles creator_id org.id (some MembershipRole.owner) h × IsPending roles h

    abbrev Opened : Condition
    Opened h = IsCoherent roles h × IsPending roles h

    insert_owned-Owned : Triple Opened (insert_owned w creator_id dto) Owned (IsPending roles)
    unfolding insert_owned event_of
    insert_owned-Owned =
        Triple-bind _ _
          (Triple-perform w _ {Q = λ org. Opened}
            (λ h org p e. (IsCoherent-other roles _ h refl p.0, IsPending-other roles _ h refl p.1))
            (λ h e p e'. IsPending-other roles _ h refl p.1))
          λ org.
            Triple-bind _ _
              (Triple-perform w _ {Q = λ m. Owned org}
                (λ h m p e. (
                  (
                    IsCoherent-joined roles _ h creator_id org.id MembershipRole.owner refl
                        (honest.unique creator_id org.id MembershipRole.owner m h e) p.0,
                    joined_roles roles _ h creator_id org.id MembershipRole.owner refl,
                  ),
                  IsPending-joined roles _ h creator_id org.id MembershipRole.owner refl p.1,
                ))
                (λ h e p e'. IsPending-other roles _ h refl p.1))
              λ m. Triple-pure org (λ h p. p)

    roll_back-Coherent :
        (e : Thrown) → Triple (IsPending roles) (roll_back w e) Owned (IsCoherent roles)
    unfolding roll_back event_of
    roll_back-Coherent e =
        Triple-bind _ _
          (Triple-act w _ {Q = λ u. IsCoherent roles} (λ h a p. IsCoherent-undone roles _ h refl p)
            (λ h e' p. IsCoherent-undone roles _ h refl p))
          λ u. Triple-raise e (λ h p. p)

    transaction-Owned :
        Triple
          (IsCoherent roles)
          (transaction w (insert_owned w creator_id dto))
          (λ org. Current roles creator_id org.id (some MembershipRole.owner))
          (IsCoherent roles)
    unfolding transaction event_of
    transaction-Owned =
        Triple-bind _ _
          (Triple-act w _ {Q = λ u. Opened}
            (λ h a p. (IsCoherent-began roles _ h refl p, IsPending-began roles _ h refl p))
            (λ h e p. IsCoherent-began roles _ h refl p))
          λ u. Triple-bind _ _ (Triple-try_catch _ _ insert_owned-Owned roll_back-Coherent) λ org.
            Triple-bind _ _
              (Triple-act w _
                {Q = λ u'. Current roles creator_id org.id (some MembershipRole.owner)}
                (λ h a p. Current-other roles creator_id org.id _ _ h refl p.0)
                (λ h e p. IsCoherent-undone roles _ h refl p.1))
              λ u'. Triple-pure org (λ h p. p)

    announce-Owned :
        (creator : User) (organization : Organization)
        → Triple
            (Current roles creator_id organization.id (some MembershipRole.owner))
            (announce w creator_id creator organization)
            (λ org. Current roles creator_id org.id (some MembershipRole.owner))
            (IsCoherent roles)
    unfolding announce event_of
    announce-Owned creator organization =
        Triple-bind _ _
          (Triple-new_date w
            {Q = λ n. Current roles creator_id organization.id (some MembershipRole.owner)}
            (λ h n p. p))
          λ n.
            Triple-bind _ _
              (Triple-act w _
                {Q = λ u. Current roles creator_id organization.id (some MembershipRole.owner)}
                (λ h a p. Current-other roles creator_id organization.id _ _ h refl p)
                (λ h e p. IsCoherent-other roles _ h refl p.0))
              λ u.
                Triple-bind _ _
                  (Triple-act w _
                    {Q = λ u'. Current roles creator_id organization.id (some MembershipRole.owner)}
                    (λ h a p. Current-other roles creator_id organization.id _ _ h refl p)
                    (λ h e p. IsCoherent-other roles _ h refl p.0))
                  λ u'. Triple-pure organization (λ h p. p)

    -- `create` keeps the cache coherent, whether it returns or throws, and where it returns the creator
    -- is the owner of the organization in the database.
    pub create-Owned :
        Triple
          (IsCoherent roles)
          (create w creator_id dto)
          (λ org. Current roles creator_id org.id (some MembershipRole.owner))
          (IsCoherent roles)
    unfolding create event_of
    create-Owned =
        Triple-bind _ _
          (Triple-perform w _ {Q = λ existing. IsCoherent roles}
            (λ h a p e. IsCoherent-other roles _ h refl p)
            (λ h e p e'. IsCoherent-other roles _ h refl p))
          λ existing. Triple-bind _ _ (Triple-refuse_existing existing _ (λ h p. p)) λ u.
            Triple-bind _ _
              (Triple-perform w _ {Q = λ found. IsCoherent roles}
                (λ h a p e. IsCoherent-other roles _ h refl p)
                (λ h e p e'. IsCoherent-other roles _ h refl p))
              λ found.
                Triple-bind _ _
                  (Triple-or_throw {Q = λ creator. IsCoherent roles} found _ (λ creator h p. p)
                    (λ h p. p))
                  λ creator. Triple-bind _ _ transaction-Owned (announce-Owned creator)
