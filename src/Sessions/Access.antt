-- ===== src/Sessions/Access.antt =====
-- Who reaches a session through src/sessions/sessions.service.ts.
use lotus_build_server.Base.{
  String, ◌≡◌, ◌≢◌, ◌↔◌, ◌⊎◌, refl, ap, ◌∙◌, true, false, Option, none, some, ◌∷◌, eq_iff, arith,
  inl, inr, Bool-cases,
}
use mathlib.Core.Path.{subst}
use lotus_build_server.World.Returns.{ok-injective}
use lotus_build_server.World.Data.{Session, OrgActor, MembershipRole, PaginationQuery}
use lotus_build_server.World.Calls.{Call, PrismaCall, StatusFilter, prisma}
use lotus_build_server.World.Exec.{Result, ok, throw, not_found, History, World, perform, >>=-eq-ok}
use lotus_build_server.Sessions.{
  is_member, can_access, require_access, get_by_id, update, list_messages, create_message,
  UpdateSession, CreateMessage,
}

-- An owner or an admin reaches each session of the organization, a member reaches its own.
abbrev pub MayAccess : OrgActor → Session → Type 0
MayAccess actor session =
    (actor.role ≢ MembershipRole.member) ⊎ (session.creator_id ≡ actor.user_id)

is_member_iff : (role : MembershipRole) → (is_member role ≡ true) ↔ (role ≡ MembershipRole.member)
is_member_iff MembershipRole.owner = (λ e. cc, λ e. cc)
is_member_iff MembershipRole.admin = (λ e. cc, λ e. cc)
is_member_iff MembershipRole.member = (λ e. refl, λ e. refl)

pub can_access_iff :
    (session : Session) (actor : OrgActor)
    → (can_access session actor ≡ true) ↔ MayAccess actor session
unfolding can_access
can_access_iff session actor =
    ground (arith, is_member_iff actor.role, eq_iff session.creator_id actor.user_id)

denied_false :
    (session : Session) (actor : OrgActor)
    → ¬ MayAccess actor session
    → can_access session actor ≡ false
denied_false session actor denied = elim (Bool-cases (can_access session actor)) [
  | inl allowed ↦ absurd (denied ((can_access_iff session actor).0 allowed))
  | inr e ↦ e
]

-- The query by which a session is looked for.
abbrev pub lookup : String → String → Call
lookup organization_id session_id = prisma (
    PrismaCall.session_find_first (record {
      id = some session_id;
      organization_id = organization_id;
      status = StatusFilter.any;
      creator_id = none;
    }))

module _ (actor : OrgActor) (h : History) where
  refused :
      (other session : Session)
      → some other ≡ some session
      → can_access other actor ≡ false
      → MayAccess actor session
      → throw (not_found "Session not found") ≡ ok session
  refused other session same denied may =
      let e : other ≡ session = cc in let allowed = (can_access_iff session actor).1 may in cc

  outcome_of :
      (found : Option Session) (session : Session)
      → ((require_access actor found h).0 ≡ ok session)
        ↔ ((found ≡ some session) × MayAccess actor session)
  unfolding require_access
  outcome_of none session = (λ e. cc, λ p. cc)
  outcome_of (some other) session = elim (Bool-cases (can_access other actor)) [
    | inl allowed ↦ rw allowed (
      λ e. (
        cc,
        subst (λ (s : Session). MayAccess actor s) (ok-injective other session e)
            ((can_access_iff other actor).0 allowed),
      ),
      λ p. cc,
    )
    | inr denied ↦ rw denied (λ e. cc, λ (same, may). refused other session same denied may)
  ]

module _ (w : World) (organization_id session_id : String) (actor : OrgActor) (h : History) where
  -- Where the database answers the lookup, `getById` returns a session just where that session was
  -- found in the organization and the actor may access it.
  pub get_by_id_iff :
      (found : Option Session) (session : Session)
      → w.reply (lookup organization_id session_id) h ≡ ok found
      → ((get_by_id w organization_id session_id actor h).0 ≡ ok session)
        ↔ ((found ≡ some session) × MayAccess actor session)
  unfolding get_by_id perform
  get_by_id_iff found session e = rw e (outcome_of actor _ found session)

  -- The database found the session in the organization, and the actor may access it.
  abbrev pub Permitted : Type 0
  Permitted =
      (session : Session) × (w.reply (lookup organization_id session_id) h ≡ ok (some session))
      × MayAccess actor session

  pub get_by_id_permits :
      (session : Session)
      → (get_by_id w organization_id session_id actor h).0 ≡ ok session
      → Permitted
  unfolding get_by_id perform
  get_by_id_permits session e =
      let (found, e₁, e₂) = >>=-eq-ok (perform w (lookup organization_id session_id)) _ h e in
      let (same, may) = (outcome_of actor _ found session).0 e₂ in (session, e₁ ∙ ap ok same, may)

  -- What the operations come to for a session that is not there.
  abbrev pub missing : {A : Type 0} → Option Session → Result A × History
  missing found = (
    throw (not_found "Session not found"),
    record { call = lookup organization_id session_id; reply = ok found } ∷ h,
  )

  denied_lookup :
      (found : Option Session)
      → w.reply (lookup organization_id session_id) h ≡ ok found
      → ((session : Session) → found ≡ some session → ¬ MayAccess actor session)
      → get_by_id w organization_id session_id actor h ≡ missing found
  unfolding get_by_id perform require_access
  denied_lookup none e none_accessible = rw e refl
  denied_lookup (some session) e none_accessible =
      rw e (rw (denied_false session actor (none_accessible session refl)) refl)

  -- Where the session is not found, or is found and the actor may not access it, `getById`, `update`,
  -- `listMessages` and `createMessage` all throw the same 404, and the lookup is their only call: they
  -- write nothing, and the two cases cannot be told apart.
  pub hidden :
      (found : Option Session) (pagination : PaginationQuery) (changes : UpdateSession)
      (body : CreateMessage)
      → w.reply (lookup organization_id session_id) h ≡ ok found
      → ((session : Session) → found ≡ some session → ¬ MayAccess actor session)
      → (get_by_id w organization_id session_id actor h ≡ missing found)
        × (update w organization_id session_id actor changes h ≡ missing found)
        × (list_messages w organization_id session_id actor pagination h ≡ missing found)
        × (create_message w organization_id session_id actor body h ≡ missing found)
  unfolding update list_messages create_message
  hidden found pagination changes body e none_accessible =
      let looked = denied_lookup found e none_accessible in
      (looked, rw looked refl, rw looked refl, rw looked refl)
