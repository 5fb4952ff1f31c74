-- ===== src/Memberships/Refusal.antt =====
-- Whom the guard of src/auth/org-membership.guard.ts refuses, and how.
use lotus_build_server.Base.{
  ℕ, String, ◌≡◌, refl, ◌⊎◌, inl, inr, Bool, true, false, not, ◌&&◌, Option, none, some, List,
  if◌then◌else◌,
}
use lotus_build_server.Base.Text.{is_empty}
use lotus_build_server.World.Data.{MembershipRole, OrgActor}
use lotus_build_server.World.Exec.{Thrown, ok, throw, http, History, World, raise, pure}
use lotus_build_server.Memberships.{can_activate, get, admit, is_none_required, includes}
use lotus_build_server.Memberships.Guard.{IsAllowed}

-- What is answered to someone without a membership, and to someone whose role is not enough.
abbrev pub refusal : Option MembershipRole → Thrown
refusal none = http 403 "Not a member of this organization"
refusal (some role) = http 403 "Insufficient role for this operation"

-- No role, or none that is allowed.
abbrev pub IsDenied : List MembershipRole → Option MembershipRole → Type 0
IsDenied required none = Unit
IsDenied required (some role) = ¬ IsAllowed required role

denied_test :
    (none_required included : Bool) (t : Thrown) (actor : OrgActor) (h : History)
    → ¬ ((none_required ≡ true) ⊎ (included ≡ true))
    → (if not none_required && not included then raise t else pure actor) h ≡ (throw t, h)
denied_test true included t actor h denied = absurd (denied (inl refl))
denied_test false true t actor h denied = absurd (denied (inr refl))
denied_test false false t actor h denied = refl

module _ (w : World) (ttl : ℕ) (user_id : String) where
  admit_refuses :
      (required : List MembershipRole) (role : Option MembershipRole) (h : History)
      → IsDenied required role
      → admit w ttl user_id required role h ≡ (throw (refusal role), h)
  unfolding admit
  admit_refuses required none h denied = refl
  admit_refuses required (some role) h denied =
      denied_test (is_none_required required) (includes required role) _ _ h denied

  pub guard_refuses :
      (organization_id : String) (required : List MembershipRole) (role : Option MembershipRole)
      (h : History)
      → is_empty organization_id ≡ false
      → (get w ttl user_id organization_id h).0 ≡ ok role
      → IsDenied required role
      → can_activate w ttl (some user_id) (some organization_id) required h
        ≡ (throw (refusal role), (get w ttl user_id organization_id h).1)
  unfolding can_activate
  guard_refuses organization_id required role h e₁ e₂ denied =
      rw (e₁, e₂) (admit_refuses required role _ denied)
