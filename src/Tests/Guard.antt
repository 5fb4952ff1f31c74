-- ===== src/Tests/Guard.antt =====
-- The guard of an organization, at work on an admin whose membership is not in the cache.
use lotus_build_server.Base.{String, ◌≡◌, refl, some, List, [], ◌∷◌}
use lotus_build_server.World.Data.{MembershipRole, OrgActor}
use lotus_build_server.World.Exec.{ok, perform, act}
use lotus_build_server.Memberships.{can_activate, get, includes}
use lotus_build_server.Memberships.Guard.{IsAllowed, Vouches, can_activate_vouched}
use lotus_build_server.Tests.Services.{world}

abbrev admin_alice : OrgActor
admin_alice = record { user_id = "alice"; role = MembershipRole.admin }

abbrev managers : List MembershipRole
managers = MembershipRole.owner ∷ MembershipRole.admin ∷ []

lets_through : (can_activate world 60 (some "alice") (some "o1") managers []).0 ≡ ok admin_alice
unfolding can_activate get includes perform act
lets_through = refl

can_activate_vouched_example :
    (user_id : String) × (organization_id : String) × (some "alice" ≡ some user_id)
    × (some "o1" ≡ some organization_id)
    × (admin_alice.user_id ≡ user_id)
    × IsAllowed managers admin_alice.role
    × Vouches world user_id organization_id [] admin_alice.role
can_activate_vouched_example =
    can_activate_vouched world 60 (some "alice") (some "o1") managers [] admin_alice lets_through
